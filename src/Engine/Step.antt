-- ===== src/Engine/Step.antt =====
-- `Orchestrator._run_step` of ticketbot/engine/orchestrator.py: one step of a pipeline. Its children
-- hold the parts: the early ends, the per-role hooks, the question, the fixers and the sections.
pub mod Ends
pub mod Hooks
pub mod Reporter
pub mod Question
pub mod Fixer
pub mod Sections
pub mod Frame
pub mod Apart
pub mod Stops
pub mod Gated
use ticket_bot.Prelude.{
  ℕ, suc, ◌+◌, Bool, true, false, ◌||◌, Option, none, some, Text, codes, text_eq, List, [], ◌∷◌,
  ◌++◌, if◌then◌else◌, length, text_in,
}
use ticket_bot.Prelude.Outcomes.{Outcome, ok, raised, predicate_error, Exn}
use ticket_bot.Predicate.Values.{Value}
use ticket_bot.Predicate.Rules.{evaluate_any}
use ticket_bot.Core.Run.{
  Run, RunStatus, StepResult, is_complete, ok_status, clarifying, planning, implementing, verifying,
  pr_open, blocked,
}
use ticket_bot.Engine.Gates
use ticket_bot.Engine.Gates.{GateDecision, proceed, block, fail, await_human, on_step_gate}
use ticket_bot.Engine.Pipeline.{StepDef, PipelineDef}
use ticket_bot.Engine.Context.{build_context}
use ticket_bot.Engine.Env.{Env, Section, ExecutorKey}
use ticket_bot.Engine.World.{
  World, Action, pure, lift, gets, call, read, edit_run, edit_result, write_artifact, ◌>>=◌, ◌>>◌,
}
use Ends.{
  StepOutcome, go_on, stop, set_status, save_step, stamp_end, fail_run, block_run, skip_step,
}
use Hooks.{before_review, after_ingest, after_planner, edit_extra}
use Reporter.{after_reporter}
use Fixer.{given}
use Sections.{Iteration, next, leave, or_given, model_of, executor_key, run_sections}

-- `_STATUS_BY_STEP_ID.get(step.id, run.status)`
unfoldable pub status_after : Text → RunStatus → RunStatus
status_after id old =
    if text_eq id (codes "clarify")
    then clarifying
    else if text_eq id (codes "plan")
    then planning
    else if text_eq id (codes "implement")
    then implementing
    else if text_eq id (codes "verify")
    then verifying
    else if text_eq id (codes "publish")
    then pr_open
    else old

-- `texts[-1] if texts else ""`
unfoldable pub last_text : List Text → Text
last_text [] = []
last_text (t ∷ []) = t
last_text (t ∷ u ∷ ts) = last_text (u ∷ ts)

unfoldable pub number_sections : ℕ → ℕ → List (Text × Text) → List (Option Section)
number_sections index count [] = []
number_sections index count ((file, title) ∷ rest) =
    some (record { file = file; title = title; index = index; count = count })
    ∷ number_sections (suc index) count rest

abbrev pub same_id : Option Text → Text → Bool
same_id none id = false
same_id (some p) id = text_eq p id

-- A predicate that cannot be evaluated lets the step run.
unfoldable pub or_run : Outcome Bool → Outcome Bool
or_run (raised (predicate_error message)) = ok true
or_run r = r

module _ {N X : Type 0} (env : Env N X) (pipeline : PipelineDef N) (step : StepDef N) where
  abbrev pub role_is : Text → Bool
  role_is name = text_eq step.role name

  -- "9. screenshots"
  abbrev pub keep_shot : Option Text → Action N X (Unit {0})
  keep_shot none = pure tt
  keep_shot (some png) = do
    existing ← gets (λ w. env.adapters.count_shots step.id w.outside)
    let rel = env.adapters.shot_name step.id (suc existing)
    write_artifact env rel png
    edit_extra (λ extra. record extra { screenshots = extra.screenshots ++ (rel ∷ []) })

  unfoldable pub take_screenshot : Action N X (Unit {0})
  take_screenshot =
      if text_in step.id env.profile.screenshot_on
      then call env.adapters.screenshot >>= keep_shot
      else pure tt

  abbrev pub complete_step : List Text → Action N X StepOutcome
  complete_step texts = do
    stamp_end env step.id
    edit_result step.id (λ sr. record sr { status = ok_status })
    edit_run (λ run. record run { status = status_after step.id run.status })
    save_step env step.id texts
    pure go_on

  -- The pull request waits for a human: the step is done, and the run blocks.
  abbrev pub await_review : List Text → Action N X StepOutcome
  await_review texts = do
    set_status blocked
    write_artifact env (codes "question.md")
        (codes "The pull request is ready and awaiting human review.\n")
    edit_result step.id (λ sr. record sr { status = ok_status })
    stamp_end env step.id
    save_step env step.id texts
    pure stop

  abbrev pub after_decision : Gates.Action → List Text → Action N X StepOutcome
  after_decision await_human texts = await_review texts
  after_decision _ texts = complete_step texts

  -- From "post-loop bookkeeping" to the end: all iterations have succeeded.
  unfoldable pub finish_step : List Text → Action N X StepOutcome
  unfolding take_screenshot stamp_end save_step status_after last_text
  finish_step texts = do
    take_screenshot
    if role_is (codes "ingest") then after_ingest env (last_text texts) else pure tt
    if role_is (codes "planner") then after_planner env else pure tt
    if role_is (codes "reporter")
        then (after_reporter env (last_text texts) >>= λ decision.
            after_decision decision.action texts)
        else complete_step texts

  abbrev pub after_sections : Iteration → Action N X StepOutcome
  after_sections (next texts spawned) = finish_step texts
  after_sections (leave outcome) = pure outcome

  -- The executor is resolved, and the sections run.
  unfoldable pub run_executor_on : List (Option Section) → Action N X StepOutcome
  unfolding finish_step
  run_executor_on sections = do
    executor ← lift (
        executor_key env.profile (or_given step.executor pipeline.default_executor)
          (model_of step.model pipeline.default_model))
    result ← run_sections env pipeline step executor sections [] 0
    after_sections result

  abbrev pub run_found : List (Text × Text) → Action N X StepOutcome
  run_found [] = fail_run env step.id (codes "the planner produced no sections") []
  run_found (s ∷ ss) = run_executor_on (number_sections 1 (length (s ∷ ss)) (s ∷ ss))

  -- "4. fan-out"
  unfoldable pub fan_out : Action N X StepOutcome
  unfolding run_executor_on number_sections
  fan_out =
      if same_id step.for_each (codes "plan.sections")
      then gets (λ w. env.adapters.list_sections w.outside) >>= run_found
      else run_executor_on (none ∷ [])

  abbrev pub after_gate : Gates.Action → Action N X StepOutcome
  after_gate await_human = do
    write_artifact env (codes "question.md")
        (codes "Step is gated for human approval before continuing.\n")
    block_run env step.id []
  after_gate _ = fan_out

  -- "3. human gate"
  unfoldable pub gated : GateDecision → Action N X StepOutcome
  unfolding fan_out
  gated decision = after_gate decision.action

  abbrev pub step_interactive : Bool
  step_interactive = env.profile.interactive || same_id env.profile.pause_at step.id

  -- "2. when: gate", with the result of the predicate.
  unfoldable pub after_when : Bool → Action N X StepOutcome
  unfolding gated
  after_when true = gated (on_step_gate step.gate step_interactive)
  after_when false = skip_step env step.id (codes "skipped: when is false")

  abbrev pub evaluated : World N X → Outcome Bool
  evaluated w =
      or_run (evaluate_any env.python step.condition (build_context env.python w.item w.run))

  -- The step, unless it is done already.
  unfoldable pub start_step : Action N X StepOutcome
  unfolding after_when or_run
  start_step = do
    now ← read env.adapters.iso_now
    edit_result step.id (λ sr. record sr { role = step.role; started_at = some now })
    if role_is (codes "reviewer") then before_review env else pure tt
    holds ← gets evaluated
    should_run ← lift holds
    after_when should_run

  -- `_run_step`
  unfoldable pub run_step : Action N X StepOutcome
  unfolding start_step
  run_step w = if is_complete w.run step.id then (ok go_on, w) else start_step w
