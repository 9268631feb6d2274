-- ===== src/Engine/Step/Sections.antt =====
-- The loop of `_run_step` over the sections of a step, or once over none.
use ticket_bot.Prelude.{
  ℕ, ◌+◌, ◌-◌, Option, none, some, Text, codes, List, [], ◌∷◌, ◌++◌, if◌then◌else◌, non_empty,
  lookup, text_in,
}
use ticket_bot.Prelude.Outcomes.{Outcome, ok, raised, config_error}
use ticket_bot.Core.Run.{step_failed}
use ticket_bot.Engine.Budget.{Budget, charge, check, step_timeout}
use ticket_bot.Engine.Pipeline.{StepDef, PipelineDef}
use ticket_bot.Engine.Context.{get_or, positive_or}
use ticket_bot.Engine.Env.{
  Env, Section, ExecutorKind, ExecutorKey, ExecRequest, ExecResult, Prompt, Profile,
}
use ticket_bot.Engine.World.{
  Action, pure, gets, call, read, modify, edit_run, edit_result, ◌>>=◌, ◌>>◌,
}
use ticket_bot.Engine.Step.Ends.{StepOutcome, go_on, fail_run, save_step, stamp_end}
use ticket_bot.Engine.Step.Question.{answer_question}
use ticket_bot.Engine.Step.Fixer.{given, commit_result, spawn_defers}

-- How an iteration ends: with the texts and the number of fixers so far, or by leaving the step.
pub data Iteration : Type 0 where
  next : List Text → ℕ → Iteration
  leave : StepOutcome → Iteration

-- `budget.max_cost_usd - budget.spent_usd`, not below 0.
abbrev pub cost_left : Option ℕ → ℕ → Option ℕ
cost_left none spent = none
cost_left (some limit) spent = some (limit - spent)

abbrev pub or_given : Option Text → Option Text → Option Text
or_given none d = d
or_given (some t) d = if non_empty t then some t else d

-- The model slot of `executor_step`: the default of the pipeline only where the step names none.
abbrev pub model_of : Option Text → Option Text → Option Text
model_of none default = or_given default none
model_of (some t) default = some t

module _ {N : Type 0} (profile : Profile N) where
  unfoldable pub slot_key : Text → Option Text → Outcome ExecutorKey
  slot_key kind slot =
      if text_in (get_or (given slot) profile.model_default) profile.model_slots
      then ok (record { kind = kind; slot = slot })
      else raised (config_error (codes "unknown model slot"))

  unfoldable pub key_of : Text → Option Text → Option ExecutorKind → Outcome ExecutorKey
  unfolding slot_key
  key_of kind model none = raised (config_error (codes "unknown executor kind"))
  key_of kind model (some k) =
      if k.is_api
      then slot_key kind (or_given model k.model)
      else ok (record { kind = kind; slot = none })

  -- `_executor`, as the key under which it caches; `_provider` refuses an unknown slot.
  unfoldable pub executor_key : Option Text → Option Text → Outcome ExecutorKey
  unfolding key_of
  executor_key kind model =
      let key = get_or (given kind) profile.executor_default in
      key_of key model (lookup key profile.executor_kinds)

module _ {N X : Type 0} (env : Env N X) (pipeline : PipelineDef N) (step : StepDef N) where
  -- An outcome leaves the step, nothing goes on.
  abbrev pub unless_left : Option StepOutcome → Action N X Iteration → Action N X Iteration
  unless_left none m = m
  unless_left (some outcome) m = pure (leave outcome)

  -- "7. account", and the text of the result.
  unfoldable pub account : ExecResult → ℕ → Action N X (Unit {0})
  account result elapsed = do
    edit_result step.id (λ sr. record sr { duration_s = sr.duration_s + elapsed })
    modify (λ w. record w { budget = charge w.budget result.cost_usd })
    edit_run (λ run. record run { cost_usd = run.cost_usd + result.cost_usd })
    edit_result step.id (λ sr. record sr { cost_usd = sr.cost_usd + result.cost_usd })

  -- A result with an error ends the step; an optional step lets the run go on.
  unfoldable pub fail_step : Text → List Text → Action N X StepOutcome
  unfolding stamp_end save_step fail_run
  fail_step error texts =
      if step.optional
      then (do
        edit_result step.id (λ sr. record sr { status = step_failed; error = some error })
        stamp_end env step.id
        save_step env step.id texts
        pure go_on)
      else fail_run env step.id error texts

  unfoldable pub step_error : Option Text → List Text → Action N X (Option StepOutcome)
  unfolding fail_step
  step_error none texts = pure none
  step_error (some error) texts = do outcome ← fail_step error texts; pure (some outcome)

  -- From the checked result on: commit, question, defers, and the save after every iteration.
  unfoldable pub handle_result :
      Option Section → ExecutorKey → ExecResult → List Text → ℕ → Action N X Iteration
  unfolding step_error commit_result answer_question spawn_defers save_step
  handle_result section executor result texts spawned = do
    failure ← step_error (given result.error) texts
    unless_left failure do
      misplaced ← commit_result env step section result texts
      unless_left misplaced do
        asked ← answer_question env pipeline step result.question texts
        unless_left asked do
          spawned' ← spawn_defers env pipeline step executor result.defers spawned
          save_step env step.id texts
          pure (next texts spawned')

  -- `budget.check(where=step.id)`
  abbrev pub after_check :
      Outcome (Unit {0})
      → Option Section
      → ExecutorKey
      → ExecResult
      → List Text
      → ℕ
      → Action N X Iteration
  after_check (ok _) section executor result texts spawned =
      handle_result section executor result texts spawned
  after_check (raised e) section executor result texts spawned = do
    outcome ← fail_run env step.id (env.adapters.message_of e) texts
    pure (leave outcome)

  abbrev pub request : Prompt → ℕ → Budget → ExecRequest
  request prompt timeout budget = record {
    prompt = prompt;
    tools = step.tools;
    produces = step.produces;
    timeout_s = timeout;
    max_cost_usd = cost_left env.profile.budget.max_cost_usd budget.spent_usd;
    step_id = step.id;
    model = or_given step.model pipeline.default_model;
  }

  -- With a timeout the executor runs; without one the step fails.
  unfoldable pub execute :
      Outcome ℕ → Option Section → ExecutorKey → Prompt → List Text → ℕ → Action N X Iteration
  unfolding account handle_result fail_run
  execute (raised e) section executor prompt texts spawned = do
    outcome ← fail_run env step.id (env.adapters.message_of e) texts
    pure (leave outcome)
  execute (ok timeout) section executor prompt texts spawned = do
    budget ← gets (λ w. w.budget)
    t0 ← read env.adapters.monotonic
    result ← call (env.adapters.run_executor executor (request prompt timeout budget))
    t1 ← read env.adapters.monotonic
    account result (t1 - t0)
    charged ← gets (λ w. w.budget)
    now ← read env.adapters.monotonic
    after_check (check charged now step.id) section executor result (texts ++ (result.text ∷ []))
        spawned

  -- `step.timeout_s or pipeline.defaults.get("timeout_s", 1800)`
  abbrev pub requested_timeout : ℕ
  requested_timeout = positive_or step.timeout_s (get_or pipeline.default_timeout_s 1800)

  abbrev pub role_prompt : Text
  role_prompt =
      get_or (given step.prompt) (codes "builtin:prompts/roles/" ++ (step.role ++ codes ".md"))

  -- One iteration of the loop.
  unfoldable pub run_section : ExecutorKey → Option Section → List Text → ℕ → Action N X Iteration
  unfolding execute
  run_section executor section texts spawned = do
    prompt ← call (env.adapters.load_prompt role_prompt none section)
    budget ← gets (λ w. w.budget)
    now ← read env.adapters.monotonic
    execute (step_timeout budget now requested_timeout) section executor prompt texts spawned

  -- The loop; `leave` breaks it.
  unfoldable pub run_sections :
      ExecutorKey → List (Option Section) → List Text → ℕ → Action N X Iteration
  run_sections executor [] texts spawned = pure (next texts spawned)
  run_sections executor (section ∷ sections) texts spawned = do
    result ← run_section executor section texts spawned
    elim result [
      | next texts' spawned' ↦ run_sections executor sections texts' spawned'
      | leave outcome ↦ pure (leave outcome)
    ]
