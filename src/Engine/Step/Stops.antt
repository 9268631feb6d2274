-- ===== src/Engine/Step/Stops.antt =====
-- How a step ends: what `_run_step` leaves in the run and on disk when it returns.
pub mod Early
pub mod Sections
use ticket_bot.Prelude.{
  ℕ, ◌≡◌, refl, ap, sym, subst, ◌∙◌, Bool, true, false, Option, none, some, Text, codes, text_eq,
  if◌then◌else◌, List, [], ◌∷◌, lookup, length, non_empty,
}
use ticket_bot.Prelude.Outcomes.{Outcome, ok, raised}
use ticket_bot.Core.Run.{
  Run, RunStatus, StepStatus, StepResult, step, edit_step, is_complete, is_done_status,
  complete_result, ok_status, skipped, step_failed, blocked, failed,
}
use ticket_bot.Core.Run.Steps.{lookup-edit_step_self}
use ticket_bot.Engine.Gates
use ticket_bot.Engine.Gates.{GateDecision, on_step_gate}
use ticket_bot.Engine.Pipeline.{StepDef, PipelineDef}
use ticket_bot.Engine.Env.{Env, Section, ExecutorKey, ExecResult, Prompt}
use ticket_bot.Engine.World.{World, Action, pure, edit_run, edit_result, save, ◌>>=◌, ◌>>◌}
use ticket_bot.Engine.World.Triples.{
  Returns, returned, threw, Triple, Triple-pure, Triple-if, Triple-bind,
}
use ticket_bot.Engine.World.Keeps.{
  Keeps, Keeps-edit_run, Keeps-edit_result, Keeps-bind, Keeps-read, keeps_rules,
}
use ticket_bot.Engine.Step.Ends.{
  StepOutcome, go_on, stop, set_status, save_texts, save_step, stamp_end, fail_run, block_run,
  skip_step,
}
use ticket_bot.Engine.Step.Question.{obey, handle_question, answer_question}
use ticket_bot.Engine.Step.Fixer.{commit_with, commit_landed, commit_result, given}
use ticket_bot.Engine.Step.Sections.{
  Iteration, next, leave, fail_step, step_error, handle_result, after_check, execute, run_section,
  run_sections, unless_left,
}
use ticket_bot.Engine.Step.{
  complete_step, await_review, after_decision, finish_step, after_sections, run_executor_on,
  run_found, fan_out, gated, after_gate, after_when, start_step, run_step, number_sections,
  step_interactive, status_after, same_id,
}
use Early.{
  Shows, Left, Always, first, fail_run-Left, block_run-Left, skip_step-Left, complete_step-Left,
  await_review-Left, fail_step-Left,
}
use Sections.{IterationLeft, run_sections-Left}

module _ {N X : Type 0} (env : Env N X) (pipeline : PipelineDef N) (s : StepDef N) where
  after_decision-Left :
      (action : Gates.Action) (texts : List Text)
      → Triple Always (after_decision env pipeline s action texts) (λ o w. Left s o w)
  after_decision-Left Gates.await_human texts = await_review-Left env pipeline s texts
  after_decision-Left _ texts = complete_step-Left env pipeline s texts

  finish_step-Left :
      (texts : List Text) → Triple Always (finish_step env pipeline s texts) (λ o w. Left s o w)
  unfolding finish_step
  finish_step-Left texts = first _ _ λ _. first _ _ λ _. first _ _ λ _.
      Triple-if (text_eq s.role (codes "reporter"))
        (λ _. first _ _ λ decision. after_decision-Left decision.action texts)
        λ _. complete_step-Left env pipeline s texts

  after_sections-Left :
      (result : Iteration)
      → Triple
          (IterationLeft env pipeline s result)
          (after_sections env pipeline s result)
          (λ o w. Left s o w)
  after_sections-Left (next texts spawned) = finish_step-Left texts
  after_sections-Left (leave outcome) = Triple-pure outcome λ w h. h

  run_executor_on-Left :
      (sections : List (Option Section))
      → Triple Always (run_executor_on env pipeline s sections) (λ o w. Left s o w)
  unfolding run_executor_on
  run_executor_on-Left sections = first _ _ λ executor.
      Triple-bind _ (run_sections-Left env pipeline s executor sections [] 0)
        λ result. after_sections-Left result

  run_found-Left :
      (found : List (Text × Text))
      → Triple Always (run_found env pipeline s found) (λ o w. Left s o w)
  run_found-Left [] = fail_run-Left env pipeline s _ []
  run_found-Left (x ∷ xs) = run_executor_on-Left (number_sections 1 (length (x ∷ xs)) (x ∷ xs))

  fan_out-Left : Triple Always (fan_out env pipeline s) (λ o w. Left s o w)
  unfolding fan_out
  fan_out-Left =
      Triple-if (same_id s.for_each (codes "plan.sections"))
        (λ _. first _ _ λ found. run_found-Left found) λ _. run_executor_on-Left (none ∷ [])

  after_gate-Left :
      (action : Gates.Action) → Triple Always (after_gate env pipeline s action) (λ o w. Left s o w)
  after_gate-Left Gates.await_human = first _ _ λ _. block_run-Left env pipeline s []
  after_gate-Left _ = fan_out-Left

  after_when-Left :
      (holds : Bool) → Triple Always (after_when env pipeline s holds) (λ o w. Left s o w)
  unfolding after_when gated
  after_when-Left true = after_gate-Left _
  after_when-Left false = skip_step-Left env pipeline s _

  pub start_step-Left : Triple Always (start_step env pipeline s) (λ o w. Left s o w)
  unfolding start_step
  start_step-Left = first _ _ λ now.
      first _ _
        λ _. first _ _ λ _. first _ _ λ holds. first _ _ λ should_run. after_when-Left should_run

  take_returned :
      (o : Outcome StepOutcome × World N X) (outcome : StepOutcome) (w : World N X)
      → Returns (λ a v. Left s a v) o
      → o ≡ (ok outcome, w)
      → Left s outcome w
  take_returned o outcome w r same = elim (subst (Returns (λ a v. Left s a v)) same r) [
    | returned h ↦ h
  ]

-- A step that is not complete, when it returns, has written the run to `run.json` as it stands. When
-- it lets the run go on, its result is ok or skipped, or it has failed and the step is optional;
-- when it stops the run, the run's status is blocked or failed.
pub run_step-Left :
    {N X : Type 0} (env : Env N X) (pipeline : PipelineDef N) (s : StepDef N) (w : World N X)
    (outcome : StepOutcome) (w' : World N X)
    → is_complete w.run s.id ≡ false
    → run_step env pipeline s w ≡ (ok outcome, w')
    → Left s outcome w'
unfolding run_step
run_step-Left env pipeline s w outcome w' todo runs =
    take_returned env pipeline s _ outcome w' ((start_step-Left env pipeline s).at w tt)
      (sym (ap (λ b. if b then (ok go_on, w) else start_step env pipeline s w) todo) ∙ runs)

-- A step whose recorded result is ok or skipped is not run again: nothing changes, and the run goes on.
pub run_step_complete :
    {N X : Type 0} (env : Env N X) (pipeline : PipelineDef N) (s : StepDef N) (w : World N X)
    → is_complete w.run s.id ≡ true
    → run_step env pipeline s w ≡ (ok go_on, w)
unfolding run_step
run_step_complete env pipeline s w h =
    ap (λ b. if b then (ok go_on, w) else start_step env pipeline s w) h
