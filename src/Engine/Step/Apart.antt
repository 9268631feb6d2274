-- ===== src/Engine/Step/Apart.antt =====
-- The frame of a whole step.
use ticket_bot.Prelude.{
  ℕ, ◌≡◌, refl, Bool, true, false, Option, none, some, Text, text_eq, if◌then◌else◌, List, [], ◌∷◌,
  lookup, length,
}
use ticket_bot.Prelude.Outcomes.{Outcome, ok, raised}
use ticket_bot.Core.Run.{StepResult, is_complete}
use ticket_bot.Engine.Gates
use ticket_bot.Engine.Gates.{GateDecision, on_step_gate}
use ticket_bot.Engine.Pipeline.{StepDef, PipelineDef}
use ticket_bot.Engine.Env.{Env, Section, ExecutorKey, ExecResult, Prompt}
use ticket_bot.Engine.World.{World, Action}
use ticket_bot.Engine.World.Keeps.{
  Keeps, Keeps-edit_run, Keeps-modify, keeps_rules, Keeps-bind, Keeps-pure, Keeps-gets,
}
use ticket_bot.Engine.Step.Ends.{StepOutcome}
use ticket_bot.Engine.Step.Sections.{
  Iteration, next, leave, account, fail_step, step_error, handle_result, after_check, execute,
  run_section, run_sections, unless_left,
}
use ticket_bot.Engine.Step.Frame.{
  Holds, edit_result-Frame, set_status-Frame, save_step-Frame, stamp_end-Frame, fail_run-Frame,
  block_run-Frame, skip_step-Frame, before_review-Frame, after_ingest-Frame, after_planner-Frame,
  after_reporter-Frame, answer_question-Frame, commit_result-Frame, spawn_defers-Frame,
}
use ticket_bot.Engine.Step.{
  keep_shot, take_screenshot, complete_step, await_review, after_decision, finish_step,
  after_sections, run_executor_on, run_found, fan_out, gated, after_gate, after_when, start_step,
  run_step, number_sections, step_interactive,
}

module _ {N X : Type 0} (env : Env N X) (pipeline : PipelineDef N) (step : StepDef N) (j : Text)
    (o : Option StepResult) (apart : text_eq step.id j ≡ false) where
  ruleset ends = (keeps_rules, edit_result-Frame, save_step-Frame, stamp_end-Frame, fail_run-Frame)

  account-Frame :
      (result : ExecResult) (elapsed : ℕ)
      → Keeps (Holds j o) (account env pipeline step result elapsed)
  unfolding account
  account-Frame result elapsed = Keeps-bind _ (edit_result-Frame env step.id j o apart _) λ _.
      Keeps-bind _ (Keeps-modify _ λ w. refl)
        λ _. Keeps-bind _ (Keeps-edit_run _ λ r h. h) λ _. edit_result-Frame env step.id j o apart _

  fail_step-Frame :
      (error : Text) (texts : List Text)
      → Keeps (Holds j o) (fail_step env pipeline step error texts)
  unfolding fail_step
  fail_step-Frame error texts = search ends depth 20

  step_error-Frame :
      (error : Option Text) (texts : List Text)
      → Keeps (Holds j o) (step_error env pipeline step error texts)
  unfolding step_error
  step_error-Frame none texts = search keeps_rules
  step_error-Frame (some e) texts = search (keeps_rules, fail_step-Frame)

  unless_left-Frame :
      (left : Option StepOutcome) {m : Action N X Iteration}
      → Keeps (Holds j o) m
      → Keeps (Holds j o) (unless_left env pipeline step left m)
  unless_left-Frame none h = h
  unless_left-Frame (some outcome) h = search keeps_rules

  handle_result-Frame :
      (section : Option Section) (executor : ExecutorKey) (result : ExecResult) (texts : List Text)
      (spawned : ℕ)
      → Keeps (Holds j o) (handle_result env pipeline step section executor result texts spawned)
  unfolding handle_result
  handle_result-Frame section executor result texts spawned =
      search
        (
          keeps_rules,
          step_error-Frame,
          commit_result-Frame env pipeline step j o apart,
          answer_question-Frame env pipeline step j o apart,
          spawn_defers-Frame env pipeline step j o apart,
          save_step-Frame,
          unless_left-Frame,
        )
        depth 30

  after_check-Frame :
      (checked : Outcome (Unit {0})) (section : Option Section) (executor : ExecutorKey)
      (result : ExecResult) (texts : List Text) (spawned : ℕ)
      → Keeps
          (Holds j o)
          (after_check env pipeline step checked section executor result texts spawned)
  after_check-Frame (ok _) section executor result texts spawned =
      handle_result-Frame section executor result texts spawned
  after_check-Frame (raised e) section executor result texts spawned = search ends depth 10

  execute-Frame :
      (timeout : Outcome ℕ) (section : Option Section) (executor : ExecutorKey) (prompt : Prompt)
      (texts : List Text) (spawned : ℕ)
      → Keeps (Holds j o) (execute env pipeline step timeout section executor prompt texts spawned)
  unfolding execute
  execute-Frame (ok t) section executor prompt texts spawned =
      search (keeps_rules, account-Frame, after_check-Frame) depth 30
  execute-Frame (raised e) section executor prompt texts spawned = search ends depth 10

  run_section-Frame :
      (executor : ExecutorKey) (section : Option Section) (texts : List Text) (spawned : ℕ)
      → Keeps (Holds j o) (run_section env pipeline step executor section texts spawned)
  unfolding run_section
  run_section-Frame executor section texts spawned = search (keeps_rules, execute-Frame) depth 20

  run_sections-Frame :
      (executor : ExecutorKey) (sections : List (Option Section)) (texts : List Text) (spawned : ℕ)
      → Keeps (Holds j o) (run_sections env pipeline step executor sections texts spawned)
  unfolding run_sections
  run_sections-Frame executor [] texts spawned = search keeps_rules
  run_sections-Frame executor (section ∷ sections) texts spawned =
      let again = run_sections-Frame executor sections in
      Keeps-bind _ (run_section-Frame executor section texts spawned)
        (elim [ next texts' spawned' ↦ again texts' spawned' | leave outcome ↦ Keeps-pure _ ])

  keep_shot-Frame : (png : Option Text) → Keeps (Holds j o) (keep_shot env pipeline step png)
  keep_shot-Frame none = search keeps_rules
  keep_shot-Frame (some png) =
      Keeps-bind _ (Keeps-gets _)
        λ existing. Keeps-bind _ (search keeps_rules) λ _. Keeps-edit_run _ λ r h. h

  take_screenshot-Frame : Keeps (Holds j o) (take_screenshot env pipeline step)
  unfolding take_screenshot
  take_screenshot-Frame = search (keeps_rules, keep_shot-Frame)

  complete_step-Frame :
      (texts : List Text) → Keeps (Holds j o) (complete_step env pipeline step texts)
  complete_step-Frame texts = Keeps-bind _ (stamp_end-Frame env step.id j o apart) λ _.
      Keeps-bind _ (edit_result-Frame env step.id j o apart _)
        λ _. Keeps-bind _ (Keeps-edit_run _ λ r h. h) λ _. search (keeps_rules, save_step-Frame)

  await_review-Frame :
      (texts : List Text) → Keeps (Holds j o) (await_review env pipeline step texts)
  await_review-Frame texts = search (ends, set_status-Frame) depth 20

  after_decision-Frame :
      (action : Gates.Action) (texts : List Text)
      → Keeps (Holds j o) (after_decision env pipeline step action texts)
  after_decision-Frame Gates.await_human texts = await_review-Frame texts
  after_decision-Frame _ texts = complete_step-Frame texts

  finish_step-Frame : (texts : List Text) → Keeps (Holds j o) (finish_step env pipeline step texts)
  unfolding finish_step
  finish_step-Frame texts =
      search
        (
          keeps_rules, take_screenshot-Frame, after_ingest-Frame, after_planner-Frame,
          after_reporter-Frame, after_decision-Frame, complete_step-Frame,
        )
        depth 30

  after_sections-Frame :
      (result : Iteration) → Keeps (Holds j o) (after_sections env pipeline step result)
  after_sections-Frame (next texts spawned) = finish_step-Frame texts
  after_sections-Frame (leave outcome) = search keeps_rules

  run_executor_on-Frame :
      (sections : List (Option Section))
      → Keeps (Holds j o) (run_executor_on env pipeline step sections)
  unfolding run_executor_on
  run_executor_on-Frame sections =
      search (keeps_rules, run_sections-Frame, after_sections-Frame) depth 20

  run_found-Frame :
      (found : List (Text × Text)) → Keeps (Holds j o) (run_found env pipeline step found)
  run_found-Frame [] = search ends
  run_found-Frame (s ∷ ss) = run_executor_on-Frame (number_sections 1 (length (s ∷ ss)) (s ∷ ss))

  fan_out-Frame : Keeps (Holds j o) (fan_out env pipeline step)
  unfolding fan_out
  fan_out-Frame = search (keeps_rules, run_executor_on-Frame, run_found-Frame)

  after_gate-Frame :
      (action : Gates.Action) → Keeps (Holds j o) (after_gate env pipeline step action)
  after_gate-Frame Gates.await_human = search (keeps_rules, block_run-Frame)
  after_gate-Frame _ = fan_out-Frame

  gated-Frame : (decision : GateDecision) → Keeps (Holds j o) (gated env pipeline step decision)
  unfolding gated
  gated-Frame decision = after_gate-Frame decision.action

  after_when-Frame : (holds : Bool) → Keeps (Holds j o) (after_when env pipeline step holds)
  unfolding after_when
  after_when-Frame true = gated-Frame (on_step_gate step.gate (step_interactive env pipeline step))
  after_when-Frame false = skip_step-Frame env step.id j o apart _

  start_step-Frame : Keeps (Holds j o) (start_step env pipeline step)
  unfolding start_step
  start_step-Frame =
      search (keeps_rules, edit_result-Frame, before_review-Frame, after_when-Frame) depth 20

  unless_complete :
      (b : Bool) (w : World N X)
      → Holds j o w.run
      → Holds j o (if b then (ok StepOutcome.go_on, w) else start_step env pipeline step w).1.run
  unless_complete true w h = h
  unless_complete false w h = start_step-Frame.at w h

  pub run_step-Frame : Keeps (Holds j o) (run_step env pipeline step)
  unfolding run_step
  run_step-Frame = record { at = λ w h. unless_complete (is_complete w.run step.id) w h }

-- Whether it returns or raises, a step leaves the recorded result of every other step as it was.
pub run_step-others :
    {N X : Type 0} (env : Env N X) (pipeline : PipelineDef N) (step : StepDef N) (j : Text)
    → text_eq step.id j ≡ false
    → (w : World N X) → lookup j (run_step env pipeline step w).1.run.steps ≡ lookup j w.run.steps
run_step-others env pipeline step j apart w =
    (run_step-Frame env pipeline step j (lookup j w.run.steps) apart).at w refl
