-- ===== src/Engine/Step/Stops/Sections.antt =====
-- How an iteration of a step ends: what leaves it early leaves the step.
use ticket_bot.Prelude.{ℕ, Option, none, some, Text, codes, text_eq, List, [], ◌∷◌, non_empty}
use ticket_bot.Prelude.Outcomes.{Outcome, ok, raised}
use ticket_bot.Engine.Gates
use ticket_bot.Engine.Gates.{GateDecision, on_step_gate}
use ticket_bot.Engine.Pipeline.{StepDef, PipelineDef}
use ticket_bot.Engine.Env.{Env, Section, ExecutorKey, ExecResult, Prompt}
use ticket_bot.Engine.World.{World, Action, pure, ◌>>=◌}
use ticket_bot.Engine.World.Triples.{Triple, Triple-pure, Triple-if, Triple-bind}
use ticket_bot.Engine.Step.Ends.{StepOutcome}
use ticket_bot.Engine.Step.Question.{obey, handle_question, answer_question}
use ticket_bot.Engine.Step.Fixer.{commit_with, commit_landed, commit_result, given}
use ticket_bot.Engine.Step.Sections.{
  Iteration, next, leave, step_error, handle_result, after_check, execute, run_section,
  run_sections, unless_left,
}
use ticket_bot.Engine.Step.Stops.Early.{
  Left, Always, first, fail_run-Left, block_run-Left, fail_step-Left,
}

module _ {N X : Type 0} (env : Env N X) (pipeline : PipelineDef N) (s : StepDef N) where
  -- What leaves an iteration early leaves the step; the rest of an iteration may do anything.
  abbrev pub IterationLeft : Iteration → World N X → Type 0
  IterationLeft (next texts spawned) w = Unit {0}
  IterationLeft (leave outcome) w = Left s outcome w

  abbrev pub MaybeLeft : Option StepOutcome → World N X → Type 0
  MaybeLeft none w = Unit {0}
  MaybeLeft (some outcome) w = Left s outcome w

  leave_with :
      {m : Action N X StepOutcome}
      → Triple Always m (λ o w. Left s o w)
      → Triple Always (m >>= λ o. pure (leave o)) IterationLeft
  leave_with {m} t = Triple-bind {m = m} _ t λ outcome. Triple-pure (leave outcome) λ w h. h

  give_up_with :
      {m : Action N X StepOutcome}
      → Triple Always m (λ o w. Left s o w)
      → Triple Always (m >>= λ o. pure (some o)) MaybeLeft
  give_up_with {m} t = Triple-bind {m = m} _ t λ outcome. Triple-pure (some outcome) λ w h. h

  stay : Triple Always (pure none) MaybeLeft
  stay = Triple-pure none λ w h. tt

  unless_left-Left :
      (left : Option StepOutcome) {m : Action N X Iteration}
      → Triple Always m IterationLeft
      → Triple (MaybeLeft left) (unless_left env pipeline s left m) IterationLeft
  unless_left-Left none t = record { at = λ w h. t.at w tt }
  unless_left-Left (some outcome) t = Triple-pure (leave outcome) λ w h. h

  step_error-Left :
      (error : Option Text) (texts : List Text)
      → Triple Always (step_error env pipeline s error texts) MaybeLeft
  unfolding step_error
  step_error-Left none texts = stay
  step_error-Left (some e) texts = give_up_with (fail_step-Left env pipeline s e texts)

  obey-Left :
      (question : Text) (texts : List Text) (decision : GateDecision) (action : Gates.Action)
      → Triple Always (obey env s question texts decision action) MaybeLeft
  unfolding obey
  obey-Left question texts decision Gates.block =
      first _ _
        λ _. first _ _ λ _. first _ _ λ _. give_up_with (block_run-Left env pipeline s texts)
  obey-Left question texts decision Gates.fail = give_up_with (fail_run-Left env pipeline s _ texts)
  obey-Left question texts decision _ = stay

  handle_question-Left :
      (question : Text) (texts : List Text)
      → Triple Always (handle_question env s question texts) MaybeLeft
  unfolding handle_question
  handle_question-Left question texts = first _ _ λ rounds. first _ _ λ _. first _ _ λ _.
      first _ _
        λ _. obey-Left question texts (Gates.on_unclear env.profile.gates rounds question).1 _

  answer_question-Left :
      (question : Option Text) (texts : List Text)
      → Triple Always (answer_question env pipeline s question texts) MaybeLeft
  unfolding answer_question
  answer_question-Left none texts = stay
  answer_question-Left (some question) texts =
      Triple-if (non_empty question)
        (λ _.
          Triple-if (text_eq pipeline.on_question (codes "pause_and_relay"))
            (λ _. handle_question-Left question texts)
            λ _.
              Triple-if (text_eq pipeline.on_question (codes "fail"))
                (λ _. first _ _ λ _. give_up_with (fail_run-Left env pipeline s _ texts))
                λ _. first _ _ λ _. stay)
        λ _. stay

  commit_landed-Left :
      (section : Option Section) (template : Text) (result : ExecResult) (texts : List Text)
      (problem : Option Text)
      → Triple Always (commit_landed env s section template result texts problem) MaybeLeft
  commit_landed-Left section template result texts (some m) =
      give_up_with (fail_run-Left env pipeline s m texts)
  commit_landed-Left section template result texts none = first _ _ λ sha. first _ _ λ _. stay

  commit_with-Left :
      (section : Option Section) (result : ExecResult) (texts : List Text) (template : Option Text)
      → Triple Always (commit_with env s section result texts template) MaybeLeft
  unfolding commit_with
  commit_with-Left section result texts none = stay
  commit_with-Left section result texts (some t) =
      first _ _ λ problem. commit_landed-Left section t result texts problem

  commit_result-Left :
      (section : Option Section) (result : ExecResult) (texts : List Text)
      → Triple Always (commit_result env s section result texts) MaybeLeft
  unfolding commit_result
  commit_result-Left section result texts = commit_with-Left section result texts (given s.commit)

  handle_result-Left :
      (section : Option Section) (executor : ExecutorKey) (result : ExecResult) (texts : List Text)
      (spawned : ℕ)
      → Triple Always
          (handle_result env pipeline s section executor result texts spawned)
          IterationLeft
  unfolding handle_result
  handle_result-Left section executor result texts spawned =
      Triple-bind _ (step_error-Left (given result.error) texts) λ failure.
        unless_left-Left failure (
          Triple-bind _ (commit_result-Left section result texts) λ misplaced.
            unless_left-Left misplaced (
              Triple-bind _ (answer_question-Left result.question texts) λ asked.
                unless_left-Left asked (
                  first _ _
                    λ spawned'. first _ _ λ _. Triple-pure (next texts spawned') λ w h. tt)))

  after_check-Left :
      (checked : Outcome (Unit {0})) (section : Option Section) (executor : ExecutorKey)
      (result : ExecResult) (texts : List Text) (spawned : ℕ)
      → Triple Always
          (after_check env pipeline s checked section executor result texts spawned)
          IterationLeft
  after_check-Left (ok _) section executor result texts spawned =
      handle_result-Left section executor result texts spawned
  after_check-Left (raised e) section executor result texts spawned =
      leave_with (fail_run-Left env pipeline s _ texts)

  execute-Left :
      (timeout : Outcome ℕ) (section : Option Section) (executor : ExecutorKey) (prompt : Prompt)
      (texts : List Text) (spawned : ℕ)
      → Triple Always
          (execute env pipeline s timeout section executor prompt texts spawned)
          IterationLeft
  unfolding execute
  execute-Left (raised e) section executor prompt texts spawned =
      leave_with (fail_run-Left env pipeline s _ texts)
  execute-Left (ok t) section executor prompt texts spawned = first _ _ λ budget. first _ _ λ t0.
      first _ _ λ result. first _ _ λ t1. first _ _ λ _.
        first _ _ λ charged. first _ _ λ now. after_check-Left _ section executor result _ spawned

  run_section-Left :
      (executor : ExecutorKey) (section : Option Section) (texts : List Text) (spawned : ℕ)
      → Triple Always (run_section env pipeline s executor section texts spawned) IterationLeft
  unfolding run_section
  run_section-Left executor section texts spawned = first _ _ λ prompt.
      first _ _ λ budget. first _ _ λ now. execute-Left _ section executor prompt texts spawned

  pub run_sections-Left :
      (executor : ExecutorKey) (sections : List (Option Section)) (texts : List Text) (spawned : ℕ)
      → Triple Always (run_sections env pipeline s executor sections texts spawned) IterationLeft
  unfolding run_sections
  run_sections-Left executor [] texts spawned = Triple-pure (next texts spawned) λ w h. tt
  run_sections-Left executor (section ∷ sections) texts spawned =
      let again = run_sections-Left executor sections in
      Triple-bind _ (run_section-Left executor section texts spawned) (elim [
        | next texts' spawned' ↦ again texts' spawned'
        | leave outcome ↦ Triple-pure (leave outcome) λ w h. h
      ])
