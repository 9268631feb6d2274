-- ===== src/Engine/Step/Question.antt =====
-- `_handle_question` and the QUESTION branch of `_run_step`.
use ticket_bot.Prelude.{
  or_else, Option, none, some, Text, codes, text_eq, List, [], ◌++◌, if◌then◌else◌, non_empty,
}
use ticket_bot.Engine.Gates
use ticket_bot.Engine.Gates.{GateDecision, proceed, block, fail, await_human, on_unclear}
use ticket_bot.Engine.Pipeline.{StepDef, PipelineDef}
use ticket_bot.Engine.Context.{get_or}
use ticket_bot.Engine.Env.{Env}
use ticket_bot.Engine.World.{Action, pure, gets, call, edit_result, write_artifact, ◌>>=◌, ◌>>◌}
use ticket_bot.Engine.Step.Ends.{StepOutcome, fail_run, block_run}
use ticket_bot.Engine.Step.Hooks.{edit_extra}

module _ {N X : Type 0} (env : Env N X) where
  abbrev pub when_text : Text → Action N X (Unit {0}) → Action N X (Unit {0})
  when_text t m = if non_empty t then m else pure tt

  -- What the gate decided about a question; `none` lets the step go on.
  unfoldable pub obey :
      StepDef N → Text → List Text → GateDecision → Gates.Action → Action N X (Option StepOutcome)
  unfolding block_run fail_run
  obey step question texts decision block = do
    when_text decision.comment (call (env.adapters.sink_comment decision.comment))
    if decision.unassign then call env.adapters.sink_unassign else pure tt
    let target = or_else decision.transition (get_or step.on_block [])
    when_text target (call (env.adapters.sink_transition target))
    outcome ← block_run env step.id texts
    pure (some outcome)
  obey step question texts decision fail = do
    outcome ←
        fail_run env step.id (or_else decision.comment (codes "clarification limit reached")) texts
    pure (some outcome)
  obey step question texts decision _ = pure none

  -- `_handle_question`
  unfoldable pub handle_question : StepDef N → Text → List Text → Action N X (Option StepOutcome)
  unfolding obey
  handle_question step question texts = do
    rounds ← gets (λ w. get_or w.run.extra.clarify_rounds 0)
    let (rounds', decision) = on_unclear env.profile.gates rounds question
    edit_extra (λ extra. record extra { clarify_rounds = some rounds' })
    write_artifact env (codes "question.md") (question ++ codes "\n")
    edit_result step.id (λ sr. record sr { question = some question })
    obey step question texts decision decision.action

  abbrev pub fail_on_question : StepDef N → Text → List Text → Action N X (Option StepOutcome)
  fail_on_question step question texts = do
    edit_result step.id (λ sr. record sr { question = some question })
    outcome ←
        fail_run env step.id (codes "step raised a QUESTION and pipeline.on_question=fail") texts
    pure (some outcome)

  abbrev pub ignore_question : StepDef N → Text → Action N X (Option StepOutcome)
  ignore_question step question = do
    edit_result step.id (λ sr. record sr { question = some question })
    pure none

  -- The QUESTION branch, by `pipeline.on_question`.
  unfoldable pub answer_question :
      PipelineDef N → StepDef N → Option Text → List Text → Action N X (Option StepOutcome)
  unfolding handle_question
  answer_question pipeline step none texts = pure none
  answer_question pipeline step (some question) texts =
      if non_empty question
      then (if text_eq pipeline.on_question (codes "pause_and_relay")
          then handle_question step question texts
          else if text_eq pipeline.on_question (codes "fail")
          then fail_on_question step question texts
          else ignore_question step question)
      else pure none
