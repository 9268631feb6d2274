-- ===== src/Tests/Runs.antt =====
-- The theorems on steps and on the run loop at a concrete pipeline.
use ticket_bot.Prelude.{
  codes, ℕ, ◌≡◌, refl, ap, some, text_eq, starts_with, split_on, text_in, lookup, insert,
}
use ticket_bot.Prelude.Outcomes.{Outcome, ok}
use ticket_bot.Core.Run.{edit_step, is_complete, jailed_relpath, blocked}
use ticket_bot.Predicate.Rules.{evaluate_any}
use ticket_bot.Engine.World.{
  World, pure, lift, gets, call, read, modify, edit_run, edit_result, save, ◌>>=◌, finally,
  write_artifact,
}
use ticket_bot.Engine.Budget.{new_budget, start, charge, check, step_timeout}
use ticket_bot.Engine.Gates.{on_step_gate}
use ticket_bot.Engine.Step.Sections.{executor_key, run_section, run_sections}
use ticket_bot.Engine.Step.{run_step}
use ticket_bot.Engine.Step.Ends.{stop, block_run, go_on}
use ticket_bot.Engine.Step.Stops.{run_step-Left}
use ticket_bot.Engine.Step.Stops.Early.{Left}
use ticket_bot.Engine.Step.Gated.{run_step-gated}
use ticket_bot.Engine.Pipeline.{StepDef}
use ticket_bot.Engine.Step.Apart.{run_step-others}
use ticket_bot.Engine.Loop.{run_loop}
use ticket_bot.Engine.Loop.Ends.{Ended, run_loop-Ended}
use ticket_bot.Engine.Pipeline.Valid.{distinct}
use ticket_bot.Tests.Samples.{env, plan_step, test_step, two_steps, new_world, finished_world}

-- An action with this result returns it.
paired : {A : Type 0} (o : Outcome A × World ℕ ℕ) (a : A) → o.0 ≡ ok a → o ≡ (ok a, o.1)
paired o a h = ap (λ r. (r, o.1)) h

plan_goes_on : (run_step env two_steps plan_step new_world).0 ≡ ok go_on
unfolding text_eq starts_with split_on text_in lookup is_complete jailed_relpath evaluate_any pure
    lift gets call read modify edit_run edit_result save ◌>>=◌ write_artifact new_budget charge
    check step_timeout on_step_gate executor_key run_section run_sections run_step
plan_goes_on = refl

loop_returns : (run_loop env two_steps new_world).0 ≡ ok tt
unfolding text_eq starts_with split_on text_in lookup insert edit_step is_complete jailed_relpath
    evaluate_any pure lift gets call read modify edit_run edit_result save ◌>>=◌ finally
    write_artifact new_budget start charge check step_timeout on_step_gate executor_key run_section
    run_sections run_step run_loop
loop_returns = refl

run_loop-Ended_example :
    ((run_loop env two_steps new_world).1.saved ≡ some (run_loop env two_steps new_world).1.run)
    × Ended two_steps.steps (run_loop env two_steps new_world).1.run
unfolding distinct text_eq
run_loop-Ended_example =
    run_loop-Ended env two_steps new_world (run_loop env two_steps new_world).1 refl
      (paired (run_loop env two_steps new_world) tt loop_returns)

run_step-Left_example : Left plan_step go_on (run_step env two_steps plan_step new_world).1
unfolding is_complete lookup text_eq
run_step-Left_example =
    run_step-Left env two_steps plan_step new_world go_on
      (run_step env two_steps plan_step new_world).1 refl
      (paired (run_step env two_steps plan_step new_world) go_on plan_goes_on)

run_step-others_example :
    lookup test_step.id (run_step env two_steps plan_step finished_world).1.run.steps
    ≡ lookup test_step.id finished_world.run.steps
unfolding text_eq
run_step-others_example = run_step-others env two_steps plan_step test_step.id refl finished_world

abbrev gated_step : StepDef ℕ
gated_step = record plan_step { gate = some (codes "human") }

gate_stops : (run_step env two_steps gated_step new_world).0 ≡ ok stop
unfolding text_eq starts_with split_on text_in lookup insert edit_step is_complete jailed_relpath
    evaluate_any pure lift gets call read modify edit_run edit_result save ◌>>=◌ write_artifact
    new_budget on_step_gate block_run run_step
gate_stops = refl

run_step-gated_example :
    (stop ≡ stop) × ((run_step env two_steps gated_step new_world).1.run.status ≡ blocked)
unfolding is_complete lookup
run_step-gated_example =
    run_step-gated env two_steps gated_step new_world stop
      (run_step env two_steps gated_step new_world).1 refl refl refl
      (paired (run_step env two_steps gated_step new_world) stop gate_stops)
