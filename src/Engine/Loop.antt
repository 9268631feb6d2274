-- ===== src/Engine/Loop.antt =====
-- The run loop of ticketbot/engine/orchestrator.py: `_run_pipeline_inner`, `_begin_fresh_run`.
pub mod Steps
pub mod Ends
use ticket_bot.Prelude.{
  Bool, true, false, Option, none, some, Text, codes, List, [], ◌∷◌, if◌then◌else◌, non_empty,
}
use ticket_bot.Prelude.Outcomes.{Outcome, ok, raised, config_error, interrupted, Exn}
use ticket_bot.Core.Run.{Run, done, failed}
use ticket_bot.Engine.Budget.{new_budget, start}
use ticket_bot.Engine.Context.{get_or}
use ticket_bot.Engine.Pipeline.{StepDef, PipelineDef}
use ticket_bot.Engine.Selector.{Selection, select}
use ticket_bot.Engine.Env.{Env}
use ticket_bot.Engine.World.{
  World, Action, pure, raise, lift, gets, call, read, modify, edit_run, save, write_artifact,
  finally, ◌>>=◌, ◌>>◌,
}
use ticket_bot.Engine.Step.Ends.{StepOutcome, go_on, stop, set_status}
use ticket_bot.Engine.Step.Hooks.{edit_extra}
use ticket_bot.Engine.Step.{run_step}

-- `except KeyboardInterrupt: self.store.save(run); raise`
abbrev pub save_interrupted : {N X A : Type 0} → Outcome A × World N X → Outcome A × World N X
save_interrupted (raised interrupted, w) = (raised interrupted, record w { saved = some w.run })
save_interrupted (ok a, w) = (ok a, w)
save_interrupted (raised e, w) = (raised e, w)

module _ {N X : Type 0} (env : Env N X) where
  -- The loop over the steps: whether it stopped early.
  unfoldable pub run_steps : PipelineDef N → List (StepDef N) → Action N X StepOutcome
  run_steps pipeline [] = pure go_on
  run_steps pipeline (step ∷ steps) = do
    outcome ← λ w. save_interrupted (run_step env pipeline step w)
    elim outcome [ go_on ↦ run_steps pipeline steps | stop ↦ pure stop ]

  abbrev pub mark_done : StepOutcome → Action N X (Unit {0})
  mark_done go_on = set_status done
  mark_done stop = pure tt

  abbrev pub loop_body : PipelineDef N → Action N X (Unit {0})
  loop_body pipeline = do
    call env.adapters.runtime_start
    now ← read env.adapters.monotonic
    modify (λ w. record w { budget = start w.budget now })
    outcome ← run_steps pipeline pipeline.steps
    mark_done outcome

  -- The part of `_run_pipeline_inner` behind the checkout.
  unfoldable pub run_loop : PipelineDef N → Action N X (Unit {0})
  unfolding run_steps
  run_loop pipeline = do
    modify (λ w. record w { budget = new_budget env.profile.budget })
    finally (loop_body pipeline) (call env.adapters.runtime_stop)
    save
    call env.adapters.repo_cleanup

  -- `_begin_fresh_run`: `none` where the claim is lost.
  abbrev pub after_claim : PipelineDef N → Text → Bool → Action N X (Option (PipelineDef N))
  after_claim pipeline branch false = do
    edit_run (λ run. record run {
      status = failed;
      extra = record (run.extra) { run_error = some (codes "claim lost") };
    })
    save
    pure none
  after_claim pipeline branch true = do
    workspace ← call (env.adapters.repo_checkout branch)
    edit_extra (λ extra. record extra { branch = some branch; workspace = some workspace })
    save
    pure (some pipeline)

  unfoldable pub begin_fresh_run : Action N X (Option (PipelineDef N))
  begin_fresh_run = do
    item ← gets (λ w. w.item)
    write_artifact env (codes "workitem.json") (env.adapters.item_json item)
    selection ← lift (select env.python env.profile item)
    edit_run
        (λ run. record run { pipeline_ref = selection.ref; pipeline_reason = selection.reason })
    pipeline ← call (env.adapters.load_pipeline selection.ref)
    let branch = env.adapters.repo_branch_name item
    let banner = env.adapters.banner_text item selection.ref branch
    edit_run (λ run. record run { banner = banner })
    write_artifact env (codes "banner.txt") banner
    claimed ← call env.adapters.source_claim
    after_claim pipeline branch claimed

  abbrev pub run_if_begun : Option (PipelineDef N) → Action N X (Unit {0})
  run_if_begun none = pure tt
  run_if_begun (some pipeline) = run_loop pipeline

  -- `_run_pipeline_inner` with `fresh=True`.
  unfoldable pub run_fresh : Action N X (Unit {0})
  unfolding begin_fresh_run run_loop
  run_fresh = begin_fresh_run >>= run_if_begun

  abbrev pub resume_on : PipelineDef N → Text → Action N X (Unit {0})
  resume_on pipeline [] = raise (config_error (codes "no recorded branch to resume from"))
  resume_on pipeline (c ∷ branch) = do
    workspace ← call (env.adapters.repo_checkout (c ∷ branch))
    edit_extra (λ extra. record extra { workspace = some workspace })
    run_loop pipeline

  -- `_run_pipeline_inner` with `fresh=False`.
  unfoldable pub run_resumed : Action N X (Unit {0})
  unfolding run_loop
  run_resumed = do
    ref ← gets (λ w. w.run.pipeline_ref)
    pipeline ← call (env.adapters.load_pipeline ref)
    branch ← gets (λ w. get_or w.run.extra.branch [])
    resume_on pipeline branch
