-- ===== src/Engine/Loop/Ends.antt =====
-- How the run loop ends: what `_run_pipeline_inner` leaves when it returns.
use ticket_bot.Prelude.{◌≡◌, refl, ap, subst, ◌∙◌, true, ◌&&◌, some, List, [], ◌∷◌, lookup}
use ticket_bot.Prelude.Outcomes.{Outcome, ok, raised}
use ticket_bot.Core.Run.{Run, step, or_new, done}
use ticket_bot.Engine.Pipeline.{StepDef, PipelineDef}
use ticket_bot.Engine.Pipeline.Valid.{distinct}
use ticket_bot.Engine.Env.{Env}
use ticket_bot.Engine.World.{World, Action, call, edit_run, save, finally, after}
use ticket_bot.Engine.World.Triples.{Returns, returned, threw, Triple, Triple-pure, Triple-bind}
use ticket_bot.Engine.World.Keeps.{Keeps, Keeps-call}
use ticket_bot.Engine.Step.Ends.{StepOutcome, go_on, stop}
use ticket_bot.Engine.Step.Stops.Early.{Always, first, is_settled, is_halted}
use ticket_bot.Engine.Loop.{mark_done, loop_body, run_loop}
use ticket_bot.Engine.Loop.Steps.{all_settled, Steps, run_steps-Steps}

module _ {N : Type 0} where
  -- The run after the loop: done with all steps settled, or blocked or failed.
  pub data Ended (steps : List (StepDef N)) (run : Run) : Type 0 where
    finished : run.status ≡ done → all_settled steps run ≡ true → Ended steps run
    halted : is_halted run.status ≡ true → Ended steps run

module _ {N X : Type 0} (env : Env N X) (pipeline : PipelineDef N) where
  Triple-finally :
      {P : World N X → Type 0} (R : Run → Type 0) (m : Action N X (Unit {0}))
      (k : Action N X (Unit {0}))
      → Triple P m (λ a w. R w.run)
      → Keeps R k
      → Triple P (finally m k) (λ a w. R w.run)
  unfolding finally
  Triple-finally R m k t keeps = record { at = λ w h. behind (m w) (t.at w h) }
    where
      behind :
          (o : Outcome (Unit {0}) × World N X)
          → Returns (λ a v. R v.run) o
          → Returns (λ a v. R v.run) (after o.0 (k o.1))
      behind o (returned {a} {w} h) = last (k w) (keeps.at w h)
        where
          last :
              (r : Outcome (Unit {0}) × World N X)
              → R r.1.run
              → Returns {A = Unit {0}} (λ a v. R v.run) (after (ok a) r)
          last (ok _, v) h = returned h
          last (raised e, v) h = threw
      behind o (threw {e} {w}) = last (k w)
        where
          last :
              (r : Outcome (Unit {0}) × World N X)
              → Returns {A = Unit {0}} (λ a v. R v.run) (after (raised e) r)
          last (ok _, v) = threw
          last (raised e', v) = threw

  mark_done-Ended :
      (steps : List (StepDef N)) (o : StepOutcome)
      → Triple (λ w. Steps steps o w.run) (mark_done env o) (λ a w. Ended steps w.run)
  unfolding edit_run all_settled step
  mark_done-Ended steps go_on = record {
    at = λ w h. returned (finished refl (same w.run steps ∙ h));
  }
    where
      same :
          (run : Run) (ss : List (StepDef N))
          → all_settled ss (record run { status = done }) ≡ all_settled ss run
      same run [] = refl
      same run (s ∷ ss) =
          ap (λ b. is_settled s.optional (or_new s.id (lookup s.id run.steps)).status && b)
            (same run ss)
  mark_done-Ended steps stop = Triple-pure tt λ w h. halted h

  loop_body-Ended :
      distinct pipeline.steps ≡ true
      → Triple Always (loop_body env pipeline) (λ a w. Ended pipeline.steps w.run)
  loop_body-Ended h = first _ _ λ _. first _ _ λ now. first _ _ λ _.
      Triple-bind _ (run_steps-Steps env pipeline pipeline.steps h)
        λ outcome. mark_done-Ended pipeline.steps outcome

  run_loop-Triple :
      distinct pipeline.steps ≡ true
      → Triple Always
          (run_loop env pipeline)
          (λ a w. (w.saved ≡ some w.run) × Ended pipeline.steps w.run)
  unfolding run_loop save call
  run_loop-Triple h = first _ _ λ _.
      Triple-bind _ (Triple-finally (Ended pipeline.steps) _ _ (loop_body-Ended h) (Keeps-call _))
        λ _.
          Triple-bind {R = λ a w. (w.saved ≡ some w.run) × Ended pipeline.steps w.run} _
            (record { at = λ w e. saves w e }) λ _. record { at = λ w e. cleans w e }
    where
      saves :
          (w : World N X)
          → Ended pipeline.steps w.run
          → Returns (λ a v. (v.saved ≡ some v.run) × Ended pipeline.steps v.run) (save w)
      saves w e = returned (refl, e)

      cleans :
          (w : World N X)
          → (w.saved ≡ some w.run) × Ended pipeline.steps w.run
          → Returns
              (λ a v. (v.saved ≡ some v.run) × Ended pipeline.steps v.run)
              (call env.adapters.repo_cleanup w)
      cleans w e = from_result (env.adapters.repo_cleanup w.outside)
        where
          from_result :
              (r : Outcome (Unit {0}) × X)
              → Returns
                  (λ a v. (v.saved ≡ some v.run) × Ended pipeline.steps v.run)
                  (r.0, record w { outside = r.1 })
          from_result (ok _, x) = returned e
          from_result (raised ex, x) = threw

taken :
    {N X A : Type 0} {Q : A → World N X → Type 0} (o : Outcome A × World N X) (a : A)
    (w : World N X)
    → Returns Q o
    → o ≡ (ok a, w)
    → Q a w
taken {Q = Q} o a w r same = elim (subst (Returns Q) same r) [ returned h ↦ h ]

-- For a pipeline whose step ids are distinct, the run loop, when it returns, has written the run to
-- `run.json` as it stands, and either the run is done and every step of the pipeline is ok, skipped,
-- or failed and optional, or the run is blocked or failed.
pub run_loop-Ended :
    {N X : Type 0} (env : Env N X) (pipeline : PipelineDef N) (w w' : World N X)
    → distinct pipeline.steps ≡ true
    → run_loop env pipeline w ≡ (ok tt, w')
    → (w'.saved ≡ some w'.run) × Ended pipeline.steps w'.run
run_loop-Ended env pipeline w w' h runs =
    taken _ tt w' ((run_loop-Triple env pipeline h).at w tt) runs
