-- ===== src/Engine/Loop/Steps.antt =====
-- How the loop over the steps ends.
use ticket_bot.Prelude.{
  &&-true, ◌≡◌, refl, ap, ◌∙◌, arith, Bool, true, false, not, ◌&&◌, Option, none, some, Text,
  text_eq, List, [], ◌∷◌, if◌then◌else◌, lookup,
}
use ticket_bot.Prelude.Outcomes.{Outcome, ok, raised, interrupted, Exn}
use ticket_bot.Core.Run.{
  Run, StepStatus, StepResult, step, or_new, is_complete, complete_result, is_done_status,
}
use ticket_bot.Engine.Pipeline.{StepDef, PipelineDef}
use ticket_bot.Engine.Pipeline.Valid.{is_fresh, distinct}
use ticket_bot.Engine.Env.{Env}
use ticket_bot.Engine.World.{World, pure, continue, ◌>>=◌}
use ticket_bot.Engine.World.Triples.{Returns, returned, threw, Triple, Triple-pure, Triple-bind}
use ticket_bot.Engine.World.Keeps.{Keeps, Keeps-bind, Keeps-pure}
use ticket_bot.Engine.Step.{run_step, start_step}
use ticket_bot.Engine.Step.Ends.{StepOutcome, go_on, stop}
use ticket_bot.Engine.Step.Frame.{Holds}
use ticket_bot.Engine.Step.Apart.{run_step-Frame}
use ticket_bot.Engine.Step.Stops.{start_step-Left, run_step_complete}
use ticket_bot.Engine.Step.Stops.Early.{Shows, Left, Always, is_settled, is_halted}
use ticket_bot.Engine.Loop.{save_interrupted, run_steps}

module _ {N : Type 0} where
  -- Every step is done, or it has failed and is optional.
  unfoldable pub all_settled : List (StepDef N) → Run → Bool
  unfolding is_settled step
  all_settled [] run = true
  all_settled (s ∷ steps) run =
      is_settled s.optional (step run s.id).status && all_settled steps run

  unfoldable pub all_complete : List (StepDef N) → Run → Bool
  unfolding is_complete
  all_complete [] run = true
  all_complete (s ∷ steps) run = is_complete run s.id && all_complete steps run

  abbrev pub Steps : List (StepDef N) → StepOutcome → Run → Type 0
  Steps steps go_on run = all_settled steps run ≡ true
  Steps steps stop run = is_halted run.status ≡ true

settled_if_done :
    (optional : Bool) (s : StepStatus) → is_done_status s ≡ true → is_settled optional s ≡ true
unfolding is_settled is_done_status
settled_if_done optional s h = ground arith

complete_is_done :
    (run : Run) (id : Text) → is_complete run id ≡ true → is_done_status (step run id).status ≡ true
unfolding is_complete complete_result step is_done_status
complete_is_done run id h = from_lookup (lookup id run.steps) h
  where
    from_lookup :
        (o : Option StepResult)
        → complete_result o ≡ true
        → is_done_status (or_new id o).status ≡ true
    from_lookup none h = h
    from_lookup (some sr) h = h

module _ {N X : Type 0} (env : Env N X) (pipeline : PipelineDef N) where
  run_step-Shows :
      (s : StepDef N) → Triple Always (run_step env pipeline s) (λ o w. Shows s o w.run)
  unfolding run_step
  run_step-Shows s = record { at = λ w _. shows w (is_complete w.run s.id) refl }
    where
      shows :
          (w : World N X) (b : Bool)
          → is_complete w.run s.id ≡ b
          → Returns
              (λ o v. Shows s o v.run)
              (if b then (ok go_on, w) else start_step env pipeline s w)
      shows w true h = returned (settled_if_done s.optional _ (complete_is_done w.run s.id h))
      shows w false h = weaken _ ((start_step-Left env pipeline s).at w tt)
        where
          weaken :
              (o : Outcome StepOutcome × World N X)
              → Returns (λ a v. Left s a v) o
              → Returns (λ a v. Shows s a v.run) o
          weaken o (returned l) = returned l.shows
          weaken o threw = threw

  interruptible :
      (s : StepDef N)
      → Triple Always (λ w. save_interrupted (run_step env pipeline s w)) (λ o w. Shows s o w.run)
  interruptible s = record { at = λ w h. saved _ ((run_step-Shows s).at w h) }
    where
      saved :
          (o : Outcome StepOutcome × World N X)
          → Returns (λ a v. Shows s a v.run) o
          → Returns (λ a v. Shows s a v.run) (save_interrupted o)
      saved o (returned h) = returned h
      saved o (threw {e} {w}) = at_raise w e
        where
          at_raise :
              (w : World N X) (e : Exn)
              → Returns (λ a v. Shows s a v.run) (save_interrupted (raised e, w))
          at_raise w interrupted = threw
          at_raise w _ = threw

  interruptible-Frame :
      (s : StepDef N) (j : Text) (o : Option StepResult)
      → text_eq s.id j ≡ false
      → Keeps (Holds j o) (λ w. save_interrupted (run_step env pipeline s w))
  interruptible-Frame s j o apart = record {
    at = λ w h. kept _ ((run_step-Frame env pipeline s j o apart).at w h);
  }
    where
      kept :
          (r : Outcome StepOutcome × World N X)
          → Holds j o r.1.run
          → Holds j o (save_interrupted r).1.run
      kept (ok a, w) h = h
      kept (raised interrupted, w) h = h
      kept (raised e, w) h = h

  run_steps-Frame :
      (steps : List (StepDef N)) (j : Text) (o : Option StepResult)
      → is_fresh j steps ≡ true
      → Keeps (Holds j o) (run_steps env pipeline steps)
  unfolding run_steps is_fresh
  run_steps-Frame [] j o h = Keeps-pure _
  run_steps-Frame (s ∷ steps) j o h =
      let both = &&-true _ _ h in
      Keeps-bind _ (interruptible-Frame s j o (is_not both.0))
        (elim [ go_on ↦ run_steps-Frame steps j o both.1 | stop ↦ Keeps-pure _ ])
    where
      is_not : {a : Bool} → not a ≡ true → a ≡ false
      is_not {a} h = ground arith

  -- The rest of the loop keeps the step that came first settled.
  and_first :
      (s : StepDef N) (steps : List (StepDef N))
      → is_fresh s.id steps ≡ true
      → Triple Always (run_steps env pipeline steps) (λ o w. Steps steps o w.run)
      → Triple
          (λ w. Shows s go_on w.run)
          (run_steps env pipeline steps)
          (λ o w. Steps (s ∷ steps) o w.run)
  unfolding all_settled is_settled step
  and_first s steps fresh t = record {
    at = λ w h.
        both w h (run_steps env pipeline steps w) (t.at w tt)
          ((run_steps-Frame steps s.id (lookup s.id w.run.steps) fresh).at w refl);
  }
    where
      both :
          (w : World N X)
          → Shows s go_on w.run
          → (o : Outcome StepOutcome × World N X) → Returns (λ a v. Steps steps a v.run) o
          → Holds s.id (lookup s.id w.run.steps) o.1.run
          → Returns (λ a v. Steps (s ∷ steps) a v.run) o
      both w h o (returned {a = go_on} {w = v} q) same = returned (
          ap (λ r. is_settled s.optional (or_new s.id r).status && all_settled steps v.run) same
          ∙ ap (λ b. b && all_settled steps v.run) h
          ∙ q)
      both w h o (returned {a = stop} q) same = returned q
      both w h o threw same = threw

  pub run_steps-Steps :
      (steps : List (StepDef N))
      → distinct steps ≡ true
      → Triple Always (run_steps env pipeline steps) (λ o w. Steps steps o w.run)
  unfolding run_steps distinct all_settled
  run_steps-Steps [] h = Triple-pure go_on λ w _. refl
  run_steps-Steps (s ∷ steps) h =
      let both = &&-true _ _ h in
      let rest = and_first s steps both.0 (run_steps-Steps steps both.1) in
      Triple-bind _ (interruptible s) (elim [ go_on ↦ rest | stop ↦ Triple-pure stop λ w h. h ])

  -- Where every step is complete, the loop over the steps goes on to its end and changes nothing.
  run_steps_complete :
      (steps : List (StepDef N)) (w : World N X)
      → all_complete steps w.run ≡ true
      → run_steps env pipeline steps w ≡ (ok go_on, w)
  unfolding run_steps all_complete ◌>>=◌ pure
  run_steps_complete [] w h = refl
  run_steps_complete (s ∷ steps) w h =
      let both = &&-true _ _ h in
      ap
        (λ o.
          continue (save_interrupted o).0
            (λ (outcome : StepOutcome). elim outcome [
              | go_on ↦ run_steps env pipeline steps
              | stop ↦ pure stop
            ])
            (save_interrupted o).1)
        (run_step_complete env pipeline s w both.0)
      ∙ run_steps_complete steps w both.1
