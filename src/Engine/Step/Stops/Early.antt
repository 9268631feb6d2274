-- ===== src/Engine/Step/Stops/Early.antt =====
-- The ends of a step: what each leaves in the run and on disk.
use ticket_bot.Prelude.{◌≡◌, refl, ap, ◌∙◌, Bool, true, false, some, Text, List, [], ◌∷◌}
use ticket_bot.Prelude.Outcomes.{Outcome, ok, raised}
use ticket_bot.Core.Run.{
  Run, RunStatus, StepStatus, StepResult, step, edit_step, is_done_status, ok_status, skipped,
  step_failed, blocked, failed,
}
use ticket_bot.Core.Run.Steps.{lookup-edit_step_self}
use ticket_bot.Engine.Pipeline.{StepDef, PipelineDef}
use ticket_bot.Engine.Env.{Env}
use ticket_bot.Engine.World.{World, Action, pure, edit_run, edit_result, save, ◌>>=◌, ◌>>◌}
use ticket_bot.Engine.World.Triples.{
  Returns, returned, threw, Triple, Triple-pure, Triple-if, Triple-bind,
}
use ticket_bot.Engine.World.Keeps.{
  Keeps, Keeps-edit_run, Keeps-edit_result, Keeps-bind, Keeps-read, keeps_rules,
}
use ticket_bot.Engine.Step.Ends.{
  StepOutcome, go_on, stop, set_status, save_texts, save_step, stamp_end, fail_run, block_run,
  skip_step,
}
use ticket_bot.Engine.Step.Sections.{fail_step}
use ticket_bot.Engine.Step.{complete_step, await_review, status_after}

-- A step that lets the run go on is done, or it has failed and is optional.
unfoldable pub is_settled : Bool → StepStatus → Bool
unfolding is_done_status
is_settled optional step_failed = optional
is_settled optional s = is_done_status s

-- The two statuses of a run that stops in the middle of its pipeline.
unfoldable pub is_halted : RunStatus → Bool
is_halted blocked = true
is_halted failed = true
is_halted _ = false

-- What the outcome of a step says about the run.
abbrev pub Shows : {N : Type 0} → StepDef N → StepOutcome → Run → Type 0
Shows s go_on run = is_settled s.optional (step run s.id).status ≡ true
Shows s stop run = is_halted run.status ≡ true

-- The state that a step leaves: `run.json` holds the run, and the run shows the outcome.
pub record Left {N X : Type 0} (s : StepDef N) (outcome : StepOutcome) (w : World N X)
    : Type 0 where
  pub saved_now : w.saved ≡ some w.run
  pub shows : Shows s outcome w.run

abbrev pub Always : {N X : Type 0} → World N X → Type 0
Always w = Unit {0}

abbrev HasStatus : Text → StepStatus → Run → Type 0
HasStatus id s run = (step run id).status ≡ s

module _ {N X : Type 0} where
  any : {A : Type 0} (o : Outcome A × World N X) → Returns (λ a w. Unit {0}) o
  any (ok a, w) = returned tt
  any (raised e, w) = threw

  kept :
      {A : Type 0} (R : Run → Type 0) (o : Outcome A × World N X)
      → R o.1.run
      → Returns (λ a w. R w.run) o
  kept R (ok a, w) h = returned h
  kept R (raised e, w) h = threw

  -- What comes first does not matter.
  pub first :
      {A B : Type 0} {P : World N X → Type 0} (m : Action N X A) (f : A → Action N X B)
      {Q : B → World N X → Type 0}
      → ((a : A) → Triple Always (f a) Q)
      → Triple P (m >>= f) Q
  first m f k = Triple-bind {m = m} f (record { at = λ w h. any (m w) }) k

  pub Triple-keep :
      {A : Type 0} {R : Run → Type 0} {m : Action N X A}
      → Keeps R m
      → Triple (λ w. R w.run) m (λ a w. R w.run)
  Triple-keep {R = R} {m} k = record { at = λ w h. kept R (m w) (k.at w h) }

module _ {N X : Type 0} (env : Env N X) (id : Text) where
  step-edit_step :
      (f : StepResult → StepResult) (run : Run) → step (edit_step id f run) id ≡ f (step run id)
  unfolding step
  step-edit_step f run = rw (lookup-edit_step_self id f run) refl

  edit_result-HasStatus :
      {P : World N X → Type 0} (f : StepResult → StepResult) (s : StepStatus)
      → ((sr : StepResult) → (f sr).status ≡ s)
      → Triple P (edit_result id f) (λ a w. HasStatus id s w.run)
  unfolding edit_result edit_run
  edit_result-HasStatus f s h = record {
    at = λ w _. returned (ap (λ sr. sr.status) (step-edit_step f w.run) ∙ h (step w.run id));
  }

  edit_result-Keeps_status :
      (f : StepResult → StepResult) (s : StepStatus)
      → ((sr : StepResult) → (f sr).status ≡ sr.status)
      → Keeps {N = N} {X = X} (HasStatus id s) (edit_result id f)
  edit_result-Keeps_status f s same =
      Keeps-edit_result id f λ r h. ap (λ sr. sr.status) (step-edit_step f r) ∙ same (step r id) ∙ h

  pub set_status-Run :
      {P : World N X → Type 0} (s : RunStatus) → Triple P (set_status s) (λ a w. w.run.status ≡ s)
  unfolding edit_run
  set_status-Run s = record { at = λ w _. returned refl }

  pub edit_result-Keeps_run :
      (f : StepResult → StepResult) (s : RunStatus)
      → Keeps {N = N} {X = X} (λ run. run.status ≡ s) (edit_result id f)
  unfolding edit_step
  edit_result-Keeps_run f s = Keeps-edit_result id f λ r h. h

  stamp_end-Keeps_status : (s : StepStatus) → Keeps (HasStatus id s) (stamp_end env id)
  unfolding stamp_end
  stamp_end-Keeps_status s =
      Keeps-bind _ (Keeps-read _) λ now. edit_result-Keeps_status _ s λ sr. refl

  pub stamp_end-Keeps_run : (s : RunStatus) → Keeps (λ run. run.status ≡ s) (stamp_end env id)
  unfolding stamp_end
  stamp_end-Keeps_run s = search (keeps_rules, edit_result-Keeps_run)

  save_texts-Keeps_status :
      (s : StepStatus) (texts : List Text) → Keeps (HasStatus id s) (save_texts env id texts)
  unfolding save_texts
  save_texts-Keeps_status s [] = search keeps_rules
  save_texts-Keeps_status s (t ∷ ts) =
      Keeps-bind _ (edit_result-Keeps_status _ s λ sr. refl)
        λ _. Keeps-bind _ (search keeps_rules) λ _. edit_result-Keeps_status _ s λ sr. refl

  pub save_texts-Keeps_run :
      (s : RunStatus) (texts : List Text) → Keeps (λ run. run.status ≡ s) (save_texts env id texts)
  unfolding save_texts
  save_texts-Keeps_run s [] = search keeps_rules
  save_texts-Keeps_run s (t ∷ ts) = search (keeps_rules, edit_result-Keeps_run) depth 20

  -- The save at the end of a step: `run.json` holds the run, and what the texts do not touch stays.
  pub save_step-Triple :
      {R : Run → Type 0} (texts : List Text)
      → Keeps R (save_texts env id texts)
      → Triple (λ w. R w.run) (save_step env id texts) (λ a w. (w.saved ≡ some w.run) × R w.run)
  unfolding save_step save
  save_step-Triple texts k =
      Triple-bind _ (Triple-keep k) λ _. record { at = λ w h. returned (refl, h) }

module _ {N X : Type 0} (env : Env N X) (pipeline : PipelineDef N) (s : StepDef N) where
  -- The last two actions of every end: save, and the outcome.
  finish_with :
      {R : Run → Type 0} (outcome : StepOutcome) (texts : List Text)
      → Keeps R (save_texts env s.id texts)
      → ((run : Run) → R run → Shows s outcome run)
      → Triple (λ w. R w.run) (save_step env s.id texts >> pure outcome) (λ o w. Left s o w)
  finish_with outcome texts k shows =
      Triple-bind _ (save_step-Triple env s.id texts k)
        λ _. Triple-pure outcome λ w h. record { saved_now = h.0; shows = shows w.run h.1 }

  halted_by :
      (final : RunStatus)
      → is_halted final ≡ true
      → (run : Run) → run.status ≡ final
      → is_halted run.status ≡ true
  halted_by final h run same = ap is_halted same ∙ h

  settled_by :
      (final : StepStatus)
      → is_settled s.optional final ≡ true
      → (run : Run) → HasStatus s.id final run
      → Shows s go_on run
  settled_by final h run same = ap (is_settled s.optional) same ∙ h

  pub fail_run-Left :
      (message : Text) (texts : List Text)
      → Triple Always (fail_run env s.id message texts) (λ o w. Left s o w)
  unfolding fail_run is_halted
  fail_run-Left message texts = first _ _ λ _. first _ _ λ _.
      Triple-bind _ (set_status-Run env s.id failed) λ _.
        finish_with stop texts (save_texts-Keeps_run env s.id failed texts) (halted_by failed refl)

  pub block_run-Left :
      (texts : List Text) → Triple Always (block_run env s.id texts) (λ o w. Left s o w)
  unfolding block_run is_halted
  block_run-Left texts = Triple-bind _ (set_status-Run env s.id blocked) λ _.
      Triple-bind _ (Triple-keep (edit_result-Keeps_run env s.id _ blocked)) λ _.
        Triple-bind _ (Triple-keep (stamp_end-Keeps_run env s.id blocked)) λ _.
          finish_with stop texts (save_texts-Keeps_run env s.id blocked texts)
            (halted_by blocked refl)

  pub skip_step-Left :
      (reason : Text) → Triple Always (skip_step env s.id reason) (λ o w. Left s o w)
  unfolding skip_step save is_settled is_done_status
  skip_step-Left reason = Triple-bind _ (edit_result-HasStatus env s.id _ skipped λ sr. refl) λ _.
      Triple-bind _ (Triple-keep (stamp_end-Keeps_status env s.id skipped)) λ _.
        Triple-bind {R = λ a w. (w.saved ≡ some w.run) × HasStatus s.id skipped w.run} _
          (record { at = λ w h. returned (refl, h) })
          λ _.
            Triple-pure go_on
              λ w h. record { saved_now = h.0; shows = settled_by skipped refl w.run h.1 }

  pub complete_step-Left :
      (texts : List Text) → Triple Always (complete_step env pipeline s texts) (λ o w. Left s o w)
  unfolding is_settled is_done_status step
  complete_step-Left texts = first _ _ λ _.
      Triple-bind _ (edit_result-HasStatus env s.id _ ok_status λ sr. refl) λ _.
        Triple-bind _
          (Triple-keep
            (Keeps-edit_run (λ run. record run { status = status_after s.id run.status }) λ r h. h))
          λ _.
            finish_with go_on texts (save_texts-Keeps_status env s.id ok_status texts)
              (settled_by ok_status refl)

  pub await_review-Left :
      (texts : List Text) → Triple Always (await_review env pipeline s texts) (λ o w. Left s o w)
  unfolding is_halted
  await_review-Left texts = Triple-bind _ (set_status-Run env s.id blocked) λ _.
      Triple-bind _ (Triple-keep (search keeps_rules)) λ _.
        Triple-bind _ (Triple-keep (edit_result-Keeps_run env s.id _ blocked)) λ _.
          Triple-bind _ (Triple-keep (stamp_end-Keeps_run env s.id blocked)) λ _.
            finish_with stop texts (save_texts-Keeps_run env s.id blocked texts)
              (halted_by blocked refl)

  optional_settles : s.optional ≡ true → is_settled s.optional step_failed ≡ true
  unfolding is_settled
  optional_settles h = h

  pub fail_step-Left :
      (error : Text) (texts : List Text)
      → Triple Always (fail_step env pipeline s error texts) (λ o w. Left s o w)
  unfolding fail_step
  fail_step-Left error texts =
      Triple-if s.optional
        (λ h. Triple-bind _ (edit_result-HasStatus env s.id _ step_failed λ sr. refl) λ _.
          Triple-bind _ (Triple-keep (stamp_end-Keeps_status env s.id step_failed)) λ _.
            finish_with go_on texts (save_texts-Keeps_status env s.id step_failed texts)
              (settled_by step_failed (optional_settles h)))
        λ h. fail_run-Left error texts
