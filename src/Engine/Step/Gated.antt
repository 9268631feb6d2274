-- ===== src/Engine/Step/Gated.antt =====
-- A step behind a human gate.
use ticket_bot.Prelude.{
  ◌≡◌, refl, sym, ap, subst, ◌∙◌, Bool, true, false, some, codes, text_eq, if◌then◌else◌, List, [],
  Text,
}
use ticket_bot.Prelude.Outcomes.{Outcome, ok, raised}
use ticket_bot.Predicate.Rules.{absent, evaluate_any}
use ticket_bot.Core.Run.{is_complete, blocked}
use ticket_bot.Engine.Context.{build_context}
use ticket_bot.Engine.Gates
use ticket_bot.Engine.Gates.{GateDecision, on_step_gate}
use ticket_bot.Engine.Pipeline.{StepDef, PipelineDef}
use ticket_bot.Engine.Env.{Env}
use ticket_bot.Engine.World.{World, lift, gets}
use ticket_bot.Engine.World.Triples.{Returns, returned, threw, Triple, Triple-pure, Triple-bind}
use ticket_bot.Engine.Step.{
  after_when, gated, after_gate, evaluated, or_run, start_step, run_step, step_interactive,
}
use ticket_bot.Engine.Step.Ends.{StepOutcome, go_on, stop, block_run}
use ticket_bot.Engine.Step.Stops.Early.{
  Always, first, set_status-Run, edit_result-Keeps_run, stamp_end-Keeps_run, save_texts-Keeps_run,
  save_step-Triple, Triple-keep,
}

module _ {N X : Type 0} (env : Env N X) (pipeline : PipelineDef N) (s : StepDef N) where
  abbrev Stopped : StepOutcome → World N X → Type 0
  Stopped o w = (o ≡ stop) × (w.run.status ≡ blocked)

  block_run-Stopped : (texts : List Text) → Triple Always (block_run env s.id texts) Stopped
  unfolding block_run
  block_run-Stopped texts = Triple-bind _ (set_status-Run env s.id blocked) λ _.
      Triple-bind _ (Triple-keep (edit_result-Keeps_run env s.id _ blocked)) λ _.
        Triple-bind _ (Triple-keep (stamp_end-Keeps_run env s.id blocked)) λ _.
          Triple-bind _
            (save_step-Triple env s.id texts (save_texts-Keeps_run env s.id blocked texts))
            λ _. Triple-pure stop λ w h. (refl, h.1)

  after_gate-Stopped :
      (action : Gates.Action)
      → action ≡ Gates.await_human
      → Triple Always (after_gate env pipeline s action) Stopped
  after_gate-Stopped Gates.await_human h = first _ _ λ _. block_run-Stopped []
  after_gate-Stopped Gates.proceed h = cc
  after_gate-Stopped Gates.block h = cc
  after_gate-Stopped Gates.fail h = cc

  awaits :
      (interactive : Bool)
      → s.gate ≡ some (codes "human")
      → (on_step_gate s.gate interactive).action ≡ Gates.await_human
  unfolding on_step_gate text_eq
  awaits interactive h = ap (λ g. (on_step_gate g interactive).action) h

  after_when-Stopped :
      s.gate ≡ some (codes "human")
      → (holds : Bool) → holds ≡ true
      → Triple Always (after_when env pipeline s holds) Stopped
  unfolding after_when gated
  after_when-Stopped gate true h =
      after_gate-Stopped _ (awaits (step_interactive env pipeline s) gate)
  after_when-Stopped gate false h = cc

  start_step-Stopped :
      s.gate ≡ some (codes "human")
      → s.condition ≡ absent
      → Triple Always (start_step env pipeline s) Stopped
  unfolding start_step evaluate_any gets lift or_run
  start_step-Stopped gate when = first _ _ λ now. first _ _ λ _. first _ _ λ _.
      Triple-bind {R = λ r w. r ≡ ok true} _ (record { at = λ w h. holds w })
        λ r.
          Triple-bind {R = λ b w. b ≡ true} _ (record { at = λ w h. lifted r w h })
            λ b. record { at = λ w h. (after_when-Stopped gate b h).at w tt }
    where
      holds : (w : World N X) → Returns (λ r w. r ≡ ok true) (gets (evaluated env pipeline s) w)
      holds w = returned (
          ap (λ c. or_run (evaluate_any env.python c (build_context env.python w.item w.run))) when)

      lifted :
          (r : Outcome Bool) (w : World N X) → r ≡ ok true → Returns (λ b w. b ≡ true) (lift r w)
      lifted (ok b) w h = returned (cc)
      lifted (raised e) w h = threw

  stops :
      (o : Outcome StepOutcome × World N X) (outcome : StepOutcome) (w : World N X)
      → Returns Stopped o
      → o ≡ (ok outcome, w)
      → Stopped outcome w
  stops o outcome w r same = elim (subst (Returns Stopped) same r) [ returned h ↦ h ]

-- A step with `gate: human` and no `when:` that is not complete, when it returns, stops with the run
-- blocked, whatever the state and the profile: so does a step that was blocked at its gate before.
pub run_step-gated :
    {N X : Type 0} (env : Env N X) (pipeline : PipelineDef N) (s : StepDef N) (w : World N X)
    (outcome : StepOutcome) (w' : World N X)
    → s.gate ≡ some (codes "human")
    → s.condition ≡ absent
    → is_complete w.run s.id ≡ false
    → run_step env pipeline s w ≡ (ok outcome, w')
    → (outcome ≡ stop) × (w'.run.status ≡ blocked)
unfolding run_step
run_step-gated env pipeline s w outcome w' gate when todo runs =
    stops env pipeline s _ outcome w' ((start_step-Stopped env pipeline s gate when).at w tt)
      (sym (ap (λ b. if b then (ok go_on, w) else start_step env pipeline s w) todo) ∙ runs)
