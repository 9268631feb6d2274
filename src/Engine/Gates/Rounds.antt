-- ===== src/Engine/Gates/Rounds.antt =====
-- How often a run may ask.
use ticket_bot.Prelude.{
  ℕ, suc, ◌+◌, ◌-◌, ◌≤◌, Bool, true, false, Text, List, [], ◌∷◌, arith, if◌then◌else◌,
}
use ticket_bot.Engine.Gates.{Action, fail, GatesConfig, GateDecision, on_unclear}

-- The decisions on a sequence of questions.
pub ask_all : GatesConfig → ℕ → List Text → List GateDecision
ask_all cfg rounds [] = []
ask_all cfg rounds (q ∷ qs) =
    let (rounds', decision) = on_unclear cfg rounds q in decision ∷ ask_all cfg rounds' qs

pub is_fail : Action → Bool
is_fail fail = true
is_fail _ = false

-- The questions that do not fail the run.
pub relayed : List GateDecision → ℕ
relayed [] = 0
relayed (d ∷ ds) = if is_fail d.action then relayed ds else suc (relayed ds)

-- Of any sequence of questions at most `max_clarify_rounds`, less the rounds before, are relayed or
-- ignored; every other one is decided 'fail'.
pub relayed-ask_all :
    (cfg : GatesConfig) (rounds : ℕ) (questions : List Text)
    → relayed (ask_all cfg rounds questions) ≤ cfg.max_clarify_rounds - rounds
unfolding relayed ask_all on_unclear is_fail
relayed-ask_all cfg rounds [] = omega arith
relayed-ask_all cfg rounds (q ∷ qs) = ground (arith, relayed-ask_all cfg (rounds + 1) qs)
