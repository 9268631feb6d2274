-- ===== src/Engine/Gates.antt =====
-- ticketbot/engine/gates.py: the human-in-the-loop decisions.
pub mod Rounds
use ticket_bot.Prelude.{
  ℕ, ◌+◌, suc, Bool, true, false, Option, none, some, Text, text_eq, codes, ltb, if◌then◌else◌, [],
}

-- GateDecision: the actions 'continue', 'block', 'fail' and 'await_human'.
pub data Action : Type 0 where
  proceed block fail await_human : Action

pub record GateDecision : Type 0 where
  pub action : Action
  pub comment : Text
  pub transition : Text
  pub unassign : Bool

-- The modes that GatesConfig allows.
pub data OnUnclear : Type 0 where
  comment_and_unassign comment_only go_on stop_run : OnUnclear

pub data OnPrReady : Type 0 where
  human_review auto : OnPrReady

pub record GatesConfig : Type 0 where
  pub on_unclear : OnUnclear
  pub on_pr_ready : OnPrReady
  pub max_clarify_rounds : ℕ

abbrev pub decide : Action → GateDecision
decide a = record { action = a; comment = []; transition = []; unassign = false }

unfoldable pub decide_mode : OnUnclear → Text → GateDecision
decide_mode comment_and_unassign question = record {
  action = block;
  comment = question;
  transition = [];
  unassign = true;
}
decide_mode comment_only question = record {
  action = block;
  comment = question;
  transition = [];
  unassign = false;
}
decide_mode go_on question = decide proceed
decide_mode stop_run question = decide fail

abbrev pub limit_reached : GateDecision
limit_reached = record {
  action = fail;
  comment = codes "Clarification limit reached; stopping instead of asking again.";
  transition = [];
  unassign = false;
}

-- `on_unclear`, with the rounds counted so far; it returns the new count with its decision.
unfoldable pub on_unclear : GatesConfig → ℕ → Text → ℕ × GateDecision
unfolding decide_mode
on_unclear cfg rounds question = (
  rounds + 1,
  if ltb cfg.max_clarify_rounds (rounds + 1)
      then limit_reached
      else decide_mode cfg.on_unclear question,
)

unfoldable pub decide_pr : OnPrReady → GateDecision
decide_pr human_review = decide await_human
decide_pr auto = decide proceed

-- `on_pr_ready`
unfoldable pub on_pr_ready : GatesConfig → GateDecision
unfolding decide_pr
on_pr_ready cfg = decide_pr cfg.on_pr_ready

-- `on_step_gate`, for the gate that the step declares.
unfoldable pub on_step_gate : Option Text → Bool → GateDecision
on_step_gate none interactive = decide proceed
on_step_gate (some gate) interactive =
    if text_eq gate (codes "human")
    then decide await_human
    else if text_eq gate (codes "optional_human")
    then (if interactive then decide await_human else decide proceed)
    else decide proceed
