-- ===== src/Engine/Step/Hooks.antt =====
-- `_before_review`, `_after_ingest` and `_after_planner` of ticketbot/engine/orchestrator.py.
use ticket_bot.Prelude.{
  Bool, false, ◌||◌, Option, none, some, Text, codes, List, [], ◌∷◌, lower, length, if◌then◌else◌,
  non_empty,
}
use ticket_bot.Predicate.Compare.{is_piece}
use ticket_bot.Executors.Edits.{count}
use ticket_bot.Core.Run.{Extra}
use ticket_bot.Core.WorkItem.{WorkItem, Ambiguity}
use ticket_bot.Engine.Env.{Env, Ingested}
use ticket_bot.Engine.World.{Action, gets, call, modify, edit_run, write_artifact, ◌>>=◌, ◌>>◌}

-- `_SECURITY_DIFF_KEYWORDS`
abbrev pub security_keywords : List Text
security_keywords =
    codes "auth"
    ∷ codes "login"
    ∷ codes "token"
    ∷ codes "secret"
    ∷ codes "password"
    ∷ codes "crypto"
    ∷ codes "subprocess"
    ∷ codes "shell"
    ∷ codes "eval"
    ∷ codes "pickle"
    ∷ codes "sql"
    ∷ []

unfoldable pub any_piece : List Text → Text → Bool
any_piece [] text = false
any_piece (k ∷ ks) text = is_piece k text || any_piece ks text

-- `_diff_touches_security`
unfoldable pub diff_touches_security : Text → Bool
unfolding any_piece
diff_touches_security diff = any_piece security_keywords (lower diff)

abbrev pub edit_extra : {N X : Type 0} → (Extra → Extra) → Action N X (Unit {0})
edit_extra f = edit_run (λ run. record run { extra = f run.extra })

abbrev pub old_or : Option Text → Text → Text
old_or none old = old
old_or (some new) old = new

abbrev pub ambiguity_or : Option Ambiguity → Option Ambiguity → Option Ambiguity
ambiguity_or none old = old
ambiguity_or (some new) old = some new

-- The item, with what the ingest step found where the source left it open.
unfoldable pub ingest : {N : Type 0} → Ingested → WorkItem N → WorkItem N
ingest found item = record item {
  acceptance =
      if non_empty item.acceptance
      then item.acceptance
      else old_or found.acceptance item.acceptance;
  ambiguity = ambiguity_or found.ambiguity item.ambiguity;
}

-- The security answer of the plan: "yes" where there is no plan, or no answer in it.
unfoldable pub plan_security : (Text → Option Text) → Option Text → Text
plan_security answer none = codes "yes"
plan_security answer (some plan) = old_or (answer plan) (codes "yes")

module _ {N X : Type 0} (env : Env N X) where
  unfoldable pub before_review : Action N X (Unit {0})
  unfolding count diff_touches_security
  before_review = do
    diff ← call env.adapters.repo_diff
    write_artifact env (codes "patch.diff") diff
    edit_extra (λ extra. record extra {
      diff_files = some (count diff (codes "diff --git "));
      diff_touches_security = some (diff_touches_security diff);
    })

  unfoldable pub after_ingest : Text → Action N X (Unit {0})
  unfolding ingest
  after_ingest text = do
    modify (λ w. record w { item = ingest (env.adapters.parse_ingest text) w.item })
    item ← gets (λ w. w.item)
    write_artifact env (codes "workitem.json") (env.adapters.item_json item)

  unfoldable pub after_planner : Action N X (Unit {0})
  unfolding plan_security
  after_planner = do
    outside ← gets (λ w. w.outside)
    edit_extra (λ extra. record extra {
      section_count = some (length (env.adapters.list_sections outside));
      plan_security = some (
          plan_security env.adapters.security_answer
            (env.adapters.read_file (codes "plan.md") outside));
    })
