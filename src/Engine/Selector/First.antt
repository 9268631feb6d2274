-- ===== src/Engine/Selector/First.antt =====
-- The pipeline of the first rule that holds.
use ticket_bot.Prelude.{
  ◌≡◌, ◌↔◌, refl, subst, Bool, true, false, Text, codes, List, [], ◌∷◌, if◌then◌else◌,
}
use ticket_bot.Prelude.Outcomes.{Outcome, ok, raised, predicate_error, >>=_returns}
use ticket_bot.Predicate.Values.{Value, Python}
use ticket_bot.Predicate.Rules.{evaluate_mapping}
use ticket_bot.Core.WorkItem.{WorkItem, key}
use ticket_bot.Engine.Context.{build_context}
use ticket_bot.Engine.Env.{Profile, SelectorRule}
use ticket_bot.Engine.Selector.{
  Selection, as_config_error, choose, select_from, select, describe_mapping, dummy_run,
}

module _ {N : Type 0} (py : Python N) (context : Value N) (default : Text) where
  -- Which selection a list of rules makes: that of its first rule that holds, with the description of
  -- the rule as the reason, where the rules before it do not hold; the default where none holds.
  pub data Chosen : List (SelectorRule N) → Selection → Type 0 where
    by_default : Chosen [] (record { ref = default; reason = codes "default" })
    by_first :
        (rule : SelectorRule N) (rules : List (SelectorRule N)) (reason : Text)
        → evaluate_mapping py rule.condition context ≡ ok true
        → describe_mapping py rule.condition ≡ ok reason
        → Chosen (rule ∷ rules) (record { ref = rule.use_ref; reason = reason })
    by_later :
        (rule : SelectorRule N) (rules : List (SelectorRule N)) (selection : Selection)
        → evaluate_mapping py rule.condition context ≡ ok false
        → Chosen rules selection
        → Chosen (rule ∷ rules) selection

as_config_error-ok : (r : Outcome Bool) {b : Bool} → as_config_error r ≡ ok b → r ≡ ok b
unfolding as_config_error
as_config_error-ok (ok b) h = h
as_config_error-ok (raised (predicate_error m)) h = cc
as_config_error-ok (raised e) h = cc

ok-injective : {A : Type 0} {a b : A} → Outcome.ok a ≡ ok b → a ≡ b
ok-injective h = cc

module _ {N : Type 0} (py : Python N) (context : Value N) (default : Text) where
  choose-Chosen :
      (rule : SelectorRule N) (rules : List (SelectorRule N)) (selection : Selection)
      → evaluate_mapping py rule.condition context ≡ ok true
      → choose py rule ≡ ok selection
      → Chosen py context default (rule ∷ rules) selection
  choose-Chosen rule rules selection held h =
      let (reason, described, made) = >>=_returns (describe_mapping py rule.condition) _ h in
      subst (Chosen py context default (rule ∷ rules)) (ok-injective made)
        (by_first rule rules reason held described)

  select_from-Chosen :
      (rules : List (SelectorRule N)) (selection : Selection)
      → select_from py context default rules ≡ ok selection
      → Chosen py context default rules selection
  unfolding select_from
  select_from-Chosen [] selection h =
      subst (Chosen py context default []) (ok-injective h) by_default
  select_from-Chosen (rule ∷ rules) selection h =
      let others = select_from-Chosen rules selection in
      let (matched, e, k) =
        >>=_returns (as_config_error (evaluate_mapping py rule.condition context)) _ h in
      split matched (as_config_error-ok _ e) k others
    where
      split :
          (b : Bool)
          → evaluate_mapping py rule.condition context ≡ ok b
          → (if b then choose py rule else select_from py context default rules) ≡ ok selection
          → (select_from py context default rules ≡ ok selection
              → Chosen py context default rules selection)
          → Chosen py context default (rule ∷ rules) selection
      split true held k others = choose-Chosen rule rules selection held k
      split false held k others = by_later rule rules selection held (others k)

  Chosen-select_from :
      (rules : List (SelectorRule N)) (selection : Selection)
      → Chosen py context default rules selection
      → select_from py context default rules ≡ ok selection
  unfolding select_from as_config_error
  Chosen-select_from _ _ by_default = refl
  Chosen-select_from _ _ (by_first rule rules reason held described) = rw (held, described)
  Chosen-select_from _ _ (by_later rule rules selection held later) =
      rw (held, Chosen-select_from rules selection later)

-- The selection is that of the first rule whose `when` mapping holds in the item's context, with the
-- rule's description as the reason, and the default where no rule holds; and this is the only way to
-- a selection.
pub select-Chosen_iff :
    {N : Type 0} (py : Python N) (profile : Profile N) (item : WorkItem N) (selection : Selection)
    → (select py profile item ≡ ok selection)
      ↔ Chosen py
          (build_context py item (dummy_run profile.name (key item)))
          profile.selector_default
          profile.selector_rules
          selection
unfolding select
select-Chosen_iff py profile item selection = (
  select_from-Chosen py _ profile.selector_default profile.selector_rules selection,
  Chosen-select_from py _ profile.selector_default profile.selector_rules selection,
)
