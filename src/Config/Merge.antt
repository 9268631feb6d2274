-- ===== src/Config/Merge.antt =====
-- `deep_merge` of ticketbot/config/loader.py.
pub mod Lookup
use ticket_bot.Prelude.{Bool, true, false, Option, none, some, Text, text_eq, if◌then◌else◌}
use ticket_bot.Predicate.Values.{Value, Fields, dict, end, field, get_field}

module _ {N : Type 0} where
  -- `d[k] = v`: an old key keeps its place.
  unfoldable pub set_field : Text → Value N → Fields N → Fields N
  set_field k v end = field k v end
  set_field k v (field j w fs) = if text_eq j k then field j v fs else field j w (set_field k v fs)

-- `merge_value` is what the loop stores for a key, by the value of the base.
unfoldable mutual
  unfolding get_field set_field

  pub deep_merge : {N : Type 0} → Fields N → Fields N → Fields N
  deep_merge base end = base
  deep_merge base (field k v rest) =
      deep_merge (set_field k (merge_value (get_field k base) v) base) rest

  pub merge_value : {N : Type 0} → Option (Value N) → Value N → Value N
  merge_value (some (dict base)) (dict override) = dict (deep_merge base override)
  merge_value base v = v
