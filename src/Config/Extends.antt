-- ===== src/Config/Extends.antt =====
-- `load_profile_dict` of ticketbot/config/loader.py: the chain of `extends:`. Reading a file and
-- resolving a reference are parameters; a path is its resolved text.
pub mod Ends
use ticket_bot.Prelude.{
  ℕ, zero, suc, Bool, true, false, Option, none, some, Text, codes, text_eq, text_in, if◌then◌else◌,
  List, [], ◌∷◌,
}
use ticket_bot.Prelude.Outcomes.{Outcome, ok, raised, config_error, out_of_fuel, ◌>>=◌}
use ticket_bot.Predicate.Values.{Value, Fields, str, end, field, get_field, Python, truthy}
use ticket_bot.Config.Merge.{deep_merge}

-- What the file system and the profile files answer: `load_yaml`, and `resolve_ref` from the
-- directory of the first path.
pub record Files (N : Type 0) : Type 0 where
  pub load_yaml : Text → Outcome (Fields N)
  pub resolve_ref : Value N → Text → Outcome Text

module _ {N : Type 0} where
  -- `data.pop("extends", None)`, the mapping that is left.
  unfoldable pub without_extends : Fields N → Fields N
  without_extends end = end
  without_extends (field k v fs) =
      if text_eq k (codes "extends") then fs else field k v (without_extends fs)

  module _ (py : Python N) where
    -- `extends_ref` where it is truthy.
    abbrev pub given_ref : Option (Value N) → Option (Value N)
    given_ref none = none
    given_ref (some v) = if truthy py v then some v else none

    -- The mapping of a file with the parent that it extends, which `again` loads.
    abbrev pub with_parent :
        Files N
        → Text
        → Fields N
        → (Text → Outcome (Fields N))
        → Option (Value N)
        → Outcome (Fields N)
    with_parent files path own again none = ok (without_extends own)
    with_parent files path own again (some ref) = do
      parent_path ← files.resolve_ref ref path
      parent ← again parent_path
      ok (deep_merge parent (without_extends own))

    abbrev pub parent_ref : Fields N → Option (Value N)
    parent_ref own = given_ref (get_field (codes "extends") own)

    -- `load_profile_dict`; the fuel bounds the length of the chain.
    unfoldable pub load_profile_dict : Files N → ℕ → Text → List Text → Outcome (Fields N)
    unfolding without_extends truthy
    load_profile_dict files zero path seen = raised out_of_fuel
    load_profile_dict files (suc fuel) path seen =
        if text_in path seen then raised (config_error (codes "extends: cycle detected")) else do
          own ← files.load_yaml path
          with_parent files path own
              (λ parent_path. load_profile_dict files fuel parent_path (path ∷ seen))
              (parent_ref own)
