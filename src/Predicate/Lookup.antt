-- ===== src/Predicate/Lookup.antt =====
-- `_lookup_path` of ticketbot/core/predicate.py.
use ticket_bot.Prelude.{Option, none, some, Text, List, [], ◌∷◌, split_on}
use ticket_bot.Predicate.Values.{Value, Python, missing, dict, get_field}

module _ {N : Type 0} where
  -- One hop: a mapping is asked for its key, anything else for its attribute.
  unfoldable pub hop : Python N → Value N → Text → Option (Value N)
  hop py (dict fs) part = get_field part fs
  hop py v part = py.attribute v part

  unfoldable pub walk : Python N → Value N → List Text → Value N
  unfolding hop
  walk py current [] = current
  walk py missing (part ∷ parts) = missing
  walk py current (part ∷ parts) = elim (hop py current part) [
    | none ↦ missing
    | some next ↦ walk py next parts
  ]

  unfoldable pub lookup_path : Python N → Value N → Text → Value N
  unfolding walk
  lookup_path py context dotted = walk py context (split_on b'.' dotted)
