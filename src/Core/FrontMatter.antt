-- ===== src/Core/FrontMatter.antt =====
-- The front matter of a file, as ticketbot/adapters/sources/file.py and `_load_role_prompt` of
-- ticketbot/engine/orchestrator.py cut it off, and the first heading of a text.
use ticket_bot.Prelude.{
  ℕ, Bool, true, false, ◌||◌, Option, none, some, Text, codes, text_eq, ◌==◌, List, [], ◌∷◌, join,
  split_on, strip, starts_with, non_empty,
}
use ticket_bot.Prelude.Trim.{drop_while}
use ticket_bot.Prelude.Outcomes.{Outcome, ok, raised, yaml_error, ◌>>=◌}
use ticket_bot.Predicate.Values.{shown, Value, Python, dict, get_field, truthy}

unfoldable pub is_dashes : Text → Bool
unfolding strip text_eq
is_dashes l = text_eq (strip l) (codes "---")

-- The lines up to the first that closes the block, and those behind it.
unfoldable pub cut_at_dashes : List Text → Option (List Text × List Text)
unfolding is_dashes
cut_at_dashes [] = none
cut_at_dashes (l ∷ ls) = elim (is_dashes l) [
  | true ↦ some ([], ls)
  | false ↦ elim (cut_at_dashes ls) [ none ↦ none | some (block, rest) ↦ some (l ∷ block, rest) ]
]

-- The text of the block behind the first line, and the body.
unfoldable pub front_matter : List Text → Option (Text × Text)
unfolding cut_at_dashes join drop_while
front_matter [] = none
front_matter (first ∷ ls) = elim (cut_at_dashes ls) [
  | none ↦ none
  | some (block, rest) ↦
      some (join (10 ∷ []) block, drop_while (λ c. c == 10) (join (10 ∷ []) rest))
]

abbrev pub is_blank : ℕ → Bool
is_blank c = c == 32 || c == 9

-- `^#[ \t]+(.+?)[ \t]*$` on a line, with the group stripped; of blanks alone two are needed.
unfoldable pub heading_text : Text → Option Text
unfolding strip drop_while
heading_text [] = none
heading_text (c ∷ []) = none
heading_text (c ∷ d ∷ s) = elim (c == b'#') [
  | false ↦ none
  | true ↦ elim (is_blank d) [
    | false ↦ none
    | true ↦ elim (non_empty s) [ true ↦ some (strip s) | false ↦ none ]
  ]
]

-- `_HEADING_RE.search(text)` on the lines of the text.
unfoldable pub first_heading : List Text → Option Text
unfolding heading_text
first_heading [] = none
first_heading (l ∷ ls) = elim (heading_text l) [ none ↦ first_heading ls | some t ↦ some t ]

-- `_section_title` of a file with that text and stem.
unfoldable pub section_title : Text → Option Text → Text
unfolding first_heading split_on
section_title stem none = stem
section_title stem (some text) = elim (first_heading (split_on 10 text)) [
  | none ↦ stem
  | some title ↦ title
]

module _ {N : Type 0} (py : Python N) (safe_load : Text → Outcome (Value N)) (default : Text) where
  abbrev pub system_or_default : Option (Value N) → Text
  unfolding truthy
  system_or_default none = default
  system_or_default (some v) = elim (truthy py v) [ true ↦ shown py v | false ↦ default ]

  -- `except yaml.YAMLError` leaves the default; another exception passes.
  abbrev pub system_of : Outcome (Value N) → Outcome Text
  unfolding system_or_default get_field
  system_of (ok (dict fs)) = ok (system_or_default (get_field (codes "system") fs))
  system_of (ok _) = ok default
  system_of (raised (yaml_error m)) = ok default
  system_of (raised e) = raised e

  -- `_load_role_prompt`: the system prompt and the body.
  unfoldable pub load_role_prompt : Text → Outcome (Text × Text)
  unfolding front_matter system_of split_on starts_with
  load_role_prompt raw = elim (starts_with raw (codes "---")) [
    | false ↦ ok (default, raw)
    | true ↦ elim (front_matter (split_on 10 raw)) [
      | none ↦ ok (default, raw)
      | some (block, body) ↦ system_of (safe_load block) >>= λ system. ok (system, body)
    ]
  ]
