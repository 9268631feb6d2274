-- ===== src/Adapters/Markdown/Spans.antt =====
-- The matches of `_INLINE` in a text. Each part of the pattern ends at the first character that it
-- may not hold, so a match is read without going back.
use ticket_bot.Prelude.{
  ℕ, zero, suc, ◌-◌, Bool, false, not, ◌&&◌, Option, none, some, Text, codes, ◌==◌, if◌then◌else◌,
  List, [], ◌∷◌, ◌++◌, length, non_empty, starts_with, drop, is_space,
}
use ticket_bot.Prelude.Trim.{take}
use ticket_bot.Predicate.Lexer.{span}

-- A mark of a text node: `strong`, `em`, `code`, or a link.
pub data Mark : Type 0 where
  link : Text → Mark
  strong em code : Mark

-- A text node with marks, which is what a match becomes.
pub record Inline : Type 0 where
  pub text : Text
  pub marks : List Mark

-- A match, and what follows it.
abbrev pub Found : Type 0
Found = Option (Inline × Text)

abbrev pub marked : Mark → Text → Inline
marked mark text = record { text = text; marks = mark ∷ [] }

-- A non-empty run of `inside`, and `close` behind it.
unfoldable pub closed_run : (ℕ → Bool) → Text → Text → Option (Text × Text)
unfolding span starts_with drop
closed_run inside close s =
    let (body, rest) = span inside s in
    if non_empty body && starts_with rest close then some (body, drop (length close) rest) else none

abbrev pub with_mark : Mark → Option (Text × Text) → Found
with_mark mark none = none
with_mark mark (some (body, rest)) = some (marked mark body, rest)

-- `\*\*(?P<bold>[^*]+)\*\*`
unfoldable pub bold_at : Text → Found
unfolding closed_run starts_with drop
bold_at s =
    if starts_with s (codes "**")
    then with_mark strong (closed_run (λ c. not (c == b'*')) (codes "**") (drop 2 s))
    else none

abbrev pub starts_star : Text → Bool
starts_star [] = false
starts_star (c ∷ _) = c == b'*'

abbrev pub is_star : Option ℕ → Bool
is_star none = false
is_star (some c) = c == b'*'

abbrev pub unless_star_follows : Found → Found
unless_star_follows none = none
unless_star_follows (some (node, rest)) = if starts_star rest then none else some (node, rest)

-- `(?<!\*)\*(?P<italic1>[^*\n]+)\*(?!\*)`, behind the character `before`.
unfoldable pub star_at : Option ℕ → Text → Found
unfolding closed_run drop
star_at before s =
    if not (is_star before) && starts_star s
    then unless_star_follows
        (with_mark em (closed_run (λ c. not (c == b'*') && not (c == 10)) (codes "*") (drop 1 s)))
    else none

-- `_(?P<italic2>[^_\n]+)_`, and the same with back quotes.
unfoldable pub quoted_at : ℕ → Mark → Text → Found
unfolding closed_run starts_with drop
quoted_at quote mark s =
    if starts_with s (quote ∷ [])
    then with_mark mark
        (closed_run (λ c. not (c == quote) && not (c == 10)) (quote ∷ []) (drop 1 s))
    else none

-- The length of `https?://` at the start of a text.
unfoldable pub scheme_length : Text → ℕ
unfolding starts_with
scheme_length s =
    if starts_with s (codes "http://") then 7 else if starts_with s (codes "https://") then 8 else 0

-- `m.group("link_text") or m.group("href")`
abbrev pub link_node : Text → Text → Inline
link_node [] href = marked (link href) href
link_node (c ∷ label) href = marked (link href) (c ∷ label)

abbrev pub linked_to : Text → Text → Option (Text × Text) → Found
linked_to label scheme none = none
linked_to label scheme (some (body, rest)) = some (link_node label (scheme ++ body), rest)

-- `\((?P<href>https?://[^)\s]+)\)`
unfoldable pub target_at : Text → Text → Found
unfolding scheme_length closed_run take drop
target_at label s =
    let n = scheme_length s in
    if n == 0
    then none
    else linked_to label (take n s)
        (closed_run (λ c. not (c == b')') && not (is_space c)) (codes ")") (drop n s))

-- `\[(?P<link_text>[^\]]*)\]` with a target behind it.
unfoldable pub link_at : Text → Found
unfolding target_at starts_with span drop
link_at s =
    let (label, rest) = span (λ c. not (c == b']')) (drop 1 s) in
    if starts_with s (codes "[") && starts_with rest (codes "](")
    then target_at label (drop 2 rest)
    else none

abbrev pub or_try : Found → Found → Found
or_try none second = second
or_try (some found) second = some found

-- The alternatives at a position, in order.
unfoldable pub match_at : Option ℕ → Text → Found
unfolding link_at bold_at star_at quoted_at
match_at before s = or_try (link_at s) (
    or_try (bold_at s)
      (or_try (star_at before s) (or_try (quoted_at b'_' em s) (quoted_at b'`' code s))))

-- A match with its source, or a character outside of every match.
pub data Piece : Type 0 where
  plain : ℕ → Piece
  matched : Inline → Text → Piece

-- `_INLINE.finditer(text)`: `skip` characters belong to the last match.
unfoldable pub pieces_from : Option ℕ → ℕ → Text → List Piece
unfolding match_at take
pieces_from before skip [] = []
pieces_from before (suc skip) (c ∷ s) = pieces_from (some c) skip s
pieces_from before zero (c ∷ s) = elim (match_at before (c ∷ s)) [
  | none ↦ plain c ∷ pieces_from (some c) zero s
  | some (node, rest) ↦
      let n = length s - length rest in matched node (c ∷ take n s) ∷ pieces_from (some c) n s
]

unfoldable pub pieces : Text → List Piece
unfolding pieces_from
pieces s = pieces_from none 0 s

abbrev pub source : Piece → Text
source (plain c) = c ∷ []
source (matched node text) = text

unfoldable pub sources : List Piece → Text
sources [] = []
sources (p ∷ ps) = source p ++ sources ps
