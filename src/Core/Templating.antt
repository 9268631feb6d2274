-- ===== src/Core/Templating.antt =====
-- ticketbot/core/templating.py: brace-safe placeholders, on ASCII names.
pub mod Escape
pub mod Missing
use ticket_bot.Prelude.{
  ℕ, zero, suc, ◌+◌, Bool, true, false, not, ◌&&◌, ◌||◌, Option, none, some, Text, codes, text_eq,
  ◌==◌, if◌then◌else◌, split_on, join, text_in, non_empty, List, [], ◌∷◌, ◌++◌, length, is_some,
}
use ticket_bot.Predicate.Values.{str_items, Value, Items, Python, null, list, nil, cons}
use ticket_bot.Predicate.Lexer.{is_word, is_alpha, span}
use ticket_bot.Predicate.Lookup.{hop}

-- A match of PLACEHOLDER, or a character that is part of none.
pub data Piece : Type 0 where
  plain : ℕ → Piece
  open_brace close_brace : Piece
  hole : Text → Piece

abbrev pub brace_open : ℕ
brace_open = 123

abbrev pub brace_close : ℕ
brace_close = 125

abbrev pub is_dotted_char : ℕ → Bool
is_dotted_char c = is_word c || c == b'.'

unfoldable pub all_non_empty : List Text → Bool
all_non_empty [] = true
all_non_empty (p ∷ ps) = non_empty p && all_non_empty ps

abbrev pub starts_name : Text → Bool
starts_name [] = false
starts_name (c ∷ _) = is_alpha c || c == b'_'

-- `[a-zA-Z_][a-zA-Z0-9_]*(?:\.[a-zA-Z0-9_]+)*` on a text of word characters and dots.
unfoldable pub is_dotted : Text → Bool
unfolding all_non_empty
is_dotted body = starts_name body && all_non_empty (split_on b'.' body)

abbrev pub closes : Text → Bool
closes [] = false
closes (c ∷ _) = c == brace_close

-- The name in the braces behind a `{`.
abbrev pub name_in : Text × Text → Option Text
name_in (body, rest) = if closes rest && is_dotted body then some body else none

abbrev pub starts_code : ℕ → Text → Bool
starts_code c [] = false
starts_code c (d ∷ _) = d == c

abbrev pub hole_or_plain : Option Text → Piece × ℕ
hole_or_plain none = (plain brace_open, 0)
hole_or_plain (some body) = (hole body, suc (length body))

-- The piece at a position, and how many characters more it takes.
unfoldable pub piece_at : ℕ → Text → Piece × ℕ
unfolding is_dotted
piece_at c s =
    if c == brace_open
    then (if starts_code brace_open s
        then (open_brace, 1)
        else hole_or_plain (name_in (span is_dotted_char s)))
    else if c == brace_close && starts_code brace_close s
    then (close_brace, 1)
    else (plain c, 0)

-- `PLACEHOLDER.finditer`, with what stands between the matches.
unfoldable pub pieces_from : ℕ → Text → List Piece
pieces_from skip [] = []
pieces_from (suc skip) (c ∷ s) = pieces_from skip s
pieces_from zero (c ∷ s) = let (piece, more) = piece_at c s in piece ∷ pieces_from more s

unfoldable pub pieces : Text → List Piece
unfolding pieces_from
pieces template = pieces_from 0 template

module _ {N : Type 0} (py : Python N) where
  -- `_lookup_raw`, with `none` for `_MISSING`.
  unfoldable pub lookup_parts : Value N → List Text → Option (Value N)
  lookup_parts current [] = some current
  lookup_parts current (part ∷ parts) = elim (hop py current part) [
    | none ↦ none
    | some next ↦ lookup_parts next parts
  ]

  unfoldable pub lookup_raw : Value N → Text → Option (Value N)
  unfolding lookup_parts
  lookup_raw values dotted = lookup_parts values (split_on b'.' dotted)

  -- `_format_value`
  unfoldable pub format_value : Value N → Text
  unfolding str_items
  format_value null = []
  format_value (list items) = join (codes ", ") (str_items py items)
  format_value v = py.str_of v

  abbrev pub fill : Text → Option (Value N) → Text
  fill dotted none = (brace_open ∷ dotted) ++ (brace_close ∷ [])
  fill dotted (some v) = format_value v

  -- `_sub`
  unfoldable pub render_piece : Value N → Piece → Text
  unfolding lookup_raw format_value
  render_piece values (plain c) = c ∷ []
  render_piece values open_brace = brace_open ∷ []
  render_piece values close_brace = brace_close ∷ []
  render_piece values (hole dotted) = fill dotted (lookup_raw values dotted)

  unfoldable pub render_pieces : Value N → List Piece → Text
  unfolding render_piece
  render_pieces values [] = []
  render_pieces values (p ∷ ps) = render_piece values p ++ render_pieces values ps

  -- `render`
  unfoldable pub render : Text → Value N → Text
  unfolding render_pieces pieces
  render template values = render_pieces values (pieces template)

  -- The loop of `missing_placeholders`; `seen` holds the names that are listed.
  unfoldable pub missing_from : Value N → List Text → List Piece → List Text
  unfolding lookup_raw
  missing_from values seen [] = []
  missing_from values seen (hole dotted ∷ ps) =
      let skipped = missing_from values seen ps in
      let listed = dotted ∷ missing_from values (dotted ∷ seen) ps in
      if text_in dotted seen
      then skipped
      else if is_some (lookup_raw values dotted)
      then skipped
      else listed
  missing_from values seen (_ ∷ ps) = missing_from values seen ps

  -- `missing_placeholders`
  unfoldable pub missing_placeholders : Text → Value N → List Text
  unfolding missing_from pieces
  missing_placeholders template values = missing_from values [] (pieces template)
