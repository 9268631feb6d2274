-- ===== src/Predicate/Lexer.antt =====
-- The tokenizer of ticketbot/core/predicate.py, on ASCII text: `_tokenize`, `_unquote`.
pub mod Total
use ticket_bot.Prelude.{
  ℕ, zero, suc, ◌+◌, Bool, true, false, ◌&&◌, ◌||◌, Option, none, some, Text, text_eq, codes, leb,
  ◌==◌, if◌then◌else◌, is_space, List, [], ◌∷◌, ◌++◌, length,
}
use ticket_bot.Prelude.Outcomes.{Outcome, ok, raised, predicate_error, out_of_fuel, ◌>>=◌}

pub data TokenType : Type 0 where
  number string ident op lparen rparen lbracket rbracket comma dot : TokenType

pub record Token : Type 0 where
  pub kind : TokenType
  pub text : Text
  pub at : ℕ

-- The character tests of Python, for ASCII.
abbrev pub is_digit : ℕ → Bool
is_digit c = leb 48 c && leb c 57

abbrev pub is_alpha : ℕ → Bool
is_alpha c = (leb 65 c && leb c 90) || (leb 97 c && leb c 122)

abbrev pub is_word : ℕ → Bool
is_word c = c == b'_' || (is_alpha c || is_digit c)

-- A piece that was read, and what follows it.
abbrev pub Piece : Type 0
Piece = Text × Text

abbrev pub put_first : ℕ → Piece → Piece
put_first c (piece, rest) = (c ∷ piece, rest)

-- `while j < n and test(expr[j]): j += 1`
unfoldable pub span : (ℕ → Bool) → Text → Piece
span test [] = ([], [])
span test (c ∷ s) = let more = put_first c (span test s) in if test c then more else ([], c ∷ s)

abbrev pub starts_digit : Text → Bool
starts_digit [] = false
starts_digit (c ∷ s) = is_digit c

abbrev pub join_pieces : Text → Piece → Piece
join_pieces a (b, rest) = (a ++ b, rest)

-- The fraction of a number: a dot with a digit behind it.
unfoldable pub fraction : Text → Piece
unfolding span
fraction [] = ([], [])
fraction (c ∷ s) =
    if c == b'.' && starts_digit s then put_first c (span is_digit s) else ([], c ∷ s)

abbrev pub add_fraction : Piece → Piece
unfolding fraction
add_fraction (digits, rest) = join_pieces digits (fraction rest)

-- What follows the first character of a number.
unfoldable pub number_tail : Text → Piece
unfolding add_fraction fraction span
number_tail s = add_fraction (span is_digit s)

-- What follows the opening quote, the closing one included; `none` where it is not closed.
unfoldable pub string_tail : ℕ → Text → Option Piece
string_tail q [] = none
string_tail q (c ∷ []) = if c == q then some (c ∷ [], []) else none
string_tail q (c ∷ d ∷ s) = elim (c == q) [
  | true ↦ some (c ∷ [], d ∷ s)
  | false ↦ elim (c == 92) [
    | true ↦ elim (string_tail q s) [ none ↦ none | some p ↦ some (put_first c (put_first d p)) ]
    | false ↦ elim (string_tail q (d ∷ s)) [ none ↦ none | some p ↦ some (put_first c p) ]
  ]
]

-- `expr[i : i + 2] in ("==", "!=", "<=", ">=")`
unfoldable pub is_two : ℕ → Text → Bool
is_two c [] = false
is_two c (d ∷ s) = d == b'=' && (c == b'=' || c == b'!' || c == b'<' || c == b'>')

abbrev pub first_of_text : Text → Text
first_of_text [] = []
first_of_text (d ∷ s) = d ∷ []

abbrev pub rest_of_text : Text → Text
rest_of_text [] = []
rest_of_text (d ∷ s) = s

-- The kinds of the tokens of one character.
unfoldable pub single : ℕ → Option TokenType
single c =
    if c == b'<' || c == b'>'
    then some op
    else if c == b'('
    then some lparen
    else if c == b')'
    then some rparen
    else if c == b'['
    then some lbracket
    else if c == b']'
    then some rbracket
    else if c == b','
    then some comma
    else if c == b'.'
    then some dot
    else none

-- A lexeme: its kind, or `none` for white space, its text and what follows.
abbrev pub Lexeme : Type 0
Lexeme = Option TokenType × Text × Text

abbrev pub of_piece : TokenType → ℕ → Piece → Lexeme
of_piece kind c (piece, rest) = (some kind, c ∷ piece, rest)

abbrev pub starts_number : ℕ → Text → Bool
starts_number c s = is_digit c || (c == b'-' && starts_digit s)

unfoldable pub of_string : ℕ → Option Piece → Outcome Lexeme
of_string c none = raised (predicate_error (codes "unterminated string"))
of_string c (some p) = ok (of_piece string c p)

unfoldable pub of_single : ℕ → Text → Option TokenType → Outcome Lexeme
unfolding span
of_single c s (some kind) = ok (some kind, c ∷ [], s)
of_single c s none =
    if c == b'_' || is_alpha c
    then ok (of_piece ident c (span is_word s))
    else raised (predicate_error (codes "unexpected character"))

-- One round of the loop of `_tokenize`, at the character `c` with `s` behind it.
unfoldable pub lexeme : ℕ → Text → Outcome Lexeme
unfolding number_tail string_tail is_two single of_string of_single
lexeme c s =
    if is_space c
    then ok (none, c ∷ [], s)
    else if starts_number c s
    then ok (of_piece number c (number_tail s))
    else if c == 39 || c == 34
    then of_string c (string_tail c s)
    else if is_two c s
    then ok (some op, c ∷ first_of_text s, rest_of_text s)
    else of_single c s (single c)

abbrev pub add_token : Option TokenType → Text → ℕ → List Token → List Token
add_token none text at tokens = tokens
add_token (some kind) text at tokens = record { kind = kind; text = text; at = at } ∷ tokens

-- The loop, with a unit of fuel for each lexeme.
unfoldable pub tokenize_from : ℕ → ℕ → Text → Outcome (List Token)
unfolding lexeme
tokenize_from fuel at [] = ok []
tokenize_from zero at (c ∷ s) = raised out_of_fuel
tokenize_from (suc fuel) at (c ∷ s) = do
  (kind, text, rest) ← lexeme c s
  tokens ← tokenize_from fuel (at + length text) rest
  ok (add_token kind text at tokens)

unfoldable pub tokenize : Text → Outcome (List Token)
unfolding tokenize_from
tokenize expr = tokenize_from (length expr) 0 expr

unfoldable pub unescape : Text → Text
unescape [] = []
unescape (c ∷ []) = c ∷ []
unescape (c ∷ d ∷ s) = elim (c == 92) [ true ↦ d ∷ unescape s | false ↦ c ∷ unescape (d ∷ s) ]

-- `s[:-1]`
unfoldable pub drop_last : Text → Text
drop_last [] = []
drop_last (c ∷ []) = []
drop_last (c ∷ d ∷ s) = c ∷ drop_last (d ∷ s)

-- `_unquote`
unfoldable pub unquote : Text → Text
unfolding unescape drop_last
unquote literal = unescape (drop_last (rest_of_text literal))
