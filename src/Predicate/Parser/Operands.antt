-- ===== src/Predicate/Parser/Operands.antt =====
-- `_peek`, `_expect_type` and `_parse_operand` of ticketbot/core/predicate.py.
use ticket_bot.Prelude.{
  ℕ, zero, suc, Bool, true, false, ◌&&◌, ◌||◌, Text, text_eq, codes, ◌==◌, if◌then◌else◌, List, [],
  ◌∷◌,
}
use ticket_bot.Prelude.Outcomes.{Outcome, ok, raised, predicate_error, out_of_fuel, ◌>>=◌}
use ticket_bot.Predicate.Values.{Value, Items, Python, null, bool, num, str, list, nil, cons}
use ticket_bot.Predicate.Lexer.{
  TokenType, Token, number, string, ident, op, lparen, rparen, lbracket, rbracket, comma, dot,
  unquote,
}

-- A value that was read, and the tokens that follow it.
abbrev pub Parsed : Type 0 → Type 0
Parsed A = Outcome (A × List Token)

abbrev pub syntax_error : {A : Type 0} → Outcome A
syntax_error = raised (predicate_error (codes "syntax error"))

abbrev kind_code : TokenType → ℕ
kind_code number = 0
kind_code string = 1
kind_code ident = 2
kind_code op = 3
kind_code lparen = 4
kind_code rparen = 5
kind_code lbracket = 6
kind_code rbracket = 7
kind_code comma = 8
kind_code dot = 9

-- `self._peek() is not None and self._peek().type == kind`
unfoldable pub starts : TokenType → List Token → Bool
starts kind [] = false
starts kind (t ∷ _) = kind_code t.kind == kind_code kind

-- `_is_ident`
unfoldable pub is_ident : Text → List Token → Bool
unfolding starts
is_ident word [] = false
is_ident word (t ∷ rest) = starts ident (t ∷ rest) && text_eq t.text word

abbrev pub tail : List Token → List Token
tail [] = []
tail (_ ∷ ts) = ts

-- `_expect_type`
unfoldable pub expect_type : TokenType → List Token → Parsed Token
unfolding starts
expect_type kind [] = syntax_error
expect_type kind (t ∷ rest) = if starts kind (t ∷ rest) then ok (t, rest) else syntax_error

module _ {N : Type 0} (py : Python N) where
  -- What an identifier stands for as an operand: a keyword, or itself as a text.
  unfoldable pub word_value : Text → Value N
  word_value t =
      if text_eq t (codes "true") || text_eq t (codes "yes")
      then bool true
      else if text_eq t (codes "false") || text_eq t (codes "no")
      then bool false
      else if text_eq t (codes "null") || text_eq t (codes "none")
      then null
      else str t

  -- An operand of one token.
  unfoldable pub simple_operand : Token → List Token → TokenType → Parsed (Value N)
  unfolding word_value
  simple_operand t rest number = ok (num (py.of_literal t.text), rest)
  simple_operand t rest string = ok (str (unquote t.text), rest)
  simple_operand t rest ident = ok (word_value t.text, rest)
  simple_operand t rest _ = syntax_error

-- `_parse_operand`, the items of a list and its loop over commas.
unfoldable mutual
  pub parse_operand : {N : Type 0} → Python N → ℕ → List Token → Parsed (Value N)
  parse_operand py zero ts = raised out_of_fuel
  parse_operand py (suc f) [] = syntax_error
  parse_operand py (suc f) (t ∷ rest) =
      let items = do
        (vs, rest') ← list_items py f rest
        (closing, rest'') ← expect_type rbracket rest'
        ok (list vs, rest'')
      in if starts lbracket (t ∷ rest) then items else simple_operand py t rest t.kind

  pub list_items : {N : Type 0} → Python N → ℕ → List Token → Parsed (Items N)
  list_items py zero ts = raised out_of_fuel
  list_items py (suc f) [] = ok (nil, [])
  list_items py (suc f) (t ∷ rest) =
      let items = do
        (v, rest') ← parse_operand py f (t ∷ rest)
        (vs, rest'') ← more_items py f rest'
        ok (cons v vs, rest'')
      in if starts rbracket (t ∷ rest) then ok (nil, t ∷ rest) else items

  pub more_items : {N : Type 0} → Python N → ℕ → List Token → Parsed (Items N)
  more_items py zero ts = raised out_of_fuel
  more_items py (suc f) ts =
      let items = do
        (v, rest') ← parse_operand py f (tail ts)
        (vs, rest'') ← more_items py f rest'
        ok (cons v vs, rest'')
      in if starts comma ts then items else ok (nil, ts)
