-- ===== src/Predicate/Parser.antt =====
-- The recursive-descent parser of ticketbot/core/predicate.py, class `_Parser`. The tokens that are
-- left stand for `_pos`, and the argument `depth` for `_depth`.
pub mod Operands
pub mod Reads
pub mod Total
use ticket_bot.Prelude.{
  ℕ, zero, suc, ◌+◌, ◌*◌, Bool, true, false, ◌&&◌, ◌≡◌, Option, none, some, Text, text_eq, codes,
  leb, if◌then◌else◌, List, [], ◌∷◌, length, join,
}
use ticket_bot.Prelude.Outcomes.{Outcome, ok, raised, predicate_error, out_of_fuel, ◌>>=◌}
use ticket_bot.Predicate.Values.{Value, Python}
use ticket_bot.Predicate.Compare.{Op}
use ticket_bot.Predicate.Nodes.{Node, or, and, negate, holds, empty, compare}
use ticket_bot.Predicate.Lexer.{TokenType, Token, ident, op, lparen, rparen, dot}
use Operands.{Parsed, starts, is_ident, tail, expect_type, syntax_error, parse_operand}

abbrev pub max_depth : ℕ
max_depth = 20

-- `_SYMBOL_OPS`
unfoldable pub symbol_op : Text → Option Op
symbol_op t =
    if text_eq t (codes "==")
    then some Op.eq
    else if text_eq t (codes "!=")
    then some Op.ne
    else if text_eq t (codes "<")
    then some Op.lt
    else if text_eq t (codes "<=")
    then some Op.lte
    else if text_eq t (codes ">")
    then some Op.gt
    else if text_eq t (codes ">=")
    then some Op.gte
    else none

-- `_KEYWORD_OPS`, and `in`.
unfoldable pub keyword_op : Text → Option Op
keyword_op t =
    if text_eq t (codes "eq")
    then some Op.eq
    else if text_eq t (codes "ne")
    then some Op.ne
    else if text_eq t (codes "lt")
    then some Op.lt
    else if text_eq t (codes "lte")
    then some Op.lte
    else if text_eq t (codes "gt")
    then some Op.gt
    else if text_eq t (codes "gte")
    then some Op.gte
    else if text_eq t (codes "contains")
    then some Op.contains
    else if text_eq t (codes "in")
    then some Op.is_in
    else none

unfoldable pub after_not : Token → List Token → Option Op × List Token
after_not t rest =
    if text_eq t.text (codes "not") && is_ident (codes "in") rest
    then (some Op.not_in, tail rest)
    else (none, t ∷ rest)

unfoldable pub word_op : Token → List Token → Option Op → Option Op × List Token
word_op t rest (some o) = (some o, rest)
word_op t rest none = after_not t rest

unfoldable pub symbol_or_none : Token → List Token → Option Op → Option Op × List Token
symbol_or_none t rest (some o) = (some o, rest)
symbol_or_none t rest none = (none, t ∷ rest)

unfoldable pub op_of_kind : Token → List Token → TokenType → Option Op × List Token
unfolding word_op symbol_or_none after_not
op_of_kind t rest op = symbol_or_none t rest (symbol_op t.text)
op_of_kind t rest ident = word_op t rest (keyword_op t.text)
op_of_kind t rest _ = (none, t ∷ rest)

-- `_try_parse_op`
unfoldable pub try_parse_op : List Token → Option Op × List Token
unfolding op_of_kind
try_parse_op [] = (none, [])
try_parse_op (t ∷ rest) = op_of_kind t rest t.kind

abbrev pub put_part : Text → Parsed (List Text) → Parsed (List Text)
put_part part (ok (parts, rest)) = ok (part ∷ parts, rest)
put_part part (raised e) = raised e

-- The loop of `_parse_path`: each dot wants an identifier behind it.
unfoldable pub path_tail : List Token → Parsed (List Text)
path_tail [] = ok ([], [])
path_tail (t ∷ []) = if starts dot (t ∷ []) then syntax_error else ok ([], t ∷ [])
path_tail (t ∷ u ∷ rest) =
    let next = put_part u.text (path_tail rest) in
    if starts dot (t ∷ [])
    then (if starts ident (u ∷ []) then next else syntax_error)
    else ok ([], t ∷ u ∷ rest)

-- `_parse_path`
unfoldable pub parse_path : List Token → Parsed Text
unfolding path_tail
parse_path ts = do
  (first, rest) ← expect_type ident ts
  (parts, rest') ← path_tail rest
  ok (join (b'.' ∷ []) (first.text ∷ parts), rest')

module _ {N : Type 0} (py : Python N) where
  unfoldable pub finish_comparison : Text → Option Op × List Token → Parsed (Node N)
  finish_comparison path (none, rest) = ok (holds path, rest)
  finish_comparison path (some o, rest) = do
    (operand, rest') ← parse_operand py (2 * length rest + 1) rest
    ok (compare path o operand, rest')

  -- What follows `is`.
  unfoldable pub parse_empty : Text → List Token → Parsed (Node N)
  parse_empty path rest =
      let negated = is_ident (codes "not") rest in
      let at = if negated then tail rest else rest in
      if is_ident (codes "empty") at then ok (empty path negated, tail at) else syntax_error

  -- `_parse_comparison`
  unfoldable pub parse_comparison : List Token → Parsed (Node N)
  unfolding parse_path finish_comparison parse_empty
  parse_comparison ts = do
    (path, rest) ← parse_path ts
    if is_ident (codes "is") rest
        then parse_empty path (tail rest)
        else finish_comparison path (try_parse_op rest)

-- Each call costs a unit of fuel, since what a call leaves is not a structural part of its tokens.
unfoldable mutual
  pub parse_expr : {N : Type 0} → Python N → ℕ → ℕ → List Token → Parsed (Node N)
  parse_expr py zero depth ts = raised out_of_fuel
  parse_expr py (suc f) depth ts =
      let inner = parse_or py f (suc depth) ts in
      if leb max_depth depth then syntax_error else inner

  pub parse_or : {N : Type 0} → Python N → ℕ → ℕ → List Token → Parsed (Node N)
  parse_or py zero depth ts = raised out_of_fuel
  parse_or py (suc f) depth ts = do
    (left, rest) ← parse_and py f depth ts
    or_loop py f depth left rest

  pub or_loop : {N : Type 0} → Python N → ℕ → ℕ → Node N → List Token → Parsed (Node N)
  or_loop py zero depth left ts = raised out_of_fuel
  or_loop py (suc f) depth left ts =
      let more = do
        (right, rest) ← parse_and py f depth (tail ts)
        or_loop py f depth (or left right) rest
      in if is_ident (codes "or") ts then more else ok (left, ts)

  pub parse_and : {N : Type 0} → Python N → ℕ → ℕ → List Token → Parsed (Node N)
  parse_and py zero depth ts = raised out_of_fuel
  parse_and py (suc f) depth ts = do
    (left, rest) ← parse_not py f depth ts
    and_loop py f depth left rest

  pub and_loop : {N : Type 0} → Python N → ℕ → ℕ → Node N → List Token → Parsed (Node N)
  and_loop py zero depth left ts = raised out_of_fuel
  and_loop py (suc f) depth left ts =
      let more = do
        (right, rest) ← parse_not py f depth (tail ts)
        and_loop py f depth (and left right) rest
      in if is_ident (codes "and") ts then more else ok (left, ts)

  pub parse_not : {N : Type 0} → Python N → ℕ → ℕ → List Token → Parsed (Node N)
  parse_not py zero depth ts = raised out_of_fuel
  parse_not py (suc f) depth ts =
      let operand = do (node, rest) ← parse_not py f (suc depth) (tail ts); ok (negate node, rest)
      in let primary = parse_primary py f depth ts in
        if is_ident (codes "not") ts
        then (if leb max_depth depth then syntax_error else operand)
        else primary

  pub parse_primary : {N : Type 0} → Python N → ℕ → ℕ → List Token → Parsed (Node N)
  parse_primary py zero depth ts = raised out_of_fuel
  parse_primary py (suc f) depth ts =
      let group = do
        (node, rest) ← parse_expr py f depth (tail ts)
        (closing, rest') ← expect_type rparen rest
        ok (node, rest')
      in if starts lparen ts then group else parse_comparison py ts

unfoldable pub no_more : {N : Type 0} → Node N → List Token → Outcome (Node N)
no_more node [] = ok node
no_more node (_ ∷ _) = raised (predicate_error (codes "unexpected token"))

-- `parse`, on the fuel that the number of tokens asks for.
unfoldable pub parse : {N : Type 0} → Python N → List Token → Outcome (Node N)
unfolding no_more
parse py ts = do (node, rest) ← parse_expr py (6 * length ts + 6) 0 ts; no_more node rest
