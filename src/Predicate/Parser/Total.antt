-- ===== src/Predicate/Parser/Total.antt =====
-- The parser ends within its fuel, and its tree is bounded by the tokens and by MAX_DEPTH.
use ticket_bot.Prelude.{
  ℕ, zero, suc, ◌+◌, ◌*◌, ◌≤◌, ◌<◌, ◌≡◌, ◌≢◌, Bool, true, false, Text, if◌then◌else◌, List, [], ◌∷◌,
  length, arith, leb, Option, none, some, max, codes,
}
use ticket_bot.Prelude.Outcomes.{Exn, Outcome, ok, raised, out_of_fuel, ◌>>=◌}
use ticket_bot.Predicate.Values.{Python}
use ticket_bot.Predicate.Compare.{Op}
use ticket_bot.Predicate.Nodes.{Node, or, and, negate, holds, empty, compare}
use ticket_bot.Predicate.Lexer.{TokenType, Token, lparen, rparen, ident, dot}
use ticket_bot.Predicate.Parser.Operands.{Parsed, starts, is_ident, tail, syntax_error}
use ticket_bot.Predicate.Parser.Reads.{
  Reads, reads, rejected, Reads-error, Reads-if, Reads-unless, Reads-weaken, Reads-bind, Shorter,
  NoLonger, starts-tail, is_ident-tail, tail-le, expect_type-Reads, parse_operand-Reads,
}
use ticket_bot.Predicate.Parser.{
  max_depth, try_parse_op, op_of_kind, word_op, symbol_or_none, symbol_op, keyword_op, path_tail,
  put_part, parse_path, finish_comparison, parse_empty, parse_comparison, parse_expr, parse_or,
  or_loop, parse_and, and_loop, parse_not, parse_primary, no_more, parse,
}

-- The nodes of a tree, and how deep its negations are nested.
abbrev pub nodes : {N : Type 0} → Node N → ℕ
nodes (or a b) = suc (nodes a + nodes b)
nodes (and a b) = suc (nodes a + nodes b)
nodes (negate a) = suc (nodes a)
nodes (holds path) = 1
nodes (empty path negated) = 1
nodes (compare path o operand) = 1

abbrev pub negations : {N : Type 0} → Node N → ℕ
negations (or a b) = max (negations a) (negations b)
negations (and a b) = max (negations a) (negations b)
negations (negate a) = suc (negations a)
negations (holds path) = 0
negations (empty path negated) = 0
negations (compare path o operand) = 0

-- The tree has no more nodes than it took tokens, and fits in the depth that is left.
abbrev Fits : {N : Type 0} → ℕ → ℕ → Node N → List Token → Type 0
Fits size depth n rest = (nodes n + length rest ≤ size) × (negations n + depth ≤ max_depth)

put_part-Reads :
    (part : Text) (ts ts' : List Token) {r : Parsed (List Text)}
    → length ts ≤ length ts'
    → Reads (NoLonger ts) r
    → Reads (NoLonger ts') (put_part part r)
put_part-Reads part ts ts' le (reads h) = reads (omega arith)
put_part-Reads part ts ts' le (rejected h) = rejected h

path_tail-Reads : (ts : List Token) → Reads (NoLonger ts) (path_tail ts)
unfolding path_tail
path_tail-Reads [] = reads (omega arith)
path_tail-Reads (t ∷ []) = Reads-if (starts dot (t ∷ [])) (λ _. Reads-error) (reads (omega arith))
path_tail-Reads (t ∷ u ∷ rest) =
    Reads-if (starts dot (t ∷ []))
      (λ _.
        Reads-if (starts ident (u ∷ []))
          (λ _. put_part-Reads u.text rest (t ∷ u ∷ rest) (omega arith) (path_tail-Reads rest))
          Reads-error)
      (reads (omega arith))

parse_path-Reads : (ts : List Token) → Reads (Shorter ts) (parse_path ts)
unfolding parse_path
parse_path-Reads ts =
    Reads-bind _ (expect_type-Reads ident ts)
      λ first rest p. Reads-bind _ (path_tail-Reads rest) λ parts rest' q. reads (omega arith)

try_parse_op-le : (ts : List Token) → length (try_parse_op ts).1 ≤ length ts
unfolding try_parse_op
try_parse_op-le [] = omega arith
try_parse_op-le (t ∷ rest) = kinds t.kind
  where
    by_symbol : (o : Option Op) → length (symbol_or_none t rest o).1 ≤ suc (length rest)
    by_symbol none = omega arith
    by_symbol (some o) = omega arith

    by_not :
        (b : Bool)
        → length
            (if◌then◌else◌ {A = Option Op × List Token} b
              (some Op.not_in, tail rest)
              (none, t ∷ rest)).1
          ≤ suc (length rest)
    by_not true = omega (arith, tail-le rest)
    by_not false = omega arith

    by_word : (o : Option Op) → length (word_op t rest o).1 ≤ suc (length rest)
    by_word none = by_not _
    by_word (some o) = omega arith

    kinds : (k : TokenType) → length (op_of_kind t rest k).1 ≤ suc (length rest)
    kinds TokenType.op = by_symbol (symbol_op t.text)
    kinds TokenType.ident = by_word (keyword_op t.text)
    kinds _ = omega arith

module _ {N : Type 0} (py : Python N) (depth : ℕ) (deep : depth ≤ max_depth) where
  finish_comparison-Reads :
      (path : Text) (size : ℕ) (o : Option Op) (rest : List Token)
      → suc (length rest) ≤ size
      → Reads (Fits size depth) (finish_comparison py path (o, rest))
  unfolding finish_comparison
  finish_comparison-Reads path size none rest h = reads (omega arith, omega arith)
  finish_comparison-Reads path size (some o) rest h =
      Reads-bind _ (parse_operand-Reads py (2 * length rest + 1) rest (omega arith))
        λ v rest' p. reads (omega arith, omega arith)

  parse_empty-Reads :
      (path : Text) (size : ℕ) (rest : List Token)
      → suc (length rest) ≤ size
      → Reads (Fits size depth) (parse_empty py path rest)
  unfolding parse_empty
  parse_empty-Reads path size rest h = go (is_ident (codes "not") rest)
    where
      le : (b : Bool) → length (if b then tail rest else rest) ≤ length rest
      le true = tail-le rest
      le false = omega arith

      go :
          (b : Bool)
          → Reads (Fits {N = N} size depth) (
              let at = if b then tail rest else rest in
              if is_ident (codes "empty") at then ok (empty path b, tail at) else syntax_error)
      go b =
          let at = if b then tail rest else rest in
          Reads-if (is_ident (codes "empty") at)
            (λ _. reads (omega (arith, le b, tail-le at), omega arith)) Reads-error

  parse_comparison-Reads :
      (ts : List Token) → Reads (Fits (length ts) depth) (parse_comparison py ts)
  unfolding parse_comparison
  parse_comparison-Reads ts = Reads-bind _ (parse_path-Reads ts) λ path rest p.
      Reads-if (is_ident (codes "is") rest)
        (λ _. parse_empty-Reads path (length ts) (tail rest) (omega (arith, tail-le rest)))
        (finish_comparison-Reads path (length ts) (try_parse_op rest).0 (try_parse_op rest).1
          (omega (arith, try_parse_op-le rest)))

nodes_pos : {N : Type 0} (n : Node N) → 0 < nodes n
nodes_pos (or a b) = omega arith
nodes_pos (and a b) = omega arith
nodes_pos (negate a) = omega arith
nodes_pos (holds path) = omega arith
nodes_pos (empty path negated) = omega arith
nodes_pos (compare path o operand) = omega arith

below_max : (depth : ℕ) → leb max_depth depth ≡ false → suc depth ≤ max_depth
below_max depth h = ground arith

mutual
  unfolding parse_expr

  expr-Reads :
      {N : Type 0} (py : Python N) (f depth : ℕ) (ts : List Token)
      → 6 * length ts + 5 < f
      → depth ≤ max_depth
      → Reads (Fits (length ts) depth) (parse_expr py f depth ts)
  expr-Reads py zero depth ts h d = absurd (omega arith)
  expr-Reads py (suc f) depth ts h d = Reads-unless (leb max_depth depth) Reads-error λ e.
      Reads-weaken (or-Reads py f (suc depth) ts (omega arith) (below_max depth e))
        λ n rest p. (p.0, omega (arith, p.1))

  or-Reads :
      {N : Type 0} (py : Python N) (f depth : ℕ) (ts : List Token)
      → 6 * length ts + 4 < f
      → depth ≤ max_depth
      → Reads (Fits (length ts) depth) (parse_or py f depth ts)
  or-Reads py zero depth ts h d = absurd (omega arith)
  or-Reads py (suc f) depth ts h d =
      Reads-bind _ (and-Reads py f depth ts (omega arith) d) λ left rest p.
        or_loop-Reads py f depth (length ts) left rest (omega (arith, p.0, nodes_pos left)) p.0 p.1

  or_loop-Reads :
      {N : Type 0} (py : Python N) (f depth size : ℕ) (left : Node N) (ts : List Token)
      → 6 * length ts + 4 < f
      → nodes left + length ts ≤ size
      → negations left + depth ≤ max_depth
      → Reads (Fits size depth) (or_loop py f depth left ts)
  or_loop-Reads py zero depth size left ts h fits d = absurd (omega arith)
  or_loop-Reads py (suc f) depth size left ts h fits d =
      Reads-if (is_ident (codes "or") ts)
        (λ e.
          let shorter = is_ident-tail (codes "or") ts e in
          Reads-bind _ (and-Reads py f depth (tail ts) (omega arith) (omega arith)) λ right rest p.
            or_loop-Reads py f depth size (or left right) rest (omega (arith, p.0))
              (omega (arith, p.0)) (omega (arith, p.1)))
        (reads (fits, d))

  and-Reads :
      {N : Type 0} (py : Python N) (f depth : ℕ) (ts : List Token)
      → 6 * length ts + 3 < f
      → depth ≤ max_depth
      → Reads (Fits (length ts) depth) (parse_and py f depth ts)
  and-Reads py zero depth ts h d = absurd (omega arith)
  and-Reads py (suc f) depth ts h d =
      Reads-bind _ (not-Reads py f depth ts (omega arith) d) λ left rest p.
        and_loop-Reads py f depth (length ts) left rest (omega (arith, p.0, nodes_pos left)) p.0 p.1

  and_loop-Reads :
      {N : Type 0} (py : Python N) (f depth size : ℕ) (left : Node N) (ts : List Token)
      → 6 * length ts + 4 < f
      → nodes left + length ts ≤ size
      → negations left + depth ≤ max_depth
      → Reads (Fits size depth) (and_loop py f depth left ts)
  and_loop-Reads py zero depth size left ts h fits d = absurd (omega arith)
  and_loop-Reads py (suc f) depth size left ts h fits d =
      Reads-if (is_ident (codes "and") ts)
        (λ e.
          let shorter = is_ident-tail (codes "and") ts e in
          Reads-bind _ (not-Reads py f depth (tail ts) (omega arith) (omega arith)) λ right rest p.
            and_loop-Reads py f depth size (and left right) rest (omega (arith, p.0))
              (omega (arith, p.0)) (omega (arith, p.1)))
        (reads (fits, d))

  not-Reads :
      {N : Type 0} (py : Python N) (f depth : ℕ) (ts : List Token)
      → 6 * length ts + 2 < f
      → depth ≤ max_depth
      → Reads (Fits (length ts) depth) (parse_not py f depth ts)
  not-Reads py zero depth ts h d = absurd (omega arith)
  not-Reads py (suc f) depth ts h d =
      Reads-if (is_ident (codes "not") ts)
        (λ e.
          let shorter = is_ident-tail (codes "not") ts e in
          Reads-unless (leb max_depth depth) Reads-error λ room.
            Reads-bind _ (not-Reads py f (suc depth) (tail ts) (omega arith) (below_max depth room))
              λ node rest p. reads (omega (arith, p.0), omega (arith, p.1)))
        (primary-Reads py f depth ts (omega arith) d)

  primary-Reads :
      {N : Type 0} (py : Python N) (f depth : ℕ) (ts : List Token)
      → 6 * length ts + 1 < f
      → depth ≤ max_depth
      → Reads (Fits (length ts) depth) (parse_primary py f depth ts)
  primary-Reads py zero depth ts h d = absurd (omega arith)
  primary-Reads py (suc f) depth ts h d =
      Reads-if (starts lparen ts)
        (λ e.
          let shorter = starts-tail lparen ts e in
          Reads-bind _ (expr-Reads py f depth (tail ts) (omega arith) d) λ node rest p.
            Reads-bind _ (expect_type-Reads rparen rest)
              λ closing rest' q. reads (omega (arith, p.0, q), p.1))
        (parse_comparison-Reads py depth d ts)

-- What a whole parse gives: a tree within the bounds, or an error of the program.
pub data Bounded {N : Type 0} (ts : List Token) : Outcome (Node N) → Type 0 where
  tree : {n : Node N} → nodes n ≤ length ts → negations n ≤ max_depth → Bounded ts (ok n)
  no_tree : {e : Exn} → e ≢ out_of_fuel → Bounded ts (raised e)

no_more-Bounded :
    {N : Type 0} (ts : List Token) (n : Node N) (rest : List Token)
    → Fits (length ts) 0 n rest
    → Bounded ts (no_more n rest)
unfolding no_more
no_more-Bounded ts n [] p = tree (omega (arith, p.0)) (omega (arith, p.1))
no_more-Bounded ts n (_ ∷ _) p = no_tree (cc)

whole-Bounded :
    {N : Type 0} (ts : List Token) {r : Parsed (Node N)}
    → Reads (Fits (length ts) 0) r
    → Bounded ts (r >>= λ (node, rest). no_more node rest)
whole-Bounded ts (reads {a = n} {rest} p) = no_more-Bounded ts n rest p
whole-Bounded ts (rejected h) = no_tree h

-- On every list of tokens the parser ends within its fuel. The tree that it gives has no more nodes
-- than there are tokens, and its negations are nested at most MAX_DEPTH deep.
pub parse-Bounded : {N : Type 0} (py : Python N) (ts : List Token) → Bounded ts (parse py ts)
unfolding parse
parse-Bounded py ts =
    whole-Bounded ts (expr-Reads py (6 * length ts + 6) 0 ts (omega arith) (omega arith))
