-- ===== src/Predicate/Rules/Sound.antt =====
-- What the evaluation of a predicate establishes.
use ticket_bot.Prelude.{
  ◌≤◌, ◌≡◌, ◌≢◌, refl, ap, Bool, true, false, Text, codes, ltb, if◌then◌else◌, List, [], ◌∷◌,
  length, arith,
}
use ticket_bot.Prelude.Outcomes.{
  Exn, Outcome, ok, raised, predicate_error, overflow_error, out_of_fuel, ◌>>=◌,
}
use ticket_bot.Predicate.Values.{Value, Python, missing}
use ticket_bot.Predicate.Compare.{Op, eq, ne, not_in, contains, compare_op, membership}
use ticket_bot.Predicate.Nodes.{Node}
use ticket_bot.Predicate.Lexer.{Token}
use ticket_bot.Predicate.Lexer.Total.{Lexed, lexed, not_lexed, tokenize-Lexed}
use ticket_bot.Predicate.Parser.{max_depth, parse}
use ticket_bot.Predicate.Parser.Total.{nodes, negations, Bounded, tree, no_tree, parse-Bounded}
use ticket_bot.Predicate.Rules.{max_tokens, max_expr_len, check_tokens, compile_expr}

-- The tree that is evaluated is within the limits, or the error is one of the program.
pub data Limited {N : Type 0} : Outcome (Node N) → Type 0 where
  within : {n : Node N} → nodes n ≤ max_tokens → negations n ≤ max_depth → Limited (ok n)
  refused : {e : Exn} → e ≢ out_of_fuel → Limited (raised e)

few_tokens : (ts : List Token) → ltb max_tokens (length ts) ≡ false → length ts ≤ max_tokens
few_tokens ts h = ground arith

-- What every operator answers for a path that is absent.
abbrev pub answers_absent : Op → Bool
answers_absent ne = true
answers_absent not_in = true
answers_absent _ = false

-- An evaluation gives a result, or raises OverflowError.
pub data Evaluated {A : Type 0} : Outcome A → Type 0 where
  result : {a : A} → Evaluated (ok a)
  overflows : Evaluated (raised overflow_error)

module _ {N : Type 0} where
  Bounded-Limited :
      {ts : List Token} {r : Outcome (Node N)} → length ts ≤ max_tokens → Bounded ts r → Limited r
  Bounded-Limited few (tree small shallow) = within (omega arith) shallow
  Bounded-Limited few (no_tree h) = refused h

  Limited-if :
      (b : Bool) {x y : Outcome (Node N)}
      → Limited x
      → (b ≡ false → Limited y)
      → Limited (if b then x else y)
  Limited-if true hx hy = hx
  Limited-if false hx hy = hy refl

  checked-Limited :
      (py : Python N) (ts : List Token) → Limited (check_tokens ts >>= λ checked. parse py checked)
  unfolding check_tokens
  checked-Limited py [] = refused (cc)
  checked-Limited py (t ∷ ts) = go (ltb max_tokens (length (t ∷ ts))) refl
    where
      go :
          (b : Bool)
          → ltb max_tokens (length (t ∷ ts)) ≡ b
          → Limited (
              (if b
                then raised (predicate_error (codes "expression has too many tokens"))
                else ok (t ∷ ts))
              >>= λ checked. parse py checked)
      go true e = refused (cc)
      go false e = Bounded-Limited (few_tokens (t ∷ ts) e) (parse-Bounded py (t ∷ ts))

  Lexed-Limited :
      (py : Python N) (expr : Text) {r : Outcome (List Token)}
      → Lexed expr expr r
      → Limited (r >>= λ tokens. check_tokens tokens >>= λ checked. parse py checked)
  Lexed-Limited py expr (lexed {tokens} all few) = checked-Limited py tokens
  Lexed-Limited py expr (not_lexed h) = refused h

  -- Whatever the text of a `when:` expression, its compilation ends: by an error of the program, or
  -- by a tree of at most MAX_TOKENS nodes whose negations are nested at most MAX_DEPTH deep.
  pub compile_expr-Limited : (py : Python N) (expr : Text) → Limited (compile_expr py expr)
  unfolding compile_expr
  compile_expr-Limited py expr =
      Limited-if (ltb max_expr_len (length expr)) (refused (cc))
        λ _. Lexed-Limited py expr (tokenize-Lexed expr)

  not_in_missing : (py : Python N) (v : Value N) → membership py v missing ≡ false
  unfolding membership
  not_in_missing py missing = refl
  not_in_missing py _ = refl

  -- An absent value satisfies `!=` and `not in`, and no other operator, whatever the operand.
  compare_op-missing :
      (py : Python N) (o : Op) (operand : Value N) (path : Text)
      → compare_op py missing o operand path ≡ ok (answers_absent o)
  unfolding compare_op membership
  compare_op-missing py eq operand path = refl
  compare_op-missing py contains operand path = ap ok (not_in_missing py operand)
  compare_op-missing py _ operand path = refl
