-- ===== src/Predicate/Parser/Reads.antt =====
-- What a run of the parser establishes: a postcondition on its result, or an error of the program.
use ticket_bot.Prelude.{
  ℕ, zero, suc, ◌*◌, ◌≤◌, ◌<◌, ◌≡◌, ◌≢◌, refl, Bool, true, false, Text, if◌then◌else◌, List, [],
  ◌∷◌, length, arith,
}
use ticket_bot.Prelude.Outcomes.{Exn, ok, raised, out_of_fuel, predicate_error, ◌>>=◌}
use ticket_bot.Predicate.Values.{Python}
use ticket_bot.Predicate.Lexer.{TokenType, Token, comma, rbracket, lbracket}
use ticket_bot.Predicate.Parser.Operands.{
  Parsed, starts, is_ident, tail, expect_type, parse_operand, list_items, more_items,
  simple_operand,
}

pub data Reads {A : Type 0} (P : A → List Token → Type 0) : Parsed A → Type 0 where
  reads : {a : A} {rest : List Token} → P a rest → Reads P (ok (a, rest))
  rejected : {e : Exn} → e ≢ out_of_fuel → Reads P (raised e)

module _ {A : Type 0} {P : A → List Token → Type 0} where
  pub Reads-error : {t : Text} → Reads P (raised (predicate_error t))
  Reads-error = rejected (cc)

  pub Reads-if :
      (b : Bool) {x y : Parsed A}
      → (b ≡ true → Reads P x)
      → Reads P y
      → Reads P (if b then x else y)
  Reads-if true hx hy = hx refl
  Reads-if false hx hy = hy

  pub Reads-unless :
      (b : Bool) {x y : Parsed A}
      → Reads P x
      → (b ≡ false → Reads P y)
      → Reads P (if b then x else y)
  Reads-unless true hx hy = hx
  Reads-unless false hx hy = hy refl

  pub Reads-bind :
      {B : Type 0} {Q : B → List Token → Type 0} {r : Parsed A} (f : A × List Token → Parsed B)
      → Reads P r
      → ((a : A) (rest : List Token) → P a rest → Reads Q (f (a, rest)))
      → Reads Q (r >>= f)
  Reads-bind f (reads {a} {rest} h) k = k a rest h
  Reads-bind f (rejected h) k = rejected h

pub Reads-weaken :
    {A : Type 0} {P Q : A → List Token → Type 0} {r : Parsed A}
    → Reads P r
    → ((a : A) (rest : List Token) → P a rest → Q a rest)
    → Reads Q r
Reads-weaken (reads {a} {rest} h) k = reads (k a rest h)
Reads-weaken (rejected h) k = rejected h

-- The rest is shorter than the tokens by one at least.
abbrev pub Shorter : {A : Type 0} → List Token → A → List Token → Type 0
Shorter ts a rest = length rest < length ts

abbrev pub NoLonger : {A : Type 0} → List Token → A → List Token → Type 0
NoLonger ts a rest = length rest ≤ length ts

pub starts-tail :
    (kind : TokenType) (ts : List Token)
    → starts kind ts ≡ true
    → suc (length (tail ts)) ≡ length ts
unfolding starts
starts-tail kind [] h = cc
starts-tail kind (t ∷ ts) h = refl

pub is_ident-tail :
    (word : Text) (ts : List Token) → is_ident word ts ≡ true → suc (length (tail ts)) ≡ length ts
unfolding is_ident
is_ident-tail word [] h = cc
is_ident-tail word (t ∷ ts) h = refl

pub tail-le : (ts : List Token) → length (tail ts) ≤ length ts
tail-le [] = omega arith
tail-le (t ∷ ts) = omega arith

pub expect_type-Reads :
    (kind : TokenType) (ts : List Token) → Reads (Shorter ts) (expect_type kind ts)
unfolding expect_type
expect_type-Reads kind [] = Reads-error
expect_type-Reads kind (t ∷ rest) =
    Reads-if (starts kind (t ∷ rest)) (λ _. reads (omega arith)) Reads-error

module _ {N : Type 0} (py : Python N) where
  simple_operand-Reads :
      (t : Token) (rest : List Token) (kind : TokenType)
      → Reads (Shorter (t ∷ rest)) (simple_operand py t rest kind)
  unfolding simple_operand
  simple_operand-Reads t rest TokenType.number = reads (omega arith)
  simple_operand-Reads t rest TokenType.string = reads (omega arith)
  simple_operand-Reads t rest TokenType.ident = reads (omega arith)
  simple_operand-Reads t rest _ = Reads-error

mutual
  unfolding parse_operand

  operand-Reads :
      {N : Type 0} (py : Python N) (f : ℕ) (ts : List Token)
      → 2 * length ts < f
      → Reads (Shorter ts) (parse_operand py f ts)
  operand-Reads py zero ts h = absurd (omega arith)
  operand-Reads py (suc f) [] h = Reads-error
  operand-Reads py (suc f) (t ∷ rest) h =
      Reads-if (starts lbracket (t ∷ rest))
        (λ _. Reads-bind _ (list_items-Reads py f rest (omega arith)) λ vs rest' p.
          Reads-bind _ (expect_type-Reads rbracket rest') λ closing rest'' q. reads (omega arith))
        (simple_operand-Reads py t rest t.kind)

  list_items-Reads :
      {N : Type 0} (py : Python N) (f : ℕ) (ts : List Token)
      → suc (2 * length ts) < f
      → Reads (NoLonger ts) (list_items py f ts)
  list_items-Reads py zero ts h = absurd (omega arith)
  list_items-Reads py (suc f) [] h = reads (omega arith)
  list_items-Reads py (suc f) (t ∷ rest) h =
      Reads-if (starts rbracket (t ∷ rest)) (λ _. reads (omega arith))
        (Reads-bind _ (operand-Reads py f (t ∷ rest) (omega arith)) λ v rest' p.
          Reads-bind _ (more_items-Reads py f rest' (omega arith))
            λ vs rest'' q. reads (omega arith))

  more_items-Reads :
      {N : Type 0} (py : Python N) (f : ℕ) (ts : List Token)
      → suc (2 * length ts) < f
      → Reads (NoLonger ts) (more_items py f ts)
  more_items-Reads py zero ts h = absurd (omega arith)
  more_items-Reads py (suc f) ts h =
      Reads-if (starts comma ts)
        (λ e.
          let shorter = starts-tail comma ts e in
          Reads-bind _ (operand-Reads py f (tail ts) (omega arith)) λ v rest' p.
            Reads-bind _ (more_items-Reads py f rest' (omega arith))
              λ vs rest'' q. reads (omega arith))
        (reads (omega arith))

-- With fuel above twice the number of tokens an operand is read, or refused.
pub parse_operand-Reads :
    {N : Type 0} (py : Python N) (f : ℕ) (ts : List Token)
    → 2 * length ts < f
    → Reads (Shorter ts) (parse_operand py f ts)
parse_operand-Reads = operand-Reads
