-- ===== src/Predicate/Lexer/Total.antt =====
-- The tokenizer cuts its input into lexemes: it ends, and each token is a piece of the input.
use ticket_bot.Prelude.{
  ℕ, zero, suc, ◌+◌, ◌≤◌, ◌<◌, ◌≡◌, ◌≢◌, refl, ap, sym, subst, ◌∙◌, Bool, true, false, Option, none,
  some, Text, if◌then◌else◌, List, [], ◌∷◌, ◌++◌, length, length-append, drop, arith, append_assoc,
  All, ◌==◌, Bool-cases, inl, inr, ◌&&◌,
}
use ticket_bot.Prelude.Outcomes.{Exn, Outcome, ok, raised, out_of_fuel, ◌>>=◌}
use ticket_bot.Predicate.Lexer.{
  TokenType, Token, Piece, put_first, span, fraction, add_fraction, join_pieces, number_tail,
  string_tail, single, Lexeme, of_piece, of_string, of_single, lexeme, add_token, tokenize_from,
  tokenize, is_digit, starts_digit, is_word, first_of_text, rest_of_text, string,
}

-- A piece and what follows it are the text.
record Splits (s : Text) (p : Piece) : Type 0 where
  whole : p.0 ++ p.1 ≡ s

put_first-Splits : (c : ℕ) {s : Text} {p : Piece} → Splits s p → Splits (c ∷ s) (put_first c p)
put_first-Splits c h = record { whole = ap (λ t. c ∷ t) h.whole }

Splits-if :
    (b : Bool) {s : Text} {p q : Piece} → Splits s p → Splits s q → Splits s (if b then p else q)
Splits-if true hp hq = hp
Splits-if false hp hq = hq

Splits-none : (s : Text) → Splits s ([], s)
Splits-none s = record { whole = refl }

span-Splits : (test : ℕ → Bool) (s : Text) → Splits s (span test s)
unfolding span
span-Splits test [] = Splits-none []
span-Splits test (c ∷ s) =
    Splits-if (test c) (put_first-Splits c (span-Splits test s)) (Splits-none (c ∷ s))

fraction-Splits : (s : Text) → Splits s (fraction s)
unfolding fraction
fraction-Splits [] = Splits-none []
fraction-Splits (c ∷ s) =
    Splits-if (c == b'.' && starts_digit s) (put_first-Splits c (span-Splits is_digit s))
      (Splits-none (c ∷ s))

join_pieces-Splits :
    (a : Text) {s : Text} {p : Piece} → Splits s p → Splits (a ++ s) (join_pieces a p)
join_pieces-Splits a {s} {p} h = record {
  whole = append_assoc a p.0 p.1 ∙ ap (λ t. a ++ t) h.whole;
}

add_fraction-Splits : {s : Text} {p : Piece} → Splits s p → Splits s (add_fraction p)
unfolding add_fraction
add_fraction-Splits {p = p} h = record {
  whole = (join_pieces-Splits p.0 (fraction-Splits p.1)).whole ∙ h.whole;
}

number_tail-Splits : (s : Text) → Splits s (number_tail s)
unfolding number_tail
number_tail-Splits s = add_fraction-Splits (span-Splits is_digit s)

-- What a string's scan found splits the text.
data MaySplit (s : Text) : Option Piece → Type 0 where
  open_string : MaySplit s none
  closed : {p : Piece} → Splits s p → MaySplit s (some p)

mapped :
    (c : ℕ) {s : Text} {o : Option Piece}
    → MaySplit s o
    → MaySplit (c ∷ s) (elim o [ none ↦ none | some p ↦ some (put_first c p) ])
mapped c open_string = open_string
mapped c (closed h) = closed (put_first-Splits c h)

mapped_twice :
    (c d : ℕ) {s : Text} {o : Option Piece}
    → MaySplit s o
    → MaySplit (c ∷ d ∷ s) (elim o [ none ↦ none | some p ↦ some (put_first c (put_first d p)) ])
mapped_twice c d open_string = open_string
mapped_twice c d (closed h) = closed (put_first-Splits c (put_first-Splits d h))

string_tail-MaySplit : (q : ℕ) (s : Text) → MaySplit s (string_tail q s)
unfolding string_tail
string_tail-MaySplit q [] = open_string
string_tail-MaySplit q (c ∷ []) = elim (Bool-cases (c == q)) [
  | inl e ↦ rw e (closed (record { whole = refl }))
  | inr e ↦ rw e open_string
]
string_tail-MaySplit q (c ∷ d ∷ s) =
    let after_two = mapped_twice c d (string_tail-MaySplit q s) in
    let after_one = mapped c (string_tail-MaySplit q (d ∷ s)) in
    elim (Bool-cases (c == q)) [
      | inl e ↦ rw (e, string_tail) (closed (record { whole = refl }))
      | inr e ↦
          rw (e, string_tail)
            (elim (Bool-cases (c == 92)) [ inl b ↦ rw b after_two | inr b ↦ rw b after_one ])
    ]

-- A lexeme cuts a first piece, which is not empty, off the text; an error is one of the program's.
data Cuts (s : Text) : Outcome Lexeme → Type 0 where
  cut :
      {kind : Option TokenType} {text rest : Text}
      → text ++ rest ≡ s
      → 0 < length text
      → Cuts s (ok (kind, text, rest))
  refused : {e : Exn} → e ≢ out_of_fuel → Cuts s (raised e)

Cuts-if :
    (b : Bool) {s : Text} {x y : Outcome Lexeme} → Cuts s x → Cuts s y → Cuts s (if b then x else y)
Cuts-if true hx hy = hx
Cuts-if false hx hy = hy

of_piece-Cuts :
    (kind : TokenType) (c : ℕ) {s : Text} {p : Piece}
    → Splits s p
    → Cuts (c ∷ s) (ok (of_piece kind c p))
of_piece-Cuts kind c h = cut (ap (λ t. c ∷ t) h.whole) (omega arith)

of_string-Cuts : (c : ℕ) {s : Text} {o : Option Piece} → MaySplit s o → Cuts (c ∷ s) (of_string c o)
unfolding of_string
of_string-Cuts c open_string = refused (cc)
of_string-Cuts c (closed h) = of_piece-Cuts string c h

of_single-Cuts : (c : ℕ) (s : Text) (o : Option TokenType) → Cuts (c ∷ s) (of_single c s o)
unfolding of_single
of_single-Cuts c s (some kind) = cut refl (omega arith)
of_single-Cuts c s none =
    Cuts-if _ (of_piece-Cuts TokenType.ident c (span-Splits is_word s)) (refused (cc))

two-Cuts :
    (c : ℕ) (s : Text) → Cuts (c ∷ s) (ok (some TokenType.op, c ∷ first_of_text s, rest_of_text s))
two-Cuts c [] = cut refl (omega arith)
two-Cuts c (d ∷ s) = cut refl (omega arith)

lexeme-Cuts : (c : ℕ) (s : Text) → Cuts (c ∷ s) (lexeme c s)
unfolding lexeme
lexeme-Cuts c s = Cuts-if _ (cut refl (omega arith)) (
    Cuts-if _ (of_piece-Cuts TokenType.number c (number_tail-Splits s)) (
      Cuts-if _ (of_string-Cuts c (string_tail-MaySplit c s))
        (Cuts-if _ (two-Cuts c s) (of_single-Cuts c s (single c)))))

-- The token's text stands in the expression at the token's position.
abbrev pub StandsIn : Text → Token → Type 0
StandsIn expr t = (rest : Text) × (drop t.at expr ≡ t.text ++ rest)

-- The tokens of the piece `s` of the expression, or an error of the program.
pub data Lexed (expr s : Text) : Outcome (List Token) → Type 0 where
  lexed :
      {tokens : List Token}
      → All (StandsIn expr) tokens
      → length tokens ≤ length s
      → Lexed expr s (ok tokens)
  not_lexed : {e : Exn} → e ≢ out_of_fuel → Lexed expr s (raised e)

drop-append : (before s : Text) → drop (length before) (before ++ s) ≡ s
unfolding drop
drop-append [] s = refl
drop-append (c ∷ before) s = drop-append before s

add_token-Lexed :
    (expr : Text) (kind : Option TokenType) (at : ℕ) (text rest : Text) {s : Text}
    {r : Outcome (List Token)}
    → drop at expr ≡ s
    → text ++ rest ≡ s
    → 0 < length text
    → Lexed expr rest r
    → Lexed expr s (r >>= λ tokens. ok (add_token kind text at tokens))
add_token-Lexed expr none at text rest here whole some_text (lexed all few) =
    lexed all (omega (arith, ap length whole, length-append {0} text rest))
add_token-Lexed expr (some kind) at text rest here whole some_text (lexed all few) =
    lexed ((rest, here ∙ sym whole), all)
      (omega (arith, ap length whole, length-append {0} text rest))
add_token-Lexed expr kind at text rest here whole some_text (not_lexed h) = not_lexed h

lexeme-Lexed :
    (expr s : Text) {r : Outcome Lexeme} (f : Lexeme → Outcome (List Token))
    → Cuts s r
    → ((kind : Option TokenType) (text rest : Text)
        → text ++ rest ≡ s
        → 0 < length text
        → Lexed expr s (f (kind, text, rest)))
    → Lexed expr s (r >>= f)
lexeme-Lexed expr s f (cut {kind} {text} {rest} whole some_text) k =
    k kind text rest whole some_text
lexeme-Lexed expr s f (refused h) k = not_lexed h

tokenize_from-Lexed :
    (fuel at : ℕ) (before s : Text)
    → at ≡ length before
    → length s ≤ fuel
    → Lexed (before ++ s) s (tokenize_from fuel at s)
unfolding tokenize_from
tokenize_from-Lexed fuel at before [] here enough = lexed tt (omega arith)
tokenize_from-Lexed zero at before (c ∷ s) here enough = absurd (omega arith)
tokenize_from-Lexed (suc fuel) at before (c ∷ s) here enough =
    lexeme-Lexed (before ++ c ∷ s) (c ∷ s) _ (lexeme-Cuts c s) λ kind text rest whole some_text.
      add_token-Lexed (before ++ c ∷ s) kind at text rest (rw here (drop-append before (c ∷ s)))
        whole some_text
        (subst (λ e. Lexed e rest (tokenize_from fuel (at + length text) rest))
          (append_assoc before text rest ∙ ap (λ t. before ++ t) whole)
          (tokenize_from-Lexed fuel (at + length text) (before ++ text) rest
            (rw here (sym (length-append before text)))
            (omega (arith, ap length whole, length-append {0} text rest))))

-- On every text the tokenizer ends within its fuel, by an error of the program or by tokens: no
-- more of them than characters, each standing in the text at the position that it records.
pub tokenize-Lexed : (expr : Text) → Lexed expr expr (tokenize expr)
unfolding tokenize
tokenize-Lexed expr = tokenize_from-Lexed (length expr) 0 [] expr refl (omega arith)
