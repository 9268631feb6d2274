-- ===== src/Adapters/Markdown/Total.antt =====
-- The conversion of a text ends, in a document.
use ticket_bot.Prelude.{
  some, true, none, subst, All, &&-true, ◌&&◌, leb, ◌==◌, ℕ, zero, suc, ◌≤◌, ◌<◌, ◌≡◌, ◌⊎◌, refl,
  arith, Option, Text, List, [], ◌∷◌, length, Bool-cases, Option-cases, inl, inr, strip, non_empty,
  ltb, split_on,
}
use ticket_bot.Predicate.Lexer.{span}
use ticket_bot.Prelude.Outcomes.{Ensures, Outcome, ok, raised, value_error, ◌>>=◌}
use ticket_bot.Executors.Edits.{universal_newlines}
use ticket_bot.Adapters.Markdown.Lines.{
  Block, heading, heading_of, fence, is_rule, atx_heading, ordered_item, bullet_item, int_of_digits,
  read_while, ordered_line, bullet_line, paragraph_line, code_line, drop_line, block_at, blocks_in,
  blocks_from_lines,
}
use ticket_bot.Adapters.Markdown.Nodes.{Node, convert, caught, fallback, markdown_to_adf}

-- The call ends, and `P` holds of its result, or it raises a `ValueError`.
unfoldable Settles : {A : Type 0} → (A → Type 0) → Outcome A → Type 0
Settles P (ok a) = P a
Settles P (raised e) = (m : Text) × (e ≡ value_error m)

Settles->>= :
    {A B : Type 0} (P : A → Type 0) (Q : B → Type 0) (r : Outcome A) (f : A → Outcome B)
    → Settles P r
    → ((a : A) → P a → Settles Q (f a))
    → Settles Q (r >>= f)
unfolding Settles
Settles->>= P Q (ok a) f h rest = rest a h
Settles->>= P Q (raised e) f h rest = h

abbrev Any : {A : Type 0} → A → Type 0
Any a = Unit

length-read_while :
    {A : Type 0} (read : Text → Option A) (ls : List Text)
    → length (read_while read ls).1 ≤ length ls
unfolding read_while
length-read_while read [] = omega arith
length-read_while read (l ∷ ls) = elim (Option-cases (read l)) [
  | inl e ↦ rw (length, e) (omega arith)
  | inr (a, e) ↦ rw (length, e) (omega (arith, length-read_while read ls))
]

length-drop_line : (ls : List Text) → length (drop_line ls) ≤ length ls
length-drop_line [] = omega arith
length-drop_line (l ∷ ls) = omega arith

int_of_digits-Settles : (digits : Text) → Settles Any (int_of_digits digits)
unfolding Settles int_of_digits
int_of_digits-Settles digits = elim (Bool-cases (ltb 4300 (length digits))) [
  | inl e ↦ rw e (_, refl)
  | inr e ↦ rw e tt
]

-- A heading has a level from 1 to 6.
unfoldable pub HasLevel : Block → Type 0
HasLevel (heading level text) = (1 ≤ level) × (level ≤ 6)
HasLevel _ = Unit

Leveled : Option (ℕ × Text) → Type 0
Leveled none = Unit
Leveled (some (level, text)) = HasLevel (heading level text)

heading_of-Leveled : (n : ℕ) (o : Option Text) → 1 ≤ n → n ≤ 6 → Leveled (heading_of n o)
unfolding Leveled HasLevel
heading_of-Leveled n none low high = tt
heading_of-Leveled n (some text) low high = (low, high)

1_le-length : (s : Text) → non_empty s ≡ true → 1 ≤ length s
1_le-length [] h = cc h
1_le-length (c ∷ s) h = omega arith

atx_heading-Leveled : (s : Text) → Leveled (atx_heading s)
unfolding Leveled atx_heading
atx_heading-Leveled s =
    let (marks, rest) = span (λ c. c == b'#') s in
    elim (Bool-cases (non_empty marks && leb (length marks) 6)) [
      | inr e ↦ rw (atx_heading, e) tt
      | inl e ↦
          let (some_mark, few) = &&-true (non_empty marks) (leb (length marks) 6) e in
          rw (atx_heading, e)
            (heading_of-Leveled (length marks) _ (1_le-length marks some_mark) (ground arith))
    ]

-- The lines behind a block are no more than those behind its first line, and a heading has a level.
abbrev Behind : List Text → Block × List Text → Type 0
Behind ls (block, rest) = (length rest ≤ length ls) × HasLevel block

block_at-Settles : (s : Text) (ls : List Text) → Settles (Behind ls) (block_at s ls)
unfolding Settles block_at HasLevel Leveled
block_at-Settles s ls = elim (Option-cases (fence s)) [
  | inr (language, e) ↦
      let read = read_while code_line ls in
      rw e (omega (arith, length-read_while code_line ls, length-drop_line read.1), tt)
  | inl e ↦ elim (Bool-cases (is_rule s)) [
    | inl e1 ↦ rw (e, e1) (omega arith, tt)
    | inr e1 ↦ elim (Option-cases (atx_heading s)) [
      | inr ((level, text), e2) ↦
          rw (e, e1, e2) (omega arith, subst Leveled e2 (atx_heading-Leveled s))
      | inl e2 ↦ elim (Option-cases (ordered_item s)) [
        | inr ((digits, text), e3) ↦
            rw (e, e1, e2, e3)
              (Settles->>= Any (Behind ls) (int_of_digits digits) _ (int_of_digits-Settles digits)
                λ order _. (length-read_while ordered_line ls, tt))
        | inl e3 ↦ elim (Option-cases (bullet_item s)) [
          | inr (text, e4) ↦ rw (e, e1, e2, e3, e4) (length-read_while bullet_line ls, tt)
          | inl e4 ↦ rw (e, e1, e2, e3, e4) (length-read_while paragraph_line ls, tt)
        ]
      ]
    ]
  ]
]

blocks_in-Settles :
    (fuel : ℕ) (ls : List Text) → length ls < fuel → Settles (All HasLevel) (blocks_in fuel ls)
unfolding Settles blocks_in
blocks_in-Settles zero ls h = absurd (omega arith)
blocks_in-Settles (suc fuel) [] h = tt
blocks_in-Settles (suc fuel) (l ∷ ls) h = elim (Bool-cases (non_empty (strip l))) [
  | inr e ↦ rw (Settles, e) (blocks_in-Settles fuel ls (omega arith))
  | inl e ↦
      rw (Settles, e)
        (Settles->>= (Behind ls) (All HasLevel) (block_at (strip l) ls) _
          (block_at-Settles (strip l) ls)
          λ (block, rest) (shorter, level).
            Settles->>= (All HasLevel) (All HasLevel) (blocks_in fuel rest) _
              (blocks_in-Settles fuel rest (omega arith)) λ blocks levels. (level, levels))
]

-- The loop over the lines of a text ends within the fuel that it is given.
blocks_from_lines-Settles : (ls : List Text) → Settles (All HasLevel) (blocks_from_lines ls)
unfolding blocks_from_lines
blocks_from_lines-Settles ls = blocks_in-Settles (suc (length ls)) ls (omega arith)

convert-Settles : (md : Text) → Settles Any (convert md)
unfolding convert Settles
convert-Settles [] = tt
convert-Settles (c ∷ s) =
    let lines = split_on 10 (universal_newlines (c ∷ s)) in
    Settles->>= (All HasLevel) Any (blocks_from_lines lines) _ (blocks_from_lines-Settles lines)
      λ blocks _. tt

caught-ok :
    (md : Text) (r : Outcome (List Node))
    → Settles Any r
    → (nodes : List Node) × (caught md r ≡ ok nodes)
unfolding Settles
caught-ok md (ok nodes) h = (nodes, refl)
caught-ok md (raised e) (m, same) = (fallback md, rw same refl)

-- Every text is converted: an exception of the conversion is caught, and the loop over the lines ends.
pub markdown_to_adf-ok : (md : Text) → (nodes : List Node) × (markdown_to_adf md ≡ ok nodes)
unfolding markdown_to_adf
markdown_to_adf-ok md = caught-ok md (convert md) (convert-Settles md)

caught-cases :
    (md : Text) (r : Outcome (List Node)) (nodes : List Node)
    → Settles Any r
    → caught md r ≡ ok nodes
    → (r ≡ ok nodes) ⊎ (nodes ≡ fallback md)
unfolding Settles
caught-cases md (ok found) nodes h e = inl e
caught-cases md (raised x) nodes (m, same) e =
    let fell_back : ok (fallback md) ≡ ok nodes = rw same at e in inr cc

-- The document is the conversion or the fallback.
pub markdown_to_adf-cases :
    (md : Text) (nodes : List Node)
    → markdown_to_adf md ≡ ok nodes
    → (convert md ≡ ok nodes) ⊎ (nodes ≡ fallback md)
unfolding markdown_to_adf
markdown_to_adf-cases md nodes e = caught-cases md (convert md) nodes (convert-Settles md) e

Settles-Ensures : {A : Type 0} (P : A → Type 0) (r : Outcome A) → Settles P r → Ensures P r
unfolding Settles Ensures
Settles-Ensures P (ok a) h = h
Settles-Ensures P (raised e) h = tt

pub blocks_from_lines-HasLevel : (ls : List Text) → Ensures (All HasLevel) (blocks_from_lines ls)
blocks_from_lines-HasLevel ls = Settles-Ensures (All HasLevel) _ (blocks_from_lines-Settles ls)
