-- ===== src/Engine/Protocol/Blocks.antt =====
-- Where a question starts, and what fences hide.
use ticket_bot.Prelude.{
  ℕ, zero, suc, ◌+◌, ◌≡◌, refl, ap, ◌∙◌, Bool, true, false, not, Option, none, some, Text,
  if◌then◌else◌, List, [], ◌∷◌, ◌++◌, split_on, cons_first, join, ◌==◌, ==_iff, Bool-cases, inl,
  inr, strip, rstrip, arith, All, length, non_empty, starts_with, drop,
}
use ticket_bot.Engine.Protocol.{
  newline, defer_marker, is_fence, is_question, non_fenced_from, non_fenced_lines, first_question,
  lines_from, lines_to, question_at, parse_question, collect_defers, parse_defers, keep_payload,
  text_before, strip_protocol, has_question,
}

join-cons_first : (c : ℕ) (ls : List Text) → join newline (cons_first c ls) ≡ c ∷ join newline ls
unfolding join
join-cons_first c [] = refl
join-cons_first c (l ∷ []) = refl
join-cons_first c (l ∷ m ∷ ls) = refl

split_on-cons :
    (sep : ℕ) (text : Text) → (l : Text) × (ls : List Text) × (split_on sep text ≡ l ∷ ls)
unfolding split_on
split_on-cons sep [] = ([], [], refl)
split_on-cons sep (c ∷ s) = elim (Bool-cases (c == sep)) [
  | inl e ↦ ([], split_on sep s, rw e)
  | inr e ↦ let (l, ls, p) = split_on-cons sep s in (c ∷ l, ls, rw (e, p))
]

-- The lines of a text, joined again, are the text.
join-split_on : (text : Text) → join newline (split_on 10 text) ≡ text
unfolding split_on join
join-split_on [] = refl
join-split_on (c ∷ s) = elim (Bool-cases (c == 10)) [
  | inl e ↦
      let (l, ls, p) = split_on-cons 10 s in
      let again = join-split_on s in rw (e, p) (cc (rw p at again, (==_iff c 10).0 e))
  | inr e ↦ rw e (join-cons_first c (split_on 10 s) ∙ ap (λ t. c ∷ t) (join-split_on s))
]

lines_to-append-lines_from : (i : ℕ) (ls : List Text) → lines_to i ls ++ lines_from i ls ≡ ls
lines_to-append-lines_from zero ls = refl
lines_to-append-lines_from (suc i) [] = refl
lines_to-append-lines_from (suc i) (l ∷ ls) = ap (λ t. l ∷ t) (lines_to-append-lines_from i ls)

-- Whether a fence is open after the lines, when one was open before them or not.
abbrev pub in_fence_after : Bool → List Text → Bool
in_fence_after open_before [] = open_before
in_fence_after open_before (l ∷ ls) =
    in_fence_after (if is_fence l then not open_before else open_before) ls

-- The first of the lines starts a question, and is no fence.
abbrev pub StartsQuestion : List Text → Type 0
StartsQuestion [] = ⊥
StartsQuestion (l ∷ ls) = (is_question l ≡ true) × (is_fence l ≡ false)

after_fence :
    (open_before : Bool) (l : Text) (ls : List Text)
    → is_fence l ≡ true
    → in_fence_after open_before (l ∷ ls) ≡ in_fence_after (not open_before) ls
after_fence open_before l ls e = rw e refl

after_text :
    (open_before : Bool) (l : Text) (ls : List Text)
    → is_fence l ≡ false
    → in_fence_after open_before (l ∷ ls) ≡ in_fence_after open_before ls
after_text open_before l ls e = rw e refl

-- The lines before the first question hold none, and that question is outside fences.
none_before :
    (k : ℕ) (in_fence : Bool) (ls : List Text) (j : ℕ)
    → first_question (non_fenced_from k in_fence ls) ≡ some j
    → (i : ℕ) × (j ≡ k + i)
      × (first_question (non_fenced_from k in_fence (lines_to i ls)) ≡ none)
      × StartsQuestion (lines_from i ls)
      × (in_fence_after in_fence (lines_to i ls) ≡ false)
unfolding first_question non_fenced_from
none_before k in_fence [] j h = cc
none_before k true (line ∷ ls) j h = elim (Bool-cases (is_fence line)) [
  | inl e ↦
      let (i, at, before, asks, closed) = none_before (suc k) false ls j (rw e at h) in
      (
        suc i,
        omega (arith, at),
        rw e before,
        asks,
        after_fence true line (lines_to i ls) e ∙ closed,
      )
  | inr e ↦
      let (i, at, before, asks, closed) = none_before (suc k) true ls j (rw e at h) in
      (suc i, omega (arith, at), rw e before, asks, after_text true line (lines_to i ls) e ∙ closed)
]
none_before k false (line ∷ ls) j h = elim (Bool-cases (is_fence line)) [
  | inl e ↦
      let (i, at, before, asks, closed) = none_before (suc k) true ls j (rw e at h) in
      (
        suc i,
        omega (arith, at),
        rw e before,
        asks,
        after_fence false line (lines_to i ls) e ∙ closed,
      )
  | inr e ↦ elim (Bool-cases (is_question line)) [
    | inl q ↦ (0, ground arith, refl, (q, e), refl)
    | inr q ↦
        let (i, at, before, asks, closed) = none_before (suc k) false ls j (rw (e, q) at h) in
        (
          suc i,
          omega (arith, at),
          rw (e, q) before,
          asks,
          after_text false line (lines_to i ls) e ∙ closed,
        )
  ]
]

-- How a text with a question is cut: the line `i` is the first one outside fences that starts a
-- question.
pub record CutAt (text question : Text) (i : ℕ) : Type 0 where
  pub asked : question ≡ strip (join newline (lines_from i (split_on 10 text)))
  pub kept : strip_protocol text ≡ rstrip (join newline (lines_to i (split_on 10 text)))
  pub whole : join newline (lines_to i (split_on 10 text) ++ lines_from i (split_on 10 text)) ≡ text
  pub starts : StartsQuestion (lines_from i (split_on 10 text))
  pub outside : in_fence_after false (lines_to i (split_on 10 text)) ≡ false
  pub first : first_question (non_fenced_from 0 false (lines_to i (split_on 10 text))) ≡ none

question_at-CutAt :
    (text question : Text) (o : Option ℕ)
    → first_question (non_fenced_lines text) ≡ o
    → question_at (split_on 10 text) o ≡ some question
    → (i : ℕ) × CutAt text question i
unfolding question_at strip_protocol non_fenced_lines
question_at-CutAt text question none e h = cc
question_at-CutAt text question (some i) e h =
    let (k, at, before, asks, closed) = none_before 0 false (split_on 10 text) i e in
    let here : i ≡ k = omega (arith, at) in
    (
      i,
      record {
        asked = cc h;
        kept = ap (text_before text) e;
        whole =
            ap (join newline) (lines_to-append-lines_from i (split_on 10 text))
            ∙ join-split_on text;
        starts = rw here asks;
        outside = rw here closed;
        first = rw here before;
      },
    )

-- When a text has a question, there is a line at which the text is cut in two: the question is what
-- stands from that line on, `strip_protocol` keeps what stands before it, both but for white space
-- at their ends, the two halves together are the text, the line starts a question outside fences,
-- and no line before it does.
pub parse_question-CutAt :
    (text question : Text) → parse_question text ≡ some question → (i : ℕ) × CutAt text question i
unfolding parse_question
parse_question-CutAt text question h =
    question_at-CutAt text question (first_question (non_fenced_lines text)) refl h

-- A text without a question is kept as it is.
pub strip_protocol-no_question :
    (text : Text) → has_question text ≡ false → strip_protocol text ≡ text
unfolding has_question strip_protocol
strip_protocol-no_question text h = ground arith

-- A fence that is opened and closed hides the lines between, whatever they are.
fenced_block :
    (i : ℕ) (opening closing : Text) (body rest : List Text)
    → is_fence opening ≡ true
    → is_fence closing ≡ true
    → All (λ line. is_fence line ≡ false) body
    → non_fenced_from i false (opening ∷ (body ++ (closing ∷ rest)))
      ≡ non_fenced_from (i + (length body + 2)) false rest
unfolding non_fenced_from
fenced_block i opening closing body rest o c all =
    rw o (hidden (suc i) body all ∙ ap (λ n. non_fenced_from n false rest) (omega arith))
  where
    hidden :
        (k : ℕ) (body : List Text)
        → All (λ line. is_fence line ≡ false) body
        → non_fenced_from k true (body ++ (closing ∷ rest))
          ≡ non_fenced_from (k + (length body + 1)) false rest
    hidden k [] all = rw c (ap (λ n. non_fenced_from n false rest) (omega arith))
    hidden k (l ∷ ls) all =
        rw all.0 (hidden (suc k) ls all.1 ∙ ap (λ n. non_fenced_from n false rest) (omega arith))

keep_payload-All :
    (payload : Text) (rest : List Text)
    → All (λ d. non_empty d ≡ true) rest
    → All (λ d. non_empty d ≡ true) (keep_payload payload rest)
keep_payload-All [] rest h = h
keep_payload-All (c ∷ s) rest h = (refl, h)

All-if :
    (b : Bool) (P : Text → Type 0) (xs ys : List Text)
    → All P xs
    → All P ys
    → All P (if b then xs else ys)
All-if true P xs ys hx hy = hx
All-if false P xs ys hx hy = hy

collect_defers-All :
    (lines : List (ℕ × Text)) → All (λ d. non_empty d ≡ true) (collect_defers lines)
unfolding collect_defers
collect_defers-All [] = tt
collect_defers-All ((i, line) ∷ lines) =
    let rest = collect_defers-All lines in
    All-if (starts_with (strip line) defer_marker) _ _ _
      (keep_payload-All (strip (drop (length defer_marker) (strip line))) (collect_defers lines)
        rest)
      rest

-- No payload that `parse_defers` returns is empty.
pub parse_defers-non_empty : (text : Text) → All (λ d. non_empty d ≡ true) (parse_defers text)
unfolding parse_defers
parse_defers-non_empty text = collect_defers-All (non_fenced_lines text)
