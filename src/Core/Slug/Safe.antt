-- ===== src/Core/Slug/Safe.antt =====
-- What a slug is made of.
use ticket_bot.Prelude.{
  ℕ, ◌≤◌, ◌≡◌, refl, max, arith, Bool, true, false, ◌||◌, Text, codes, ltb, if◌then◌else◌, lower,
  non_empty, [], ◌∷◌, length, reverse,
}
use ticket_bot.Prelude.Trim.{
  take, drop_while, all_chars, all_chars-take, all_chars-trim, all_chars-reverse,
  all_chars-drop_while, length-take, length-trim, length-drop_while, length-reverse_same,
}
use ticket_bot.Core.Slug.{
  is_dash, is_slug_char, collapse, behind_first, is_other, before_last_dash, cut_slug, or_task,
  shorten, slugify,
}

-- A lower-case letter, a digit or a dash.
abbrev pub is_safe : ℕ → Bool
is_safe c = is_slug_char c || is_dash c

all_chars-collapse : (in_junk : Bool) (s : Text) → all_chars is_safe (collapse in_junk s) ≡ true
unfolding collapse all_chars
all_chars-collapse in_junk [] = refl
all_chars-collapse in_junk (c ∷ s) =
    ground (arith, all_chars-collapse false s, all_chars-collapse true s)

all_chars-behind_first :
    (test : ℕ → Bool) (s : Text) → all_chars test s ≡ true → all_chars test (behind_first s) ≡ true
unfolding all_chars
all_chars-behind_first test [] h = refl
all_chars-behind_first test (c ∷ s) h = ground arith

length-behind_first : (s : Text) → length (behind_first s) ≤ length s
length-behind_first [] = omega arith
length-behind_first (c ∷ s) = omega arith

module _ (s : Text) where
  all_chars-before_last_dash :
      (test : ℕ → Bool) → all_chars test s ≡ true → all_chars test (before_last_dash s) ≡ true
  unfolding before_last_dash
  all_chars-before_last_dash test h =
      let r = drop_while is_other (reverse s) in
      ground (
        arith,
        all_chars-reverse test (behind_first r),
        all_chars-behind_first test r,
        all_chars-drop_while test is_other (reverse s),
        all_chars-reverse test s,
      )

  length-before_last_dash : length (before_last_dash s) ≤ length s
  unfolding before_last_dash
  length-before_last_dash =
      let r = drop_while is_other (reverse s) in
      omega (
        arith,
        length-reverse_same (behind_first r),
        length-behind_first r,
        length-drop_while is_other (reverse s),
        length-reverse_same s,
      )

all_chars-cut_slug :
    (n : ℕ) (s : Text) → all_chars is_safe s ≡ true → all_chars is_safe (cut_slug n s) ≡ true
unfolding cut_slug
all_chars-cut_slug n s h =
    let cut = take n s in
    all_chars-trim is_safe is_dash _
      (ground (arith, all_chars-take is_safe n s, all_chars-before_last_dash cut is_safe))

length-cut_slug : (n : ℕ) (s : Text) → length (cut_slug n s) ≤ n
unfolding cut_slug
length-cut_slug n s =
    let cut = take n s in
    ground (
      arith,
      length-trim is_dash cut,
      length-trim is_dash (before_last_dash cut),
      length-take n s,
      length-before_last_dash cut,
    )

abbrev Safe : ℕ → Text → Type 0
Safe n t = (all_chars is_safe t ≡ true) × (non_empty t ≡ true) × (length t ≤ max n 4)

task-Safe : (n : ℕ) → Safe n (codes "task")
unfolding all_chars
task-Safe n = (refl, refl, omega arith)

Safe-if :
    (n : ℕ) (b : Bool) (s t : Text)
    → (b ≡ true → Safe n s)
    → (b ≡ false → Safe n t)
    → Safe n (if b then s else t)
Safe-if n true s t hs ht = hs refl
Safe-if n false s t hs ht = ht refl

or_task-Safe : (n : ℕ) (s : Text) → all_chars is_safe s ≡ true → length s ≤ n → Safe n (or_task s)
or_task-Safe n s h small =
    Safe-if n (non_empty s) s (codes "task") (λ e. (h, e, omega arith)) λ e. task-Safe n

shortened :
    (n : ℕ) (s : Text)
    → all_chars is_safe s ≡ true
    → all_chars is_safe (if ltb n (length s) then cut_slug n s else s) ≡ true
shortened n s h = ground (arith, all_chars-cut_slug n s)

length-shortened : (n : ℕ) (s : Text) → length (if ltb n (length s) then cut_slug n s else s) ≤ n
length-shortened n s = ground (arith, length-cut_slug n s)

shorten-Safe : (n : ℕ) (s : Text) → all_chars is_safe s ≡ true → Safe n (shorten n s)
unfolding shorten
shorten-Safe n s h =
    Safe-if n (non_empty s) _ (codes "task")
      (λ e. or_task-Safe n _ (shortened n s h) (length-shortened n s)) λ e. task-Safe n

-- Whatever the text, its slug is not empty, is at most the larger of the limit and 4 long, and is
-- made of lower-case letters, digits and dashes: there is no separator and no dot in it.
pub slugify-Safe :
    (to_ascii : Text → Text) (text : Text) (max_len : ℕ)
    → (all_chars is_safe (slugify to_ascii text max_len) ≡ true)
      × (non_empty (slugify to_ascii text max_len) ≡ true)
      × (length (slugify to_ascii text max_len) ≤ max max_len 4)
unfolding slugify
slugify-Safe to_ascii text max_len =
    shorten-Safe max_len _
      (all_chars-trim is_safe is_dash _ (all_chars-collapse false (lower (to_ascii text))))
