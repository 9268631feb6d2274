-- ===== src/Prelude/Trim.antt =====
-- Prefixes and trimming of texts, and what they keep.
use mathlib.Core.List.{reverse-cons}
use ticket_bot.Prelude.{
  ℕ, zero, suc, ◌≤◌, ◌≡◌, refl, ap, ◌∙◌, arith, Bool, true, ◌&&◌, Text, if◌then◌else◌, [], ◌∷◌,
  ◌++◌, reverse, length, length-append,
}

-- `s[:n]`
unfoldable pub take : ℕ → Text → Text
take n [] = []
take zero (c ∷ s) = []
take (suc n) (c ∷ s) = c ∷ take n s

-- `s.lstrip(chars)`
unfoldable pub drop_while : (ℕ → Bool) → Text → Text
drop_while test [] = []
drop_while test (c ∷ s) = let rest = drop_while test s in if test c then rest else c ∷ s

-- `s.strip(chars)`
unfoldable pub trim : (ℕ → Bool) → Text → Text
unfolding drop_while
trim test s = reverse (drop_while test (reverse (drop_while test s)))

-- The test holds of every character.
unfoldable pub all_chars : (ℕ → Bool) → Text → Bool
all_chars test [] = true
all_chars test (c ∷ s) = test c && all_chars test s

module _ (test : ℕ → Bool) where
  pub all_chars-append :
      (s t : Text) → all_chars test (s ++ t) ≡ (all_chars test s && all_chars test t)
  unfolding all_chars
  all_chars-append [] t = refl
  all_chars-append (c ∷ s) t = ground (arith, all_chars-append s t)

  pub all_chars-reverse : (s : Text) → all_chars test (reverse s) ≡ all_chars test s
  unfolding all_chars
  all_chars-reverse [] = refl
  all_chars-reverse (c ∷ s) =
      ap (all_chars test) (reverse-cons c s)
      ∙ all_chars-append (reverse s) (c ∷ [])
      ∙ ground (arith, all_chars-reverse s)

  pub all_chars-take :
      (n : ℕ) (s : Text) → all_chars test s ≡ true → all_chars test (take n s) ≡ true
  unfolding all_chars take
  all_chars-take n [] h = refl
  all_chars-take zero (c ∷ s) h = refl
  all_chars-take (suc n) (c ∷ s) h = ground (arith, all_chars-take n s)

  pub all_chars-drop_while :
      (cut : ℕ → Bool) (s : Text)
      → all_chars test s ≡ true
      → all_chars test (drop_while cut s) ≡ true
  unfolding all_chars drop_while
  all_chars-drop_while cut [] h = refl
  all_chars-drop_while cut (c ∷ s) h = ground (arith, all_chars-drop_while cut s)

  pub all_chars-trim :
      (cut : ℕ → Bool) (s : Text) → all_chars test s ≡ true → all_chars test (trim cut s) ≡ true
  unfolding trim
  all_chars-trim cut s h =
      all_chars-reverse (drop_while cut (reverse (drop_while cut s)))
      ∙ all_chars-drop_while cut (reverse (drop_while cut s))
          (all_chars-reverse (drop_while cut s) ∙ all_chars-drop_while cut s h)

pub length-reverse_same : (s : Text) → length (reverse s) ≡ length s
length-reverse_same [] = refl
length-reverse_same (c ∷ s) = omega (
  arith,
  ap length (reverse-cons c s),
  length-append {0} (reverse s) (c ∷ []),
  length-reverse_same s,
)

pub length-take : (n : ℕ) (s : Text) → length (take n s) ≤ n
unfolding take
length-take n [] = omega arith
length-take zero (c ∷ s) = omega arith
length-take (suc n) (c ∷ s) = omega (arith, length-take n s)

pub length-drop_while : (test : ℕ → Bool) (s : Text) → length (drop_while test s) ≤ length s
unfolding drop_while
length-drop_while test [] = omega arith
length-drop_while test (c ∷ s) = ground (arith, length-drop_while test s)

pub length-trim : (test : ℕ → Bool) (s : Text) → length (trim test s) ≤ length s
unfolding trim
length-trim test s = omega (
  arith,
  length-reverse_same (drop_while test (reverse (drop_while test s))),
  length-drop_while test (reverse (drop_while test s)),
  length-reverse_same (drop_while test s),
  length-drop_while test s,
)
