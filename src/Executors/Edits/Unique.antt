-- ===== src/Executors/Edits/Unique.antt =====
-- The first match of a text in another, and its replacement.
use ticket_bot.Prelude.{
  ℕ, suc, ◌≡◌, refl, ap, true, &&-true, ==_iff, ◌==◌, Text, starts_with, drop, Bool-cases, inl, inr,
  [], ◌∷◌, ◌++◌, length,
}
use ticket_bot.Executors.Edits.{count, count_from, replace_first}

-- A text that starts with another is that, and what is left without it.
starts_with-drop : (s p : Text) → starts_with s p ≡ true → s ≡ p ++ drop (length p) s
unfolding starts_with drop
starts_with-drop s [] h = refl
starts_with-drop [] (p ∷ ps) h = cc
starts_with-drop (c ∷ s) (p ∷ ps) h =
    let (same, rest) = &&-true (c == p) (starts_with s ps) h in
    cc ((==_iff c p).0 same, starts_with-drop s ps rest)

-- Where `old` occurs, the first replacement puts `new` for one occurrence, and keeps what stands before
-- and after it.
pub replace_first-count :
    (s old new : Text) (n : ℕ)
    → count s old ≡ suc n
    → (before : Text) × (after : Text) × (s ≡ before ++ (old ++ after))
      × (replace_first s old new ≡ before ++ (new ++ after))
unfolding count count_from replace_first
replace_first-count [] old new n h = cc
replace_first-count (c ∷ s) old new n h = elim (Bool-cases (starts_with (c ∷ s) old)) [
  | inl here ↦ ([], drop (length old) (c ∷ s), starts_with-drop (c ∷ s) old here, rw here refl)
  | inr further ↦
      let (before, after, split, put) = replace_first-count s old new n (rw further at h) in
      (c ∷ before, after, ap (λ t. c ∷ t) split, rw further (ap (λ t. c ∷ t) put))
]
