-- ===== src/Executors/Tools/Edited.antt =====
-- What `fs.edit` makes of the text of a file.
use ticket_bot.Prelude.{
  ℕ, ◌≡◌, refl, ap, arith, true, false, ltb, ◌==◌, Text, codes, Bool-cases, inl, inr, ◌++◌,
}
use ticket_bot.Prelude.Outcomes.{ok}
use ticket_bot.Executors.Edits.{count}
use ticket_bot.Executors.Edits.Unique.{replace_first-count}
use ticket_bot.Executors.Tools.Args.{refused}
use ticket_bot.Executors.Tools.Files.{edited}

-- Without `replace_all`, an edit goes through where `old` is counted once, and then puts `new` in its
-- place and keeps what stands before and after it; where it is counted not at all or more than once,
-- nothing is answered but a refusal.
pub edited-once :
    (old new text : Text)
    → (count text old ≡ 1
        → (before : Text) × (after : Text) × (text ≡ before ++ (old ++ after))
          × (edited old new false text ≡ ok (before ++ (new ++ after))))
      × ((count text old == 1) ≡ false
          → (message : Text) × (edited old new false text ≡ refused message))
unfolding edited
edited-once old new text = (
  λ once.
      let (before, after, split, put) = replace_first-count text old new 0 once in
      (before, after, split, rw once (ap ok put)),
  λ other. elim (Bool-cases (count text old == 0)) [
    | inl never ↦ (codes "'old' not found", rw never refl)
    | inr some_times ↦ (
      codes "'old' is not unique",
      rw (some_times, several (count text old) some_times other) refl,
    )
  ],
)
  where
    several : (n : ℕ) → (n == 0) ≡ false → (n == 1) ≡ false → ltb 1 n ≡ true
    several n a b = ground arith
