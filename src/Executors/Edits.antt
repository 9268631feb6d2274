-- ===== src/Executors/Edits.antt =====
-- The edits of texts behind the tools: `str.count`, `str.replace`, and the newlines of a file that is
-- opened as text.
pub mod Unique
use ticket_bot.Prelude.{
  ℕ, zero, suc, ◌+◌, ◌-◌, ◌==◌, ltb, Bool, true, false, Text, starts_with, drop, if◌then◌else◌,
  List, [], ◌∷◌, ◌++◌, length,
}

-- `s.count(old)` for a non-empty `old`; `skip` characters belong to the last match.
unfoldable pub count_from : Text → ℕ → Text → ℕ
count_from old skip [] = 0
count_from old (suc skip) (c ∷ s) = count_from old skip s
count_from old zero (c ∷ s) =
    if starts_with (c ∷ s) old then suc (count_from old (length old - 1) s) else count_from old 0 s

unfoldable pub count : Text → Text → ℕ
unfolding count_from
count s old = count_from old 0 s

-- `s.replace(old, new)`
unfoldable pub replace_from : Text → Text → ℕ → Text → Text
replace_from old new skip [] = []
replace_from old new (suc skip) (c ∷ s) = replace_from old new skip s
replace_from old new zero (c ∷ s) =
    if starts_with (c ∷ s) old
    then new ++ replace_from old new (length old - 1) s
    else c ∷ replace_from old new 0 s

unfoldable pub replace : Text → Text → Text → Text
unfolding replace_from
replace s old new = replace_from old new 0 s

-- `s.replace(old, new, 1)`
unfoldable pub replace_first : Text → Text → Text → Text
replace_first [] old new = []
replace_first (c ∷ s) old new =
    let rest = replace_first s old new in
    if starts_with (c ∷ s) old then new ++ drop (length old) (c ∷ s) else c ∷ rest

-- What `read_text` makes of the line ends: `\r\n` and `\r` are read as `\n`.
unfoldable pub universal_newlines : Text → Text
universal_newlines [] = []
universal_newlines (c ∷ s) =
    let rest = universal_newlines s in if c == 13 then 10 ∷ after_return s rest else c ∷ rest
  where
    after_return : Text → Text → Text
    after_return s rest = if starts_with s (10 ∷ []) then drop 1 rest else rest
