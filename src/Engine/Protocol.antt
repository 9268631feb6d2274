-- ===== src/Engine/Protocol.antt =====
-- ticketbot/engine/protocol.py: QUESTION: and DEFER: in the free text of a step.
pub mod Blocks
use ticket_bot.Prelude.{
  ℕ, zero, suc, ◌+◌, Bool, true, false, not, Option, none, some, Text, codes, text_eq,
  if◌then◌else◌, List, [], ◌∷◌, ◌++◌, strip, rstrip, starts_with, split_on, join, drop, length,
  is_some, non_empty,
}

abbrev pub newline : Text
newline = 10 ∷ []

abbrev pub question_marker : Text
question_marker = codes "QUESTION:"

abbrev pub defer_marker : Text
defer_marker = codes "DEFER:"

abbrev pub fence : Text
fence = codes "```"

abbrev pub is_fence : Text → Bool
is_fence line = starts_with (strip line) fence

abbrev pub is_question : Text → Bool
is_question line = starts_with (strip line) question_marker

-- The loop of `_non_fenced_lines`, from line `i` on.
unfoldable pub non_fenced_from : ℕ → Bool → List Text → List (ℕ × Text)
non_fenced_from i in_fence [] = []
non_fenced_from i in_fence (line ∷ lines) =
    let rest = non_fenced_from (suc i) (if is_fence line then not in_fence else in_fence) lines in
    if is_fence line then rest else (if in_fence then rest else (i, line) ∷ rest)

unfoldable pub non_fenced_lines : Text → List (ℕ × Text)
unfolding non_fenced_from
non_fenced_lines text = non_fenced_from 0 false (split_on 10 text)

-- The index of the first line that starts a question.
unfoldable pub first_question : List (ℕ × Text) → Option ℕ
first_question [] = none
first_question ((i, line) ∷ lines) = if is_question line then some i else first_question lines

-- `lines[i:]` and `lines[:i]`
abbrev pub lines_from : ℕ → List Text → List Text
lines_from zero ls = ls
lines_from (suc i) [] = []
lines_from (suc i) (l ∷ ls) = lines_from i ls

abbrev pub lines_to : ℕ → List Text → List Text
lines_to zero ls = []
lines_to (suc i) [] = []
lines_to (suc i) (l ∷ ls) = l ∷ lines_to i ls

unfoldable pub question_at : List Text → Option ℕ → Option Text
question_at lines none = none
question_at lines (some i) = some (strip (join newline (lines_from i lines)))

unfoldable pub parse_question : Text → Option Text
unfolding question_at first_question non_fenced_lines
parse_question text = question_at (split_on 10 text) (first_question (non_fenced_lines text))

abbrev pub keep_payload : Text → List Text → List Text
keep_payload payload rest = if non_empty payload then payload ∷ rest else rest

unfoldable pub collect_defers : List (ℕ × Text) → List Text
collect_defers [] = []
collect_defers ((i, line) ∷ lines) =
    let rest = collect_defers lines in
    let stripped = strip line in
    if starts_with stripped defer_marker
    then keep_payload (strip (drop (length defer_marker) stripped)) rest
    else rest

unfoldable pub parse_defers : Text → List Text
unfolding collect_defers non_fenced_lines
parse_defers text = collect_defers (non_fenced_lines text)

unfoldable pub text_before : Text → Option ℕ → Text
text_before text none = text
text_before text (some i) = rstrip (join newline (lines_to i (split_on 10 text)))

unfoldable pub strip_protocol : Text → Text
unfolding text_before first_question non_fenced_lines
strip_protocol text = text_before text (first_question (non_fenced_lines text))

unfoldable pub has_question : Text → Bool
unfolding parse_question
has_question text = is_some (parse_question text)
