-- ===== src/Adapters/Markdown/Lines.antt =====
-- `_blocks_from_lines`: the lines of a text grouped to blocks.
use ticket_bot.Prelude.{
  ℕ, zero, suc, ◌+◌, ◌-◌, ◌*◌, Bool, true, false, not, ◌&&◌, ◌||◌, Option, none, some, Text, codes,
  text_eq, ◌==◌, leb, ltb, if◌then◌else◌, List, [], ◌∷◌, length, non_empty, starts_with, drop,
  is_space, strip, lstrip, join, is_some,
}
use ticket_bot.Prelude.Outcomes.{Outcome, ok, raised, value_error, out_of_fuel, ◌>>=◌}
use ticket_bot.Predicate.Lexer.{span, is_digit}

pub data Block : Type 0 where
  paragraph : Text → Block
  heading : ℕ → Text → Block
  code_block : Option Text → Text → Block
  rule : Block
  ordered_list : ℕ → List Text → Block
  bullet_list : List Text → Block

-- `\s+(.*)$`, with the group stripped.
unfoldable pub spaced_text : Text → Option Text
unfolding strip
spaced_text [] = none
spaced_text (c ∷ s) = if is_space c then some (strip s) else none

-- `m.group(1) or None`
abbrev pub language_or_none : Text → Option Text
language_or_none [] = none
language_or_none (c ∷ s) = some (c ∷ s)

-- `_FENCE` on a stripped line, with its language.
unfoldable pub fence : Text → Option (Option Text)
unfolding starts_with span drop lstrip
fence s =
    let (language, rest) = span (λ c. not (is_space c) && not (c == b'`')) (lstrip (drop 3 s)) in
    if starts_with s (codes "```") && not (non_empty (lstrip rest))
    then some (language_or_none language)
    else none

-- `_HR` on a stripped line: three or more of one character.
unfoldable pub is_run_of : ℕ → Text → Bool
unfolding span
is_run_of mark s =
    let (run, rest) = span (λ c. c == mark) s in leb 3 (length run) && not (non_empty rest)

unfoldable pub is_rule : Text → Bool
unfolding is_run_of
is_rule s = is_run_of b'-' s || is_run_of b'*' s

abbrev pub heading_of : ℕ → Option Text → Option (ℕ × Text)
heading_of level none = none
heading_of level (some text) = some (level, text)

-- `_ATX_HEADING`
unfoldable pub atx_heading : Text → Option (ℕ × Text)
unfolding span spaced_text
atx_heading s =
    let (marks, rest) = span (λ c. c == b'#') s in
    if non_empty marks && leb (length marks) 6
    then heading_of (length marks) (spaced_text rest)
    else none

abbrev pub digits_with : Text → Option Text → Option (Text × Text)
digits_with digits none = none
digits_with digits (some text) = some (digits, text)

-- `_ORDERED_ITEM`: the digits, and the text.
unfoldable pub ordered_item : Text → Option (Text × Text)
unfolding span starts_with drop spaced_text
ordered_item s =
    let (digits, rest) = span is_digit s in
    if non_empty digits && starts_with rest (codes ".")
    then digits_with digits (spaced_text (drop 1 rest))
    else none

-- `_BULLET_ITEM`
unfoldable pub bullet_item : Text → Option Text
unfolding spaced_text
bullet_item [] = none
bullet_item (c ∷ s) = if c == b'-' || c == b'*' then spaced_text s else none

unfoldable pub digits_value : ℕ → Text → ℕ
digits_value value [] = value
digits_value value (c ∷ s) = digits_value (value * 10 + (c - 48)) s

-- `int(digits)`: Python refuses a text of more than 4300 digits.
unfoldable pub int_of_digits : Text → Outcome ℕ
unfolding digits_value
int_of_digits digits =
    if ltb 4300 (length digits)
    then raised (value_error (codes "too many digits"))
    else ok (digits_value 0 digits)

unfoldable pub is_block_start : Text → Bool
unfolding fence is_rule atx_heading ordered_item bullet_item
is_block_start s =
    is_some (fence s)
    || (is_rule s
        || (is_some (atx_heading s) || (is_some (ordered_item s) || is_some (bullet_item s))))

-- The lines up to the first that `read` refuses, as it reads them, and the others.
unfoldable pub read_while {ℓ} : {A : Type ℓ} → (Text → Option A) → List Text → List A × List Text
read_while read [] = ([], [])
read_while read (l ∷ ls) =
    let (items, rest) = read_while read ls in
    elim (read l) [ none ↦ ([], l ∷ ls) | some item ↦ (item ∷ items, rest) ]

abbrev pub second : Option (Text × Text) → Option Text
second none = none
second (some (digits, text)) = some text

-- A line of an ordered list.
abbrev pub ordered_line : Text → Option Text
unfolding ordered_item strip
ordered_line l = second (ordered_item (strip l))

abbrev pub bullet_line : Text → Option Text
unfolding bullet_item strip
bullet_line l = bullet_item (strip l)

-- A line that goes on with a paragraph.
abbrev pub paragraph_line : Text → Option Text
unfolding is_block_start strip
paragraph_line l =
    if not (non_empty (strip l)) || is_block_start (strip l) then none else some (strip l)

abbrev pub code_line : Text → Option Text
unfolding strip text_eq
code_line l = if text_eq (strip l) (codes "```") then none else some l

abbrev pub drop_line : List Text → List Text
drop_line [] = []
drop_line (l ∷ ls) = ls

-- The block that a stripped line starts, and the lines behind the block.
unfoldable pub block_at : Text → List Text → Outcome (Block × List Text)
unfolding fence is_rule atx_heading ordered_item bullet_item int_of_digits read_while ordered_line
    bullet_line paragraph_line code_line join
block_at s ls = elim (fence s) [
  | some language ↦
      let (body, rest) = read_while code_line ls in
      ok (code_block language (join (10 ∷ []) body), drop_line rest)
  | none ↦ elim (is_rule s) [
    | true ↦ ok (rule, ls)
    | false ↦ elim (atx_heading s) [
      | some (level, text) ↦ ok (heading level text, ls)
      | none ↦ elim (ordered_item s) [
        | some (digits, text) ↦ int_of_digits digits >>= λ order.
            let (items, rest) = read_while ordered_line ls in
            ok (ordered_list order (text ∷ items), rest)
        | none ↦ elim (bullet_item s) [
          | some text ↦
              let (items, rest) = read_while bullet_line ls in ok (bullet_list (text ∷ items), rest)
          | none ↦
              let (more, rest) = read_while paragraph_line ls in
              ok (paragraph (join (codes " ") (s ∷ more)), rest)
        ]
      ]
    ]
  ]
]

-- `while i < n`, with fuel for as many rounds.
unfoldable pub blocks_in : ℕ → List Text → Outcome (List Block)
unfolding block_at strip
blocks_in zero ls = raised out_of_fuel
blocks_in (suc fuel) [] = ok []
blocks_in (suc fuel) (l ∷ ls) = elim (non_empty (strip l)) [
  | false ↦ blocks_in fuel ls
  | true ↦ block_at (strip l) ls >>= λ (block, rest).
      blocks_in fuel rest >>= λ blocks. ok (block ∷ blocks)
]

-- `_blocks_from_lines`
unfoldable pub blocks_from_lines : List Text → Outcome (List Block)
unfolding blocks_in
blocks_from_lines ls = blocks_in (suc (length ls)) ls
