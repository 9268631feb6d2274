-- ===== src/Core/Slug.antt =====
-- `slugify` of ticketbot/core/workitem.py. What `unicodedata` makes of a text, less all that is not
-- ASCII, is a parameter.
pub mod Safe
use ticket_bot.Prelude.{
  ℕ, Bool, true, false, ◌&&◌, ◌||◌, Text, codes, leb, ltb, ◌==◌, if◌then◌else◌, lower, non_empty,
  [], ◌∷◌, ◌++◌, length, reverse,
}
use ticket_bot.Prelude.Trim.{take, drop_while, trim}

abbrev pub dash : ℕ
dash = b'-'

-- `[a-z0-9]`
abbrev pub is_slug_char : ℕ → Bool
is_slug_char c = (leb 97 c && leb c 122) || (leb 48 c && leb c 57)

abbrev pub is_dash : ℕ → Bool
is_dash c = c == dash

-- `_SLUG_JUNK.sub("-", text)`: `in_junk` where the dash of the run is written.
unfoldable pub collapse : Bool → Text → Text
collapse in_junk [] = []
collapse in_junk (c ∷ s) =
    let keep = c ∷ collapse false s in
    let junk = collapse true s in
    if is_slug_char c then keep else if in_junk then junk else dash ∷ junk

unfoldable pub has_dash : Text → Bool
has_dash [] = false
has_dash (c ∷ s) = is_dash c || has_dash s

abbrev pub behind_first : Text → Text
behind_first [] = []
behind_first (_ ∷ s) = s

abbrev pub is_other : ℕ → Bool
is_other c = if is_dash c then false else true

-- `cut.rsplit("-", 1)[0]` of a text with a dash.
unfoldable pub before_last_dash : Text → Text
unfolding drop_while
before_last_dash s = reverse (behind_first (drop_while is_other (reverse s)))

unfoldable pub cut_slug : ℕ → Text → Text
unfolding before_last_dash has_dash
cut_slug max_len collapsed =
    let cut = take max_len collapsed in
    trim is_dash (if has_dash cut then before_last_dash cut else cut)

-- `collapsed or "task"`
abbrev pub or_task : Text → Text
or_task s = if non_empty s then s else codes "task"

unfoldable pub shorten : ℕ → Text → Text
unfolding cut_slug
shorten max_len collapsed =
    if non_empty collapsed
    then or_task (if ltb max_len (length collapsed) then cut_slug max_len collapsed else collapsed)
    else codes "task"

-- `slugify`
unfoldable pub slugify : (Text → Text) → Text → ℕ → Text
unfolding shorten collapse
slugify to_ascii text max_len =
    shorten max_len (trim is_dash (collapse false (lower (to_ascii text))))
