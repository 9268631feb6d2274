-- ===== src/Config/Dotenv.antt =====
-- ticketbot/config/dotenv.py, and `is_secret_name` of ticketbot/config/redact.py, on ASCII text.
pub mod Wins
use ticket_bot.Prelude.{
  ℕ, Bool, true, false, not, ◌&&◌, ◌||◌, Option, none, some, Text, codes, text_eq, leb, ◌==◌,
  if◌then◌else◌, starts_with, strip, lstrip, rstrip, lower, split_on, text_in, drop, non_empty,
  cons_first, reverse, List, [], ◌∷◌, ◌++◌, Dict, lookup, insert, length,
}
use ticket_bot.Prelude.Outcomes.{Outcome, ok, raised, dotenv_error, ◌>>=◌}

abbrev pub is_line_break : ℕ → Bool
is_line_break c = (leb 10 c && leb c 13) || (leb 28 c && leb c 30)

-- `text.splitlines()`: a line feed that follows a carriage return ends no further line.
unfoldable pub lines_from : Bool → Text → List Text
lines_from after_cr [] = []
lines_from after_cr (c ∷ s) =
    let skipped = lines_from false s in
    let ended = [] ∷ lines_from (c == 13) s in
    let more = cons_first c (lines_from false s) in
    if after_cr && c == 10 then skipped else if is_line_break c then ended else more

unfoldable pub split_lines : Text → List Text
unfolding lines_from
split_lines text = lines_from false text

-- `line.partition("=")`: `none` where there is no separator.
unfoldable pub partition_at : ℕ → Text → Option (Text × Text)
partition_at sep [] = none
partition_at sep (c ∷ s) =
    if c == sep
    then some ([], s)
    else elim (partition_at sep s) [ none ↦ none | some (a, b) ↦ some (c ∷ a, b) ]

-- `value[:value.find(" #")].rstrip()`, the text itself where there is no " #".
unfoldable pub before_comment : Text → Option Text
before_comment [] = none
before_comment (c ∷ s) =
    if starts_with (c ∷ s) (codes " #")
    then some []
    else elim (before_comment s) [ none ↦ none | some t ↦ some (c ∷ t) ]

abbrev pub cut_comment : Text → Text
cut_comment value = elim (before_comment value) [ none ↦ value | some t ↦ rstrip t ]

-- `value[1:-1]`
abbrev pub inner : Text → Text
inner [] = []
inner (_ ∷ s) = elim (reverse s) [ [] ↦ [] | _ ∷ r ↦ reverse r ]

-- `len(value) >= 2 and value[0] in _QUOTES and value[-1] == value[0]`
abbrev pub is_quoted : Text → Bool
is_quoted [] = false
is_quoted (q ∷ s) = (q == b'\'' || q == b'"') && starts_with (reverse s) (q ∷ [])

unfoldable pub read_value : Text → Text
unfolding before_comment
read_value value = if is_quoted value then inner value else cut_comment value

abbrev pub without_export : Text → Text
without_export line = if starts_with line (codes "export ") then lstrip (drop 7 line) else line

abbrev pub named : Text → Text → Outcome (Option (Text × Text))
named name value =
    if non_empty (strip name)
    then ok (some (strip name, read_value (strip value)))
    else raised (dotenv_error (codes "empty name"))

abbrev pub entry_of : Option (Text × Text) → Outcome (Option (Text × Text))
entry_of none = raised (dotenv_error (codes "expected NAME=value"))
entry_of (some (name, value)) = named name value

abbrev pub is_ignored : Text → Bool
is_ignored line = if non_empty line then starts_with line (codes "#") else true

-- One line of the loop: `none` for a blank line or a comment.
unfoldable pub parse_line : Text → Outcome (Option (Text × Text))
unfolding partition_at read_value
parse_line raw =
    let line = strip raw in
    if is_ignored line then ok none else entry_of (partition_at b'=' (without_export line))

abbrev pub keep : Option (Text × Text) → Dict Text → Dict Text
keep none values = values
keep (some (name, value)) values = insert name value values

unfoldable pub parse_lines : List Text → Dict Text → Outcome (Dict Text)
unfolding parse_line
parse_lines [] values = ok values
parse_lines (l ∷ ls) values = do entry ← parse_line l; parse_lines ls (keep entry values)

-- `parse_dotenv`
unfoldable pub parse_dotenv : Text → Outcome (Dict Text)
unfolding parse_lines split_lines
parse_dotenv text = parse_lines (split_lines text) []

-- `_SECRET_NAME_RE.search(name)`: one of the words between underscores.
unfoldable pub any_secret : List Text → Bool
any_secret [] = false
any_secret (w ∷ ws) =
    text_in w (
      codes "key"
      ∷ codes "token"
      ∷ codes "secret"
      ∷ codes "password"
      ∷ codes "credential"
      ∷ codes "credentials"
      ∷ [])
    || any_secret ws

-- `is_secret_name`
unfoldable pub is_secret_name : Text → Bool
unfolding any_secret
is_secret_name name = any_secret (split_on b'_' (lower name))

-- The environment, the names that were set, and the values that were handed to `register_secret`.
pub record Loaded : Type 0 where
  pub target : Dict Text
  pub applied : List Text
  pub secrets : List Text

abbrev pub is_set : Option Text → Bool
is_set none = false
is_set (some t) = non_empty t

abbrev pub set_name : Text → Text → Loaded → Loaded
set_name name value l = record {
  target = insert name value l.target;
  applied = l.applied ++ (name ∷ []);
  secrets = if is_secret_name name then l.secrets ++ (value ∷ []) else l.secrets;
}

unfoldable pub apply_values : Bool → Dict Text → Loaded → Loaded
unfolding is_secret_name
apply_values override [] l = l
apply_values override ((name, value) ∷ rest) l =
    apply_values override rest
      (if not override && is_set (lookup name l.target) then l else set_name name value l)

-- `load_dotenv`, on the text of the file; `none` where there is no file.
unfoldable pub load_dotenv : Bool → Option Text → Dict Text → Outcome Loaded
unfolding apply_values parse_dotenv
load_dotenv override none env = ok (record { target = env; applied = []; secrets = [] })
load_dotenv override (some text) env = do
  values ← parse_dotenv text
  ok (apply_values override values (record { target = env; applied = []; secrets = [] }))
