-- ===== src/Executors/Paths.antt =====
-- The path jail of ticketbot/executors/tools.py, on POSIX paths. A path is the list of its parts, an
-- absolute one from the root; what the file system answers is a record of functions.
pub mod Inside
use ticket_bot.Prelude.{
  ℕ, ◌+◌, ltb, ◌==◌, Bool, true, false, not, ◌||◌, ◌&&◌, Option, none, some, Text, codes, text_eq,
  text_in, starts_with, split_on, join, if◌then◌else◌, List, [], ◌∷◌, ◌++◌, reverse, length,
}
use ticket_bot.Prelude.Outcomes.{Exn, Outcome, ok, raised, tool_error, ◌>>=◌}

abbrev pub FilePath : Type 0
FilePath = List Text

-- `Path.resolve(strict=False)`, which follows links and takes out `..`, and `Path.exists`, in a state
-- `X` of the file system.
pub record Links (X : Type 0) : Type 0 where
  pub resolve : X → FilePath → FilePath
  pub exists : X → FilePath → Bool

-- The parts of a path that `/` divides: empty ones and `.` are dropped.
abbrev pub is_part : Text → Bool
is_part [] = false
is_part (c ∷ s) = not (text_eq (c ∷ s) (codes "."))

unfoldable pub keep_parts : List Text → FilePath
keep_parts [] = []
keep_parts (s ∷ ss) = let rest = keep_parts ss in if is_part s then s ∷ rest else rest

-- `Path(s).parts`, without the root.
unfoldable pub parts : Text → FilePath
unfolding keep_parts
parts s = keep_parts (split_on b'/' s)

-- `Path(s).is_absolute()`
abbrev pub is_absolute : Text → Bool
is_absolute s = starts_with s (codes "/")

abbrev pub max_path_len : ℕ
max_path_len = 4096

-- The candidates that `jail` refuses as texts.
unfoldable pub is_refused : Text → Bool
is_refused s = text_eq s [] || has_nul s || ltb max_path_len (length s)
  where
    has_nul : Text → Bool
    has_nul [] = false
    has_nul (c ∷ t) = c == 0 || has_nul t

-- `check == ws or check.is_relative_to(ws)`
unfoldable pub is_inside : FilePath → FilePath → Bool
is_inside [] p = true
is_inside (a ∷ ws) [] = false
is_inside (a ∷ ws) (b ∷ p) = text_eq a b && is_inside ws p

abbrev pub escapes : Exn
escapes = tool_error (codes "path escapes the workspace")

module _ {X : Type 0} (links : Links X) (x : X) where
  -- The nearest ancestor that exists, or the root; paths are read from their last part.
  unfoldable pub nearest : FilePath → FilePath
  nearest [] = []
  nearest (part ∷ up) =
      let above = nearest up in
      if links.exists x (reverse (part ∷ up)) then reverse (part ∷ up) else above

  -- The ancestors of a path, without the path itself, read from the last part.
  abbrev pub above : FilePath → FilePath
  above [] = []
  above (part ∷ up) = up

  -- Where a candidate stands: an absolute one from the root, a relative one from the workspace.
  unfoldable pub target : FilePath → Text → FilePath
  unfolding parts
  target ws s = links.resolve x (if is_absolute s then parts s else ws ++ parts s)

  unfoldable pub ancestor : FilePath → FilePath
  unfolding nearest
  ancestor p = links.resolve x (nearest (above (reverse p)))

  unfoldable pub check_target : FilePath → FilePath → Outcome FilePath
  unfolding is_inside ancestor
  check_target ws p =
      if not (is_inside ws p)
      then raised escapes
      else if links.exists x p
      then ok p
      else if is_inside ws (ancestor p)
      then ok p
      else raised escapes

  -- `jail`
  unfoldable pub jail : FilePath → Text → Outcome FilePath
  unfolding is_refused target check_target
  jail workspace s =
      let ws = links.resolve x workspace in
      if is_refused s then raised escapes else check_target ws (target ws s)

  abbrev pub or_jail : Option FilePath → Text → Outcome FilePath → Outcome FilePath
  or_jail artifacts s (ok p) = ok p
  or_jail none s (raised e) = raised e
  or_jail (some dir) s (raised e) = jail dir s

  -- `_jailed`: the workspace, and where it refuses, the artifacts. Both refuse with one message.
  unfoldable pub jailed : FilePath → Option FilePath → Text → Outcome FilePath
  unfolding jail
  jailed workspace artifacts s = or_jail artifacts s (jail workspace s)

-- `RESERVED_RUN_DIR_FILES`
abbrev pub reserved_files : List Text
reserved_files =
    codes "run.json"
    ∷ codes "run.json.tmp"
    ∷ codes "config.resolved.yaml"
    ∷ codes "workitem.json"
    ∷ codes "banner.txt"
    ∷ []

-- `RESERVED_RUN_DIR_DIRS`
abbrev pub reserved_dirs : List Text
reserved_dirs = codes "logs" ∷ []

-- `path.relative_to(artifacts)`
unfoldable pub relative_to : FilePath → FilePath → Option FilePath
relative_to p [] = some p
relative_to [] (a ∷ base) = none
relative_to (b ∷ p) (a ∷ base) = if text_eq a b then relative_to p base else none

-- `rel.as_posix()`: the empty path is `.`.
abbrev pub as_posix : FilePath → Text
as_posix [] = codes "."
as_posix (a ∷ p) = join (codes "/") (a ∷ p)

abbrev pub first_part : FilePath → Text
first_part [] = codes "."
first_part (a ∷ p) = a

-- The name of a file of the run that the engine writes.
unfoldable pub is_reserved : Option FilePath → Bool
is_reserved none = false
is_reserved (some rel) =
    text_in (as_posix rel) reserved_files || text_in (first_part rel) reserved_dirs

abbrev pub reserved : Exn
reserved = tool_error (codes "is written by the engine and is not writable by a step")

-- `_reject_reserved_artifact`
unfoldable pub reject_reserved :
    {X : Type 0} → Links X → X → Option FilePath → FilePath → Outcome (Unit {0})
unfolding is_reserved relative_to
reject_reserved links x none p = ok tt
reject_reserved links x (some dir) p =
    if is_reserved (relative_to p (links.resolve x dir)) then raised reserved else ok tt
