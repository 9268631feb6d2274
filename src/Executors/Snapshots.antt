-- ===== src/Executors/Snapshots.antt =====
-- `diff_snapshots` of ticketbot/executors/base.py and the list of written files of `_finish` in
-- api_loop.py. A snapshot is what `snapshot_tree` answers, in the order of the walk.
use ticket_bot.Prelude.{
  text_before_or_eq, ℕ, ◌==◌, Bool, true, false, not, ◌&&◌, Option, none, some, text_eq,
  if◌then◌else◌, List, [], ◌∷◌,
}
use ticket_bot.Executors.Paths.{FilePath, is_inside}

-- The time of the last change, in nanoseconds, and the size.
pub record Stamp : Type 0 where
  pub mtime : ℕ
  pub size : ℕ

abbrev pub Snapshot : Type 0
Snapshot = List (FilePath × Stamp)

unfoldable pub path_eq : FilePath → FilePath → Bool
path_eq [] [] = true
path_eq (a ∷ p) (b ∷ q) = text_eq a b && path_eq p q
path_eq _ _ = false

-- The order of `Path`: that of the lists of parts.
unfoldable pub path_before : FilePath → FilePath → Bool
unfolding text_before_or_eq
path_before [] [] = false
path_before [] (b ∷ q) = true
path_before (a ∷ p) [] = false
path_before (a ∷ p) (b ∷ q) = if text_eq a b then path_before p q else text_before_or_eq a b

unfoldable pub stamp_of : FilePath → Snapshot → Option Stamp
unfolding path_eq
stamp_of p [] = none
stamp_of p ((q, stamp) ∷ es) = if path_eq q p then some stamp else stamp_of p es

-- `before.get(path) != value`
abbrev pub is_changed : Option Stamp → Stamp → Bool
is_changed none stamp = true
is_changed (some old) stamp = not (old.mtime == stamp.mtime && old.size == stamp.size)

-- A path put into a sorted list without repetition.
unfoldable pub insert_path : FilePath → List FilePath → List FilePath
unfolding path_eq path_before
insert_path p [] = p ∷ []
insert_path p (q ∷ qs) =
    let rest = insert_path p qs in
    if path_eq p q then q ∷ qs else if path_before p q then p ∷ q ∷ qs else q ∷ rest

-- `sorted(set(paths))`
unfoldable pub sort_paths : List FilePath → List FilePath
unfolding insert_path
sort_paths [] = []
sort_paths (p ∷ ps) = insert_path p (sort_paths ps)

-- The paths that were added or that changed; `diff_snapshots`, before its sort.
unfoldable pub changed_from : Snapshot → Snapshot → List FilePath
unfolding stamp_of
changed_from before [] = []
changed_from before ((p, stamp) ∷ after) =
    let rest = changed_from before after in
    if is_changed (stamp_of p before) stamp then p ∷ rest else rest

-- `diff_snapshots`
unfoldable pub diff_snapshots : Snapshot → Snapshot → List FilePath
unfolding changed_from sort_paths
diff_snapshots before after = sort_paths (changed_from before after)

-- `tool_writes`: the paths in the workspace, resolved.
unfoldable pub tool_writes : (FilePath → FilePath) → FilePath → List FilePath → List FilePath
unfolding is_inside
tool_writes resolve workspace [] = []
tool_writes resolve workspace (p ∷ ps) =
    let rest = tool_writes resolve workspace ps in
    if is_inside workspace (resolve p) then resolve p ∷ rest else rest

-- `sorted(set(diff_snapshots(before, after)) | tool_writes)`
unfoldable pub merge_paths : List FilePath → List FilePath → List FilePath
unfolding insert_path
merge_paths [] qs = qs
merge_paths (p ∷ ps) qs = insert_path p (merge_paths ps qs)
