-- ===== src/Executors/Tools/Files.antt =====
-- `_fs_read`, `_fs_list`, `_fs_write` and `_fs_edit`. A handler first works out what it will do, from
-- the arguments and what it reads, and then does it.
use ticket_bot.Prelude.{
  ℕ, ltb, ◌==◌, Bool, not, ◌&&◌, Option, Text, codes, text_eq, if◌then◌else◌, List, [], ◌∷◌, ◌++◌,
  length, join,
}
use ticket_bot.Prelude.Trim.{take}
use ticket_bot.Prelude.Outcomes.{Outcome, ok, ◌>>=◌}
use ticket_bot.Predicate.Values.{Fields, get_field}
use ticket_bot.Executors.Paths.{FilePath}
use ticket_bot.Executors.Edits.{count, replace, replace_first, universal_newlines}
use ticket_bot.Executors.Tools.Os.{
  Os, ToolContext, Act, continue, pure, look, call, note_written, show_nat,
}
use ticket_bot.Executors.Tools.Args.{
  refused, text_arg, need, given_int, cut_lines, or_dot, flag, jail_path, check_reserved,
  max_list_entries, items_between, sort_entries, entry_names,
}

-- What a tool that writes has worked out: where, what, and its answer.
pub record Plan : Type 0 where
  pub path : FilePath
  pub bytes : List ℕ
  pub answer : Text

-- `p.parent`
unfoldable pub parent : FilePath → FilePath
parent [] = []
parent (a ∷ []) = []
parent (a ∷ b ∷ p) = a ∷ parent (b ∷ p)

-- What `_fs_edit` answers where the count of `old` does not allow the edit.
abbrev pub check_count : ℕ → Bool → Outcome (Unit {0})
check_count n replace_all =
    if n == 0
    then refused (codes "'old' not found")
    else if ltb 1 n && not replace_all
    then refused (codes "'old' is not unique")
    else ok tt

-- `_fs_edit` on the text of a file.
unfoldable pub edited : Text → Text → Bool → Text → Outcome Text
unfolding count replace replace_first
edited old new replace_all text = do
  found ← check_count (count text old) replace_all
  ok (if replace_all then replace text old new else replace_first text old new)

module _ {N X : Type 0} (os : Os N X) (ctx : ToolContext) where
  -- `_fs_read`
  unfoldable pub fs_read : Fields N → X → Outcome Text
  unfolding text_arg jail_path get_field
  fs_read args x = do
    rel ← need (codes "fs.read requires a 'path' string") (text_arg (codes "path") args)
    path ← jail_path os ctx x rel
    if not (os.is_file x path) then refused (codes "not a file") else do
      read ← os.read_bytes x path
      let text = os.decode (take ctx.max_read_bytes read)
      offset ← given_int os (get_field (codes "offset") args)
      limit ← given_int os (get_field (codes "limit") args)
      let shown = cut_lines text offset limit
      ok (if ltb ctx.max_read_bytes (length read) then shown ++ codes "\n…[truncated]" else shown)

  -- `_fs_list`
  unfoldable pub fs_list : Fields N → X → Outcome Text
  unfolding jail_path get_field
  fs_list args x = do
    rel ← or_dot os (get_field (codes "path") args)
    path ← jail_path os ctx x rel
    if not (os.is_dir x path) then refused (codes "not a directory") else do
      found ← os.entries x path
      ok (join (10 ∷ []) (entry_names (items_between 0 max_list_entries (sort_entries found))))

  -- `_fs_write`, up to the first write.
  unfoldable pub plan_write : Fields N → X → Outcome Plan
  unfolding text_arg jail_path check_reserved
  plan_write args x = do
    rel ← need (codes "fs.write requires a 'path' string") (text_arg (codes "path") args)
    content ←
        need (codes "fs.write requires 'content' to be a string") (text_arg (codes "content") args)
    encoded ← os.encode content
    if ltb ctx.max_write_bytes (length encoded) then refused (codes "content too large") else do
      path ← jail_path os ctx x rel
      free ← check_reserved os ctx x path
      ok (record {
        path = path;
        bytes = encoded;
        answer = codes "wrote " ++ (show_nat (length encoded) ++ (codes " bytes to " ++ rel));
      })

  -- The write of the file, noted in `ctx.files_written`.
  unfoldable pub store : Plan → Act X Text
  store plan s =
      continue (call (os.write plan.path plan.bytes) s)
        λ _ s. continue (note_written plan.path s) λ _. pure plan.answer

  -- `_fs_write`
  unfoldable pub fs_write : Fields N → Act X Text
  unfolding plan_write parent store
  fs_write args s =
      continue (look (plan_write args) s)
        λ plan s. continue (call (os.mkdir (parent plan.path)) s) λ _ s. store plan s

  -- `_fs_edit`, up to the write.
  unfoldable pub plan_edit : Fields N → X → Outcome Plan
  unfolding text_arg jail_path check_reserved edited get_field
  plan_edit args x = do
    rel ← need_strings (text_arg (codes "path") args)
    old ← need_strings (text_arg (codes "old") args)
    new ← need_strings (text_arg (codes "new") args)
    if text_eq old [] then refused (codes "fs.edit requires a non-empty 'old' string") else do
      path ← jail_path os ctx x rel
      free ← check_reserved os ctx x path
      if not (os.is_file x path) then refused (codes "not a file") else do
        read ← os.read_bytes x path
        let text = universal_newlines (os.decode read)
        let replace_all = flag os (get_field (codes "replace_all") args)
        next ← edited old new replace_all text
        encoded ← os.encode next
        if ltb ctx.max_write_bytes (length encoded)
            then refused (codes "result too large")
            else ok (record {
              path = path;
              bytes = encoded;
              answer =
                  codes "replaced "
                  ++ (show_nat (if replace_all then count text old else 1)
                      ++ (codes " occurrence(s) in " ++ rel));
            })
    where
      need_strings : Option Text → Outcome Text
      need_strings o = need (codes "fs.edit requires 'path', 'old' and 'new' strings") o

  -- `_fs_edit`
  unfoldable pub fs_edit : Fields N → Act X Text
  unfolding plan_edit store
  fs_edit args s = continue (look (plan_edit args) s) λ plan s. store plan s
