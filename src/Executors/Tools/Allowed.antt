-- ===== src/Executors/Tools/Allowed.antt =====
-- What `dispatch` lets a model do with the tools that its step was given.
use ticket_bot.Prelude.{
  ℕ, ◌≡◌, ◌≢◌, refl, ap, sym, ◌∙◌, Bool, true, false, Option, none, some, Text, codes, text_in,
  List, [], ◌∷◌, ◌++◌, lookup,
}
use ticket_bot.Predicate.Values.{Fields}
use ticket_bot.Executors.Paths.{FilePath}
use ticket_bot.Executors.Tools.Os.{Os, ToolContext, Desk}
use ticket_bot.Executors.Tools.Names.{Tool, catalogue, from_wire, name_of, lookup-name_of}
use ticket_bot.Executors.Tools.Commands.{shots_dir}
use ticket_bot.Executors.Tools.Dispatch.{run_tool, call_tool, settle, dispatch}
use ticket_bot.Executors.Tools.Frame.{
  is_writable, Documented, fs_write-Kept, fs_edit-Kept, take_shot-Kept,
}

module _ {N X : Type 0} (os : Os N X) (ctx : ToolContext) where
  -- A property of the state that `dispatch` leaves: it holds if nothing changes, and if it holds after
  -- every allowed tool.
  dispatch-all :
      (R : Desk X → Type 0) (wire : Text) (args : Fields N) (s : Desk X)
      → R s
      → ((tool : Tool)
          → text_in (name_of tool) ctx.allow ≡ true
          → R (run_tool os ctx tool args s).1)
      → R (dispatch os ctx wire args s).1
  unfolding dispatch call_tool
  dispatch-all R wire args s same after = by_allow (text_in (from_wire wire) ctx.allow) refl
    where
      by_tool :
          (o : Option Tool)
          → lookup (from_wire wire) catalogue ≡ o
          → text_in (from_wire wire) ctx.allow ≡ true
          → R (settle os ctx (call_tool os ctx o args s)).1
      by_tool none e a = same
      by_tool (some tool) e a =
          after tool (ap (λ n. text_in n ctx.allow) (sym (lookup-name_of _ tool e)) ∙ a)

      by_allow :
          (b : Bool) → text_in (from_wire wire) ctx.allow ≡ b → R (dispatch os ctx wire args s).1
      by_allow true a = rw a (by_tool _ refl a)
      by_allow false a = rw a same

  -- None of the tools that change anything is allowed.
  pub record IsReadOnly : Type 0 where
    pub no_write : text_in (codes "fs.write") ctx.allow ≡ false
    pub no_edit : text_in (codes "fs.edit") ctx.allow ≡ false
    pub no_shell : text_in (codes "shell.run") ctx.allow ≡ false
    pub no_screenshot : text_in (codes "runtime.screenshot") ctx.allow ≡ false

  refused_by : {A : Type 0} {b : Bool} → b ≡ false → b ≡ true → A
  refused_by no_tool a = cc

  -- A step whose tools are the reading ones changes nothing, neither outside nor in the list of written
  -- files, whatever tool the model calls with whatever arguments.
  pub dispatch-read_only :
      (wire : Text) (args : Fields N) (s : Desk X)
      → IsReadOnly
      → (dispatch os ctx wire args s).1 ≡ s
  unfolding run_tool
  dispatch-read_only wire args s r = dispatch-all (λ t. t ≡ s) wire args s refl after
    where
      after :
          (tool : Tool)
          → text_in (name_of tool) ctx.allow ≡ true
          → (run_tool os ctx tool args s).1 ≡ s
      after Tool.fs_read a = refl
      after Tool.fs_list a = refl
      after Tool.fs_write a = refused_by r.no_write a
      after Tool.fs_edit a = refused_by r.no_edit a
      after Tool.shell_run a = refused_by r.no_shell a
      after Tool.runtime_screenshot a = refused_by r.no_screenshot a
      after Tool.source_read a = refl

  -- Without `shell.run`, no call of a tool changes a file that lies neither in the workspace nor in the
  -- artifacts, nor one that is a record of the engine, the pictures in `screenshots` aside; a write is
  -- taken to change the file that it names and no other.
  pub dispatch-confined :
      (content : X → FilePath → Option (List ℕ)) (wire : Text) (args : Fields N) (s : Desk X)
      (q : FilePath)
      → Documented os ctx content
      → text_in (codes "shell.run") ctx.allow ≡ false
      → is_writable os ctx s.outside q ≡ false
      → ((name : Text) → shots_dir os ctx ++ (name ∷ []) ≢ q)
      → content (dispatch os ctx wire args s).1.outside q ≡ content s.outside q
  unfolding run_tool
  dispatch-confined content wire args s q laws no_shell apart no_shot =
      dispatch-all (λ t. content t.outside q ≡ content s.outside q) wire args s refl after
    where
      after :
          (tool : Tool)
          → text_in (name_of tool) ctx.allow ≡ true
          → content (run_tool os ctx tool args s).1.outside q ≡ content s.outside q
      after Tool.fs_read a = refl
      after Tool.fs_list a = refl
      after Tool.fs_write a = fs_write-Kept os ctx content laws q args s apart
      after Tool.fs_edit a = fs_edit-Kept os ctx content laws q args s apart
      after Tool.shell_run a = refused_by no_shell a
      after Tool.runtime_screenshot a = take_shot-Kept os ctx content laws q s no_shot
      after Tool.source_read a = refl
