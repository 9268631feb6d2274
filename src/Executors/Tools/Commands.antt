-- ===== src/Executors/Tools/Commands.antt =====
-- `_shell_run`, `_runtime_screenshot` and `_source_read`.
use ticket_bot.Prelude.{
  ℕ, suc, ltb, leb, Bool, not, ◌&&◌, Option, none, some, Text, codes, text_in, starts_with,
  if◌then◌else◌, List, [], ◌∷◌, ◌++◌, reverse,
}
use ticket_bot.Prelude.Int.{ℤ, pos, negsuc}
use ticket_bot.Prelude.Trim.{take}
use ticket_bot.Prelude.Outcomes.{Outcome, ok, raised, value_error, ◌>>=◌}
use ticket_bot.Predicate.Values.{
  Value, Items, Fields, null, str, list, nil, cons, get_field, truthy,
}
use ticket_bot.Executors.Paths.{FilePath, jail, escapes}
use ticket_bot.Executors.Tools.Os.{
  Os, ToolContext, Act, Runtime, Proc, completed, timed_out, not_started, continue, pure, look,
  call, note_written, show_nat, show_int,
}
use ticket_bot.Executors.Tools.Args.{refused}

abbrev pub max_shell_output_chars : ℕ
max_shell_output_chars = 20000

-- What is to be run: `argv`, the directory and the timeout.
pub record Command : Type 0 where
  pub argv : List Text
  pub cwd : FilePath
  pub timeout_s : ℤ

abbrev pub min_int : ℤ → ℕ → ℤ
min_int (pos a) b = if leb a b then pos a else pos b
min_int (negsuc a) b = negsuc a

-- f"exit={code}\n{stdout}\n{stderr}", cut off.
abbrev pub output : Text → Text → Text → Text
output code stdout stderr =
    take max_shell_output_chars (codes "exit=" ++ (code ++ (10 ∷ (stdout ++ (10 ∷ stderr)))))

module _ {N X : Type 0} (os : Os N X) (ctx : ToolContext) where
  abbrev pub texts_of : Items N → Option (List Text)
  texts_of nil = some []
  texts_of (cons (str s) vs) = put s (texts_of vs)
    where
      put : Text → Option (List Text) → Option (List Text)
      put s none = none
      put s (some ss) = some (s ∷ ss)
  texts_of (cons _ vs) = none

  -- `argv`: a list of texts with at least one item.
  abbrev pub argv_of : Option (Value N) → Outcome (List Text)
  argv_of (some (list vs)) = non_empty_list (texts_of vs)
    where
      non_empty_list : Option (List Text) → Outcome (List Text)
      non_empty_list (some (s ∷ ss)) = ok (s ∷ ss)
      non_empty_list _ = refused (codes "shell.run requires a non-empty 'argv' list of strings")
  argv_of _ = refused (codes "shell.run requires a non-empty 'argv' list of strings")

  -- A `cwd` that is truthy and no text is refused by `jail`.
  abbrev pub cwd_of : X → Option (Value N) → Outcome FilePath
  unfolding truthy jail
  cwd_of x none = ok (os.links.resolve x ctx.workspace)
  cwd_of x (some v) =
      if truthy os.python v then jail_value v else ok (os.links.resolve x ctx.workspace)
    where
      jail_value : Value N → Outcome FilePath
      jail_value (str s) = jail os.links x ctx.workspace s
      jail_value _ = raised escapes

  -- `value_error` stands for the ValueError and the TypeError of `int()`.
  abbrev pub timeout_of : Option (Value N) → Outcome ℤ
  timeout_of none = ok (pos ctx.shell_timeout_s)
  timeout_of (some null) = ok (pos ctx.shell_timeout_s)
  timeout_of (some v) = capped (os.to_int v)
    where
      capped : Outcome ℤ → Outcome ℤ
      capped (ok n) = ok (min_int n ctx.shell_timeout_s)
      capped (raised (value_error t)) = refused (codes "shell.run 'timeout' must be a number")
      capped (raised e) = raised e

  -- `_shell_run`, up to the start of the command.
  unfoldable pub plan_shell : Fields N → X → Outcome Command
  unfolding get_field text_in
  plan_shell args x =
      if not (text_in (codes "shell.run") ctx.allow)
      then refused (codes "shell.run is not allowlisted for this step")
      else do
        argv ← argv_of (get_field (codes "argv") args)
        cwd ← cwd_of x (get_field (codes "cwd") args)
        timeout_s ← timeout_of (get_field (codes "timeout") args)
        ok (record { argv = argv; cwd = cwd; timeout_s = timeout_s })

  -- The answer for a process.
  unfoldable pub proc_text : ℤ → Proc → Outcome Text
  proc_text timeout_s (completed out) = ok (output (show_int out.exit_code) out.stdout out.stderr)
  proc_text timeout_s (timed_out stdout stderr) =
      ok (output (codes "-1 (timed out after " ++ (show_int timeout_s ++ codes "s)")) stdout stderr)
  proc_text timeout_s not_started = refused (codes "shell.run failed to start")

  abbrev pub in_process : Command → Act X Text
  unfolding proc_text
  in_process c s =
      continue (call (os.subprocess c.argv c.cwd c.timeout_s) s)
        λ proc. look λ x. proc_text c.timeout_s proc

  -- The runtime runs the command where there is one that can.
  unfoldable pub execute : Option (Runtime X) → Command → Act X Text
  execute none c s = in_process c s
  execute (some runtime) c s =
      if runtime.can_exec
      then continue (call (runtime.exec c.argv c.cwd c.timeout_s) s)
          (λ out. pure (output (show_int out.exit_code) out.stdout out.stderr))
      else in_process c s

  -- `_shell_run`
  unfoldable pub run_command : Fields N → Act X Text
  unfolding plan_shell execute
  run_command args s = continue (look (plan_shell args) s) λ c. execute os.runtime c

  abbrev pub no_runtime : Text
  no_runtime = codes "no runtime configured"

  abbrev pub shots_dir : FilePath
  shots_dir = ctx.artifacts_dir ++ (codes "screenshots" ∷ [])

  -- The entries `tool-*.png` of a directory.
  unfoldable pub count_shots : List (Text × Bool) → ℕ
  count_shots [] = 0
  count_shots ((name, is_dir) ∷ es) =
      if starts_with name (codes "tool-") && starts_with (reverse name) (reverse (codes ".png"))
      then suc (count_shots es)
      else count_shots es

  -- f"tool-{n:02d}.png"
  abbrev pub shot_name : ℕ → Text
  shot_name n =
      codes "tool-" ++ ((if ltb n 10 then 48 ∷ show_nat n else show_nat n) ++ codes ".png")

  unfoldable pub keep_shot : List ℕ → Act X Text
  unfolding count_shots
  keep_shot shot s = continue (call (os.mkdir shots_dir) s) λ _ s.
      continue (look (λ x. os.entries x shots_dir) s) λ found s.
        let name = shot_name (suc (count_shots found)) in
        continue (call (os.write (shots_dir ++ (name ∷ [])) shot) s) λ _ s.
          continue (note_written (shots_dir ++ (name ∷ [])) s)
            λ _. pure (codes "screenshots/" ++ name)

  abbrev pub shot_answer : Option (List ℕ) → Act X Text
  shot_answer none = pure no_runtime
  shot_answer (some []) = pure no_runtime
  shot_answer (some (b ∷ bs)) = keep_shot (b ∷ bs)

  -- `_runtime_screenshot`
  unfoldable pub take_shot : Option (Runtime X) → Act X Text
  take_shot none s = pure no_runtime s
  take_shot (some runtime) s = continue (call runtime.screenshot s) shot_answer
