-- ===== src/Executors/Tools/Dispatch.antt =====
-- `dispatch` of `build_tools`: the one way in which the loop calls a tool.
use ticket_bot.Prelude.{
  Bool, true, false, not, Option, none, some, Text, codes, text_in, if◌then◌else◌, lookup,
}
use ticket_bot.Prelude.Outcomes.{Outcome, ok, raised, tool_error}
use ticket_bot.Predicate.Values.{Fields}
use ticket_bot.Executors.Tools.Os.{Os, ToolContext, Act, Desk, pure, look, fail}
use ticket_bot.Executors.Tools.Names.{Tool, catalogue, from_wire}
use ticket_bot.Executors.Tools.Files.{fs_read, fs_list, fs_write, fs_edit}
use ticket_bot.Executors.Tools.Commands.{run_command, take_shot}

module _ {N X : Type 0} (os : Os N X) (ctx : ToolContext) where
  unfoldable pub run_tool : Tool → Fields N → Act X Text
  unfolding fs_read fs_list fs_write fs_edit run_command take_shot
  run_tool Tool.fs_read args = look (fs_read os ctx args)
  run_tool Tool.fs_list args = look (fs_list os ctx args)
  run_tool Tool.fs_write args = fs_write os ctx args
  run_tool Tool.fs_edit args = fs_edit os ctx args
  run_tool Tool.shell_run args = run_command os ctx args
  run_tool Tool.runtime_screenshot args = take_shot os ctx os.runtime
  run_tool Tool.source_read args = pure ctx.work_item_text

  unfoldable pub call_tool : Option Tool → Fields N → Act X Text
  unfolding run_tool
  call_tool none args = fail (tool_error (codes "unknown tool"))
  call_tool (some tool) args = run_tool tool args

  -- The text for the model, and whether it is an error.
  abbrev pub answer_of : Outcome Text → Text × Bool
  answer_of (ok text) = (os.redact text, false)
  answer_of (raised e) = (os.redact (os.message e), true)

  abbrev pub settle : Outcome Text × Desk X → (Text × Bool) × Desk X
  settle (r, s) = (answer_of r, s)

  -- `dispatch`; every exception becomes an answer.
  unfoldable pub dispatch : Text → Fields N → Desk X → (Text × Bool) × Desk X
  unfolding call_tool from_wire text_in lookup
  dispatch wire args s =
      let name = from_wire wire in
      if not (text_in name ctx.allow)
      then settle (fail (tool_error (codes "tool not allowlisted for this step")) s)
      else settle (call_tool (lookup name catalogue) args s)
