-- ===== src/Executors/Api.antt =====
-- ticketbot/executors/api_loop.py: the tool loop over a provider of models. The provider and the clock
-- are parameters; `native` content, which a provider gets back as it gave it, is left out.
pub mod Paired
pub mod Capped
pub mod Quiet
use ticket_bot.Prelude.{
  ℕ, zero, suc, ◌+◌, ltb, Bool, true, false, Option, none, some, Text, codes, if◌then◌else◌, List,
  [], ◌∷◌, ◌++◌,
}
use ticket_bot.Prelude.Int.{ℤ, pos, negsuc}
use ticket_bot.Prelude.Outcomes.{Exn, Outcome, ok, raised, provider_error}
use ticket_bot.Predicate.Values.{Fields}
use ticket_bot.Engine.Protocol.{parse_question, parse_defers}
use ticket_bot.Models.{
  Usage, no_usage, add_usage, ToolCall, Block, text_block, tool_use, tool_result, Msg, prompt_msg,
  user_msg, assistant_msg, ProviderMessage,
}
use ticket_bot.Executors.Paths.{FilePath}
use ticket_bot.Executors.Snapshots.{Snapshot, diff_snapshots, tool_writes, merge_paths, sort_paths}
use ticket_bot.Executors.Tools.Os.{Os, ToolContext, Desk, Call}
use ticket_bot.Executors.Tools.Names.{build_tools}
use ticket_bot.Executors.Tools.Dispatch.{dispatch}

-- What the loop is given: `complete` with the system text, the messages, the names of the tools and
-- `max_tokens`; the clock; `snapshot_tree`; the settings of the executor and of the request.
pub record Setting (N X : Type 0) : Type 0 where
  pub os : Os N X
  pub complete : Text → List (Msg N) → List Text → ℕ → Call X (ProviderMessage N)
  pub monotonic : X → ℕ × X
  pub snapshot_tree : X → FilePath → Snapshot
  pub max_iterations : ℕ
  pub max_tokens : ℕ
  pub shell_timeout_s : ℕ

pub record Request : Type 0 where
  pub system : Text
  pub prompt : Text
  pub workspace : FilePath
  pub artifacts_dir : FilePath
  pub tools : List Text
  pub timeout_s : ℕ
  pub max_cost_usd : Option ℕ
  pub work_item_text : Text

-- ExecResult
pub record ApiResult : Type 0 where
  pub text : Text
  pub usage : Usage
  pub files_written : List FilePath
  pub question : Option Text
  pub defers : List Text
  pub exit_code : ℤ
  pub error : Option Text
  pub timed_out : Bool

-- The variables of `run` that its loop changes.
pub record Talk (N X : Type 0) : Type 0 where
  pub messages : List (Msg N)
  pub usage : Usage
  pub text : Text
  pub desk : Desk X

-- Why the loop is left: `break`, or a `return` with an error, the exit code and whether it timed out.
pub data Ending : Type 0 where
  answered : Ending
  failed timed_out : Text → Ending

pub data Round (N X : Type 0) : Type 0 where
  over : Ending → Talk N X → Round N X
  crashed : Exn → Talk N X → Round N X
  again : Talk N X → Round N X

abbrev pub exceeds : ℕ → Option ℕ → Bool
exceeds cost none = false
exceeds cost (some cap) = ltb cap cost

-- `ToolContext(...)`
abbrev pub tool_context : {N X : Type 0} → Setting N X → Request → ToolContext
tool_context set req = record {
  workspace = req.workspace;
  artifacts_dir = req.artifacts_dir;
  allow = req.tools;
  max_read_bytes = 1000000;
  max_write_bytes = 5000000;
  shell_timeout_s = set.shell_timeout_s;
  work_item_text = req.work_item_text;
}

-- `except ProviderError`: any other exception passes by.
abbrev pub provider_message : Exn → Option Text
provider_message (provider_error message) = some message
provider_message _ = none

abbrev pub fail_round : {N X : Type 0} → Exn → Option Text → Talk N X → Round N X
fail_round e none t = crashed e t
fail_round e (some message) t = over (failed message) t

abbrev pub go_on :
    {N X : Type 0} → (Talk N X → Outcome Ending × Talk N X) → Round N X → Outcome Ending × Talk N X
go_on next (over ending t) = (ok ending, t)
go_on next (crashed e t) = (raised e, t)
go_on next (again t) = next t

-- The variables at the start of the loop.
abbrev pub start_talk : {N X : Type 0} → Request → X → Talk N X
start_talk req x = record {
  messages = prompt_msg req.prompt ∷ [];
  usage = no_usage;
  text = [];
  desk = record { outside = x; files_written = [] };
}

module _ {N : Type 0} where
  unfoldable pub tool_uses : List (ToolCall N) → List (Block N)
  tool_uses [] = []
  tool_uses (c ∷ cs) = tool_use c ∷ tool_uses cs

  module _ {X : Type 0} (set : Setting N X) (req : Request) where
    -- The calls of one turn, in order, each with its result.
    unfoldable pub run_calls : List (ToolCall N) → Desk X → List (Block N) × Desk X
    unfolding dispatch
    run_calls [] desk = ([], desk)
    run_calls (c ∷ cs) desk =
        let ((out, is_err), desk) = dispatch set.os (tool_context set req) c.name c.input desk in
        let (results, desk) = run_calls cs desk in (tool_result c.id out is_err ∷ results, desk)

    -- The two messages that a turn with tool calls adds.
    unfoldable pub answer_calls : ProviderMessage N → Talk N X → Talk N X
    unfolding run_calls tool_uses
    answer_calls pm t =
        let (results, desk) = run_calls pm.tool_calls t.desk in
        record t {
          messages =
              t.messages
              ++ (assistant_msg (text_block pm.text ∷ tool_uses pm.tool_calls)
                  ∷ user_msg results
                  ∷ []);
          desk = desk;
        }

    -- `if not pm.tool_calls: break`
    abbrev pub after_cap : List (ToolCall N) → ProviderMessage N → Talk N X → Round N X
    unfolding answer_calls
    after_cap [] pm t = over answered t
    after_cap (_ ∷ _) pm t = again (answer_calls pm t)

    -- From the answer of the provider on.
    unfoldable pub after_answer : ProviderMessage N → Talk N X → Round N X
    unfolding answer_calls
    after_answer pm t =
        let t : Talk N X = record t { usage = add_usage t.usage pm.usage; text = pm.text } in
        if exceeds t.usage.cost_usd req.max_cost_usd
        then over (failed (codes "cost cap exceeded")) t
        else after_cap pm.tool_calls pm t

    unfoldable pub answer_round : Talk N X → Outcome (ProviderMessage N) × X → Round N X
    unfolding after_answer
    answer_round t (ok pm, x) = after_answer pm (record t { desk = record t.desk { outside = x } })
    answer_round t (raised e, x) =
        fail_round e (provider_message e) (record t { desk = record t.desk { outside = x } })

    -- One round of the loop.
    unfoldable pub round : ℕ → Talk N X → Round N X
    unfolding answer_round build_tools
    round deadline t =
        let (now, x) = set.monotonic t.desk.outside in
        if ltb deadline now
        then over (timed_out (codes "timed out"))
            (record t { desk = record t.desk { outside = x } })
        else answer_round t
            (set.complete req.system t.messages (build_tools req.tools) set.max_tokens x)

    -- The loop: `fuel` is the rounds that are left of `max_iterations`.
    unfoldable pub rounds : ℕ → ℕ → Talk N X → Outcome Ending × Talk N X
    unfolding round
    rounds zero deadline t = (ok (failed (codes "max_iterations reached")), t)
    rounds (suc fuel) deadline t = go_on (rounds fuel deadline) (round deadline t)

    abbrev pub error_of : Ending → Option Text
    error_of answered = none
    error_of (failed e) = some e
    error_of (timed_out e) = some e

    abbrev pub is_timed_out : Ending → Bool
    is_timed_out (timed_out e) = true
    is_timed_out _ = false

    -- `_finish`
    unfoldable pub finish : Snapshot → Ending → Talk N X → ApiResult
    unfolding diff_snapshots tool_writes merge_paths parse_question parse_defers
    finish before ending t =
        let after = set.snapshot_tree t.desk.outside req.workspace in
        let resolve = set.os.links.resolve t.desk.outside in
        record {
          text = t.text;
          usage = t.usage;
          files_written =
              merge_paths (tool_writes resolve (resolve req.workspace) t.desk.files_written)
                (diff_snapshots before after);
          question = parse_question t.text;
          defers = parse_defers t.text;
          exit_code = if is_timed_out ending then negsuc 0 else pos 0;
          error = error_of ending;
          timed_out = is_timed_out ending;
        }

    abbrev pub finished : Snapshot → Outcome Ending × Talk N X → Outcome ApiResult × X
    unfolding finish
    finished before (ok ending, t) = (ok (finish before ending t), t.desk.outside)
    finished before (raised e, t) = (raised e, t.desk.outside)

    -- `ApiLoopExecutor.run`
    unfoldable pub run : X → Outcome ApiResult × X
    unfolding rounds finish
    run x =
        let before = set.snapshot_tree x req.workspace in
        let (now, x) = set.monotonic x in
        finished before (rounds set.max_iterations (now + req.timeout_s) (start_talk req x))
