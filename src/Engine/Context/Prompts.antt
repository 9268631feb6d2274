-- ===== src/Engine/Context/Prompts.antt =====
-- `prompt_values` of ticketbot/engine/context.py: what a placeholder of a role prompt can name.
use ticket_bot.Prelude.{
  Bool, Option, none, some, Text, codes, if◌then◌else◌, [], ◌∷◌, ◌++◌, join, map, or_else, Dict,
  insert,
}
use ticket_bot.Predicate.Values.{Fields, Python, num, str, dict, end, field}
use ticket_bot.Core.Templating.{render}
use ticket_bot.Core.Run.{Run}
use ticket_bot.Core.WorkItem.{WorkItem, key}
use ticket_bot.Core.Banner.{comment_line, or_no_text}
use ticket_bot.Engine.Context.{get_or}
use ticket_bot.Engine.Env.{Section}
use ticket_bot.Executors.Tools.Os.{show_nat}

-- `GIT_PROHIBITION`
abbrev pub git_prohibition : Text
git_prohibition =
    codes
      "Do NOT run git (no add/commit/push/checkout). Leave every change in the working tree — the orchestrator commits."

-- `QUESTION_PROTOCOL`
abbrev pub question_protocol : Text
question_protocol =
    codes
      "If a genuine decision blocks you — ambiguous requirement, missing credential, a design fork the user must choose — do NOT guess. End your turn with a block that starts with `QUESTION:` on its own line, state the decision needed and the options, and stop. Otherwise, complete the task."

-- The interpreter that runs the program, and how it joins paths.
pub record Platform : Type 0 where
  pub is_windows : Bool
  pub python_version : Text
  pub under : Text → Text → Text

-- `str(rd / name) if rd else ""`
abbrev pub in_dir : Platform → Option Text → Text → Text
in_dir platform none name = []
in_dir platform (some dir) name = platform.under dir name

abbrev pub number_text : {N : Type 0} → Python N → Option N → Text
number_text py none = []
number_text py (some n) = py.str_of (num n)

-- The values of a section replace those that were empty.
unfoldable pub with_section : Option Section → Dict Text → Dict Text
unfolding insert
with_section none values = values
with_section (some section) values = insert (codes "section_count") (show_nat section.count) (
    insert (codes "section_index") (show_nat section.index) (
      insert (codes "section_title") section.title
        (insert (codes "section_file") section.file values)))

-- `values.update(extra)`
unfoldable pub update : Dict Text → Dict Text → Dict Text
unfolding insert
update [] values = values
update ((k, v) ∷ extra) values = update extra (insert k v values)

-- `prompt_values`, with the id and the role of the step.
unfoldable pub prompt_values :
    {N : Type 0}
    → Python N
    → Platform
    → WorkItem N
    → Run
    → Text
    → Text
    → Option Text
    → Option Text
    → Option Section
    → Dict Text
    → Dict Text
unfolding with_section update key join
prompt_values py platform item run step_id role workspace run_dir section extra = update extra (
    with_section section (
      (codes "repo_root", or_no_text workspace)
      ∷ (codes "workspace", or_no_text workspace)
      ∷ (codes "run_dir", or_no_text run_dir)
      ∷ (
        codes "platform",
        if platform.is_windows then codes "Windows / PowerShell 5.1" else codes "POSIX shell",
      )
      ∷ (codes "python_note", codes "Python " ++ platform.python_version)
      ∷ (codes "task", or_else item.description item.title)
      ∷ (codes "ticket_key", key item)
      ∷ (codes "ticket_title", item.title)
      ∷ (codes "ticket_type", item.issue_type)
      ∷ (codes "ticket_points", number_text py item.story_points)
      ∷ (codes "ticket_url", or_no_text item.url)
      ∷ (codes "ticket_description", item.description)
      ∷ (codes "ticket_acceptance", item.acceptance)
      ∷ (codes "ticket_labels", join (codes ", ") item.labels)
      ∷ (codes "ticket_comments", join (10 ∷ []) (map comment_line item.comments))
      ∷ (codes "context_paths", [])
      ∷ (codes "banner", run.banner)
      ∷ (codes "step_id", step_id)
      ∷ (codes "role", role)
      ∷ (codes "plan_file", in_dir platform run_dir (codes "plan.md"))
      ∷ (codes "sections_dir", in_dir platform run_dir (codes "sections"))
      ∷ (codes "section_file", [])
      ∷ (codes "section_title", [])
      ∷ (codes "section_index", [])
      ∷ (codes "section_count", [])
      ∷ (codes "diff", in_dir platform run_dir (codes "patch.diff"))
      ∷ (codes "test_report", in_dir platform run_dir (codes "test-report.md"))
      ∷ (codes "review_file", in_dir platform run_dir (codes "review.md"))
      ∷ (codes "security_file", in_dir platform run_dir (codes "security.md"))
      ∷ (codes "pr_url", get_or run.extra.pr_url [])
      ∷ (codes "screenshots", join (codes ", ") run.extra.screenshots)
      ∷ (codes "question_protocol", question_protocol)
      ∷ (codes "git_prohibition", git_prohibition)
      ∷ []))

unfoldable pub text_fields : {N : Type 0} → Dict Text → Fields N
text_fields [] = end
text_fields ((k, v) ∷ values) = field k (str v) (text_fields values)

-- `render(body_template, values)`
unfoldable pub rendered : {N : Type 0} → Python N → Text → Dict Text → Text
unfolding text_fields render
rendered py body values = render py body (dict (text_fields values))
