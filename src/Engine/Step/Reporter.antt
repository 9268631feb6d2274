-- ===== src/Engine/Step/Reporter.antt =====
-- `_apply_pr_url` and `_after_reporter` of ticketbot/engine/orchestrator.py.
use ticket_bot.Prelude.{
  Bool, false, ◌||◌, Option, none, some, Text, codes, text_eq, List, [], ◌∷◌, ◌++◌, if◌then◌else◌,
  starts_with, split_on, join, non_empty, is_some, ◌==◌, reverse,
}
use ticket_bot.Predicate.Compare.{is_piece}
use ticket_bot.Core.WorkItem.{key}
use ticket_bot.Engine.Gates.{GateDecision, on_pr_ready}
use ticket_bot.Engine.Context.{get_or}
use ticket_bot.Executors.Edits.{replace}
use ticket_bot.Engine.Env.{Env}
use ticket_bot.Engine.World.{
  World, Action, pure, gets, call, finally, ignore_errors, write_artifact, ◌>>=◌, ◌>>◌,
}
use ticket_bot.Engine.Step.Hooks.{edit_extra}

abbrev pub pr_placeholder : Text
pr_placeholder = codes "{pr_url}"

-- `[ \t]*` at the start of a text.
unfoldable pub skip_blanks : Text → Text
skip_blanks [] = []
skip_blanks (c ∷ s) = if c == 32 || c == 9 then skip_blanks s else c ∷ s

-- `_EMPTY_PR_LINE_RE` on one line: `PR:` with blanks around it.
unfoldable pub is_empty_pr_line : Text → Bool
unfolding skip_blanks
is_empty_pr_line line = text_eq (reverse (skip_blanks (reverse (skip_blanks line)))) (codes "PR:")

unfoldable pub has_empty_pr_line : List Text → Bool
unfolding is_empty_pr_line
has_empty_pr_line [] = false
has_empty_pr_line (l ∷ ls) = is_empty_pr_line l || has_empty_pr_line ls

unfoldable pub fill_pr_line : Text → List Text → List Text
unfolding is_empty_pr_line
fill_pr_line url [] = []
fill_pr_line url (l ∷ ls) =
    if is_empty_pr_line l then (codes "PR: " ++ url) ∷ ls else l ∷ fill_pr_line url ls

-- `text.endswith("\n")`
abbrev pub ends_line : Text → Bool
ends_line text = starts_with (reverse text) (10 ∷ [])

-- `_apply_pr_url`
unfoldable pub apply_pr_url : Text → Text → Text
unfolding replace has_empty_pr_line fill_pr_line
apply_pr_url text url =
    if is_piece pr_placeholder text
    then replace text pr_placeholder url
    else if has_empty_pr_line (split_on 10 text)
    then join (10 ∷ []) (fill_pr_line url (split_on 10 text))
    else if is_piece url text
    then text
    else text
      ++ ((if ends_line text then [] else codes "\n") ++ (codes "\nPR: " ++ (url ++ codes "\n")))

module _ {N X : Type 0} (env : Env N X) where
  abbrev pub read_or : Text → Text → World N X → Text
  read_or name fallback w = get_or (env.adapters.read_file name w.outside) fallback

  -- A file that the reporter did not write is written with its text.
  unfoldable pub ensure_file : Text → Text → Action N X (Unit {0})
  ensure_file name text = do
    found ← gets (λ w. env.adapters.read_file name w.outside)
    if is_some found then pure tt else write_artifact env name text

  abbrev pub announce_pr : Option Text → Action N X (Unit {0})
  announce_pr none = pure tt
  announce_pr (some url) = do
    edit_extra (λ extra. record extra { pr_url = some url })
    ignore_errors (call (env.adapters.sink_set_pr_url url))
    call (env.adapters.sink_link url (codes "Pull request"))

  abbrev pub with_pr_url : Option Text → Text → Text
  with_pr_url none text = text
  with_pr_url (some url) text = apply_pr_url text url

  abbrev pub given_url : Option Text → Option Text
  given_url none = none
  given_url (some url) = if non_empty url then some url else none

  -- `_after_reporter`; the screenshots' files are the sink's.
  unfoldable pub after_reporter : Text → Action N X GateDecision
  unfolding ensure_file apply_pr_url
  after_reporter text = do
    ensure_file (codes "pr.md") text
    ensure_file (codes "ticket_comment.md") text
    call env.adapters.repo_push
    item ← gets (λ w. w.item)
    body ← gets (read_or (codes "pr.md") text)
    opened ← call (env.adapters.repo_open_pr (key item ++ (codes ": " ++ item.title)) body)
    let url = given_url opened
    announce_pr url
    comment ← gets (λ w. with_pr_url url (read_or (codes "ticket_comment.md") text w))
    finally
        (call (env.adapters.sink_comment comment)
          >> call (env.adapters.sink_transition (codes "In Review")))
        (write_artifact env (codes "ticket_comment.md") comment)
    pure (on_pr_ready env.profile.gates)
