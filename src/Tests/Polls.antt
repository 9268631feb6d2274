-- ===== src/Tests/Polls.antt =====
-- The theorem on a sweep of `poll` at a concrete input: of two items, one is locked.
use ticket_bot.Prelude.{
  ℕ, ◌≡◌, refl, true, some, Text, codes, text_eq, if◌then◌else◌, List, [], ◌∷◌,
}
use ticket_bot.Prelude.Outcomes.{ok}
use ticket_bot.Core.WorkItem.{WorkItem}
use ticket_bot.Engine.Lock.{Holder, LockFile, absent, held}
use ticket_bot.Engine.Entry.{Office, Desk, sweep}
use ticket_bot.Engine.Entry.Swept.{free_items, sweep-free_items}
use ticket_bot.Tests.Samples.{new_run, work_item}

abbrev holder : Text → Holder
holder id = record { pid = 7; run_id = id; started_at = 0 }

abbrev desk : Desk ℕ ℕ
desk = record {
  new_run = λ item x. (new_run, x);
  run_pipeline = λ run item fresh x. (ok run, x);
  fetch = λ id x. (ok work_item, x);
  load = λ id x. (ok new_run, x);
  read_item = λ run x. (ok work_item, x);
  close_source = λ x. x;
  mark_processed = λ item x. x;
  holder = λ id x. holder id;
  others = λ locks x. locks;
  clock = λ x. x;
  stale_after = 21600;
  probe = λ pid. true;
}

abbrev locked_item : WorkItem ℕ
locked_item = record work_item { id = codes "L" }

abbrev locks : Text → LockFile
locks k = if text_eq k (codes "L") then held (holder (codes "other")) else absent

abbrev office : Office ℕ
office = record { locks = locks; outside = 0 }

abbrev found : List (WorkItem ℕ)
found = locked_item ∷ work_item ∷ []

sweep-free_items_example :
    sweep desk (some 3) found 0 office ≡ sweep desk (some 3) (free_items desk locks found) 0 office
sweep-free_items_example = sweep-free_items desk (λ locks x. refl) (some 3) found 0 office
