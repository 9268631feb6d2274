-- ===== src/Engine/Entry.antt =====
-- The entry points of ticketbot/engine/orchestrator.py: `run_once`, `resume` and a sweep of `poll`, each
-- with the lock of its work item. What a source yields in one sweep is taken as a list, and a run of the
-- pipeline, whose loop is Engine/Loop, as a function that leaves the locks alone. Other processes may
-- change the locks before `acquire`, before `release` and before `is_locked`.
pub mod Released
pub mod Swept
use ticket_bot.Prelude.{
  ℕ, suc, leb, ◌==◌, Bool, true, false, Option, none, some, Text, codes, text_eq, if◌then◌else◌,
  List, [], ◌∷◌, non_empty,
}
use ticket_bot.Prelude.Outcomes.{Exn, Outcome, ok, raised, lock_held, interrupted}
use ticket_bot.Core.Run.{Run}
use ticket_bot.Core.WorkItem.{WorkItem, key}
use ticket_bot.Engine.Lock.{
  Holder, LockFile, absent, Acquired, acquired, LockState, is_locked, acquire, release,
}

-- The lock files by the key of the work item, and everything else.
pub record Office (X : Type 0) : Type 0 where
  pub locks : Text → LockFile
  pub outside : X

-- What the entry points call. `new_run` constructs a run, `run_pipeline` is `_run_pipeline`, the flag
-- whether it is a fresh one; `holder` is the payload that this process writes for a run id; `others` is what other
-- processes have made of the lock files by now.
pub record Desk (N X : Type 0) : Type 0 where
  pub new_run : WorkItem N → X → Run × X
  pub run_pipeline : Run → WorkItem N → Bool → X → Outcome Run × X
  pub fetch : Option Text → X → Outcome (WorkItem N) × X
  pub load : Text → X → Outcome Run × X
  pub read_item : Run → X → Outcome (WorkItem N) × X
  pub close_source : X → X
  pub mark_processed : WorkItem N → X → X
  pub holder : Text → X → Holder
  pub others : (Text → LockFile) → X → Text → LockFile
  pub clock : X → ℕ
  pub stale_after : ℕ
  pub probe : ℕ → Bool

abbrev pub Work : Type 0 → Type 0 → Type 0
Work X A = Office X → Outcome A × Office X

abbrev pub set_lock : (Text → LockFile) → Text → LockFile → Text → LockFile
set_lock locks k file j = if text_eq k j then file else locks j

module _ {N X : Type 0} (desk : Desk N X) where
  -- What is called between `acquire` and `release`, with the outside world.
  abbrev pub Inner : Type 0
  Inner = X → Outcome Run × X

  -- `finally: lock.release()`
  abbrev pub let_go :
      Text → Option Text → Outcome Run × X → (Text → LockFile) → Outcome Run × Office X
  unfolding release
  let_go k owned (r, x) locks =
      let now = desk.others locks x in
      let lock = release (record { file = now k; owned = owned }) in
      (r, record { locks = set_lock now k lock.file; outside = x })

  abbrev pub hold : Text → Inner → Office X → Acquired × LockState → Outcome Run × Office X
  hold k inner s (acquired, lock) =
      let_go k lock.owned (inner s.outside) (set_lock s.locks k lock.file)
  hold k inner s (Acquired.lock_held holder stale, lock) =
      (raised (lock_held k), record s { locks = set_lock s.locks k lock.file })

  -- The locks as the other processes have left them.
  abbrev pub look_around : Office X → Office X
  look_around s = record s { locks = desk.others s.locks s.outside }

  abbrev pub take_lock : Text → Text → Bool → Inner → Office X → Outcome Run × Office X
  unfolding acquire
  take_lock k run_id force inner s = hold k inner s (
      acquire desk.probe (desk.holder run_id s.outside) force (desk.clock s.outside)
        desk.stale_after (record { file = s.locks k; owned = none }))

  -- `lock.acquire(run.id, force=force_lock)` and the `try` behind it.
  unfoldable pub with_lock : Text → Text → Bool → Inner → Office X → Outcome Run × Office X
  unfolding acquire
  with_lock k run_id force inner s = take_lock k run_id force inner (look_around s)

  -- `_start_run`
  unfoldable pub start_run : WorkItem N → Bool → Office X → Outcome Run × Office X
  unfolding with_lock key
  start_run item force_lock s =
      let (run, x) = desk.new_run item s.outside in
      with_lock (key item) run.id force_lock (desk.run_pipeline run item true)
        (record s { outside = x })

  abbrev pub closed : Outcome Run × Office X → Outcome Run × Office X
  closed (r, s) = (r, record s { outside = desk.close_source s.outside })

  abbrev pub start_fetched : Bool → Office X → Outcome (WorkItem N) × X → Outcome Run × Office X
  unfolding start_run
  start_fetched force_lock s (ok item, x) = start_run item force_lock (record s { outside = x })
  start_fetched force_lock s (raised e, x) = (raised e, record s { outside = x })

  -- `run_once`
  unfoldable pub run_once : Option Text → Bool → Office X → Outcome Run × Office X
  unfolding start_fetched
  run_once external_id force_lock s =
      closed (start_fetched force_lock s (desk.fetch external_id s.outside))

  abbrev pub is_given : Option Text → Bool
  is_given none = false
  is_given (some t) = non_empty t

  abbrev pub resume_item : Run → Bool → Office X → Outcome (WorkItem N) × X → Outcome Run × Office X
  unfolding with_lock
  resume_item run force_lock s (ok item, x) =
      with_lock run.work_item_key run.id force_lock (desk.run_pipeline run item false)
        (record s { outside = x })
  resume_item run force_lock s (raised e, x) = (raised e, record s { outside = x })

  -- From the loaded run on.
  abbrev pub resume_loaded : Bool → Office X → Outcome Run × X → Outcome Run × Office X
  unfolding resume_item
  resume_loaded force_lock s (ok run, x) = closed (
      resume_item run force_lock (record s { outside = x })
        (if is_given run.external_id then desk.fetch run.external_id x else desk.read_item run x))
  resume_loaded force_lock s (raised e, x) = (raised e, record s { outside = x })

  -- `resume`
  unfoldable pub resume : Text → Bool → Office X → Outcome Run × Office X
  unfolding resume_loaded
  resume run_id force_lock s = resume_loaded force_lock s (desk.load run_id s.outside)

  abbrev pub is_full : Option ℕ → ℕ → Bool
  is_full none count = false
  is_full (some max_items) count = leb max_items count

  -- What a sweep does with an item: it ends there, passes it by, or starts a run.
  abbrev pub Visit : Type 0
  Visit = Option Bool

  abbrev pub visit : Option ℕ → ℕ → LockFile → Visit
  unfolding is_locked
  visit max_items count file =
      if is_full max_items count then none else some (not_locked (is_locked file))
    where
      not_locked : Bool → Bool
      not_locked true = false
      not_locked false = true

  -- The runs that a sweep has added, and the exception that ended it, if one did.
  abbrev pub Swept : Type 0
  Swept = (List Run × Option Exn) × Office X

  abbrev pub add_run : Run → Swept → Swept
  add_run run ((runs, e), s) = ((run ∷ runs, e), s)

  -- Whether an exception is `LockHeld`.
  abbrev pub is_lock_held : Exn → Bool
  is_lock_held (lock_held k) = true
  is_lock_held _ = false

  -- Behind `_start_run`, with the rest of the sweep as `next`.
  abbrev pub after_start : WorkItem N → ℕ → (ℕ → Office X → Swept) → Outcome Run × Office X → Swept
  after_start item count next (ok run, s) =
      add_run run (next (suc count) (record s { outside = desk.mark_processed item s.outside }))
  after_start item count next (raised e, s) = pass_by (is_lock_held e)
    where
      pass_by : Bool → Swept
      pass_by true = next count s
      pass_by false = (([], some e), s)

  unfoldable pub on_visit : WorkItem N → ℕ → (ℕ → Office X → Swept) → Visit → Office X → Swept
  unfolding start_run
  on_visit item count next none s = (([], none), s)
  on_visit item count next (some false) s = next count s
  on_visit item count next (some true) s = after_start item count next (start_run item false s)

  -- One sweep of `poll` over the items that the source yields.
  unfoldable pub sweep : Option ℕ → List (WorkItem N) → ℕ → Office X → Swept
  unfolding on_visit key visit
  sweep max_items [] count s = (([], none), s)
  sweep max_items (item ∷ items) count s =
      let now = look_around s in
      on_visit item count (sweep max_items items) (visit max_items count (now.locks (key item))) now

  abbrev pub polled : Swept → Outcome (List Run) × Office X
  polled ((runs, none), s) = (ok runs, record s { outside = desk.close_source s.outside })
  polled ((runs, some interrupted), s) =
      (ok runs, record s { outside = desk.close_source s.outside })
  polled ((runs, some e), s) = (raised e, record s { outside = desk.close_source s.outside })

  -- `poll(once=True)`
  unfoldable pub poll_once : Option ℕ → List (WorkItem N) → Office X → Outcome (List Run) × Office X
  unfolding sweep
  poll_once max_items items s = polled (sweep max_items items 0 s)
