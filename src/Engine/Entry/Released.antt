-- ===== src/Engine/Entry/Released.antt =====
-- The locks that an entry point leaves.
use ticket_bot.Prelude.{
  ◌≡◌, refl, ap, sym, ◌∙◌, true, false, some, Text, text_eq, text_eq_refl, text_eq_sound,
  Bool-cases, inl, inr,
}
use ticket_bot.Prelude.Outcomes.{Outcome}
use ticket_bot.Core.Run.{Run}
use ticket_bot.Core.WorkItem.{WorkItem, key}
use ticket_bot.Engine.Lock.{
  Holder, LockFile, absent, unreadable, held, acquire, create, read, release, release_owned,
}
use ticket_bot.Engine.Entry.{
  Office, Desk, set_lock, let_go, look_around, take_lock, with_lock, start_run,
}

module _ {N X : Type 0} (desk : Desk N X) where
  -- A lock that is set to what it was.
  set_lock_same :
      (locks : Text → LockFile) (k : Text) (file : LockFile)
      → file ≡ locks k
      → (j : Text) → set_lock locks k file j ≡ locks j
  set_lock_same locks k file same j = elim (Bool-cases (text_eq k j)) [
    | inl e ↦ rw e (same ∙ ap locks (text_eq_sound k j e))
    | inr e ↦ rw e refl
  ]

  set_lock_twice :
      (locks : Text → LockFile) (k : Text) (file other : LockFile)
      → file ≡ locks k
      → (j : Text) → set_lock (set_lock locks k other) k file j ≡ locks j
  set_lock_twice locks k file other same j = elim (Bool-cases (text_eq k j)) [
    | inl e ↦ rw e (same ∙ ap locks (text_eq_sound k j e))
    | inr e ↦ rw e refl
  ]

  -- No other process changes a lock.
  abbrev pub IsQuiet : Type 0
  IsQuiet = (locks : Text → LockFile) (x : X) → desk.others locks x ≡ locks

  let_go-locks :
      IsQuiet
      → (k : Text) (h : Holder) (o : Outcome Run × X) (locks : Text → LockFile) → locks k ≡ absent
      → (j : Text)
      → (let_go desk k (some h.run_id) o (set_lock locks k (held h))).1.locks j ≡ locks j
  unfolding release release_owned read
  let_go-locks quiet k h (r, x) locks free j =
      rw (quiet (set_lock locks k (held h)) x, text_eq_refl k, text_eq_refl h.run_id)
        (set_lock_twice locks k absent (held h) (sym free) j)

  -- What was called under a lock that was free leaves it free, whether it returned or raised.
  take_lock-locks :
      IsQuiet
      → (k run_id : Text) (inner : X → Outcome Run × X) (s : Office X) (j : Text)
      → (take_lock desk k run_id false inner s).1.locks j ≡ s.locks j
  unfolding acquire create read
  take_lock-locks quiet k run_id inner s j = by_file (s.locks k) refl
    where
      by_file :
          (file : LockFile)
          → s.locks k ≡ file
          → (take_lock desk k run_id false inner s).1.locks j ≡ s.locks j
      by_file absent e =
          rw e (let_go-locks quiet k (desk.holder run_id s.outside) (inner s.outside) s.locks e j)
      by_file unreadable e = rw e (set_lock_same s.locks k (s.locks k) refl j)
      by_file (held h) e = rw e (set_lock_same s.locks k (s.locks k) refl j)

  with_lock-locks :
      IsQuiet
      → (k run_id : Text) (inner : X → Outcome Run × X) (s : Office X) (j : Text)
      → (with_lock desk k run_id false inner s).1.locks j ≡ s.locks j
  unfolding with_lock
  with_lock-locks quiet k run_id inner s j =
      take_lock-locks quiet k run_id inner (look_around desk s) j
      ∙ ap (λ locks. locks j) (quiet s.locks s.outside)

  -- A run that is started without `force_lock` leaves the lock of every work item as it was, whether it
  -- returns or raises, and also where the lock of its own item is held, if no other process changes one.
  pub start_run-locks :
      IsQuiet
      → (item : WorkItem N) (s : Office X) (k : Text)
      → (start_run desk item false s).1.locks k ≡ s.locks k
  unfolding start_run
  start_run-locks quiet item s k =
      let made = desk.new_run item s.outside in
      with_lock-locks quiet (key item) (made.0).id (desk.run_pipeline made.0 item true)
        (record s { outside = made.1 }) k
