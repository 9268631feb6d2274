-- ===== src/Engine/Lock.antt =====
-- ticketbot/engine/locks.py: the lock of a work item. The name of the lock file, the clock, the
-- process id and the probe of a process are parameters.
pub mod Owner
pub mod Interleaved
pub mod Exclusive
use ticket_bot.Prelude.{
  ℕ, ◌-◌, Bool, true, false, not, ◌||◌, Option, none, some, Text, text_eq, ltb, ◌==◌, if◌then◌else◌,
}

-- The payload of a lock file; `host` and `key` are read by nobody.
pub record Holder : Type 0 where
  pub pid : ℕ
  pub run_id : Text
  pub started_at : ℕ

-- The lock file: `unreadable` is one whose content is no mapping, as just after it is created.
pub data LockFile : Type 0 where
  absent unreadable : LockFile
  held : Holder → LockFile

-- What `acquire` does: it returns, or raises LockHeld with the holder, if it can be read, and whether
-- the lock looks stale.
pub data Acquired : Type 0 where
  acquired : Acquired
  lock_held : Option Holder → Bool → Acquired

-- A RunLock object and the file that it shares with other processes; `owned` is `_owned_run_id`.
pub record LockState : Type 0 where
  pub file : LockFile
  pub owned : Option Text

-- `is_locked`
unfoldable pub is_locked : LockFile → Bool
is_locked absent = false
is_locked _ = true

-- `_read`
unfoldable pub read : LockFile → Option Holder
read (held h) = some h
read _ = none

module _ (probe : ℕ → Bool) where
  -- `_pid_alive`
  unfoldable pub pid_alive : ℕ → Bool
  pid_alive pid = if pid == 0 then false else probe pid

  unfoldable pub is_stale : ℕ → ℕ → Option Holder → Bool
  unfolding pid_alive
  is_stale now stale_after none = true
  is_stale now stale_after (some h) = ltb stale_after (now - h.started_at) || not (pid_alive h.pid)

  -- `os.open(path, O_CREAT | O_EXCL | O_WRONLY)`, and the write where it succeeds.
  unfoldable pub create : Holder → ℕ → ℕ → LockState → Acquired × LockState
  unfolding is_stale read
  create me now stale_after s = elim s.file [
    | absent ↦ (acquired, record { file = held me; owned = some me.run_id })
    | unreadable ↦ (lock_held none (is_stale now stale_after none), s)
    | held h ↦ (lock_held (some h) (is_stale now stale_after (some h)), s)
  ]

  -- `acquire`
  unfoldable pub acquire : Holder → Bool → ℕ → ℕ → LockState → Acquired × LockState
  unfolding create
  acquire me force now stale_after s =
      create me now stale_after (if force then record s { file = absent } else s)

-- The holder that a process read is the run that it owns.
abbrev pub is_own : Text → Option Holder → Bool
is_own owned none = false
is_own owned (some h) = text_eq h.run_id owned

unfoldable pub release_owned : Option Text → LockState → LockState
unfolding read
release_owned none s = s
release_owned (some id) s = record {
  file = if is_own id (read s.file) then absent else s.file;
  owned = none;
}

-- `release`
unfoldable pub release : LockState → LockState
unfolding release_owned
release s = release_owned s.owned s
