-- ===== src/Engine/Lock/Interleaved.antt =====
-- Processes that take and let go the lock of one work item, each with or without `force`. `acquire`
-- unlinks the file with `force`, opens it and then writes it; `release` reads it and then unlinks it;
-- between these another process may go on, and any process may stop for good at any point.
use ticket_bot.Prelude.{ℕ, Bool, true, false, ◌≡◌, ◌==◌, if◌then◌else◌}
use ticket_bot.Engine.Lock.{Holder, LockFile, absent, unreadable, held, is_locked, read, is_own}

-- Where a process stands: it is about to open the file, it has created it, it has returned from
-- `acquire`, or it has read in `release` that the file is its own.
pub data Pc : Type 0 where
  idle opening : Pc
  created owning : Holder → Pc
  unlinking : Pc

pub record Shared : Type 0 where
  pub file : LockFile
  pub pc : ℕ → Pc

-- What one process does next, to the file and to itself.
pub data Move (force : Bool) : LockFile → Pc → LockFile → Pc → Type 0 where
  enter : {f : LockFile} → force ≡ false → Move force f idle f opening
  break_in : {f : LockFile} → force ≡ true → Move force f idle absent opening
  open_new : (h : Holder) → Move force absent opening unreadable (created h)
  open_busy : {f : LockFile} → is_locked f ≡ true → Move force f opening f idle
  write : {f : LockFile} {h : Holder} → Move force f (created h) (held h) (owning h)
  look :
      {f : LockFile} {h : Holder}
      → Move force f (owning h) f (if is_own h.run_id (read f) then unlinking else idle)
  unlink : {f : LockFile} → Move force f unlinking absent idle
  stop : {f : LockFile} {p : Pc} → Move force f p f idle

abbrev pub set_pc : (ℕ → Pc) → ℕ → Pc → ℕ → Pc
set_pc pc i p j = if j == i then p else pc j

-- A step of process `i`.
pub data Turn (force : Bool) (i : ℕ) (s : Shared) : Shared → Type 0 where
  turn :
      {f : LockFile} {p : Pc}
      → Move force s.file (s.pc i) f p
      → Turn force i s (record { file = f; pc = set_pc s.pc i p })

-- Any file to begin with, and no process in `acquire` or `release`; `force` says which processes run
-- with it.
pub data Reach (force : ℕ → Bool) (f : LockFile) : Shared → Type 0 where
  start : Reach force f (record { file = f; pc = λ _. idle })
  later : {s t : Shared} (i : ℕ) → Reach force f s → Turn (force i) i s t → Reach force f t
