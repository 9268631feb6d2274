-- ===== src/Tests/Locks.antt =====
-- The theorems on the lock at concrete inputs.
use ticket_bot.Prelude.{ℕ, ◌≡◌, refl, Bool, true, false, codes}
use ticket_bot.Engine.Lock.{Holder, absent, held, is_locked}
use ticket_bot.Engine.Lock.Interleaved.{
  idle, opening, created, owning, unlinking, Shared, enter, break_in, open_new, open_busy, write,
  set_pc, Turn, turn, Reach, start, later,
}
use ticket_bot.Engine.Lock.Exclusive.{owning_exclusive, owning_released}

abbrev holder : Holder
holder = record { pid = 7; run_id = codes "r1"; started_at = 100 }

abbrev intruder : Holder
intruder = record { pid = 8; run_id = codes "r2"; started_at = 200 }

abbrev nobody : ℕ → Bool
nobody i = false

-- Process 1 has taken the lock, and process 2 has found it taken.
taken : Reach nobody absent (record {
  file = held holder;
  pc =
      set_pc
        (set_pc
          (set_pc (set_pc (set_pc (λ _. idle) 1 opening) 1 (created holder)) 1 (owning holder))
          2
          opening)
        2
        idle;
})
unfolding is_locked
taken =
    later 2
      (later 2
        (later 1 (later 1 (later 1 start (turn (enter refl))) (turn (open_new holder)))
          (turn write))
        (turn (enter refl)))
      (turn (open_busy refl))

abbrev everybody : ℕ → Bool
everybody i = true

-- With `force`, process 2 takes the lock from process 1, which still takes itself for its owner.
abbrev broken : Shared
broken = record {
  file = held intruder;
  pc =
      set_pc
        (set_pc
          (set_pc
            (set_pc (set_pc (set_pc (λ _. idle) 1 opening) 1 (created holder)) 1 (owning holder)) 2
            opening)
          2 (created intruder))
        2 (owning intruder);
}

broken_in : Reach everybody absent broken
broken_in =
    later 2
      (later 2
        (later 2
          (later 1 (later 1 (later 1 start (turn (break_in refl))) (turn (open_new holder)))
            (turn write))
          (turn (break_in refl)))
        (turn (open_new intruder)))
      (turn write)

two_owners : (broken.pc 1 ≡ owning holder) × (broken.pc 2 ≡ owning intruder)
two_owners = (refl, refl)

abbrev first : ℕ
first = 1

owning_exclusive_example : (first ≡ first) × (held holder ≡ held holder)
owning_exclusive_example = owning_exclusive (λ _. refl) taken first first holder holder refl refl

owning_released_example :
    (u : Shared) × (t : Shared) × Turn false 1
      (record {
        file = held holder;
        pc =
            set_pc
              (set_pc
                (set_pc
                  (set_pc (set_pc (λ _. idle) 1 opening) 1 (created holder))
                  1
                  (owning holder))
                2
                opening)
              2
              idle;
      })
      u
    × Turn false 1 u t
    × (u.pc 1 ≡ unlinking)
    × (t.file ≡ absent)
    × (t.pc 1 ≡ idle)
owning_released_example = owning_released (λ _. refl) taken 1 holder refl
