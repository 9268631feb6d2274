-- ===== src/Engine/Budget.antt =====
-- ticketbot/engine/budget.py: the caps on cost and wall clock. Money is counted in micro-dollars
-- and time in milliseconds, so that the sums of the code are exact; a cap is not negative.
pub mod Caps
use ticket_bot.Prelude.{
  ℕ, ◌+◌, ◌-◌, ◌*◌, ◌/◌, min, max, Bool, true, false, Option, none, some, Text, ltb, leb,
  if◌then◌else◌,
}
use ticket_bot.Prelude.Int.{ℤ, sub_ℕ, le_zero, pos_part}
use ticket_bot.Prelude.Outcomes.{
  Outcome, ok, raised, cost_cap, wall_clock_cap, no_wall_clock_left, ◌>>=◌, ◌>>◌,
}

abbrev pub min_step_timeout_s : ℕ
min_step_timeout_s = 30

-- BudgetConfig of ticketbot/config/schema.py
pub record BudgetConfig : Type 0 where
  pub max_cost_usd : Option ℕ
  pub max_wall_clock_s : Option ℕ

pub record Budget : Type 0 where
  pub cfg : BudgetConfig
  pub started : Option ℕ
  pub spent_usd : ℕ

unfoldable pub new_budget : BudgetConfig → Budget
new_budget cfg = record { cfg = cfg; started = none; spent_usd = 0 }

-- `now` is the reading of the monotonic clock that the method takes.
unfoldable pub start : Budget → ℕ → Budget
start b now = record b { started = some now }

-- `usage.cost_usd`
unfoldable pub charge : Budget → ℕ → Budget
charge b cost = record b { spent_usd = b.spent_usd + cost }

unfoldable pub elapsed_since : Option ℕ → ℕ → ℕ
elapsed_since none now = 0
elapsed_since (some t) now = now - t

-- `elapsed_s`, in milliseconds.
unfoldable pub elapsed : Budget → ℕ → ℕ
unfolding elapsed_since
elapsed b now = elapsed_since b.started now

unfoldable pub remaining_of : Option ℕ → ℕ → Option ℤ
remaining_of none spent = none
remaining_of (some limit) spent = some (sub_ℕ (limit * 1000) spent)

-- `remaining_s`, in milliseconds; `none` when there is no cap.
unfoldable pub remaining : Budget → ℕ → Option ℤ
unfolding remaining_of elapsed
remaining b now = remaining_of b.cfg.max_wall_clock_s (elapsed b now)

unfoldable pub check_cost : Text → ℕ → Option ℕ → Outcome (Unit {0})
check_cost place spent none = ok tt
check_cost place spent (some limit) =
    if ltb limit spent then raised (cost_cap place spent limit) else ok tt

unfoldable pub check_clock : Text → ℕ → Option ℕ → Option ℤ → Outcome (Unit {0})
check_clock place spent limit none = ok tt
check_clock place spent limit (some left) =
    if le_zero left then raised (wall_clock_cap place spent limit) else ok tt

-- `check`
unfoldable pub check : Budget → ℕ → Text → Outcome (Unit {0})
unfolding check_cost check_clock remaining
check b now place = do
  check_cost place b.spent_usd b.cfg.max_cost_usd
  check_clock place (elapsed b now) b.cfg.max_wall_clock_s (remaining b now)

unfoldable pub timeout_within : ℕ → ℕ → Option ℕ → Option ℤ → Outcome ℕ
timeout_within requested spent limit none = ok requested
timeout_within requested spent limit (some left) =
    if le_zero left
    then raised (no_wall_clock_left spent limit)
    else ok (max min_step_timeout_s (min requested (pos_part left / 1000)))

-- `step_timeout`
unfoldable pub step_timeout : Budget → ℕ → ℕ → Outcome ℕ
unfolding timeout_within remaining
step_timeout b now requested =
    timeout_within requested (elapsed b now) b.cfg.max_wall_clock_s (remaining b now)
