-- ===== src/Engine/Budget/Caps.antt =====
-- What the caps of ticketbot/engine/budget.py guarantee.
use ticket_bot.Prelude.{
  ℕ, ◌+◌, ◌-◌, ◌*◌, ◌≤◌, ◌<◌, ◌≡◌, subst, ◌↔◌, refl, Option, none, some, Text, List, [], ◌∷◌, max,
  min, arith, ◌/◌,
}
use ticket_bot.Prelude.Outcomes.{ok, ◌>>◌}
use ticket_bot.Engine.Budget.{
  Budget, min_step_timeout_s, elapsed, elapsed_since, remaining, remaining_of, check, check_cost,
  check_clock, charge, step_timeout, timeout_within,
}

-- A cap that is set is respected.
abbrev pub AtMost : ℕ → Option ℕ → Type 0
AtMost spent none = Unit
AtMost spent (some limit) = spent ≤ limit

abbrev pub Before : ℕ → Option ℕ → Type 0
Before time none = Unit
Before time (some limit) = time < limit * 1000

check_parts :
    (cost clock : Option ℕ) (spent time : ℕ) (place : Text)
    → ((check_cost place spent cost >> check_clock place time clock (remaining_of clock time))
        ≡ ok tt)
      ↔ (AtMost spent cost × Before time clock)
unfolding check_cost check_clock remaining_of
check_parts none none spent time place = (λ _. (tt, tt), λ _. refl)
check_parts none (some k) spent time place = (λ h. (tt, ground arith), λ h. ground arith)
check_parts (some c) none spent time place = (λ h. (ground arith, tt), λ h. ground arith)
check_parts (some c) (some k) spent time place =
    (λ h. (ground arith, ground arith), λ h. ground arith)

-- The check passes exactly when the money spent is at most the cost cap and the time since the start
-- is below the wall-clock cap, where a cap that is not set does not count.
check-eq-ok_iff :
    (b : Budget) (now : ℕ) (place : Text)
    → (check b now place ≡ ok tt)
      ↔ (AtMost b.spent_usd b.cfg.max_cost_usd × Before (elapsed b now) b.cfg.max_wall_clock_s)
unfolding check remaining
check-eq-ok_iff b now place =
    check_parts b.cfg.max_cost_usd b.cfg.max_wall_clock_s b.spent_usd (elapsed b now) place

pub charge_all : Budget → List ℕ → Budget
charge_all b [] = b
charge_all b (cost ∷ costs) = charge_all (charge b cost) costs

pub sum : List ℕ → ℕ
sum [] = 0
sum (cost ∷ costs) = cost + sum costs

charge_all-spent :
    (b : Budget) (costs : List ℕ)
    → ((charge_all b costs).spent_usd ≡ b.spent_usd + sum costs)
      × ((charge_all b costs).cfg ≡ b.cfg)
unfolding charge_all charge sum
charge_all-spent b [] = (omega arith, refl)
charge_all-spent b (cost ∷ costs) =
    let rest = charge_all-spent (charge b cost) costs in (omega (arith, rest.0), rest.1)

charge_all-started : (b : Budget) (costs : List ℕ) → (charge_all b costs).started ≡ b.started
unfolding charge_all charge
charge_all-started b [] = refl
charge_all-started b (cost ∷ costs) = charge_all-started (charge b cost) costs

-- After any charges the check passes exactly when what was spent before and the sum of the charges
-- are together at most the cost cap, and the time is below the wall-clock cap.
check-charge_all :
    (b : Budget) (costs : List ℕ) (now : ℕ) (place : Text)
    → (check (charge_all b costs) now place ≡ ok tt) ↔ (
        AtMost (b.spent_usd + sum costs) b.cfg.max_cost_usd
        × Before (elapsed b now) b.cfg.max_wall_clock_s)
unfolding elapsed
check-charge_all b costs now place =
    let spent = charge_all-spent b costs in
    subst
      (λ s.
        (check (charge_all b costs) now place ≡ ok tt)
        ↔ (AtMost s b.cfg.max_cost_usd × Before (elapsed b now) b.cfg.max_wall_clock_s))
      spent.0
      (subst
        (λ t. (check (charge_all b costs) now place ≡ ok tt) ↔ (
          AtMost (charge_all b costs).spent_usd b.cfg.max_cost_usd
          × Before (elapsed_since t now) b.cfg.max_wall_clock_s))
        (charge_all-started b costs)
        (subst
          (λ c. (check (charge_all b costs) now place ≡ ok tt) ↔ (
            AtMost (charge_all b costs).spent_usd c.max_cost_usd
            × Before (elapsed (charge_all b costs) now) c.max_wall_clock_s))
          spent.1 (check-eq-ok_iff (charge_all b costs) now place)))

-- What a timeout may be: the request, where there is no wall-clock cap; otherwise at least
-- MIN_STEP_TIMEOUT_S and at most the larger of that and the request or the whole seconds left.
abbrev pub TimeoutFits : ℕ → ℕ → ℕ → Option ℕ → Type 0
TimeoutFits requested time t none = t ≡ requested
TimeoutFits requested time t (some limit) =
    (min_step_timeout_s ≤ t)
    × (t ≤ max min_step_timeout_s requested)
    × (time + t * 1000 ≤ max (time + min_step_timeout_s * 1000) (limit * 1000))

timeout_within-fits :
    (requested time : ℕ) (limit : Option ℕ)
    → Before time limit
    → (t : ℕ) × (timeout_within requested time limit (remaining_of limit time) ≡ ok t)
      × TimeoutFits requested time t limit
unfolding timeout_within remaining_of
timeout_within-fits requested time none h = (requested, refl, refl)
timeout_within-fits requested time (some k) h = (
  max min_step_timeout_s (min requested ((k * 1000 - time) / 1000)),
  ground arith,
  (omega arith, omega arith, omega arith),
)

-- While wall-clock time is left a step gets a timeout. With no cap it is the one requested. With a
-- cap it is at least MIN_STEP_TIMEOUT_S and at most the larger of that and the request, and the step
-- ends by the cap or within MIN_STEP_TIMEOUT_S from now.
pub step_timeout-fits :
    (b : Budget) (now requested : ℕ)
    → Before (elapsed b now) b.cfg.max_wall_clock_s
    → (t : ℕ) × (step_timeout b now requested ≡ ok t)
      × TimeoutFits requested (elapsed b now) t b.cfg.max_wall_clock_s
unfolding step_timeout remaining
step_timeout-fits b now requested h =
    timeout_within-fits requested (elapsed b now) b.cfg.max_wall_clock_s h
