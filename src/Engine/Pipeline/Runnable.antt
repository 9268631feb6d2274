-- ===== src/Engine/Pipeline/Runnable.antt =====
-- What the check of `when:` at load time is worth at run time.
use ticket_bot.Prelude.{◌||◌, ◌&&◌, Bool, true, false, List, [], ◌∷◌}
use ticket_bot.Prelude.Outcomes.{Outcome, ok, raised, overflow_error}
use ticket_bot.Predicate.Values.{Value, Python}
use ticket_bot.Predicate.Rules.{When, mapping, evaluate_any}
use ticket_bot.Engine.Pipeline.{StepDef}

-- A `when:` in the structured form.
unfoldable pub is_structured : {N : Type 0} → When N → Bool
is_structured (mapping spec) = true
is_structured _ = false

-- A result, or OverflowError.
unfoldable pub is_evaluated : Outcome Bool → Bool
is_evaluated (ok b) = true
is_evaluated (raised overflow_error) = true
is_evaluated (raised _) = false

module _ {N : Type 0} (py : Python N) (context : Value N) where
  -- The `when:` of every step that is not structured evaluates in the context, or overflows.
  unfoldable pub all_evaluate : List (StepDef N) → Bool
  unfolding is_structured is_evaluated
  all_evaluate [] = true
  all_evaluate (s ∷ steps) =
      (is_structured s.condition || is_evaluated (evaluate_any py s.condition context))
      && all_evaluate steps
