-- ===== src/Core/Json/RoundTrip.antt =====
-- What is written by `to_dict` is read back by `from_dict`.
use ticket_bot.Prelude.{ℕ, ◌≡◌, refl, Option, none, some, Text, text_eq, List, [], ◌∷◌}
use ticket_bot.Prelude.Outcomes.{ok}
use ticket_bot.Predicate.Values.{get_field}
use ticket_bot.Core.Run.{
  StepStatus, pending, ok_status, skipped, step_blocked, step_failed, StepResult,
}
use ticket_bot.Core.Json.{
  Numbers, step_status_value, step_status_of, opt_text, text_items, as_opt_text, as_texts, texts_of,
  result_to_dict, result_from_dict,
}

step_status_of-value : (status : StepStatus) → step_status_of (step_status_value status) ≡ ok status
unfolding step_status_of step_status_value text_eq
step_status_of-value pending = refl
step_status_of-value ok_status = refl
step_status_of-value skipped = refl
step_status_of-value step_blocked = refl
step_status_of-value step_failed = refl

module _ (N : Type 0) where
  pub as_opt_text-opt_text : (o : Option Text) → as_opt_text {N = N} (some (opt_text o)) ≡ ok o
  as_opt_text-opt_text none = refl
  as_opt_text-opt_text (some t) = refl

  pub texts_of-text_items : (ts : List Text) → texts_of {N = N} (text_items ts) ≡ ok ts
  unfolding texts_of text_items
  texts_of-text_items [] = refl
  texts_of-text_items (t ∷ ts) = rw (texts_of-text_items ts) refl

  module _ (numbers : Numbers N) (exact : (n : ℕ) → numbers.read (numbers.write n) ≡ n) where
    -- A step's result is read back as it was written.
    pub result_from_dict-to_dict :
        (r : StepResult) → result_from_dict numbers (result_to_dict numbers r) ≡ ok r
    unfolding result_from_dict result_to_dict get_field as_texts text_eq
    result_from_dict-to_dict r =
        rw
          (
            step_status_of-value r.status,
            as_opt_text-opt_text r.started_at,
            as_opt_text-opt_text r.ended_at,
            exact r.duration_s,
            exact r.cost_usd,
            texts_of-text_items r.artifacts,
            texts_of-text_items r.commits,
            as_opt_text-opt_text r.question,
            texts_of-text_items r.defers,
            as_opt_text-opt_text r.error,
          )
          refl
