-- ===== src/Core/Json/RunTrip.antt =====
-- A run is read back as it was written.
use ticket_bot.Prelude.{
  ℕ, ◌≡◌, refl, Bool, Option, none, some, Text, text_eq, if◌then◌else◌, Bool-cases, inl, inr, List,
  [], ◌∷◌, Dict,
}
use ticket_bot.Prelude.Outcomes.{ok}
use ticket_bot.Predicate.Values.{Value, Fields, get_field, str, bool}
use ticket_bot.Core.Run.{
  RunStatus, received, clarifying, planning, implementing, verifying, pr_open, blocked, done,
  failed, status_value, StepResult, Extra, Run,
}
use ticket_bot.Core.Json.{
  Numbers, run_status_of, as_opt_text, as_opt_nat, as_opt_bool, as_texts, text_items,
}
use ticket_bot.Core.Json.Runs.{
  put, put_texts, number, extra_to_dict, extra_from_dict, steps_to_dict, steps_from_dict,
  run_to_dict, run_from_dict,
}
use ticket_bot.Core.Json.RoundTrip.{
  as_opt_text-opt_text, texts_of-text_items, result_from_dict-to_dict,
}

run_status_of-value : (status : RunStatus) → run_status_of (status_value status) ≡ ok status
unfolding run_status_of status_value text_eq
run_status_of-value received = refl
run_status_of-value clarifying = refl
run_status_of-value planning = refl
run_status_of-value implementing = refl
run_status_of-value verifying = refl
run_status_of-value pr_open = refl
run_status_of-value blocked = refl
run_status_of-value done = refl
run_status_of-value failed = refl

module _ (N : Type 0) (numbers : Numbers N)
    (exact : (n : ℕ) → numbers.read (numbers.write n) ≡ n) where
  steps_from_dict-to_dict :
      (steps : Dict StepResult) → steps_from_dict numbers (steps_to_dict numbers steps) ≡ ok steps
  unfolding steps_from_dict steps_to_dict
  steps_from_dict-to_dict [] = refl
  steps_from_dict-to_dict ((id, r) ∷ steps) =
      rw (result_from_dict-to_dict N numbers exact r, steps_from_dict-to_dict steps) refl

  -- What a key has that may have been put, over what the rest has for it.
  found : {A : Type 0} → (A → Value N) → Option A → Option (Value N) → Option (Value N)
  found write none rest = rest
  found write (some a) rest = some (write a)

  found_texts : List Text → Option (Value N) → Option (Value N)
  found_texts [] rest = rest
  found_texts (t ∷ ts) rest = some (Value.list (text_items (t ∷ ts)))

  get_field-put :
      {A : Type 0} (k key : Text) (write : A → Value N) (o : Option A) (fs : Fields N)
      → get_field k (put key write o fs)
        ≡ (if text_eq key k then found write o (get_field k fs) else get_field k fs)
  unfolding get_field found
  get_field-put k key write none fs = elim (Bool-cases (text_eq key k)) [
    | inl e ↦ rw e refl
    | inr e ↦ rw e refl
  ]
  get_field-put k key write (some a) fs = refl

  get_field-put_texts :
      (k key : Text) (ts : List Text) (fs : Fields N)
      → get_field k (put_texts key ts fs)
        ≡ (if text_eq key k then found_texts ts (get_field k fs) else get_field k fs)
  unfolding get_field found_texts put_texts
  get_field-put_texts k key [] fs = elim (Bool-cases (text_eq key k)) [
    | inl e ↦ rw e refl
    | inr e ↦ rw e refl
  ]
  get_field-put_texts k key (t ∷ ts) fs = refl

  -- Where the rest has nothing, what was put is read.
  read_text : (o : Option Text) → as_opt_text (found str o none) ≡ ok o
  unfolding found
  read_text none = refl
  read_text (some t) = refl

  read_bool : (o : Option Bool) → as_opt_bool (found bool o none) ≡ ok o
  unfolding found
  read_bool none = refl
  read_bool (some t) = refl

  read_nat : (o : Option ℕ) → as_opt_nat numbers (found (number numbers) o none) ≡ ok o
  unfolding found
  read_nat none = refl
  read_nat (some n) = rw (exact n) refl

  read_texts : (ts : List Text) → as_texts (found_texts ts none) ≡ ok ts
  unfolding found_texts as_texts
  read_texts [] = refl
  read_texts (t ∷ ts) = texts_of-text_items _ (t ∷ ts)

  extra_from_dict-to_dict : (e : Extra) → extra_from_dict numbers (extra_to_dict numbers e) ≡ ok e
  unfolding extra_from_dict extra_to_dict text_eq get_field
  extra_from_dict-to_dict e =
      simp (get_field-put, get_field-put_texts, read_text, read_bool, read_nat, read_texts)

  -- A run that is written as a mapping is read back as it was, with its steps in their order and all
  -- that it knows; a number is taken to be read as it was written.
  pub run_from_dict-to_dict : (run : Run) → run_from_dict numbers (run_to_dict numbers run) ≡ ok run
  unfolding run_from_dict run_to_dict get_field text_eq
  run_from_dict-to_dict run =
      rw
        (
          steps_from_dict-to_dict run.steps,
          as_opt_text-opt_text _ run.external_id,
          run_status_of-value run.status,
          exact run.cost_usd,
          extra_from_dict-to_dict run.extra,
        )
        refl
