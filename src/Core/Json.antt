-- ===== src/Core/Json.antt =====
-- `to_dict` and `from_dict` of ticketbot/core/run.py, over the values of JSON. A field that the code
-- would keep with a value of another type is a `value_error` here, and so is a missing key.
pub mod Runs
pub mod WorkItems
pub mod ItemTrip
pub mod RoundTrip
pub mod RunTrip
use ticket_bot.Prelude.{
  ℕ, Bool, true, false, Option, none, some, Text, codes, text_eq, if◌then◌else◌, List, [], ◌∷◌,
  Dict,
}
use ticket_bot.Prelude.Outcomes.{Outcome, ok, raised, value_error, ◌>>=◌}
use ticket_bot.Predicate.Values.{
  Value, Items, Fields, null, bool, num, str, list, dict, nil, cons, end, field, get_field,
}
use ticket_bot.Core.Run.{
  RunStatus, received, clarifying, planning, implementing, verifying, pr_open, blocked, done,
  failed, StepStatus, pending, ok_status, skipped, step_blocked, step_failed, status_value,
  StepResult, Extra, Run,
}

-- How numbers are written in JSON and read back.
pub record Numbers (N : Type 0) : Type 0 where
  pub write : ℕ → N
  pub read : N → ℕ

abbrev pub wrong : {A : Type 0} → Text → Outcome A
wrong key = raised (value_error key)

-- `status.value`
unfoldable pub step_status_value : StepStatus → Text
step_status_value pending = codes "pending"
step_status_value ok_status = codes "ok"
step_status_value skipped = codes "skipped"
step_status_value step_blocked = codes "blocked"
step_status_value step_failed = codes "failed"

-- The member of an enum with a value, among those that are left.
unfoldable pub by_value : {A : Type 0} → (A → Text) → Text → List A → Outcome A
by_value value t [] = wrong t
by_value value t (a ∷ members) =
    let rest = by_value value t members in if text_eq t (value a) then ok a else rest

-- `StepStatus(t)`
unfoldable pub step_status_of : Text → Outcome StepStatus
unfolding by_value step_status_value
step_status_of t =
    by_value step_status_value t (pending ∷ ok_status ∷ skipped ∷ step_blocked ∷ step_failed ∷ [])

-- `RunStatus(t)`
unfoldable pub run_status_of : Text → Outcome RunStatus
unfolding by_value status_value
run_status_of t = by_value status_value t (
    received ∷ clarifying ∷ planning ∷ implementing ∷ verifying ∷ pr_open ∷ blocked ∷ done ∷ failed
    ∷ [])

module _ {N : Type 0} where
  abbrev pub opt_text : Option Text → Value N
  opt_text none = null
  opt_text (some t) = str t

  unfoldable pub text_items : List Text → Items N
  text_items [] = nil
  text_items (t ∷ ts) = cons (str t) (text_items ts)

  -- `d[key]` and `d.get(key, default)`, for a text, a text or None, and a list of texts.
  abbrev pub as_needed : Option (Value N) → Outcome Text
  as_needed (some (str t)) = ok t
  as_needed _ = wrong (codes "missing")

  abbrev pub as_text_or : Text → Option (Value N) → Outcome Text
  as_text_or default none = ok default
  as_text_or default (some (str t)) = ok t
  as_text_or default (some _) = wrong default

  abbrev pub as_opt_text : Option (Value N) → Outcome (Option Text)
  as_opt_text none = ok none
  as_opt_text (some null) = ok none
  as_opt_text (some (str t)) = ok (some t)
  as_opt_text (some _) = wrong (codes "text")

  unfoldable pub texts_of : Items N → Outcome (List Text)
  texts_of nil = ok []
  texts_of (cons (str t) vs) = texts_of vs >>= λ ts. ok (t ∷ ts)
  texts_of (cons _ vs) = wrong (codes "text")

  abbrev pub as_texts : Option (Value N) → Outcome (List Text)
  unfolding texts_of
  as_texts none = ok []
  as_texts (some (list vs)) = texts_of vs
  as_texts (some _) = wrong (codes "list")

  abbrev pub as_fields : Option (Value N) → Outcome (Fields N)
  as_fields none = ok end
  as_fields (some (dict fs)) = ok fs
  as_fields (some _) = wrong (codes "dict")

  abbrev pub as_opt_bool : Option (Value N) → Outcome (Option Bool)
  as_opt_bool none = ok none
  as_opt_bool (some (bool b)) = ok (some b)
  as_opt_bool (some _) = wrong (codes "bool")

  module _ (numbers : Numbers N) where
    abbrev pub as_nat_or_zero : Option (Value N) → Outcome ℕ
    as_nat_or_zero none = ok 0
    as_nat_or_zero (some (num n)) = ok (numbers.read n)
    as_nat_or_zero (some _) = wrong (codes "number")

    abbrev pub as_opt_nat : Option (Value N) → Outcome (Option ℕ)
    as_opt_nat none = ok none
    as_opt_nat (some (num n)) = ok (some (numbers.read n))
    as_opt_nat (some _) = wrong (codes "number")

    -- `StepResult.to_dict`
    unfoldable pub result_to_dict : StepResult → Fields N
    unfolding step_status_value text_items
    result_to_dict r = field (codes "id") (str r.id) (
        field (codes "role") (str r.role) (
          field (codes "status") (str (step_status_value r.status)) (
            field (codes "started_at") (opt_text r.started_at) (
              field (codes "ended_at") (opt_text r.ended_at) (
                field (codes "duration_s") (num (numbers.write r.duration_s)) (
                  field (codes "cost_usd") (num (numbers.write r.cost_usd)) (
                    field (codes "text") (str r.text) (
                      field (codes "artifacts") (list (text_items r.artifacts)) (
                        field (codes "commits") (list (text_items r.commits)) (
                          field (codes "question") (opt_text r.question) (
                            field (codes "defers") (list (text_items r.defers))
                              (field (codes "error") (opt_text r.error) end))))))))))))

    -- `StepResult.from_dict`
    unfoldable pub result_from_dict : Fields N → Outcome StepResult
    unfolding step_status_of as_texts get_field
    result_from_dict d = do
      id ← as_needed (get_field (codes "id") d)
      role ← as_text_or [] (get_field (codes "role") d)
      status_text ← as_text_or (codes "pending") (get_field (codes "status") d)
      status ← step_status_of status_text
      started_at ← as_opt_text (get_field (codes "started_at") d)
      ended_at ← as_opt_text (get_field (codes "ended_at") d)
      duration_s ← as_nat_or_zero (get_field (codes "duration_s") d)
      cost_usd ← as_nat_or_zero (get_field (codes "cost_usd") d)
      text ← as_text_or [] (get_field (codes "text") d)
      artifacts ← as_texts (get_field (codes "artifacts") d)
      commits ← as_texts (get_field (codes "commits") d)
      question ← as_opt_text (get_field (codes "question") d)
      defers ← as_texts (get_field (codes "defers") d)
      error ← as_opt_text (get_field (codes "error") d)
      ok (record {
        id = id;
        role = role;
        status = status;
        started_at = started_at;
        ended_at = ended_at;
        duration_s = duration_s;
        cost_usd = cost_usd;
        text = text;
        artifacts = artifacts;
        commits = commits;
        question = question;
        defers = defers;
        error = error;
      })
