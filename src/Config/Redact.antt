-- ===== src/Config/Redact.antt =====
-- `Redactor` of ticketbot/config/redact.py. A pattern of token shapes is a parameter: the substitution
-- that its `sub` makes on a text.
use ticket_bot.Prelude.{
  not, ◌||◌, Option, none, some, Text, codes, ltb, length, non_empty, strip, text_in, if◌then◌else◌,
  List, [], ◌∷◌,
}
use ticket_bot.Predicate.Values.{Value, Items, Fields, str, list, dict, nil, cons, end, field}
use ticket_bot.Executors.Edits.{replace}

abbrev pub redacted : Text
redacted = codes "***REDACTED***"

-- `Redactor.register`: the registered secrets.
unfoldable pub register : Option Text → List Text → List Text
unfolding strip text_in
register none secrets = secrets
register (some secret) secrets =
    if ltb (length secret) 8 || not (non_empty (strip secret)) || text_in secret secrets
    then secrets
    else secret ∷ secrets

unfoldable pub apply_all : List (Text → Text) → Text → Text
apply_all [] text = text
apply_all (pattern ∷ patterns) text = apply_all patterns (pattern text)

unfoldable pub replace_all : List Text → Text → Text
unfolding replace
replace_all [] text = text
replace_all (secret ∷ secrets) text = replace_all secrets (replace text secret redacted)

-- `Redactor.scrub` of a text; the list is the order in which the set of secrets is walked.
unfoldable pub scrub : List (Text → Text) → List Text → Text → Text
unfolding apply_all replace_all
scrub patterns secrets text = replace_all secrets (apply_all patterns text)

-- `Redactor.scrub_obj`
unfoldable mutual
  unfolding scrub

  pub scrub_obj : {N : Type 0} → List (Text → Text) → List Text → Value N → Value N
  scrub_obj patterns secrets (dict fs) = dict (scrub_fields patterns secrets fs)
  scrub_obj patterns secrets (list vs) = list (scrub_items patterns secrets vs)
  scrub_obj patterns secrets (str s) = str (scrub patterns secrets s)
  scrub_obj patterns secrets v = v

  pub scrub_items : {N : Type 0} → List (Text → Text) → List Text → Items N → Items N
  scrub_items patterns secrets nil = nil
  scrub_items patterns secrets (cons v vs) =
      cons (scrub_obj patterns secrets v) (scrub_items patterns secrets vs)

  pub scrub_fields : {N : Type 0} → List (Text → Text) → List Text → Fields N → Fields N
  scrub_fields patterns secrets end = end
  scrub_fields patterns secrets (field k v fs) =
      field k (scrub_obj patterns secrets v) (scrub_fields patterns secrets fs)
