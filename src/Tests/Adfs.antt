-- ===== src/Tests/Adfs.antt =====
-- The theorem on the reading of a document of Jira at a concrete input.
use ticket_bot.Prelude.{ℕ, ◌≡◌, refl, true, Text, codes, text_eq, join}
use ticket_bot.Prelude.Outcomes.{ok}
use ticket_bot.Predicate.Values.{Value, str, list, dict, nil, cons, end, field, get_field}
use ticket_bot.Adapters.Adf.{adf_to_text}
use ticket_bot.Adapters.Adf.Tidy.{tidy}
use ticket_bot.Adapters.Adf.Reads.{adf_to_text-tidy}
use ticket_bot.Tests.Samples.{py}

abbrev hello : Value ℕ
hello =
    dict
      (field (codes "type") (str (codes "text")) (field (codes "text") (str (codes "hello")) end))

abbrev paragraph : Value ℕ
paragraph = dict (
    field (codes "type") (str (codes "paragraph"))
      (field (codes "content") (list (cons hello nil)) end))

abbrev document : Value ℕ
document = dict (
    field (codes "type") (str (codes "doc"))
      (field (codes "content") (list (cons paragraph nil)) end))

document_is_tidy : tidy document ≡ true
unfolding tidy get_field text_eq
document_is_tidy = refl

adf_to_text-tidy_example : (text : Text) × (adf_to_text py document ≡ ok text)
adf_to_text-tidy_example = adf_to_text-tidy py document document_is_tidy

document_read : adf_to_text py document ≡ ok (codes "hello")
unfolding adf_to_text text_eq join
document_read = refl
