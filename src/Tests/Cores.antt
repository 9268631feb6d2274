-- ===== src/Tests/Cores.antt =====
-- The theorems on slugs, templates and the store at concrete inputs.
use ticket_bot.Prelude.{
  ℕ, max, ◌≤◌, ◌≡◌, refl, true, false, not, ◌&&◌, is_some, Text, codes, text_eq, text_in, non_empty,
  [], ◌∷◌, length, if◌then◌else◌, some, none, All,
}
use ticket_bot.Prelude.Trim.{all_chars}
use ticket_bot.Prelude.Outcomes.{Outcome, ok, raised, config_error}
use ticket_bot.Predicate.Values.{Value, dict, str, field, end}
use ticket_bot.Core.Slug.{slugify}
use ticket_bot.Core.Slug.Safe.{is_safe, slugify-Safe}
use ticket_bot.Core.Templating.{pieces, lookup_raw, render, missing_placeholders}
use ticket_bot.Core.Templating.Escape.{escape, render-escape}
use ticket_bot.Core.Templating.Missing.{has_hole, text_in-missing_placeholders}
use ticket_bot.Core.Json.Runs.{run_to_dict}
use ticket_bot.Core.Store.{Json, payload, save_cut_off, save_run, load_run}
use ticket_bot.Core.Store.Kept.{load_run-save_run, load_run-save_cut_off}
use ticket_bot.Core.WorkItem.{WorkItem}
use ticket_bot.Core.Json.WorkItems.{Codec, item_to_dict, item_from_dict}
use ticket_bot.Core.Json.ItemTrip.{IsDated, item_from_dict-to_dict}
use ticket_bot.Tests.Samples.{py, new_run, work_item}

slugify-Safe_example :
    (all_chars is_safe (slugify (λ t. t) (codes "ENG 18: Fix it!") 10) ≡ true)
    × (non_empty (slugify (λ t. t) (codes "ENG 18: Fix it!") 10) ≡ true)
    × (length (slugify (λ t. t) (codes "ENG 18: Fix it!") 10) ≤ max 10 4)
slugify-Safe_example = slugify-Safe (λ t. t) (codes "ENG 18: Fix it!") 10

abbrev values : Value ℕ
values = dict (field (codes "title") (str (codes "t")) end)

render-escape_example : render py (escape (codes "{title} {}")) values ≡ codes "{title} {}"
render-escape_example = render-escape py values (codes "{title} {}")

text_in-missing_placeholders_example :
    text_in (codes "body") (missing_placeholders py (codes "{title}: {body}") values) ≡ (
      has_hole (codes "body") (pieces (codes "{title}: {body}"))
      && not (is_some (lookup_raw py values (codes "body"))))
text_in-missing_placeholders_example =
    text_in-missing_placeholders py (codes "{title}: {body}") values (codes "body")

-- A JSON that knows the text of one run.
abbrev json : Json ℕ
json = record {
  numbers = record { write = λ n. n; read = λ n. n };
  dumps = λ d. codes "{run}";
  loads = λ t.
      if text_eq t (codes "{run}")
      then ok (run_to_dict (record { write = λ n. n; read = λ n. n }) new_run)
      else raised (config_error t);
}

load_run-save_run_example :
    (load_run json new_run.id (save_run json new_run []) ≡ ok new_run)
    × ((id : Text)
        → text_eq new_run.id id ≡ false
        → load_run json id (save_run json new_run []) ≡ load_run json id [])
unfolding payload text_eq
load_run-save_run_example = load_run-save_run json new_run [] (λ n. refl) refl

load_run-save_cut_off_example :
    load_run json new_run.id (save_cut_off json 3 new_run (save_run json new_run []))
    ≡ load_run json new_run.id (save_run json new_run [])
load_run-save_cut_off_example =
    load_run-save_cut_off json 3 new_run new_run.id (save_run json new_run [])

-- A base64 that marks a text, and dates that are read as they stand.
abbrev codec : Codec
codec = record { b64encode = λ bytes. 61 ∷ bytes; b64decode = decode; fromisoformat = λ t. ok t }
  where
    decode : Text → Outcome Text
    decode [] = raised (config_error [])
    decode (c ∷ bytes) = ok bytes

-- An item with a comment and an attachment.
abbrev told_item : WorkItem ℕ
told_item = record work_item {
  comments =
      record {
        author = codes "ann";
        body = codes "please";
        created_at = some (codes "2024-05-01");
        id = none;
      }
      ∷ [];
  attachments =
      record {
        filename = codes "a.txt";
        content_type = codes "text/plain";
        path = none;
        bytes = some (codes "hi");
      }
      ∷ [];
}

dated : All (IsDated codec) told_item.comments
dated = (record { read = λ t e. refl; written = λ t e. rw (← text_of e) refl }, tt)
  where
    text_of : {s t : Text} → some s ≡ some t → s ≡ t
    text_of e = cc

item_from_dict-to_dict_example : item_from_dict codec (item_to_dict codec told_item) ≡ ok told_item
item_from_dict-to_dict_example = item_from_dict-to_dict ℕ codec (λ bytes. refl) told_item dated
