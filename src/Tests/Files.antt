-- ===== src/Tests/Files.antt =====
-- The theorems on the source of files at concrete inputs.
use ticket_bot.Prelude.{
  ℕ, ◌≡◌, refl, true, none, some, Text, codes, text_eq, text_in, ◌++◌, [], ◌∷◌, All, Bool-cases,
  inl, inr, text_eq_sound, length, strip, rstrip, lstrip, split_on,
}
use ticket_bot.Prelude.Outcomes.{Outcome, ok, ◌>>=◌}
use ticket_bot.Predicate.Values.{Value, Fields, null, str, end, field, get_field}
use ticket_bot.Adapters.Files.{
  title_fallback, known_keys, Disk, FileOptions, build_item, unknown_fields, poll, yielded,
  from_file, build, split_front_matter,
}
use ticket_bot.Core.FrontMatter.{is_dashes, first_heading, heading_text}
use ticket_bot.Adapters.Files.Kept.{IsFresh, poll-Fresh, build_item-known}
use ticket_bot.Tests.Samples.{py}

-- Two files, one of them in the directory of those that are done.
abbrev disk : Disk ℕ
disk = record {
  is_file = λ path x. true;
  read_text = λ path x. some (codes "# Title");
  resolve = λ path x. some (codes "/" ++ path);
  glob_by_mtime = λ glob x. some (codes "a" ∷ codes "done" ∷ []);
  is_relative_to = λ path dir. text_eq path (codes "/done");
  stem = λ path. path;
  name = λ path. path;
  under = λ dir path. path;
  make_dir = λ path x. x;
  replace = λ from to x. x;
}

abbrev options : FileOptions
options = record {
  base_dir = [];
  path = none;
  text = none;
  glob = codes "*";
  processed_dir = codes "done";
}

abbrev no_yaml : Text → Outcome (Value ℕ)
no_yaml t = ok null

poll-Fresh_example :
    All
      (IsFresh py no_yaml (λ t. t) disk (codes "/done") 0)
      (poll py no_yaml (λ t. t) disk options 0).0
poll-Fresh_example = poll-Fresh py no_yaml (λ t. t) disk options 0 (codes "/done") refl

-- A front matter with a key that is not known, and without it.
abbrev noted : Fields ℕ
noted = field (codes "path") (str (codes "/etc")) (field (codes "title") (str (codes "t")) end)

abbrev plain_title : Fields ℕ
plain_title = field (codes "title") (str (codes "t")) end

same_known : (k : Text) → text_in k known_keys ≡ true → get_field k noted ≡ get_field k plain_title
unfolding get_field text_in text_eq
same_known k h = elim (Bool-cases (text_eq (codes "path") k)) [
  | inl e ↦ cc (rw (← text_eq_sound (codes "path") k e) at h)
  | inr e ↦ rw (get_field, e) refl
]

build_item-known_example : build_item py no_yaml (λ t. t) disk noted [] (codes "/a") ≡ (
    build_item py no_yaml (λ t. t) disk plain_title [] (codes "/a") >>= λ item.
    ok (record item { raw = unknown_fields py no_yaml (λ t. t) disk noted }))
build_item-known_example =
    build_item-known py no_yaml (λ t. t) disk noted plain_title [] (codes "/a") same_known

one_item : length (poll py no_yaml (λ t. t) disk options 0).0 ≡ 1
unfolding poll yielded from_file build split_front_matter is_dashes strip rstrip lstrip split_on
    text_eq
one_item = refl

-- A heading of blanks gives the empty title.
blank_heading : title_fallback py no_yaml (λ t. t) disk (codes "#  \nFix it") (codes "/a") ≡ []
unfolding title_fallback first_heading heading_text split_on strip rstrip lstrip
blank_heading = refl
