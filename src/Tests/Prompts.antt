-- ===== src/Tests/Prompts.antt =====
-- A test of the values of a prompt and their rendering.
use ticket_bot.Prelude.{ℕ, ◌≡◌, refl, false, none, some, Text, codes, ◌++◌, [], text_eq, split_on}
use ticket_bot.Predicate.Values.{Value, str, get_field}
use ticket_bot.Predicate.Lexer.{span}
use ticket_bot.Predicate.Lookup.{hop}
use ticket_bot.Core.Templating.{piece_at}
use ticket_bot.Engine.Context.Prompts.{Platform, prompt_values, rendered}
use ticket_bot.Tests.Samples.{py, new_run, work_item}

abbrev platform : Platform
platform = record {
  is_windows = false;
  python_version = codes "3.12";
  under = λ dir name. dir ++ (codes "/" ++ name);
}

-- `str` of a text.
abbrev str_of : Value ℕ → Text
str_of (str t) = t
str_of _ = []

abbrev section_file : Text
section_file =
    rendered (record py { str_of = str_of }) (codes "{task} {section_file} {plan_file} {nothing}")
      (prompt_values py platform work_item new_run (codes "code") (codes "coder") none
        (some (codes "r"))
        (some (record { file = codes "s.md"; title = codes "S"; index = 1; count = 2 })) [])

section_rendered : section_file ≡ codes "t s.md r/plan.md {nothing}"
unfolding rendered piece_at span split_on hop get_field prompt_values text_eq
section_rendered = refl
