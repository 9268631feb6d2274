-- ===== src/Tests/Limits.antt =====
-- The theorems on the caps, the gates and the text protocol at concrete inputs.
use ticket_bot.Prelude.{
  ℕ, ◌≤◌, ◌≡◌, refl, arith, some, Text, codes, starts_with, strip, rstrip, lstrip, split_on, join,
  List, [], ◌∷◌,
}
use ticket_bot.Prelude.Outcomes.{ok}
use ticket_bot.Engine.Budget.{Budget, elapsed, step_timeout}
use ticket_bot.Engine.Budget.Caps.{Before, TimeoutFits, step_timeout-fits}
use ticket_bot.Engine.Gates.{GatesConfig, comment_only, human_review}
use ticket_bot.Engine.Gates.Rounds.{ask_all, relayed, relayed-ask_all}
use ticket_bot.Engine.Protocol.{
  non_fenced_from, non_fenced_lines, first_question, question_at, parse_question,
}
use ticket_bot.Engine.Protocol.Blocks.{CutAt, parse_question-CutAt}

-- Five cents are spent of ten, and ten seconds are left of a minute.
abbrev budget : Budget
budget = record {
  cfg = record { max_cost_usd = some 100000; max_wall_clock_s = some 60 };
  started = some 0;
  spent_usd = 50000;
}

abbrev gates : GatesConfig
gates = record { on_unclear = comment_only; on_pr_ready = human_review; max_clarify_rounds = 1 }

abbrev questions : List Text
questions = codes "Which branch?" ∷ codes "Which port?" ∷ []

abbrev question_text : Text
question_text = codes "done\nQUESTION: why?"

abbrev fence_line : Text
fence_line = codes "```"

in_time : Before (elapsed budget 50000) (some 60)
unfolding elapsed
in_time = omega arith

step_timeout-fits_example :
    (t : ℕ) × (step_timeout budget 50000 1800 ≡ ok t)
    × TimeoutFits 1800 (elapsed budget 50000) t (some 60)
step_timeout-fits_example = step_timeout-fits budget 50000 1800 in_time

relayed-ask_all_example : relayed (ask_all gates 0 questions) ≤ 1
relayed-ask_all_example = relayed-ask_all gates 0 questions

question_parsed : parse_question question_text ≡ some (codes "QUESTION: why?")
unfolding parse_question non_fenced_lines non_fenced_from first_question question_at strip lstrip
    rstrip split_on join starts_with
question_parsed = refl

parse_question-CutAt_example : (i : ℕ) × CutAt question_text (codes "QUESTION: why?") i
parse_question-CutAt_example =
    parse_question-CutAt question_text (codes "QUESTION: why?") question_parsed
