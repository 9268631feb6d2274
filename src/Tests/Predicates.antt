-- ===== src/Tests/Predicates.antt =====
-- The theorems on predicates, pipelines and the selector at concrete inputs.
use ticket_bot.Prelude.{
  ℕ, ◌≡◌, ◌↔◌, refl, true, false, Option, none, Text, codes, List, [], ◌∷◌, text_eq, split_on, join,
}
use ticket_bot.Prelude.Outcomes.{ok, raised, overflow_error}
use ticket_bot.Prelude.{text_in}
use ticket_bot.Predicate.Values.{Value, Python, num, dict, field, end, get_field, truthy}
use ticket_bot.Predicate.Lookup.{lookup_path}
use ticket_bot.Predicate.Compare.{compare_op, order_compare}
use ticket_bot.Predicate.Lexer.{Token, ident, tokenize}
use ticket_bot.Predicate.Lexer.Total.{Lexed, tokenize-Lexed}
use ticket_bot.Predicate.Parser.Operands.{is_ident, expect_type, parse_operand, simple_operand}
use ticket_bot.Predicate.Parser.{symbol_op, try_parse_op, parse_comparison, parse, parse_primary}
use ticket_bot.Predicate.Parser.Total.{Bounded, parse-Bounded}
use ticket_bot.Predicate.Rules.{absent, compile_expr, evaluate, evaluate_any}
use ticket_bot.Predicate.Nodes.{eval_node}
use ticket_bot.Predicate.Rules.Sound.{Limited, compile_expr-Limited}
use ticket_bot.Core.WorkItem.{key}
use ticket_bot.Engine.Context.{build_context}
use ticket_bot.Engine.Selector.{select, dummy_run}
use ticket_bot.Engine.Selector.First.{Chosen, select-Chosen_iff}
use ticket_bot.Engine.Pipeline.Load.{RawStep, RawPipeline, mapping_item, step_list, load}
use ticket_bot.Engine.Pipeline.Valid.{all_valid, distinct, load-Valid}
use ticket_bot.Tests.Samples.{py, profile, work_item, two_steps}

abbrev expr : Text
expr = codes "a < 5 and not (b)"

abbrev one_name : Text
one_name = codes "a"

abbrev tokens : List Token
tokens = record { kind = ident; text = codes "a"; at = 0 } ∷ []

abbrev empty_context : Value ℕ
empty_context = dict end

abbrev small_context : Value ℕ
small_context = dict (field (codes "a") (num 3) end)

tokenize-Lexed_example : Lexed expr expr (tokenize expr)
tokenize-Lexed_example = tokenize-Lexed expr

parse-Bounded_example : Bounded tokens (parse py tokens)
parse-Bounded_example = parse-Bounded py tokens

compile_expr-Limited_example : Limited (compile_expr py expr)
compile_expr-Limited_example = compile_expr-Limited py expr

-- Where no int converts to a float, a comparison of a number evaluates on the empty context and raises
-- on one that has the number.
abbrev all_huge : Python ℕ
all_huge = record py { to_float = λ n. none }

abbrev one_order : Text
one_order = codes "a > 3"

fine_when_empty : evaluate all_huge one_order empty_context ≡ ok false
unfolding text_eq split_on tokenize try_parse_op parse_comparison parse parse_primary evaluate
    eval_node lookup_path get_field truthy is_ident expect_type join compare_op order_compare
    symbol_op parse_operand simple_operand
fine_when_empty = refl

overflows_at_run_time : evaluate all_huge one_order small_context ≡ raised overflow_error
unfolding text_eq split_on tokenize try_parse_op parse_comparison parse parse_primary evaluate
    eval_node lookup_path get_field truthy is_ident expect_type join compare_op order_compare
    symbol_op parse_operand simple_operand
overflows_at_run_time = refl

abbrev raw_step : Text → RawStep ℕ
raw_step id = record {
  keys = codes "id" ∷ codes "role" ∷ [];
  id = Option.some id;
  role = Option.some (codes "coder");
  model = none;
  executor = none;
  tools = [];
  condition = absent;
  for_each = none;
  produces = [];
  gate = none;
  commit = none;
  on_block = none;
  timeout_s = none;
  prompt = none;
  optional = false;
}

abbrev raw_pipeline : RawPipeline ℕ
raw_pipeline = record {
  name = none;
  default_model = none;
  default_executor = none;
  default_timeout_s = none;
  steps =
      step_list (mapping_item (raw_step (codes "plan")))
        (mapping_item (raw_step (codes "test")) ∷ []);
  on_question = none;
  on_defer = none;
}

load-Valid_example : (all_valid py two_steps.steps ≡ true) × (distinct two_steps.steps ≡ true)
unfolding text_eq text_in load evaluate_any
load-Valid_example = load-Valid py (codes "p") (codes "p") raw_pipeline two_steps refl

select-Chosen_iff_example :
    (select py profile work_item
      ≡ ok (record { ref = codes "small"; reason = codes "workitem.title == " }))
    ↔ Chosen py
        (build_context py work_item (dummy_run profile.name (key work_item)))
        profile.selector_default
        profile.selector_rules
        (record { ref = codes "small"; reason = codes "workitem.title == " })
select-Chosen_iff_example =
    select-Chosen_iff py profile work_item
      (record { ref = codes "small"; reason = codes "workitem.title == " })
