-- ===== src/Engine/Selector.antt =====
-- ticketbot/engine/selector.py, with `describe_mapping` of ticketbot/core/predicate.py.
pub mod First
use ticket_bot.Prelude.{
  Bool, true, false, Option, none, some, Text, codes, List, [], ◌∷◌, ◌++◌, if◌then◌else◌, join,
  text_eq,
}
use ticket_bot.Prelude.Outcomes.{Outcome, ok, raised, config_error, predicate_error, Exn, ◌>>=◌}
use ticket_bot.Predicate.Values.{Value, Items, Python, null, list, nil, cons}
use ticket_bot.Predicate.Rules.{Spec, Rule, bare, ops, evaluate_mapping, single_op}
use ticket_bot.Core.Run.{Run, received}
use ticket_bot.Core.WorkItem.{WorkItem, key}
use ticket_bot.Engine.Context.{build_context}
use ticket_bot.Engine.Env.{Profile, SelectorRule}

pub record Selection : Type 0 where
  pub ref : Text
  pub reason : Text

-- `_OP_LABELS.get(op, op)`
unfoldable pub op_label : Text → Text
op_label o =
    if text_eq o (codes "eq")
    then codes "=="
    else if text_eq o (codes "ne")
    then codes "!="
    else if text_eq o (codes "lt")
    then codes "<"
    else if text_eq o (codes "lte")
    then codes "<="
    else if text_eq o (codes "gt")
    then codes ">"
    else if text_eq o (codes "gte")
    then codes ">="
    else if text_eq o (codes "empty")
    then codes "is empty"
    else if text_eq o (codes "not_empty")
    then codes "is not empty"
    else o

-- `_describe_value`, and the pieces of a list.
unfoldable mutual
  pub describe_value : {N : Type 0} → Python N → Value N → Text
  describe_value py null = codes "null"
  describe_value py (list vs) = codes "[" ++ (join (codes ", ") (describe_items py vs) ++ codes "]")
  describe_value py v = py.str_of v

  pub describe_items : {N : Type 0} → Python N → Items N → List Text
  describe_items py nil = []
  describe_items py (cons v vs) = describe_value py v ∷ describe_items py vs

unfoldable pub describe_op : {N : Type 0} → Python N → Text → Text × Value N → Text
describe_op py path (o, operand) =
    let head = path ++ (codes " " ++ op_label o) in
    if text_eq o (codes "empty")
    then head
    else if text_eq o (codes "not_empty")
    then head
    else head ++ (codes " " ++ describe_value py operand)

unfoldable pub describe_rule : {N : Type 0} → Python N → Text → Rule N → Outcome Text
unfolding describe_op
describe_rule py path (bare v) = ok (path ++ (codes " == " ++ describe_value py v))
describe_rule py path (ops entries) = do entry ← single_op entries; ok (describe_op py path entry)

unfoldable pub describe_parts : {N : Type 0} → Python N → Spec N → Outcome (List Text)
unfolding describe_rule
describe_parts py [] = ok []
describe_parts py ((path, rule) ∷ rest) = do
  part ← describe_rule py path rule
  parts ← describe_parts py rest
  ok (part ∷ parts)

-- `describe_mapping`
unfoldable pub describe_mapping : {N : Type 0} → Python N → Spec N → Outcome Text
unfolding describe_parts
describe_mapping py spec = do parts ← describe_parts py spec; ok (join (codes " and ") parts)

-- The run that `select` makes up for the context.
abbrev pub dummy_run : Text → Text → Run
dummy_run profile_name item_key = record {
  id = [];
  profile_name = profile_name;
  work_item_key = item_key;
  external_id = none;
  status = received;
  created_at = [];
  updated_at = [];
  pipeline_ref = [];
  pipeline_reason = [];
  banner = [];
  cost_usd = 0;
  steps = [];
  extra = record {
    branch = none;
    workspace = none;
    pr_url = none;
    run_error = none;
    clarify_rounds = none;
    section_count = none;
    plan_security = none;
    diff_files = none;
    diff_touches_security = none;
    screenshots = [];
  };
}

-- A malformed rule is a fault of the configuration.
unfoldable pub as_config_error : Outcome Bool → Outcome Bool
as_config_error (raised (predicate_error message)) = raised (config_error message)
as_config_error r = r

abbrev pub choose : {N : Type 0} → Python N → SelectorRule N → Outcome Selection
choose py rule = do
  reason ← describe_mapping py rule.condition
  ok (record { ref = rule.use_ref; reason = reason })

unfoldable pub select_from :
    {N : Type 0} → Python N → Value N → Text → List (SelectorRule N) → Outcome Selection
unfolding as_config_error describe_mapping
select_from py context default [] = ok (record { ref = default; reason = codes "default" })
select_from py context default (rule ∷ rules) =
    let others = select_from py context default rules in
    do
      matched ← as_config_error (evaluate_mapping py rule.condition context)
      if matched then choose py rule else others

-- `select`
unfoldable pub select : {N : Type 0} → Python N → Profile N → WorkItem N → Outcome Selection
unfolding select_from
select py profile item =
    select_from py (build_context py item (dummy_run profile.name (key item)))
      profile.selector_default profile.selector_rules
