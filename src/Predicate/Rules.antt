-- ===== src/Predicate/Rules.antt =====
-- `evaluate`, the structured form of the selector rules and `describe_mapping` of
-- ticketbot/core/predicate.py.
pub mod Sound
use ticket_bot.Prelude.{
  ℕ, zero, suc, Bool, true, false, not, ◌&&◌, Option, none, some, Text, text_eq, codes, ltb,
  if◌then◌else◌, List, [], ◌∷◌, ◌++◌, length, join, strip, text_in,
}
use ticket_bot.Prelude.Outcomes.{Outcome, ok, raised, predicate_error, ◌>>=◌}
use ticket_bot.Predicate.Values.{Value, Items, Fields, Python, null, list, nil, cons, is_empty}
use ticket_bot.Predicate.Lookup.{lookup_path}
use ticket_bot.Predicate.Compare.{Op, eq, ne, lt, lte, gt, gte, is_in, contains, compare_op}
use ticket_bot.Predicate.Nodes.{Node, eval_node}
use ticket_bot.Predicate.Lexer.{Token, tokenize}
use ticket_bot.Predicate.Parser.{parse}

abbrev pub max_expr_len : ℕ
max_expr_len = 2000

abbrev pub max_tokens : ℕ
max_tokens = 400

-- A rule of the structured form: a bare value to be equal to, or a mapping of operators.
pub data Rule (N : Type 0) : Type 0 where
  bare : Value N → Rule N
  ops : List (Text × Value N) → Rule N

abbrev pub Spec : Type 0 → Type 0
Spec N = List (Text × Rule N)

-- What stands under `when:`: nothing, an expression, a structured rule, or anything else.
pub data When (N : Type 0) : Type 0 where
  absent : When N
  expression : Text → When N
  mapping : Spec N → When N
  other : When N

-- The limit on the tokens, and the empty expression.
unfoldable pub check_tokens : List Token → Outcome (List Token)
check_tokens [] = raised (predicate_error (codes "empty expression"))
check_tokens (t ∷ ts) =
    if ltb max_tokens (length (t ∷ ts))
    then raised (predicate_error (codes "expression has too many tokens"))
    else ok (t ∷ ts)

-- The part of `evaluate` that does not read the context.
unfoldable pub compile_expr : {N : Type 0} → Python N → Text → Outcome (Node N)
unfolding check_tokens
compile_expr py expr =
    if ltb max_expr_len (length expr)
    then raised (predicate_error (codes "expression too long"))
    else do tokens ← tokenize expr; checked ← check_tokens tokens; parse py checked

-- `evaluate`
unfoldable pub evaluate : {N : Type 0} → Python N → Text → Value N → Outcome Bool
unfolding compile_expr
evaluate py expr context = do node ← compile_expr py expr; eval_node py node context

-- The operator that a rule names: `_COMPARE_OPS`, `empty` or `not_empty`.
pub data RuleOp : Type 0 where
  compares : Op → RuleOp
  is_empty_op not_empty_op : RuleOp

unfoldable pub rule_op : Text → Option RuleOp
rule_op t =
    if text_eq t (codes "empty")
    then some is_empty_op
    else if text_eq t (codes "not_empty")
    then some not_empty_op
    else if text_eq t (codes "eq")
    then some (compares eq)
    else if text_eq t (codes "ne")
    then some (compares ne)
    else if text_eq t (codes "lt")
    then some (compares lt)
    else if text_eq t (codes "lte")
    then some (compares lte)
    else if text_eq t (codes "gt")
    then some (compares gt)
    else if text_eq t (codes "gte")
    then some (compares gte)
    else if text_eq t (codes "in")
    then some (compares is_in)
    else if text_eq t (codes "contains")
    then some (compares contains)
    else none

-- `_single_op`
unfoldable pub single_op : {N : Type 0} → List (Text × Value N) → Outcome (Text × Value N)
single_op (entry ∷ []) = ok entry
single_op _ = raised (predicate_error (codes "must have exactly one operator"))

unfoldable pub apply_rule :
    {N : Type 0} → Python N → Value N → Text → Value N → Option RuleOp → Outcome Bool
apply_rule py value path operand none = raised (predicate_error (codes "unknown operator"))
apply_rule py value path operand (some is_empty_op) = ok (is_empty value)
apply_rule py value path operand (some not_empty_op) = ok (not (is_empty value))
apply_rule py value path operand (some (compares o)) = compare_op py value o operand path

-- `_eval_mapping_rule`
unfoldable pub eval_mapping_rule : {N : Type 0} → Python N → Text → Rule N → Value N → Outcome Bool
unfolding single_op apply_rule
eval_mapping_rule py path (ops entries) context = do
  (name, operand) ← single_op entries
  apply_rule py (lookup_path py context path) path operand (rule_op name)
eval_mapping_rule py path (bare operand) context =
    compare_op py (lookup_path py context path) eq operand path

-- `evaluate_mapping`: `all(...)` stops at the first rule that does not hold.
unfoldable pub evaluate_mapping : {N : Type 0} → Python N → Spec N → Value N → Outcome Bool
unfolding eval_mapping_rule
evaluate_mapping py [] context = ok true
evaluate_mapping py ((path, rule) ∷ rest) context =
    let others = evaluate_mapping py rest context in
    do held ← eval_mapping_rule py path rule context; if held then others else ok false

-- `evaluate_any`
unfoldable pub evaluate_any : {N : Type 0} → Python N → When N → Value N → Outcome Bool
unfolding evaluate evaluate_mapping
evaluate_any py absent context = ok true
evaluate_any py (expression expr) context =
    if text_eq (strip expr) [] then ok true else evaluate py expr context
evaluate_any py (mapping spec) context = evaluate_mapping py spec context
evaluate_any py other context =
    raised (predicate_error (codes "predicate must be None, a string or a mapping"))
