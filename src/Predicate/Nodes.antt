-- ===== src/Predicate/Nodes.antt =====
-- The syntax tree of a predicate, and `_eval_node` of ticketbot/core/predicate.py.
use ticket_bot.Prelude.{Bool, true, false, not, Text, if◌then◌else◌}
use ticket_bot.Prelude.Outcomes.{Outcome, ok, ◌>>=◌}
use ticket_bot.Predicate.Values.{Value, Python, is_empty, truthy}
use ticket_bot.Predicate.Lookup.{lookup_path}
use ticket_bot.Predicate.Compare.{Op, compare_op}

pub data Node (N : Type 0) : Type 0 where
  or and : Node N → Node N → Node N
  negate : Node N → Node N
  holds : Text → Node N
  empty : Text → Bool → Node N
  compare : Text → Op → Value N → Node N

unfoldable pub eval_node : {N : Type 0} → Python N → Node N → Value N → Outcome Bool
eval_node py (or a b) context =
    let right = eval_node py b context in
    do left ← eval_node py a context; if left then ok true else right
eval_node py (and a b) context =
    let right = eval_node py b context in
    do left ← eval_node py a context; if left then right else ok false
eval_node py (negate a) context = do held ← eval_node py a context; ok (not held)
eval_node py (holds path) context = ok (truthy py (lookup_path py context path))
eval_node py (empty path true) context = ok (not (is_empty (lookup_path py context path)))
eval_node py (empty path false) context = ok (is_empty (lookup_path py context path))
eval_node py (compare path op operand) context =
    compare_op py (lookup_path py context path) op operand path
