-- ===== src/Predicate/Compare.antt =====
-- The comparisons of ticketbot/core/predicate.py: `_as_number` to `_compare`.
use ticket_bot.Prelude.{
  ℕ, suc, Bool, true, false, not, ◌&&◌, ◌||◌, Option, none, some, Text, text_eq, codes, lower,
  strip, text_in, split_on, starts_with, ltb, leb, ◌==◌, if◌then◌else◌, List, [], ◌∷◌,
}
use ticket_bot.Prelude.Outcomes.{Outcome, ok, raised, overflow_error, ◌>>=◌}
use ticket_bot.Predicate.Values.{
  Value, Items, Python, missing, bool, num, str, list, nil, cons, as_text, is_bool, py_eq,
}

-- The operators of the parser and of the structured rules.
pub data Op : Type 0 where
  eq ne lt lte gt gte is_in not_in contains : Op

-- ORDERED_ENUMS
unfoldable pub ordered_enum : Text → Option (List Text)
ordered_enum name =
    if text_eq name (codes "ambiguity")
    then some (codes "low" ∷ codes "medium" ∷ codes "high" ∷ [])
    else if text_eq name (codes "size")
    then some (codes "xs" ∷ codes "s" ∷ codes "m" ∷ codes "l" ∷ codes "xl" ∷ [])
    else if text_eq name (codes "severity")
    then some (codes "nit" ∷ codes "should-fix" ∷ codes "blocker" ∷ [])
    else none

-- `order.index(t)`, with `none` for `t not in order`.
unfoldable pub index_of : Text → List Text → Option ℕ
index_of t [] = none
index_of t (x ∷ xs) =
    if text_eq t x then some 0 else elim (index_of t xs) [ none ↦ none | some i ↦ some (suc i) ]

-- `path.rsplit(".", 1)[-1]`
unfoldable pub last_piece : List Text → Text
last_piece [] = []
last_piece (p ∷ []) = p
last_piece (p ∷ q ∷ ps) = last_piece (q ∷ ps)

unfoldable pub last_segment : Text → Text
unfolding last_piece
last_segment path = last_piece (split_on b'.' path)

-- `_apply_order`; what is not lt, lte or gt is read as gte.
abbrev pub apply_order : {A : Type 0} → (A → A → Bool) → (A → A → Bool) → A → Op → A → Bool
apply_order less at_most a lt b = less a b
apply_order less at_most a lte b = at_most a b
apply_order less at_most a gt b = less b a
apply_order less at_most a _ b = at_most b a

-- Texts in the order of their code points.
unfoldable pub text_lt : Text → Text → Bool
text_lt s [] = false
text_lt [] (d ∷ t) = true
text_lt (c ∷ s) (d ∷ t) = ltb c d || (c == d && text_lt s t)

-- `item in container` for two texts: a piece of it.
unfoldable pub is_piece : Text → Text → Bool
is_piece p [] = starts_with [] p
is_piece p (c ∷ s) = starts_with (c ∷ s) p || is_piece p s

-- `float(n)` of an int that may be too large.
abbrev pub float_or_overflow : {N : Type 0} → Option N → Outcome (Option N)
float_or_overflow none = raised overflow_error
float_or_overflow (some x) = ok (some x)

module _ {N : Type 0} (py : Python N) where
  -- `_as_number`
  unfoldable pub as_number : Value N → Outcome (Option N)
  as_number (num n) = float_or_overflow (py.to_float n)
  as_number (str s) = ok (py.parse_float s)
  as_number _ = ok none

  -- `v.lower() if isinstance(v, str) else str(v).lower()`
  unfoldable pub lower_text : Value N → Text
  lower_text (str s) = lower s
  lower_text v = lower (py.str_of v)

  unfoldable pub rank_compare : Option ℕ → Op → Option ℕ → Bool
  rank_compare (some i) op (some j) = apply_order ltb leb i op j
  rank_compare _ op _ = false

  unfoldable pub text_compare : Option Text → Op → Option Text → Bool
  text_compare (some s) op (some t) =
      apply_order text_lt (λ a b. not (text_lt b a)) (lower s) op (lower t)
  text_compare _ op _ = false

  unfoldable pub enum_compare : Value N → Op → Value N → Option (List Text) → Bool
  unfolding rank_compare text_compare
  enum_compare value op operand (some order) =
      rank_compare (index_of (lower_text value) order) op (index_of (lower_text operand) order)
  enum_compare value op operand none = text_compare (as_text value) op (as_text operand)

  unfoldable pub number_compare : Option N → Op → Option N → Option Bool
  number_compare (some a) op (some b) = some (apply_order py.num_lt py.num_le a op b)
  number_compare _ op _ = none

  -- `_order_compare`
  unfoldable pub order_compare : Value N → Op → Value N → Text → Outcome Bool
  unfolding as_number enum_compare number_compare
  order_compare value op operand path = do
    left_num ← as_number value
    right_num ← as_number operand
    ok (elim (number_compare left_num op right_num) [
      | some result ↦ result
      | none ↦ enum_compare value op operand (ordered_enum (last_segment path))
    ])

  -- `_bool_like`
  unfoldable pub bool_like : Value N → Value N
  bool_like (str s) =
      let low = lower (strip s) in
      if text_in low (codes "true" ∷ codes "yes" ∷ [])
      then bool true
      else if text_in low (codes "false" ∷ codes "no" ∷ [])
      then bool false
      else str s
  bool_like v = v

  unfoldable pub plain_equal : Value N → Value N → Bool
  plain_equal (str s) (str t) = text_eq (lower s) (lower t)
  plain_equal value operand = py_eq py value operand

  -- `_values_equal`
  unfoldable pub values_equal : Value N → Value N → Bool
  unfolding bool_like plain_equal
  values_equal value operand =
      if is_bool value || is_bool operand
      then py_eq py (bool_like value) (bool_like operand)
      else plain_equal value operand

  unfoldable pub element_matches : Value N → Value N → Bool
  element_matches (str s) (str t) = text_eq (lower s) (lower t)
  element_matches item element = py_eq py item element

  unfoldable pub any_matches : Value N → Items N → Bool
  unfolding element_matches
  any_matches item nil = false
  any_matches item (cons e es) = element_matches item e || any_matches item es

  -- `_membership`
  unfoldable pub membership : Value N → Value N → Bool
  unfolding any_matches
  membership missing container = false
  membership (str s) (str t) = is_piece (lower s) (lower t)
  membership item (list es) = any_matches item es
  membership item _ = false

  -- What an operator does with a missing value.
  unfoldable pub when_found : {A : Type 0} → Value N → A → A → A
  when_found missing absent found = absent
  when_found _ absent found = found

  -- `_compare`
  unfoldable pub compare_op : Value N → Op → Value N → Text → Outcome Bool
  unfolding when_found order_compare
  compare_op value eq operand path = ok (when_found value false (values_equal value operand))
  compare_op value ne operand path = ok (when_found value true (not (values_equal value operand)))
  compare_op value is_in operand path = ok (membership value operand)
  compare_op value not_in operand path = ok (not (membership value operand))
  compare_op value contains operand path = ok (membership operand value)
  compare_op value op operand path =
      when_found value (ok false) (order_compare value op operand path)
