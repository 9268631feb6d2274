-- ===== src/Predicate/Values.antt =====
-- The Python values that a `when:` predicate meets: those of the evaluation context and those that
-- an operand is parsed to. Numbers are a parameter `N`, with the operations of `Python`.
use ticket_bot.Prelude.{
  ℕ, Bool, true, false, ◌&&◌, Option, none, some, Text, text_eq, ◌==◌, if◌then◌else◌, non_empty,
  strip, List, [], ◌∷◌,
}

-- `missing` is the sentinel MISSING; `object` is any other Python object, such as a bound method.
mutual
  pub data Value (N : Type 0) : Type 0 where
    missing null : Value N
    bool : Bool → Value N
    num : N → Value N
    str : Text → Value N
    list : Items N → Value N
    dict : Fields N → Value N
    object : Text → Value N

  pub data Items (N : Type 0) : Type 0 where
    nil : Items N
    cons : Value N → Items N → Items N

  pub data Fields (N : Type 0) : Type 0 where
    end : Fields N
    field : Text → Value N → Fields N → Fields N

-- What the evaluator takes from the Python runtime: numbers, `getattr`, `float(s)`, `float(n)` with
-- `none` for an int that raises OverflowError, `str(v)`.
pub record Python (N : Type 0) : Type 0 where
  pub num_lt : N → N → Bool
  pub num_le : N → N → Bool
  pub num_eq : N → N → Bool
  pub is_zero : N → Bool
  pub of_bool : Bool → N
  pub of_nat : ℕ → N
  pub of_literal : Text → N
  pub parse_float : Text → Option N
  pub to_float : N → Option N
  pub str_of : Value N → Text
  pub attribute : Value N → Text → Option (Value N)

module _ {N : Type 0} where
  -- `d.get(k)` of a mapping; a later entry of the same key is not reached.
  unfoldable pub get_field : Text → Fields N → Option (Value N)
  get_field k end = none
  get_field k (field j v fs) = if text_eq j k then some v else get_field k fs

  -- `isinstance(v, str)`, with the text.
  abbrev pub as_text : Value N → Option Text
  as_text (str s) = some s
  as_text _ = none

  abbrev pub is_bool : Value N → Bool
  is_bool (bool b) = true
  is_bool _ = false

  -- `_is_empty`
  unfoldable pub is_empty : Value N → Bool
  is_empty missing = true
  is_empty null = true
  is_empty (str s) = text_eq (strip s) []
  is_empty (list nil) = true
  is_empty (list (cons _ _)) = false
  is_empty (dict end) = true
  is_empty (dict (field _ _ _)) = false
  is_empty _ = false

  -- `bool(v)`
  unfoldable pub truthy : Python N → Value N → Bool
  truthy py missing = false
  truthy py null = false
  truthy py (bool b) = b
  truthy py (num n) = elim (py.is_zero n) [ true ↦ false | false ↦ true ]
  truthy py (str s) = non_empty s
  truthy py (list nil) = false
  truthy py (list (cons _ _)) = true
  truthy py (dict end) = false
  truthy py (dict (field _ _ _)) = true
  truthy py (object _) = true

  -- f"{v}"
  abbrev pub shown : Python N → Value N → Text
  shown py (str t) = t
  shown py v = py.str_of v

  -- `str(v) for v in items`
  unfoldable pub str_items : Python N → Items N → List Text
  str_items py nil = []
  str_items py (cons v vs) = py.str_of v ∷ str_items py vs

  size_fields : Fields N → ℕ
  size_fields end = ℕ.zero
  size_fields (field _ _ fs) = ℕ.suc (size_fields fs)

abbrev pub equal_in : {N : Type 0} → Option (Value N) → (Value N → Bool) → Bool
equal_in none same = false
equal_in (some v) same = same v

-- `a == b` of Python: numbers and Booleans mix, mappings forget the order of their keys.
unfoldable mutual
  unfolding size_fields get_field

  pub py_eq : {N : Type 0} → Python N → Value N → Value N → Bool
  py_eq py missing missing = true
  py_eq py null null = true
  py_eq py (bool a) (bool b) = py.num_eq (py.of_bool a) (py.of_bool b)
  py_eq py (bool a) (num n) = py.num_eq (py.of_bool a) n
  py_eq py (num n) (bool b) = py.num_eq n (py.of_bool b)
  py_eq py (num n) (num m) = py.num_eq n m
  py_eq py (str s) (str t) = text_eq s t
  py_eq py (list xs) (list ys) = items_eq py xs ys
  py_eq py (dict xs) (dict ys) = size_fields xs == size_fields ys && fields_in py xs ys
  py_eq py (object s) (object t) = text_eq s t
  py_eq py _ _ = false

  pub items_eq : {N : Type 0} → Python N → Items N → Items N → Bool
  items_eq py nil nil = true
  items_eq py (cons x xs) (cons y ys) = py_eq py x y && items_eq py xs ys
  items_eq py _ _ = false

  pub fields_in : {N : Type 0} → Python N → Fields N → Fields N → Bool
  fields_in py end ys = true
  fields_in py (field k x xs) ys =
      equal_in (get_field k ys) (λ y. py_eq py x y) && fields_in py xs ys
