-- ===== src/Adapters/Adf/Tidy.antt =====
-- Which documents are read without an exception.
use ticket_bot.Prelude.{
  ◌≡◌, refl, Bool, true, false, ◌&&◌, &&-true, Option, none, some, Text, codes, text_eq, Bool-cases,
  inl, inr,
}
use ticket_bot.Prelude.Outcomes.{Outcome, ok, raised, ◌>>=◌}
use ticket_bot.Predicate.Values.{
  Value, Items, Fields, Python, missing, null, bool, num, str, list, dict, object, nil, cons, end,
  field, get_field,
}
use ticket_bot.Adapters.Adf.{type_of, get_in, items_or_empty, href_of}

module _ {N : Type 0} where
  abbrev pub is_mapping_or_null : Option (Value N) → Bool
  is_mapping_or_null none = true
  is_mapping_or_null (some null) = true
  is_mapping_or_null (some (dict fs)) = true
  is_mapping_or_null (some _) = false

  abbrev pub is_list_or_null : Option (Value N) → Bool
  is_list_or_null none = true
  is_list_or_null (some null) = true
  is_list_or_null (some (list vs)) = true
  is_list_or_null (some _) = false

  -- The keys that the reader takes apart have values of the right type.
  unfoldable pub tidy_keys : Fields N → Bool
  unfolding get_field
  tidy_keys fs =
      is_mapping_or_null (get_field (codes "attrs") fs)
      && (is_list_or_null (get_field (codes "marks") fs)
          && is_list_or_null (get_field (codes "content") fs))

-- Every mapping in a document has, for the keys `attrs`, `marks` and `content`, a mapping, a list and a
-- list, or null or nothing.
unfoldable mutual
  unfolding tidy_keys

  pub tidy : {N : Type 0} → Value N → Bool
  tidy (dict fs) = tidy_keys fs && tidy_fields fs
  tidy (list vs) = tidy_items vs
  tidy _ = true

  pub tidy_items : {N : Type 0} → Items N → Bool
  tidy_items nil = true
  tidy_items (cons v vs) = tidy v && tidy_items vs

  pub tidy_fields : {N : Type 0} → Fields N → Bool
  tidy_fields end = true
  tidy_fields (field k v fs) = tidy v && tidy_fields fs

-- A result is there, and `P` holds of it.
unfoldable pub Gives : {A : Type 0} → (A → Type 0) → Outcome A → Type 0
Gives P (ok a) = P a
Gives P (raised e) = ⊥

pub Gives->>= :
    {A B : Type 0} (P : A → Type 0) (Q : B → Type 0) (r : Outcome A) (f : A → Outcome B)
    → Gives P r
    → ((a : A) → P a → Gives Q (f a))
    → Gives Q (r >>= f)
unfolding Gives
Gives->>= P Q (ok a) f g h = h a g
Gives->>= P Q (raised e) f g h = elim g [ ]

abbrev pub Any : {A : Type 0} → A → Type 0
Any a = Unit

-- A key of a tidy mapping has a tidy value.
unfoldable pub tidy_or_none : {N : Type 0} → Option (Value N) → Bool
unfolding tidy
tidy_or_none none = true
tidy_or_none (some v) = tidy v

pub get_field-tidy :
    {N : Type 0} (k : Text) (fs : Fields N)
    → tidy_fields fs ≡ true
    → tidy_or_none (get_field k fs) ≡ true
unfolding tidy_or_none tidy get_field
get_field-tidy k end h = refl
get_field-tidy k (field j v fs) h = elim (Bool-cases (text_eq j k)) [
  | inl e ↦ rw e ((&&-true (tidy v) (tidy_fields fs) h).0)
  | inr e ↦ rw e (get_field-tidy k fs ((&&-true (tidy v) (tidy_fields fs) h).1))
]

-- The three keys, and what else a tidy mapping has.
pub record TidyDict {N : Type 0} (fs : Fields N) : Type 0 where
  pub attrs : is_mapping_or_null (get_field (codes "attrs") fs) ≡ true
  pub marks : is_list_or_null (get_field (codes "marks") fs) ≡ true
  pub content : is_list_or_null (get_field (codes "content") fs) ≡ true
  pub inside : (k : Text) → tidy_or_none (get_field k fs) ≡ true

pub tidy_dict : {N : Type 0} (fs : Fields N) → tidy (dict fs) ≡ true → TidyDict fs
unfolding tidy tidy_keys
tidy_dict fs h =
    let (keys, fields) = &&-true (tidy_keys fs) (tidy_fields fs) h in
    let (a, lists) = &&-true (is_mapping_or_null (get_field (codes "attrs") fs)) _ keys in
    let (m, c) = &&-true (is_list_or_null (get_field (codes "marks") fs)) _ lists in
    record { attrs = a; marks = m; content = c; inside = λ k. get_field-tidy k fs fields }

unfoldable pub Tidy : {N : Type 0} → Items N → Type 0
Tidy vs = tidy_items vs ≡ true

pub both :
    {N : Type 0} (v : Value N) (vs : Items N)
    → tidy_items (cons v vs) ≡ true
    → (tidy v ≡ true) × (tidy_items vs ≡ true)
unfolding tidy
both v vs h = &&-true (tidy v) (tidy_items vs) h

module _ {N : Type 0} (py : Python N) where
  pub get_in-Gives :
      (inner : Text) (o : Option (Value N))
      → is_mapping_or_null o ≡ true
      → Gives Any (get_in py inner o)
  unfolding Gives get_in
  get_in-Gives inner none h = tt
  get_in-Gives inner (some null) h = tt
  get_in-Gives inner (some (dict fs)) h = tt
  get_in-Gives inner (some missing) h = cc
  get_in-Gives inner (some (bool b)) h = cc
  get_in-Gives inner (some (num n)) h = cc
  get_in-Gives inner (some (str t)) h = cc
  get_in-Gives inner (some (list vs)) h = cc
  get_in-Gives inner (some (object t)) h = cc

  pub items_or_empty-Gives :
      (o : Option (Value N))
      → is_list_or_null o ≡ true
      → tidy_or_none o ≡ true
      → Gives Tidy (items_or_empty py o)
  unfolding Gives items_or_empty tidy_or_none Tidy tidy
  items_or_empty-Gives none h t = refl
  items_or_empty-Gives (some null) h t = refl
  items_or_empty-Gives (some (list vs)) h t = t
  items_or_empty-Gives (some missing) h t = cc
  items_or_empty-Gives (some (bool b)) h t = cc
  items_or_empty-Gives (some (num n)) h t = cc
  items_or_empty-Gives (some (str s)) h t = cc
  items_or_empty-Gives (some (dict fs)) h t = cc
  items_or_empty-Gives (some (object s)) h t = cc

  pub href_of-Gives :
      (href : Option (Value N)) (marks : Items N)
      → tidy_items marks ≡ true
      → Gives Any (href_of py href marks)
  unfolding Gives href_of
  href_of-Gives href nil h = tt
  href_of-Gives href (cons (dict mark) marks) h =
      let (t, ts) = both (dict mark) marks h in
      elim (Bool-cases (text_eq (type_of mark) (codes "link"))) [
        | inl e ↦ rw e (
            Gives->>= Any Any (get_in py (codes "href") (get_field (codes "attrs") mark)) _
              (get_in-Gives (codes "href") _ (tidy_dict mark t).attrs)
              (λ found _. href_of-Gives found marks ts))
        | inr e ↦ rw e (href_of-Gives href marks ts)
      ]
  href_of-Gives href (cons missing marks) h = href_of-Gives href marks (both _ marks h).1
  href_of-Gives href (cons null marks) h = href_of-Gives href marks (both _ marks h).1
  href_of-Gives href (cons (bool b) marks) h = href_of-Gives href marks (both _ marks h).1
  href_of-Gives href (cons (num n) marks) h = href_of-Gives href marks (both _ marks h).1
  href_of-Gives href (cons (str s) marks) h = href_of-Gives href marks (both _ marks h).1
  href_of-Gives href (cons (list vs) marks) h = href_of-Gives href marks (both _ marks h).1
  href_of-Gives href (cons (object s) marks) h = href_of-Gives href marks (both _ marks h).1
