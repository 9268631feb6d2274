-- ===== src/Config/Merge/Lookup.antt =====
-- What a key of a merged mapping holds.
use ticket_bot.Prelude.{
  ◌≡◌, refl, ap, sym, ◌∙◌, arith, Bool, true, false, not, ◌&&◌, &&-true, Option, none, some, Text,
  text_eq, text_eq_refl, text_eq_sound, if◌then◌else◌, is_some, ◌⊎◌, Bool-cases, inl, inr,
}
use ticket_bot.Predicate.Values.{Value, Fields, dict, end, field, get_field}
use ticket_bot.Config.Merge.{set_field, deep_merge, merge_value}

module _ {N : Type 0} where
  -- The keys of a mapping are distinct, as those of a Python `dict` are.
  unfoldable pub distinct_fields : Fields N → Bool
  distinct_fields end = true
  distinct_fields (field k v fs) = not (is_some (get_field k fs)) && distinct_fields fs

  -- What a key of the base and of the override has to hold in the merged mapping.
  abbrev pub merged : Option (Value N) → Option (Value N) → Option (Value N)
  merged base none = base
  merged (some (dict base)) (some (dict override)) = some (dict (deep_merge base override))
  merged base (some v) = some v

  abbrev merged_by : Option (Value N) → Option (Value N) → Option (Value N)
  merged_by base none = base
  merged_by base (some v) = some (merge_value base v)

  merged_by-merged :
      (base override : Option (Value N)) → merged_by base override ≡ merged base override
  unfolding merge_value
  merged_by-merged none none = refl
  merged_by-merged (some b) none = refl
  merged_by-merged (some (dict b)) (some (dict o)) = refl
  merged_by-merged _ (some _) = refl

  get_field-set_field :
      (k j : Text) (v : Value N) (fs : Fields N)
      → get_field j (set_field k v fs) ≡ (if text_eq k j then some v else get_field j fs)
  unfolding get_field set_field
  get_field-set_field k j v end = refl
  get_field-set_field k j v (field i w fs) = ground (
    arith,
    text_eq_sound k j,
    text_eq_sound i k,
    text_eq_sound i j,
    text_eq_refl j,
    text_eq_refl k,
    get_field-set_field k j v fs,
  )

  absent_later :
      (k j : Text) (fs : Fields N)
      → not (is_some (get_field k fs)) ≡ true
      → text_eq k j ≡ true
      → get_field j fs ≡ none
  absent_later k j fs h e =
      from (get_field j fs)
        (ap (λ i. not (is_some (get_field i fs))) (sym (text_eq_sound k j e)) ∙ h)
    where
      from : (o : Option (Value N)) → not (is_some o) ≡ true → o ≡ none
      from none h = refl
      from (some v) h = cc

  get_field-merged_by :
      (base override : Fields N) (key : Text)
      → distinct_fields override ≡ true
      → get_field key (deep_merge base override)
        ≡ merged_by (get_field key base) (get_field key override)
  unfolding deep_merge distinct_fields get_field
  get_field-merged_by base end key h = refl
  get_field-merged_by base (field k v rest) key h =
      let (fresh, distinct) = &&-true (not (is_some (get_field k rest))) _ h in
      let base' = set_field k (merge_value (get_field k base) v) base in
      get_field-merged_by base' rest key distinct ∙ at_key fresh (Bool-cases (text_eq k key))
    where
      at_key :
          not (is_some (get_field k rest)) ≡ true
          → ((text_eq k key ≡ true) ⊎ (text_eq k key ≡ false))
          → merged_by
              (get_field key (set_field k (merge_value (get_field k base) v) base))
              (get_field key rest)
            ≡ merged_by (get_field key base) (if text_eq k key then some v else get_field key rest)
      at_key fresh (inl e) =
          rw
            (
              absent_later k key rest fresh e,
              get_field-set_field k key (merge_value (get_field k base) v) base,
              e,
            )
            (ap (λ i. some (merge_value (get_field i base) v)) (text_eq_sound k key e))
      at_key fresh (inr e) =
          rw (get_field-set_field k key (merge_value (get_field k base) v) base, e) refl

  -- Where the keys of the override are distinct, as those of a `dict` are, a key of the merged mapping
  -- holds what the base has for it where the override names it not; it holds the two mappings merged
  -- where both have a mapping; and it holds the override's value otherwise.
  pub get_field-deep_merge :
      (base override : Fields N) (key : Text)
      → distinct_fields override ≡ true
      → get_field key (deep_merge base override)
        ≡ merged (get_field key base) (get_field key override)
  get_field-deep_merge base override key h =
      get_field-merged_by base override key h
      ∙ merged_by-merged (get_field key base) (get_field key override)
