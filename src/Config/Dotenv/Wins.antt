-- ===== src/Config/Dotenv/Wins.antt =====
-- What loading a credential file does to the environment.
use ticket_bot.Prelude.{
  ◌≡◌, refl, ap, sym, subst, ◌∙◌, arith, Bool, true, false, not, ◌&&◌, Option, none, some, Text,
  text_eq, text_eq_refl, text_eq_sound, if◌then◌else◌, is_some, &&-true, Bool-cases, inl, inr, List,
  [], ◌∷◌, Dict, lookup, insert, lookup-insert,
}
use ticket_bot.Prelude.Outcomes.{Outcome, ok, ◌>>=◌, >>=_returns}
use ticket_bot.Config.Dotenv.{
  Loaded, is_set, set_name, apply_values, load_dotenv, parse_dotenv, keep, parse_lines, parse_line,
}

-- The keys of an association list are distinct.
unfoldable pub distinct_keys : Dict Text → Bool
distinct_keys [] = true
distinct_keys ((k, v) ∷ m) = not (is_some (lookup k m)) && distinct_keys m

distinct_keys-insert :
    (k v : Text) (m : Dict Text) → distinct_keys m ≡ true → distinct_keys (insert k v m) ≡ true
unfolding distinct_keys insert lookup
distinct_keys-insert k v [] h = refl
distinct_keys-insert k v ((j, w) ∷ m) h =
    ground
      (arith, distinct_keys-insert k v m, lookup-insert k j v m, text_eq_sound k j, text_eq_refl j)

distinct_keys-keep :
    (entry : Option (Text × Text)) (m : Dict Text)
    → distinct_keys m ≡ true
    → distinct_keys (keep entry m) ≡ true
distinct_keys-keep none m h = h
distinct_keys-keep (some (k, v)) m h = distinct_keys-insert k v m h

distinct_keys-parse_lines :
    (ls : List Text) (m r : Dict Text)
    → distinct_keys m ≡ true
    → parse_lines ls m ≡ ok r
    → distinct_keys r ≡ true
unfolding parse_lines
distinct_keys-parse_lines [] m r h e = subst (λ d. distinct_keys d ≡ true) (same e) h
  where
    same : {a b : Dict Text} → Outcome.ok a ≡ ok b → a ≡ b
    same h = cc
distinct_keys-parse_lines (l ∷ ls) m r h e =
    let (entry, _, rest) = >>=_returns (parse_line l) _ e in
    distinct_keys-parse_lines ls (keep entry m) r (distinct_keys-keep entry m h) rest

-- The value that a name has after the load: its own where it is set, then that of the file.
abbrev pub first_of : Option Text → Option Text → Option Text
first_of old none = old
first_of old (some value) = if is_set old then old else some value

abbrev next : Text → Text → Loaded → Loaded
next k v l = if is_set (lookup k l.target) then l else set_name k v l

lookup-next :
    (k v name : Text) (l : Loaded)
    → lookup name (next k v l).target ≡ (
        if is_set (lookup k l.target)
        then lookup name l.target
        else if text_eq k name
        then some v
        else lookup name l.target)
lookup-next k v name l = elim (Bool-cases (is_set (lookup k l.target))) [
  | inl e ↦ rw e refl
  | inr e ↦ rw e (lookup-insert k name v l.target)
]

not_some : {V : Type 0} (o : Option V) → is_some o ≡ false → o ≡ none
not_some none h = refl
not_some (some v) h = cc

out : {A : Type 0} {a b : A} → Outcome.ok a ≡ ok b → a ≡ b
out h = cc

-- One name of the file: where it is the name that is asked for, no later entry has it.
first_of-next :
    (k v name : Text) (l : Loaded) (later : Option Text)
    → (text_eq k name ≡ true → later ≡ none)
    → first_of (lookup name (next k v l).target) later
      ≡ first_of (lookup name l.target) (if text_eq k name then some v else later)
first_of-next k v name l later alone = elim (Bool-cases (text_eq k name)) [
  | inl e ↦
      let same = ap (λ n. is_set (lookup n l.target)) (text_eq_sound k name e) in
      rw (e, alone e, lookup-next k v name l, e, same) (if_same (is_set (lookup name l.target)))
  | inr e ↦ rw (e, lookup-next k v name l, e) (if_equal (is_set (lookup k l.target)))
]
  where
    if_same :
        (b : Bool)
        → (if b then lookup name l.target else some v)
          ≡ (if b then lookup name l.target else some v)
    if_same b = refl

    if_equal :
        (b : Bool)
        → first_of (if b then lookup name l.target else lookup name l.target) later
          ≡ first_of (lookup name l.target) later
    if_equal true = refl
    if_equal false = refl

lookup-apply_values :
    (values : Dict Text) (l : Loaded) (name : Text)
    → distinct_keys values ≡ true
    → lookup name (apply_values false values l).target
      ≡ first_of (lookup name l.target) (lookup name values)
unfolding apply_values lookup distinct_keys
lookup-apply_values [] l name h = refl
lookup-apply_values ((k, v) ∷ rest) l name h =
    let (fresh, distinct) = &&-true (not (is_some (lookup k rest))) _ h in
    lookup-apply_values rest (next k v l) name distinct
    ∙ first_of-next k v name l (lookup name rest) λ e.
      not_some _ (ap (λ n. is_some (lookup n rest)) (sym (text_eq_sound k name e)) ∙ un_not fresh)
  where
    un_not : {b : Bool} → not b ≡ true → b ≡ false
    un_not {b} h = ground arith

-- After a load that does not override, a name that was set to a text that is not empty has its old
-- value; another one has the value of the file, where the file names it, and its old one elsewhere.
pub lookup-load_dotenv :
    (text : Text) (env values : Dict Text) (loaded : Loaded) (name : Text)
    → parse_dotenv text ≡ ok values
    → load_dotenv false (some text) env ≡ ok loaded
    → lookup name loaded.target ≡ first_of (lookup name env) (lookup name values)
unfolding load_dotenv parse_dotenv distinct_keys
lookup-load_dotenv text env values loaded name parsed h =
    let start : Loaded = record { target = env; applied = []; secrets = [] } in
    let distinct = distinct_keys-parse_lines _ [] values refl parsed in
    ap (λ l. lookup name l.target) (sym (applied h))
    ∙ lookup-apply_values values start name distinct
  where
    applied :
        load_dotenv false (some text) env ≡ ok loaded
        → apply_values false values (record { target = env; applied = []; secrets = [] }) ≡ loaded
    applied h = out (
        sym (
          ap
            (λ r. r >>= λ vs.
              ok (apply_values false vs (record { target = env; applied = []; secrets = [] })))
            parsed)
        ∙ h)
