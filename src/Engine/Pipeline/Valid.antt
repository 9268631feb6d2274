-- ===== src/Engine/Pipeline/Valid.antt =====
-- What `PipelineDef.load` promises of a pipeline that it returns.
use ticket_bot.Prelude.{
  ◌≡◌, refl, ap, sym, subst, arith, Bool, true, false, not, ◌&&◌, ◌||◌, Text, text_eq, text_eq_refl,
  text_eq_sound, text_in, ◌⊎◌, List, [], ◌∷◌, if◌then◌else◌, non_empty, inl, inr, Bool-cases,
}
use ticket_bot.Prelude.Outcomes.{Outcome, ok, raised, Exn, predicate_error, >>=_returns}
use ticket_bot.Predicate.Values.{Python, dict, end}
use ticket_bot.Predicate.Rules.{evaluate_any}
use ticket_bot.Engine.Pipeline.{StepDef, PipelineDef}
use ticket_bot.Engine.Pipeline.Load.{
  RawStep, RawItem, mapping_item, other_item, RawSteps, no_steps, not_a_list, step_list,
  RawPipeline, absent_or_in, all_known, valid_gates, valid_for_each, text_or, refuse_unless,
  checked_when, make_step, step_from_mapping, step_from_dict, load_steps, load_raw_steps, load,
}

unfoldable pub is_returned : Outcome Bool → Bool
is_returned (ok b) = true
is_returned (raised e) = false

module _ {N : Type 0} where
  -- No step of the list has this id.
  unfoldable pub is_fresh : Text → List (StepDef N) → Bool
  is_fresh id [] = true
  is_fresh id (s ∷ steps) = not (text_eq s.id id) && is_fresh id steps

  -- The ids of the steps are distinct.
  unfoldable pub distinct : List (StepDef N) → Bool
  unfolding is_fresh
  distinct [] = true
  distinct (s ∷ steps) = is_fresh s.id steps && distinct steps

  -- What the loader checks of one step.
  unfoldable pub step_valid : Python N → StepDef N → Bool
  unfolding absent_or_in is_returned
  step_valid py s =
      non_empty s.id
      && (non_empty s.role
          && (absent_or_in s.for_each valid_for_each
              && (is_returned (evaluate_any py s.condition (dict end))
                  && absent_or_in s.gate valid_gates)))

  unfoldable pub all_valid : Python N → List (StepDef N) → Bool
  unfolding step_valid
  all_valid py [] = true
  all_valid py (s ∷ steps) = step_valid py s && all_valid py steps

-- `load` returned behind a check, so the check held.
refuse_unless-eq-ok :
    {A : Type 0} (b : Bool) (message : Text) (rest : Outcome A) {a : A}
    → refuse_unless b message rest ≡ ok a
    → (b ≡ true) × (rest ≡ ok a)
refuse_unless-eq-ok true message rest h = (refl, h)
refuse_unless-eq-ok false message rest h = cc

unless_raised :
    {A : Type 0} (b : Bool) (e : Exn) {m : Outcome A} {a : A}
    → (if b then raised e else m) ≡ ok a
    → (b ≡ false) × (m ≡ ok a)
unless_raised true e h = cc
unless_raised false e h = (refl, h)

checked_when-ok : (r : Outcome Bool) {b : Bool} → checked_when r ≡ ok b → is_returned r ≡ true
unfolding checked_when is_returned
checked_when-ok (ok b) h = refl
checked_when-ok (raised (predicate_error m)) h = cc
checked_when-ok (raised e) h = cc

&&-intro : {a b : Bool} → a ≡ true → b ≡ true → (a && b) ≡ true
&&-intro {a} {b} h k = ground arith

module _ {N : Type 0} (py : Python N) where
  step_from_mapping-Valid :
      (raw : RawStep N) (seen : List Text) (s : StepDef N)
      → step_from_mapping py raw seen ≡ ok s
      → (step_valid py s ≡ true) × (text_in s.id seen ≡ false)
  unfolding step_from_mapping step_valid
  step_from_mapping-Valid raw seen s h =
      let (_, h1) = refuse_unless-eq-ok (all_known raw.keys) _ _ h in
      let (has_id, h2) = refuse_unless-eq-ok (non_empty (text_or raw.id [])) _ _ h1 in
      let (is_new, h3) = unless_raised (text_in (text_or raw.id []) seen) _ h2 in
      let (has_role, h4) = refuse_unless-eq-ok (non_empty (text_or raw.role [])) _ _ h3 in
      let (known, h5) = refuse_unless-eq-ok (absent_or_in raw.for_each valid_for_each) _ _ h4 in
      let (b, evaluated, h6) =
        >>=_returns (checked_when (evaluate_any py raw.condition (dict end))) _ h5 in
      let (gate, h7) = refuse_unless-eq-ok (absent_or_in raw.gate valid_gates) _ _ h6 in
      let made = out {a = make_step py raw} h7 in
      (
        subst (λ s. step_valid py s ≡ true) made
            (&&-intro has_id
              (&&-intro has_role (&&-intro known (&&-intro (checked_when-ok _ evaluated) gate)))),
        subst (λ s. text_in s.id seen ≡ false) made is_new,
      )
    where
      out : {a b : StepDef N} → Outcome.ok a ≡ ok b → a ≡ b
      out h = cc

  step_from_dict-Valid :
      (item : RawItem N) (seen : List Text) (s : StepDef N)
      → step_from_dict py item seen ≡ ok s
      → (step_valid py s ≡ true) × (text_in s.id seen ≡ false)
  unfolding step_from_dict
  step_from_dict-Valid (mapping_item raw) seen s h = step_from_mapping-Valid raw seen s h
  step_from_dict-Valid other_item seen s h = cc

  -- A step that is not among the ids seen has another id than each of these.
  apart_from_seen :
      (id j : Text) (seen : List Text)
      → text_in id seen ≡ false
      → text_in j seen ≡ true
      → not (text_eq id j) ≡ true
  apart_from_seen id j seen out in_seen = split (Bool-cases (text_eq id j))
    where
      clash : {b : Bool} {A : Type 0} → b ≡ true → b ≡ false → A
      clash h k = cc

      split : (text_eq id j ≡ true) ⊎ (text_eq id j ≡ false) → not (text_eq id j) ≡ true
      split (inr h) = ap not h
      split (inl h) =
          clash (subst (λ i. text_in i seen ≡ true) (sym (text_eq_sound id j h)) in_seen) out

  abbrev Sound : List Text → List (StepDef N) → Type 0
  Sound seen steps =
      (all_valid py steps ≡ true)
      × (distinct steps ≡ true)
      × ((j : Text) → text_in j seen ≡ true → is_fresh j steps ≡ true)

  Sound-nil : (seen : List Text) → Sound seen []
  unfolding all_valid distinct is_fresh
  Sound-nil seen = (refl, refl, λ j h. refl)

  Sound-cons :
      (s : StepDef N) (steps : List (StepDef N)) (seen : List Text)
      → step_valid py s ≡ true
      → text_in s.id seen ≡ false
      → Sound (s.id ∷ seen) steps
      → Sound seen (s ∷ steps)
  unfolding all_valid distinct is_fresh text_in
  Sound-cons s steps seen valid out (valids, ids, fresh) = (
    &&-intro valid valids,
    &&-intro (fresh s.id (ap (λ b. b || text_in s.id seen) (text_eq_refl s.id))) ids,
    λ j h. &&-intro (apart_from_seen s.id j seen out h) (fresh j (or_right (text_eq j s.id) h)),
  )
    where
      or_right : (a : Bool) {b : Bool} → b ≡ true → (a || b) ≡ true
      or_right a h = ground arith

  load_steps-Valid :
      (raws : List (RawItem N)) (seen : List Text) (steps : List (StepDef N))
      → load_steps py raws seen ≡ ok steps
      → Sound seen steps
  unfolding load_steps
  load_steps-Valid [] seen steps h = subst (Sound seen) (out h) (Sound-nil seen)
    where
      out : {a b : List (StepDef N)} → Outcome.ok a ≡ ok b → a ≡ b
      out h = cc
  load_steps-Valid (raw ∷ raws) seen steps h =
      let (s, made, h1) = >>=_returns (step_from_dict py raw seen) _ h in
      let (rest, loaded, h2) = >>=_returns (load_steps py raws (s.id ∷ seen)) _ h1 in
      let checked = step_from_dict-Valid raw seen s made in
      subst (Sound seen) (out h2) (
        Sound-cons s rest seen checked.0 checked.1
          (load_steps-Valid raws (s.id ∷ seen) rest loaded))
    where
      out : {a b : List (StepDef N)} → Outcome.ok a ≡ ok b → a ≡ b
      out h = cc

  load_raw_steps-Valid :
      (raw : RawSteps N) (steps : List (StepDef N))
      → load_raw_steps py raw ≡ ok steps
      → (all_valid py steps ≡ true) × (distinct steps ≡ true)
  unfolding load_raw_steps
  load_raw_steps-Valid no_steps steps h = cc
  load_raw_steps-Valid not_a_list steps h = cc
  load_raw_steps-Valid (step_list raw raws) steps h =
      let sound = load_steps-Valid (raw ∷ raws) [] steps h in (sound.0, sound.1)

-- A pipeline that loads has steps with distinct ids; each has an id and a role, a `for_each` and a
-- `gate` that are absent or known, and a `when:` that the evaluator accepts on an empty context.
pub load-Valid :
    {N : Type 0} (py : Python N) (ref stem : Text) (raw : RawPipeline N) (pipeline : PipelineDef N)
    → load py ref stem raw ≡ ok pipeline
    → (all_valid py pipeline.steps ≡ true) × (distinct pipeline.steps ≡ true)
unfolding load
load-Valid {N} py ref stem raw pipeline h =
    let (steps, loaded, h1) = >>=_returns (load_raw_steps py raw.steps) _ h in
    subst (λ p. (all_valid py p.steps ≡ true) × (distinct p.steps ≡ true)) (out h1)
      (load_raw_steps-Valid py raw.steps steps loaded)
  where
    out : {a b : PipelineDef N} → Outcome.ok a ≡ ok b → a ≡ b
    out h = cc
