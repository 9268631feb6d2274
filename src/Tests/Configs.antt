-- ===== src/Tests/Configs.antt =====
-- The theorems on the configuration at concrete inputs.
use ticket_bot.Prelude.{
  ◌↔◌, ℕ, suc, ◌≡◌, refl, true, false, Text, codes, text_eq, text_in, Bool-cases, inl, inr,
  if◌then◌else◌, List, [], ◌∷◌, length, Dict,
}
use ticket_bot.Prelude.Outcomes.{IsSettled, Outcome, ok, raised, config_error}
use ticket_bot.Predicate.Values.{Value, Fields, str, end, field, get_field}
use ticket_bot.Config.Merge.{deep_merge}
use ticket_bot.Config.Merge.Lookup.{distinct_fields, merged, get_field-deep_merge}
use ticket_bot.Config.Extends.{Files, load_profile_dict}
use ticket_bot.Config.Extends.Ends.{FinitelyMany, Loads, load_profile_dict-IsSettled}
use ticket_bot.Config.EnvRef.{refs_from, expand_env}
use ticket_bot.Config.EnvRef.Expands.{all_usable, filled, missing, expand_env-if}
use ticket_bot.Tests.Samples.{py}

abbrev base : Fields ℕ
base = field (codes "name") (str (codes "base")) (field (codes "repo") (str (codes "r")) end)

abbrev override : Fields ℕ
override = field (codes "name") (str (codes "mine")) end

get_field-deep_merge_example :
    get_field (codes "name") (deep_merge base override)
    ≡ merged (get_field (codes "name") base) (get_field (codes "name") override)
unfolding distinct_fields get_field
get_field-deep_merge_example = get_field-deep_merge base override (codes "name") distinct
  where
    distinct : distinct_fields override ≡ true
    distinct = refl

abbrev environment : Dict Text
environment = (codes "TOKEN", codes "t0p") ∷ []

expand_env-if_example : expand_env environment (codes "a ${TOKEN} b") ≡ (
    if all_usable environment (refs_from 0 (codes "a ${TOKEN} b"))
    then ok (filled environment (refs_from 0 (codes "a ${TOKEN} b")))
    else raised missing)
expand_env-if_example = expand_env-if environment (codes "a ${TOKEN} b")

-- Two files that extend each other.
abbrev extends : Text → Outcome (Fields ℕ)
extends parent = ok (field (codes "extends") (str parent) end)

abbrev load_yaml : Text → Outcome (Fields ℕ)
load_yaml path =
    if text_eq path (codes "a")
    then extends (codes "b")
    else if text_eq path (codes "b")
    then extends (codes "a")
    else raised (config_error (codes "no such file"))

abbrev resolve_ref : Value ℕ → Text → Outcome Text
resolve_ref (str s) path = ok s
resolve_ref _ path = raised (config_error (codes "not a reference"))

abbrev files : Files ℕ
files = record { load_yaml = load_yaml; resolve_ref = resolve_ref }

abbrev known : List Text
known = codes "a" ∷ codes "b" ∷ []

two_known : FinitelyMany files known
unfolding text_in
two_known = record { outside = outside; reads = reads; resolves = resolves }
  where
    outside :
        (path : Text)
        → text_in path known ≡ false
        → (m : Text) × (load_yaml path ≡ raised (config_error m))
    outside path h = elim (Bool-cases (text_eq path (codes "a"))) [
      | inl e ↦ cc (rw e at h)
      | inr e ↦ elim (Bool-cases (text_eq path (codes "b"))) [
        | inl e' ↦ cc (rw (e, e') at h)
        | inr e' ↦ (codes "no such file", rw (e, e') refl)
      ]
    ]

    reads : (path : Text) → IsSettled (load_yaml path)
    reads path = elim (Bool-cases (text_eq path (codes "a"))) [
      | inl e ↦ rw e (λ same. cc)
      | inr e ↦ elim (Bool-cases (text_eq path (codes "b"))) [
        | inl e' ↦ rw (e, e') (λ same. cc)
        | inr e' ↦ rw (e, e') (λ same. cc)
      ]
    ]

    resolves : (ref : Value ℕ) (path : Text) → IsSettled (resolve_ref ref path)
    resolves (str s) path = λ same. cc
    resolves Value.missing path = λ same. cc
    resolves Value.null path = λ same. cc
    resolves (Value.bool b) path = λ same. cc
    resolves (Value.num n) path = λ same. cc
    resolves (Value.list vs) path = λ same. cc
    resolves (Value.dict fs) path = λ same. cc
    resolves (Value.object t) path = λ same. cc

load_profile_dict-IsSettled_example :
    IsSettled (load_profile_dict py files (suc (length known)) (codes "a") [])
    × ((m : Fields ℕ)
        → (load_profile_dict py files (suc (length known)) (codes "a") [] ≡ ok m)
          ↔ Loads py files [] (codes "a") m)
load_profile_dict-IsSettled_example =
    load_profile_dict-IsSettled py files known (codes "a") two_known
