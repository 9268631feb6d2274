-- ===== src/Config/Extends/Ends.antt =====
-- The chain of `extends:` ends, cycles included.
use ticket_bot.Prelude.{
  ◌↔◌, ℕ, zero, suc, ◌≤◌, ◌<◌, ◌≡◌, refl, ap, sym, arith, Bool, true, false, Option, none, some,
  Text, codes, text_eq, text_eq_refl, text_eq_sound, text_in, if◌then◌else◌, subst, List, [], ◌∷◌,
  length, Bool-cases, inl, inr,
}
use ticket_bot.Prelude.Outcomes.{
  Exn, IsSettled, Outcome, ok, raised, config_error, ◌>>=◌, >>=_returns,
}
use ticket_bot.Predicate.Values.{Value, Fields, Python}
use ticket_bot.Config.Extends.{Files, without_extends, with_parent, parent_ref, load_profile_dict}
use ticket_bot.Config.Merge.{deep_merge}

-- Only the paths of a list have a file that can be read; the readers are those of the program.
pub record FinitelyMany {N : Type 0} (files : Files N) (known : List Text) : Type 0 where
  pub outside :
      (path : Text)
      → text_in path known ≡ false
      → (m : Text) × (files.load_yaml path ≡ raised (config_error m))
  pub reads : (path : Text) → IsSettled (files.load_yaml path)
  pub resolves : (ref : Value N) (path : Text) → IsSettled (files.resolve_ref ref path)

-- The mapping that a profile file has by its chain of `extends:`, in which no path stands twice nor
-- is one of those seen.
pub data Loads {N : Type 0} (py : Python N) (files : Files N)
    : List Text → Text → Fields N → Type 0 where
  root :
      {seen : List Text} {path : Text} {own : Fields N}
      → text_in path seen ≡ false
      → files.load_yaml path ≡ ok own
      → parent_ref py own ≡ none
      → Loads py files seen path (without_extends own)
  child :
      {seen : List Text} {path parent_path : Text} {own parent : Fields N} {ref : Value N}
      → text_in path seen ≡ false
      → files.load_yaml path ≡ ok own
      → parent_ref py own ≡ some ref
      → files.resolve_ref ref path ≡ ok parent_path
      → Loads py files (path ∷ seen) parent_path parent
      → Loads py files seen path (deep_merge parent (without_extends own))

-- How many of the known paths have not been seen.
unseen : List Text → List Text → ℕ
unseen [] seen = 0
unseen (p ∷ known) seen = if text_in p seen then unseen known seen else suc (unseen known seen)

unseen-cons_le :
    (known : List Text) (p : Text) (seen : List Text) → unseen known (p ∷ seen) ≤ unseen known seen
unfolding unseen text_in
unseen-cons_le [] p seen = omega arith
unseen-cons_le (q ∷ known) p seen = ground (arith, unseen-cons_le known p seen)

unseen-cons_lt :
    (known : List Text) (p : Text) (seen : List Text)
    → text_in p seen ≡ false
    → text_in p known ≡ true
    → unseen known (p ∷ seen) < unseen known seen
unfolding unseen text_in
unseen-cons_lt [] p seen h k = ground arith
unseen-cons_lt (q ∷ known) p seen h k = elim (Bool-cases (text_eq p q)) [
  | inl e ↦
      let same = text_eq_sound p q e in
      ground (
        arith,
        unseen-cons_le known p seen,
        ap (λ t. text_in t seen) same,
        ap (λ t. text_eq t p) (sym same),
        text_eq_refl p,
      )
  | inr e ↦ ground (arith, e, unseen-cons_lt known p seen)
]

unseen_le : (known seen : List Text) → unseen known seen ≤ length known
unfolding unseen
unseen_le [] seen = omega arith
unseen_le (p ∷ known) seen = ground (arith, unseen_le known seen)

ok-inj : {A : Type 0} {a b : A} → ok a ≡ ok b → a ≡ b
ok-inj h = cc

not_ok : {A : Type 0} {e : Exn} {a : A} → raised e ≡ ok a → ⊥
not_ok h = cc

>>=-IsSettled :
    {A B : Type 0} (r : Outcome A) (f : A → Outcome B)
    → IsSettled r
    → ((a : A) → r ≡ ok a → IsSettled (f a))
    → IsSettled (r >>= f)
>>=-IsSettled (ok a) f h k = k a refl
>>=-IsSettled (raised e) f h k = λ same. h (cc)

module _ {N : Type 0} (py : Python N) (files : Files N) (known : List Text)
    (finite : FinitelyMany files known) where
  -- A path whose file is read is one of the known ones.
  read_is_known :
      (path : Text) (own : Fields N) → files.load_yaml path ≡ ok own → text_in path known ≡ true
  read_is_known path own h = elim (Bool-cases (text_in path known)) [
    | inl e ↦ e
    | inr e ↦ let (m, fails) = finite.outside path e in cc
  ]

  with_parent-IsSettled :
      (path : Text) (own : Fields N) (again : Text → Outcome (Fields N)) (ref : Option (Value N))
      → ((p : Text) → IsSettled (again p))
      → IsSettled (with_parent py files path own again ref)
  with_parent-IsSettled path own again none h = λ same. cc
  with_parent-IsSettled path own again (some r) h =
      >>=-IsSettled (files.resolve_ref r path) _ (finite.resolves r path)
        λ pp _. >>=-IsSettled (again pp) _ (h pp) λ pd _ same. cc

  settles :
      (fuel : ℕ) (path : Text) (seen : List Text)
      → unseen known seen < fuel
      → IsSettled (load_profile_dict py files fuel path seen)
  unfolding load_profile_dict
  settles zero path seen h = ground arith
  settles (suc fuel) path seen h =
      let again = λ (p : Text) (small : unseen known (path ∷ seen) < fuel).
        settles fuel p (path ∷ seen) small in
      by_cases (text_in path seen) refl again
    where
      by_cases :
          (b : Bool)
          → text_in path seen ≡ b
          → ((p : Text)
              → unseen known (path ∷ seen) < fuel
              → IsSettled (load_profile_dict py files fuel p (path ∷ seen)))
          → IsSettled (
              if b
              then raised (config_error (codes "extends: cycle detected"))
              else (files.load_yaml path >>= λ own.
                  with_parent py files path own
                    (λ pp. load_profile_dict py files fuel pp (path ∷ seen))
                    (parent_ref py own)))
      by_cases true e again = λ same. cc
      by_cases false e again =
          >>=-IsSettled (files.load_yaml path) _ (finite.reads path) λ own loaded.
            let known_path = read_is_known path own loaded in
            let small : unseen known (path ∷ seen) < fuel =
              omega (arith, unseen-cons_lt known path seen e known_path, h) in
            with_parent-IsSettled path own _ (parent_ref py own) λ p. again p small

  complete :
      (fuel : ℕ) {path : Text} {seen : List Text} {m : Fields N}
      → unseen known seen < fuel
      → Loads py files seen path m
      → load_profile_dict py files fuel path seen ≡ ok m
  unfolding load_profile_dict
  complete zero h l = ground arith
  complete (suc fuel) h (root fresh own orphan) = rw (fresh, own, orphan) refl
  complete (suc fuel) h (child {seen} {path} {own = own_data} fresh read named found l) =
      let small : unseen known (path ∷ seen) < fuel =
        omega (arith, unseen-cons_lt known path seen fresh (read_is_known path own_data read), h) in
      rw (fresh, read, named, found, complete fuel small l) refl

module _ {N : Type 0} (py : Python N) (files : Files N) where
  with_parent-Loads :
      (path : Text) (seen : List Text) (own m : Fields N) (again : Text → Outcome (Fields N))
      (ref : Option (Value N))
      → text_in path seen ≡ false
      → files.load_yaml path ≡ ok own
      → parent_ref py own ≡ ref
      → ((p : Text) (parent : Fields N)
          → again p ≡ ok parent
          → Loads py files (path ∷ seen) p parent)
      → with_parent py files path own again ref ≡ ok m
      → Loads py files seen path m
  with_parent-Loads path seen own m again none fresh read orphan l h =
      subst (Loads py files seen path) (ok-inj h) (root fresh read orphan)
  with_parent-Loads path seen own m again (some ref) fresh read named l h =
      let (pp, found, g) = >>=_returns (files.resolve_ref ref path) _ h in
      let (parent, loaded, e) = >>=_returns (again pp) _ g in
      subst (Loads py files seen path) (ok-inj e)
        (child fresh read named found (l pp parent loaded))

  sound :
      (fuel : ℕ) (path : Text) (seen : List Text) (m : Fields N)
      → load_profile_dict py files fuel path seen ≡ ok m
      → Loads py files seen path m
  unfolding load_profile_dict
  sound zero path seen m h = cc
  sound (suc fuel) path seen m h =
      let again = λ (p : Text) (parent : Fields N). sound fuel p (path ∷ seen) parent in
      elim (Bool-cases (text_in path seen)) [
        | inl e ↦ elim (not_ok (rw e at h)) [ ]
        | inr e ↦
            let (own, read, g) = >>=_returns (files.load_yaml path) _ (rw e at h) in
            with_parent-Loads path seen own m _ (parent_ref py own) e read refl again g
      ]

-- Where only finitely many paths have a file, loading a profile ends within as many rounds as there
-- are such paths and one more. It gives a mapping exactly where the chain of `extends:` is read and
-- resolved to its end with no path twice, and then the mappings of the chain merged from its end on;
-- otherwise, on a cycle too, it raises an error of the program.
pub load_profile_dict-IsSettled :
    {N : Type 0} (py : Python N) (files : Files N) (known : List Text) (path : Text)
    → FinitelyMany files known
    → IsSettled (load_profile_dict py files (suc (length known)) path [])
      × ((m : Fields N)
          → (load_profile_dict py files (suc (length known)) path [] ≡ ok m)
            ↔ Loads py files [] path m)
load_profile_dict-IsSettled py files known path finite =
    let enough : unseen known [] < suc (length known) = omega (arith, unseen_le known []) in
    (
      settles py files known finite (suc (length known)) path [] enough,
      λ m. (
        sound py files (suc (length known)) path [] m,
        complete py files known finite (suc (length known)) enough,
      ),
    )
