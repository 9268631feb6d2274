-- ===== src/Prelude/Outcomes.antt =====
-- Python's exceptions as values.
use Prim.Native.Nat.{ℕ}
use mathlib.Core.Option.{Option}
use mathlib.Core.Path.{◌≡◌, refl, subst}
use mathlib.Core.Logic.{◌≢◌}
use mathlib.Core.Bool.{Bool, true, false}
use ticket_bot.Prelude.Tests.{if◌then◌else◌}
use ticket_bot.Prelude.Texts.{Text}

-- One constructor for each exception that the modelled code raises or catches. `adapter_error` is
-- one that an adapter raises; `out_of_fuel` has no counterpart in the program.
pub data Exn : Type 0 where
  predicate_error value_error : Text → Exn
  config_error adapter_error dotenv_error missing_env_error tool_error provider_error : Text → Exn
  cost_cap : Text → ℕ → ℕ → Exn
  wall_clock_cap : Text → ℕ → Option ℕ → Exn
  no_wall_clock_left : ℕ → Option ℕ → Exn
  lock_held : Text → Exn
  file_not_found interrupted overflow_error out_of_fuel : Exn
  yaml_error : Text → Exn

pub data Outcome {ℓ} (A : Type ℓ) : Type ℓ where
  ok : A → Outcome A
  raised : Exn → Outcome A

infixl 5 ◌>>=◌ ◌>>◌
-- The rest runs where the first part returns; an exception passes by it.
abbrev pub ◌>>=◌ {κ ℓ} : {B : Type κ} {A : Type ℓ} → Outcome A → (A → Outcome B) → Outcome B
raised exn >>= rest = raised exn
ok value >>= rest = rest value

-- A result of two parts in a row is that of the second on the value of the first.
pub >>=_returns {κ ℓ} :
    {B : Type κ} {A : Type ℓ} (first : Outcome A) (rest : A → Outcome B) {last : B}
    → (first >>= rest) ≡ ok last
    → (mid : A) × (first ≡ ok mid) × (rest mid ≡ ok last)
>>=_returns (raised exn) rest h = cc
>>=_returns (ok value) rest h = (value, refl, h)

abbrev pub ◌>>◌ {κ ℓ} : {B : Type κ} {A : Type ℓ} → Outcome A → Outcome B → Outcome B
first >> rest = first >>= λ _. rest

-- A result satisfies `P` where there is one.
unfoldable pub Ensures {κ ℓ} : {A : Type ℓ} → (A → Type κ) → Outcome A → Type κ
Ensures P (ok a) = P a
Ensures P (raised e) = Unit

module _ {κ ℓ} {A : Type ℓ} (P : A → Type κ) where
  pub Ensures-raised : (e : Exn) → Ensures P (raised e)
  unfolding Ensures
  Ensures-raised e = tt

  pub Ensures-if :
      (b : Bool) (r s : Outcome A)
      → (b ≡ true → Ensures P r)
      → (b ≡ false → Ensures P s)
      → Ensures P (if b then r else s)
  Ensures-if true r s on_true on_false = on_true refl
  Ensures-if false r s on_true on_false = on_false refl

  pub Ensures->>= {β} :
      {B : Type β} (first : Outcome B) (rest : B → Outcome A)
      → ((b : B) → first ≡ ok b → Ensures P (rest b))
      → Ensures P (first >>= rest)
  unfolding Ensures
  Ensures->>= (ok b) rest h = h b refl
  Ensures->>= (raised e) rest h = tt

  pub Ensures-at : (r : Outcome A) (a : A) → Ensures P r → r ≡ ok a → P a
  unfolding Ensures
  Ensures-at (ok b) a p e = subst P (value_of e) p
    where
      value_of : {b a : A} → ok b ≡ ok a → b ≡ a
      value_of e = cc
  Ensures-at (raised exn) a p e = cc

-- The call ends, by a result or by an error of the program.
abbrev pub IsSettled : {A : Type 0} → Outcome A → Type 0
IsSettled r = r ≢ raised out_of_fuel

-- What holds of a result may be weakened.
pub Ensures-map {κ μ ℓ} :
    {A : Type ℓ} (P : A → Type κ) (Q : A → Type μ) (r : Outcome A)
    → Ensures P r
    → ((a : A) → P a → Q a)
    → Ensures Q r
unfolding Ensures
Ensures-map P Q (ok a) h weaken = weaken a h
Ensures-map P Q (raised e) h weaken = tt
