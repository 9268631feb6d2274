-- ===== src/Prelude/Dicts.antt =====
-- Python's `dict` with text keys: an association list in insertion order.
use mathlib.Core.Path.{◌≡◌, refl}
use mathlib.Core.Bool.{Bool}
use mathlib.Core.Option.{Option, none, some}
use mathlib.Core.List.{List, [], ◌∷◌}
use native.Mathlib.Omega.{arith}
use ticket_bot.Prelude.Tests.{if◌then◌else◌, is_some}
use ticket_bot.Prelude.Texts.{Text, text_eq, text_eq_sound, text_eq_refl}

abbrev pub Dict {ℓ} : Type ℓ → Type ℓ
Dict V = List (Text × V)

module _ {ℓ} {V : Type ℓ} where
  -- `d.get(k)`
  unfoldable pub lookup : Text → Dict V → Option V
  lookup k [] = none
  lookup k ((j, v) ∷ m) = if text_eq j k then some v else lookup k m

  -- `d[k] = v`: an old key keeps its place, a new one goes to the end.
  unfoldable pub insert : Text → V → Dict V → Dict V
  insert k v [] = (k, v) ∷ []
  insert k v ((j, w) ∷ m) = if text_eq j k then (j, v) ∷ m else (j, w) ∷ insert k v m

  pub lookup-insert :
      (k j : Text) (v : V) (m : Dict V)
      → lookup j (insert k v m) ≡ (if text_eq k j then some v else lookup j m)
  unfolding lookup insert
  lookup-insert k j v [] = refl
  lookup-insert k j v ((i, w) ∷ m) = ground (
    arith,
    text_eq_sound k j,
    text_eq_sound i k,
    text_eq_sound i j,
    text_eq_refl j,
    text_eq_refl k,
    lookup-insert k j v m,
  )

  pub lookup-insert_self : (k : Text) (v : V) (m : Dict V) → lookup k (insert k v m) ≡ some v
  lookup-insert_self k v m = simp (lookup-insert, text_eq_refl)

-- `k in d`
unfoldable pub has_key {ℓ} : {V : Type ℓ} → Text → Dict V → Bool
has_key k m = is_some (lookup k m)
