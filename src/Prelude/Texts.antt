-- ===== src/Prelude/Texts.antt =====
-- Python's `str` as the list of its code points, and the string methods that the code uses.
use Prim.Native.Nat.{ℕ, zero, suc, ◌+◌}
use Prim.Native.Char.{code}
use Prim.Native.String.{String}
use mathlib.Core.Path.{◌≡◌, refl}
use mathlib.Core.Bool.{Bool, true, false, ◌&&◌, ◌||◌}
use mathlib.Core.List.{List, [], ◌∷◌, ◌++◌, reverse}
use native.Mathlib.Omega.{arith}
use ticket_bot.Prelude.Tests.{ltb, leb, ◌==◌, ==_iff, if◌then◌else◌, &&-true}

abbrev pub Text : Type 0
Text = List ℕ

-- The code points of a literal.
abbrev pub codes : String → Text
codes String.[] = []
codes (String.◌∷◌ c s) = code c ∷ codes s

-- `s == t`
unfoldable pub text_eq : Text → Text → Bool
text_eq [] [] = true
text_eq (a ∷ s) (b ∷ t) = a == b && text_eq s t
text_eq _ _ = false

pub text_eq_refl : (s : Text) → text_eq s s ≡ true
unfolding text_eq
text_eq_refl [] = refl
text_eq_refl (a ∷ s) = ground (arith, text_eq_refl s)

pub text_eq_sound : (s t : Text) → text_eq s t ≡ true → s ≡ t
unfolding text_eq
text_eq_sound [] [] h = refl
text_eq_sound [] (b ∷ t) h = ground arith
text_eq_sound (a ∷ s) [] h = ground arith
text_eq_sound (a ∷ s) (b ∷ t) h =
    let both = &&-true (a == b) (text_eq s t) h in
    ground (arith, text_eq_sound s t both.1, (==_iff a b).0 both.0)

-- `if s:` for a text.
abbrev pub non_empty : Text → Bool
non_empty [] = false
non_empty (_ ∷ _) = true

-- `a or b` on texts.
abbrev pub or_else : Text → Text → Text
or_else a b = if non_empty a then a else b

-- `s.startswith(p)`
unfoldable pub starts_with : Text → Text → Bool
starts_with s [] = true
starts_with [] (p ∷ ps) = false
starts_with (c ∷ s) (p ∷ ps) = c == p && starts_with s ps

-- `c.isspace()` on ASCII: space, \t \n \v \f \r and \x1c to \x1f.
abbrev pub is_space : ℕ → Bool
is_space c = c == 32 || (leb 9 c && leb c 13) || (leb 28 c && leb c 31)

-- `s.lstrip()`
unfoldable pub lstrip : Text → Text
lstrip [] = []
lstrip (c ∷ s) = if is_space c then lstrip s else c ∷ s

-- `s.rstrip()`
unfoldable pub rstrip : Text → Text
rstrip s = reverse (lstrip (reverse s))

-- `s.strip()`
unfoldable pub strip : Text → Text
strip s = rstrip (lstrip s)

-- One step of `split`: put a character before the first piece.
abbrev pub cons_first : ℕ → List Text → List Text
cons_first c [] = (c ∷ []) ∷ []
cons_first c (l ∷ ls) = (c ∷ l) ∷ ls

-- `s.split(sep)` for a separator of one character.
unfoldable pub split_on : ℕ → Text → List Text
split_on sep [] = [] ∷ []
split_on sep (c ∷ s) =
    let rest = split_on sep s in if c == sep then [] ∷ rest else cons_first c rest

-- `sep.join(pieces)`
unfoldable pub join : Text → List Text → Text
join sep [] = []
join sep (l ∷ []) = l
join sep (l ∷ m ∷ ls) = l ++ (sep ++ join sep (m ∷ ls))

-- `c.lower()` on ASCII.
abbrev pub lower_code : ℕ → ℕ
lower_code c = if leb 65 c && leb c 90 then c + 32 else c

unfoldable pub lower : Text → Text
lower [] = []
lower (c ∷ s) = lower_code c ∷ lower s

-- `text in items`
unfoldable pub text_in : Text → List Text → Bool
text_in t [] = false
text_in t (x ∷ xs) = text_eq t x || text_in t xs

-- `s[n:]`
unfoldable pub drop : ℕ → Text → Text
drop zero s = s
drop (suc n) [] = []
drop (suc n) (c ∷ s) = drop n s

-- The order of `str`.
unfoldable pub text_before_or_eq : Text → Text → Bool
text_before_or_eq [] t = true
text_before_or_eq (a ∷ s) [] = false
text_before_or_eq (a ∷ s) (b ∷ t) = ltb a b || (a == b && text_before_or_eq s t)

module _ {ℓ} {A : Type ℓ} where
  -- `len(xs)`
  abbrev pub length : List A → ℕ
  length [] = 0
  length (_ ∷ xs) = suc (length xs)

  pub length-append : (xs ys : List A) → length (xs ++ ys) ≡ length xs + length ys
  length-append [] ys = omega arith
  length-append (_ ∷ xs) ys = omega (arith, length-append xs ys)

-- `P` holds of every item.
abbrev pub All {ℓ κ} : {A : Type ℓ} → (A → Type κ) → List A → Type κ
All P [] = Unit
All P (x ∷ xs) = P x × All P xs
