-- ===== src/Executors/Tools/Names.antt =====
-- The names of the tools, dotted in the configuration and with `_` on the wire.
use ticket_bot.Prelude.{
  ℕ, ◌≡◌, refl, ap, sym, ◌∙◌, arith, ◌==◌, Bool, true, false, ◌||◌, some, Text, codes, text_eq,
  text_eq_sound, text_eq_refl, text_in, All, Bool-cases, Option-cases, inl, inr, if◌then◌else◌,
  List, [], ◌∷◌, Dict, lookup, is_some,
}

pub data Tool : Type 0 where
  fs_read fs_list fs_write fs_edit shell_run runtime_screenshot source_read : Tool

-- `CATALOGUE`; the descriptions and schemas are left out.
abbrev pub catalogue : Dict Tool
catalogue =
    (codes "fs.read", fs_read)
    ∷ (codes "fs.list", fs_list)
    ∷ (codes "fs.write", fs_write)
    ∷ (codes "fs.edit", fs_edit)
    ∷ (codes "shell.run", shell_run)
    ∷ (codes "runtime.screenshot", runtime_screenshot)
    ∷ (codes "source.read", source_read)
    ∷ []

-- `_SINK_ONLY_NAMES`
abbrev pub sink_only_names : List Text
sink_only_names = codes "sink.comment" ∷ codes "sink.unassign" ∷ []

-- `s.replace(a, b)` of one character.
unfoldable pub swap_code : ℕ → ℕ → Text → Text
swap_code a b [] = []
swap_code a b (c ∷ s) = (if c == a then b else c) ∷ swap_code a b s

-- `wire_name`
unfoldable pub wire_name : Text → Text
unfolding swap_code
wire_name s = swap_code b'.' b'_' s

-- `from_wire`
unfoldable pub from_wire : Text → Text
unfolding swap_code
from_wire s = swap_code b'_' b'.' s

-- The definitions that `build_tools` returns, by their names on the wire.
unfoldable pub build_tools : List Text → List Text
unfolding wire_name lookup text_in
build_tools [] = []
build_tools (name ∷ names) =
    let rest = build_tools names in
    if text_in name sink_only_names
    then rest
    else if is_some (lookup name catalogue)
    then wire_name name ∷ rest
    else rest

has_underscore : Text → Bool
has_underscore [] = false
has_underscore (c ∷ s) = c == b'_' || has_underscore s

abbrev pub name_of : Tool → Text
name_of fs_read = codes "fs.read"
name_of fs_list = codes "fs.list"
name_of fs_write = codes "fs.write"
name_of fs_edit = codes "fs.edit"
name_of shell_run = codes "shell.run"
name_of runtime_screenshot = codes "runtime.screenshot"
name_of source_read = codes "source.read"

-- What holds of every entry of a dictionary holds of what is found.
found_all :
    (R : Text → Tool → Type 0) (n : Text) (t : Tool) (m : Dict Tool)
    → All (λ e. R e.0 e.1) m
    → lookup n m ≡ some t
    → R n t
unfolding lookup
found_all R n t [] all h = cc
found_all R n t ((k, u) ∷ m) all h = elim (Bool-cases (text_eq k n)) [
  | inl e ↦ rw (sym (text_eq_sound k n e), sym (found (rw e at h))) all.0
  | inr e ↦ found_all R n t m all.1 (rw e at h)
]
  where
    found : {a b : Tool} → some a ≡ some b → a ≡ b
    found h = cc

-- A tool stands in the catalogue under its own name.
pub lookup-name_of : (n : Text) (t : Tool) → lookup n catalogue ≡ some t → n ≡ name_of t
lookup-name_of n t =
    found_all (λ k u. k ≡ name_of u) n t catalogue
      (refl, (refl, (refl, (refl, (refl, (refl, (refl, tt)))))))

-- The names of the catalogue are the same after a way to the wire and back.
pub from_wire-wire_name :
    (n : Text) → is_some (lookup n catalogue) ≡ true → from_wire (wire_name n) ≡ n
unfolding from_wire wire_name swap_code
from_wire-wire_name n h = elim (Option-cases (lookup n catalogue)) [
  | inl e ↦ cc (rw e at h)
  | inr (t, e) ↦
      found_all (λ k u. from_wire (wire_name k) ≡ k) n t catalogue
        (refl, (refl, (refl, (refl, (refl, (refl, (refl, tt))))))) e
]

-- Every tool that is offered to the model stands for a name that the step was given and that the
-- catalogue has, so that a call of it is neither refused nor unknown.
pub build_tools-callable :
    (names : List Text) (d : Text)
    → text_in d (build_tools names) ≡ true
    → (text_in (from_wire d) names ≡ true) × (is_some (lookup (from_wire d) catalogue) ≡ true)
unfolding build_tools text_in
build_tools-callable [] d h = cc
build_tools-callable (n ∷ names) d h = elim (Bool-cases (text_in n sink_only_names)) [
  | inl sink ↦ later n (build_tools-callable names d (rw sink at h))
  | inr other ↦ elim (Bool-cases (is_some (lookup n catalogue))) [
    | inr absent ↦ later n (build_tools-callable names d (rw (other, absent) at h))
    | inl known ↦ elim (Bool-cases (text_eq d (wire_name n))) [
      | inr further ↦ later n (build_tools-callable names d (rw (other, known, further) at h))
      | inl here ↦
          let back =
            ap from_wire (text_eq_sound d (wire_name n) here) ∙ from_wire-wire_name n known in
          rw back (rw (text_eq_refl n) refl, known)
    ]
  ]
]
  where
    later :
        (n : Text)
        → (text_in (from_wire d) names ≡ true) × (is_some (lookup (from_wire d) catalogue) ≡ true)
        → (text_in (from_wire d) (n ∷ names) ≡ true)
          × (is_some (lookup (from_wire d) catalogue) ≡ true)
    later n (a, b) = (ground (arith, a), b)
