-- ===== src/Adapters/Markdown/Matches.antt =====
-- What a match of the inline markup gives: a text that is not empty, with links into the web; and that the matches with the
-- characters between them are the text.
use ticket_bot.Prelude.{
  ℕ, zero, suc, ◌-◌, ◌≡◌, refl, ap, ◌∙◌, Bool, true, false, ◌&&◌, ◌||◌, &&-true, All, not, ◌==◌,
  Option, none, some, Text, codes, if◌then◌else◌, [], ◌∷◌, ◌++◌, length, non_empty, starts_with,
  drop, Bool-cases, Option-cases, inl, inr, is_space,
}
use ticket_bot.Prelude.Trim.{take}
use ticket_bot.Predicate.Lexer.{span}
use ticket_bot.Adapters.Markdown.Spans.{
  Mark, link, strong, em, code, Inline, Found, closed_run, with_mark, bold_at, star_at,
  unless_star_follows, starts_star, is_star, quoted_at, linked_to, target_at, scheme_length,
  link_at, or_try, match_at, pieces_from, pieces, sources,
}

-- `https?://` at the start of an address.
unfoldable pub is_web : Text → Bool
unfolding starts_with
is_web href = starts_with href (codes "http://") || starts_with href (codes "https://")

-- A link of a mark leads into the web.
unfoldable pub IsWeb : Mark → Type 0
IsWeb (link href) = is_web href ≡ true
IsWeb _ = Unit

-- A text node that is not empty, and whose links lead into the web.
abbrev pub IsFull : Inline → Type 0
IsFull node = (non_empty node.text ≡ true) × All IsWeb node.marks

-- What was found is such a node.
unfoldable RunFull : Option (Text × Text) → Type 0
RunFull none = Unit
RunFull (some (body, rest)) = non_empty body ≡ true

unfoldable pub FoundFull : Found → Type 0
FoundFull none = Unit
FoundFull (some (node, rest)) = IsFull node

closed_run-Full : (inside : ℕ → Bool) (close s : Text) → RunFull (closed_run inside close s)
unfolding RunFull closed_run
closed_run-Full inside close s =
    let run = span inside s in
    elim (Bool-cases (non_empty run.0 && starts_with run.1 close)) [
      | inl e ↦ rw (closed_run, e) ((&&-true (non_empty run.0) _ e).0)
      | inr e ↦ rw (closed_run, e) tt
    ]

with_mark-Full :
    (mark : Mark) (o : Option (Text × Text)) → IsWeb mark → RunFull o → FoundFull (with_mark mark o)
unfolding RunFull FoundFull
with_mark-Full mark none w h = tt
with_mark-Full mark (some (body, rest)) w h = (h, (w, tt))

FoundFull-if : (b : Bool) (f : Found) → FoundFull f → FoundFull (if b then f else none)
unfolding FoundFull
FoundFull-if true f h = h
FoundFull-if false f h = tt

bold_at-Full : (s : Text) → FoundFull (bold_at s)
unfolding bold_at IsWeb
bold_at-Full s =
    FoundFull-if (starts_with s (codes "**")) _
      (with_mark-Full strong _ tt (closed_run-Full (λ c. not (c == b'*')) (codes "**") (drop 2 s)))

unless_star_follows-Full : (f : Found) → FoundFull f → FoundFull (unless_star_follows f)
unfolding FoundFull
unless_star_follows-Full none h = tt
unless_star_follows-Full (some (node, [])) h = h
unless_star_follows-Full (some (node, c ∷ rest)) h = elim (Bool-cases (c == b'*')) [
  | inl e ↦ rw (FoundFull, e) tt
  | inr e ↦ rw (FoundFull, e) h
]

star_at-Full : (before : Option ℕ) (s : Text) → FoundFull (star_at before s)
unfolding star_at IsWeb
star_at-Full before s = FoundFull-if (not (is_star before) && starts_star s) _ (
    unless_star_follows-Full _ (
      with_mark-Full em _ tt
        (closed_run-Full (λ c. not (c == b'*') && not (c == 10)) (codes "*") (drop 1 s))))

quoted_at-Full :
    (quote : ℕ) (mark : Mark) (s : Text) → IsWeb mark → FoundFull (quoted_at quote mark s)
unfolding quoted_at
quoted_at-Full quote mark s w = FoundFull-if (starts_with s (quote ∷ [])) _ (
    with_mark-Full mark _ w
      (closed_run-Full (λ c. not (c == quote) && not (c == 10)) (quote ∷ []) (drop 1 s)))

append-non_empty : (s t : Text) → non_empty t ≡ true → non_empty (s ++ t) ≡ true
append-non_empty [] t h = h
append-non_empty (c ∷ s) t h = refl

linked_to-Full :
    (label scheme : Text) (o : Option (Text × Text))
    → ((body : Text) → is_web (scheme ++ body) ≡ true)
    → RunFull o
    → FoundFull (linked_to label scheme o)
unfolding RunFull FoundFull IsWeb
linked_to-Full label scheme none w h = tt
linked_to-Full [] scheme (some (body, rest)) w h = (append-non_empty scheme body h, (w body, tt))
linked_to-Full (c ∷ label) scheme (some (body, rest)) w h = (refl, (w body, tt))

FoundFull-unless :
    (b : Bool) (f : Found) → (b ≡ false → FoundFull f) → FoundFull (if b then none else f)
unfolding FoundFull
FoundFull-unless true f h = tt
FoundFull-unless false f h = h refl

starts_with-take :
    (s p body : Text) → starts_with s p ≡ true → starts_with (take (length p) s ++ body) p ≡ true
unfolding starts_with take
starts_with-take [] [] body h = refl
starts_with-take (c ∷ s) [] body h = refl
starts_with-take [] (d ∷ p) body h = cc h
starts_with-take (c ∷ s) (d ∷ p) body h =
    let (same, rest) = &&-true (c == d) (starts_with s p) h in
    rw same (starts_with-take s p body rest)

or_right : (a b : Bool) → b ≡ true → (a || b) ≡ true
or_right true b h = refl
or_right false b h = h

scheme-is_web :
    (s body : Text)
    → (scheme_length s == 0) ≡ false
    → is_web (take (scheme_length s) s ++ body) ≡ true
unfolding is_web scheme_length
scheme-is_web s body h = elim (Bool-cases (starts_with s (codes "http://"))) [
  | inl e ↦ rw (scheme_length, e, starts_with-take s (codes "http://") body e) refl
  | inr e ↦ elim (Bool-cases (starts_with s (codes "https://"))) [
    | inl e1 ↦
        rw (scheme_length, e, e1)
          (or_right (starts_with (take 8 s ++ body) (codes "http://")) _
            (starts_with-take s (codes "https://") body e1))
    | inr e1 ↦ cc (rw (scheme_length, e, e1) at h)
  ]
]

target_at-Full : (label s : Text) → FoundFull (target_at label s)
unfolding target_at
target_at-Full label s =
    let n = scheme_length s in
    FoundFull-unless (n == 0) _ (λ some_scheme.
      linked_to-Full label (take n s) _ (λ body. scheme-is_web s body some_scheme)
        (closed_run-Full (λ c. not (c == b')') && not (is_space c)) (codes ")") (drop n s)))

link_at-Full : (s : Text) → FoundFull (link_at s)
unfolding link_at
link_at-Full s =
    let label = span (λ c. not (c == b']')) (drop 1 s) in
    FoundFull-if (starts_with s (codes "[") && starts_with label.1 (codes "](")) _
      (target_at-Full label.0 (drop 2 label.1))

or_try-Full : (f g : Found) → FoundFull f → FoundFull g → FoundFull (or_try f g)
unfolding FoundFull
or_try-Full none g hf hg = hg
or_try-Full (some found) g hf hg = hf

pub match_at-Full : (before : Option ℕ) (s : Text) → FoundFull (match_at before s)
unfolding match_at IsWeb
match_at-Full before s = or_try-Full _ _ (link_at-Full s) (
    or_try-Full _ _ (bold_at-Full s) (
      or_try-Full _ _ (star_at-Full before s)
        (or_try-Full _ _ (quoted_at-Full b'_' em s tt) (quoted_at-Full b'`' code s tt))))

take-drop : (n : ℕ) (s : Text) → take n s ++ drop n s ≡ s
unfolding take drop
take-drop zero [] = refl
take-drop zero (c ∷ s) = refl
take-drop (suc n) [] = refl
take-drop (suc n) (c ∷ s) = ap (λ t. c ∷ t) (take-drop n s)

sources-pieces_from :
    (before : Option ℕ) (skip : ℕ) (s : Text) → sources (pieces_from before skip s) ≡ drop skip s
unfolding sources pieces_from drop
sources-pieces_from before zero [] = refl
sources-pieces_from before (suc skip) [] = refl
sources-pieces_from before (suc skip) (c ∷ s) = sources-pieces_from (some c) skip s
sources-pieces_from before zero (c ∷ s) = elim (Option-cases (match_at before (c ∷ s))) [
  | inl e ↦ rw (pieces_from, e) (ap (λ t. c ∷ t) (sources-pieces_from (some c) zero s))
  | inr ((node, rest), e) ↦
      let n = length s - length rest in
      rw (pieces_from, e)
        (ap (λ t. c ∷ t)
          (ap (λ t. take n s ++ t) (sources-pieces_from (some c) n s) ∙ take-drop n s))
]

-- The matches and the characters between them are the whole text, in order: no part is lost or read
-- twice.
sources-pieces : (s : Text) → sources (pieces s) ≡ s
unfolding pieces drop
sources-pieces s = sources-pieces_from none 0 s
