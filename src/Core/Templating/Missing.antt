-- ===== src/Core/Templating/Missing.antt =====
-- Which names `missing_placeholders` lists.
use ticket_bot.Prelude.{
  ◌≡◌, refl, ap, arith, Bool, false, not, ◌&&◌, ◌||◌, Text, text_eq, text_eq_sound, text_in, List,
  [], ◌∷◌, is_some, Bool-cases, inl, inr,
}
use ticket_bot.Predicate.Values.{Value, Python}
use ticket_bot.Core.Templating.{
  Piece, plain, open_brace, close_brace, hole, pieces, lookup_raw, missing_from,
  missing_placeholders,
}

-- The template has a placeholder of this name.
unfoldable pub has_hole : Text → List Piece → Bool
has_hole name [] = false
has_hole name (hole dotted ∷ ps) = text_eq name dotted || has_hole name ps
has_hole name (_ ∷ ps) = has_hole name ps

module _ {N : Type 0} (py : Python N) (values : Value N) (name : Text) where
  abbrev absent : Text → Bool
  absent dotted = not (is_some (lookup_raw py values dotted))

  text_in-missing_from :
      (seen : List Text) (ps : List Piece)
      → text_in name (missing_from py values seen ps)
        ≡ (has_hole name ps && (absent name && not (text_in name seen)))
  unfolding missing_from has_hole text_in
  text_in-missing_from seen [] = refl
  text_in-missing_from seen (hole dotted ∷ ps) = elim (Bool-cases (text_eq name dotted)) [
    | inl same ↦ ground (
      arith,
      same,
      ap (λ d. text_in d seen) (text_eq_sound name dotted same),
      ap (λ d. is_some (lookup_raw py values d)) (text_eq_sound name dotted same),
      text_in-missing_from seen ps,
      text_in-missing_from (dotted ∷ seen) ps,
    )
    | inr other ↦
        ground (arith, other, text_in-missing_from seen ps, text_in-missing_from (dotted ∷ seen) ps)
  ]
  text_in-missing_from seen (plain c ∷ ps) = text_in-missing_from seen ps
  text_in-missing_from seen (open_brace ∷ ps) = text_in-missing_from seen ps
  text_in-missing_from seen (close_brace ∷ ps) = text_in-missing_from seen ps

-- A name is listed exactly when the template has a placeholder of that name for which the values have
-- nothing.
pub text_in-missing_placeholders :
    {N : Type 0} (py : Python N) (template : Text) (values : Value N) (name : Text)
    → text_in name (missing_placeholders py template values)
      ≡ (has_hole name (pieces template) && not (is_some (lookup_raw py values name)))
unfolding missing_placeholders text_in
text_in-missing_placeholders py template values name =
    ground (arith, text_in-missing_from py values name [] (pieces template))
