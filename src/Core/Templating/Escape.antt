-- ===== src/Core/Templating/Escape.antt =====
-- Texts with their braces doubled.
use ticket_bot.Prelude.{◌≡◌, refl, arith, Text, ◌==◌, if◌then◌else◌, [], ◌∷◌}
use ticket_bot.Predicate.Values.{Value, Python}
use ticket_bot.Core.Templating.{
  brace_open, brace_close, piece_at, pieces_from, pieces, render_piece, render_pieces, render,
}

-- A text written so that a template says it literally.
unfoldable pub escape : Text → Text
escape [] = []
escape (c ∷ s) =
    if c == brace_open
    then brace_open ∷ brace_open ∷ escape s
    else if c == brace_close
    then brace_close ∷ brace_close ∷ escape s
    else c ∷ escape s

module _ {N : Type 0} (py : Python N) (values : Value N) where
  render_pieces-escape : (s : Text) → render_pieces py values (pieces_from 0 (escape s)) ≡ s
  unfolding escape pieces_from piece_at render_pieces render_piece
  render_pieces-escape [] = refl
  render_pieces-escape (c ∷ s) = ground (arith, render_pieces-escape s)

-- A text whose braces are doubled renders to itself, whatever the values.
pub render-escape :
    {N : Type 0} (py : Python N) (values : Value N) (s : Text) → render py (escape s) values ≡ s
unfolding render pieces
render-escape py values s = render_pieces-escape py values s
