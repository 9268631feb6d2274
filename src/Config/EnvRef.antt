-- ===== src/Config/EnvRef.antt =====
-- `expand_env` and `has_env_ref` of ticketbot/config/loader.py: references `${NAME}` to the environment.
pub mod Expands
use ticket_bot.Prelude.{
  ℕ, zero, suc, ◌+◌, Bool, true, false, ◌&&◌, ◌||◌, Option, none, some, Text, codes, ◌==◌,
  if◌then◌else◌, non_empty, List, [], ◌∷◌, ◌++◌, Dict, lookup, length,
}
use ticket_bot.Prelude.Outcomes.{Outcome, ok, raised, missing_env_error, ◌>>=◌}
use ticket_bot.Predicate.Lexer.{is_word, is_alpha, span}

-- A match of ENV_REF, or a character that is part of none.
pub data RefPiece : Type 0 where
  plain : ℕ → RefPiece
  env_ref : Text → RefPiece

abbrev pub starts_ident : Text → Bool
starts_ident [] = false
starts_ident (c ∷ _) = is_alpha c || c == b'_'

abbrev pub is_closed : Text → Bool
is_closed [] = false
is_closed (c ∷ _) = c == 125

-- The name behind `${`.
abbrev pub ref_name : Text × Text → Option Text
ref_name (name, rest) = if starts_ident name && is_closed rest then some name else none

abbrev pub behind_brace : Text → Option Text
behind_brace [] = none
behind_brace (c ∷ s) = if c == 123 then ref_name (span is_word s) else none

abbrev pub ref_or_plain : ℕ → Option Text → RefPiece × ℕ
ref_or_plain c none = (plain c, 0)
ref_or_plain c (some name) = (env_ref name, length name + 2)

unfoldable pub ref_at : ℕ → Text → RefPiece × ℕ
unfolding span
ref_at c s = if c == b'$' then ref_or_plain c (behind_brace s) else (plain c, 0)

-- The matches from left to right: behind one, the search goes on `skip` characters further.
unfoldable pub refs_from : ℕ → Text → List RefPiece
unfolding ref_at
refs_from skip [] = []
refs_from (suc skip) (c ∷ s) = refs_from skip s
refs_from zero (c ∷ s) = let (piece, more) = ref_at c s in piece ∷ refs_from more s

unfoldable pub has_ref : List RefPiece → Bool
has_ref [] = false
has_ref (plain c ∷ ps) = has_ref ps
has_ref (env_ref name ∷ ps) = true

-- `has_env_ref`
unfoldable pub has_env_ref : Text → Bool
unfolding refs_from has_ref
has_env_ref value = has_ref (refs_from 0 value)

abbrev pub env_value : Option Text → Outcome Text
env_value none = raised (missing_env_error (codes "environment variable is not set"))
env_value (some v) =
    if non_empty v
    then ok v
    else raised (missing_env_error (codes "environment variable is not set"))

-- `_sub`
unfoldable pub expand_piece : Dict Text → RefPiece → Outcome Text
expand_piece env (plain c) = ok (c ∷ [])
expand_piece env (env_ref name) = env_value (lookup name env)

unfoldable pub expand_pieces : Dict Text → List RefPiece → Outcome Text
unfolding expand_piece
expand_pieces env [] = ok []
expand_pieces env (p ∷ ps) = do
  text ← expand_piece env p
  rest ← expand_pieces env ps
  ok (text ++ rest)

-- `expand_env`
unfoldable pub expand_env : Dict Text → Text → Outcome Text
unfolding expand_pieces refs_from
expand_env env value = expand_pieces env (refs_from 0 value)
