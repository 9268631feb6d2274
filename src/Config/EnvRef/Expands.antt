-- ===== src/Config/EnvRef/Expands.antt =====
-- When a reference to the environment expands.
use ticket_bot.Prelude.{
  ◌≡◌, refl, Bool, true, false, ◌&&◌, Option, none, some, Text, codes, if◌then◌else◌, non_empty,
  List, [], ◌∷◌, ◌++◌, Dict, lookup,
}
use ticket_bot.Prelude.Outcomes.{Exn, ok, raised, missing_env_error, ◌>>=◌}
use ticket_bot.Config.EnvRef.{
  RefPiece, plain, env_ref, refs_from, env_value, expand_piece, expand_pieces, expand_env,
}

abbrev pub is_usable : Option Text → Bool
is_usable none = false
is_usable (some v) = non_empty v

-- Every name that is referred to has a value in the environment.
unfoldable pub all_usable : Dict Text → List RefPiece → Bool
all_usable env [] = true
all_usable env (plain c ∷ ps) = all_usable env ps
all_usable env (env_ref name ∷ ps) = is_usable (lookup name env) && all_usable env ps

abbrev pub value_of : Option Text → Text
value_of none = []
value_of (some v) = v

-- The text with the values in place of the references.
unfoldable pub filled : Dict Text → List RefPiece → Text
filled env [] = []
filled env (plain c ∷ ps) = c ∷ filled env ps
filled env (env_ref name ∷ ps) = value_of (lookup name env) ++ filled env ps

abbrev pub missing : Exn
missing = missing_env_error (codes "environment variable is not set")

env_value-if :
    (o : Option Text) → env_value o ≡ (if is_usable o then ok (value_of o) else raised missing)
env_value-if none = refl
env_value-if (some v) = refl

expand_pieces-if :
    (env : Dict Text) (ps : List RefPiece)
    → expand_pieces env ps ≡ (if all_usable env ps then ok (filled env ps) else raised missing)
unfolding expand_pieces expand_piece all_usable filled
expand_pieces-if env [] = refl
expand_pieces-if env (plain c ∷ ps) = rw (expand_pieces-if env ps) (after (all_usable env ps))
  where
    after :
        (b : Bool)
        → ((if b then ok (filled env ps) else raised missing) >>= λ rest. ok (c ∷ rest))
          ≡ (if b then ok (c ∷ filled env ps) else raised missing)
    after true = refl
    after false = refl
expand_pieces-if env (env_ref name ∷ ps) =
    rw (env_value-if (lookup name env), expand_pieces-if env ps)
      (after (is_usable (lookup name env)) (all_usable env ps) (value_of (lookup name env)))
  where
    after :
        (a b : Bool) (v : Text)
        → ((if a then ok v else raised missing) >>= λ text.
            (if b then ok (filled env ps) else raised missing) >>= λ rest. ok (text ++ rest))
          ≡ (if a && b then ok (v ++ filled env ps) else raised missing)
    after true true v = refl
    after true false v = refl
    after false b v = refl

-- A value expands exactly where each name that it refers to is set to a text that is not empty, then
-- to the text with the values in place of the references; otherwise MissingEnvError is raised.
pub expand_env-if :
    (env : Dict Text) (value : Text)
    → expand_env env value ≡ (
        if all_usable env (refs_from 0 value)
        then ok (filled env (refs_from 0 value))
        else raised missing)
unfolding expand_env
expand_env-if env value = expand_pieces-if env (refs_from 0 value)
