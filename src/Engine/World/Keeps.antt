-- ===== src/Engine/World/Keeps.antt =====
-- Predicates on the run that actions keep, one rule for each way to build an action.
use ticket_bot.Prelude.{◌≡◌, refl, sym, subst, Bool, true, false, Text, if◌then◌else◌}
use ticket_bot.Prelude.Outcomes.{Exn, Outcome, ok, raised}
use ticket_bot.Core.Run.{Run, StepResult, edit_step, jailed_relpath}
use ticket_bot.Engine.Env.{Op, Read, Env}
use ticket_bot.Engine.World.{
  World, Action, pure, raise, lift, gets, call, read, modify, edit_run, edit_result, save, continue,
  ◌>>=◌, finally, after, ignore_errors, write_artifact,
}

-- If the action returns, `R` holds of the run as it did before.
pub record Keeps {N X A : Type 0} (R : Run → Type 0) (m : Action N X A) : Type 0 where
  pub at : (w : World N X) → R w.run → R (m w).1.run

module _ {N X A : Type 0} {R : Run → Type 0} where
  pub Keeps-pure : (a : A) → Keeps {N = N} {X = X} R (pure a)
  unfolding pure
  Keeps-pure a = record { at = λ w h. h }

  pub Keeps-raise : (e : Exn) → Keeps {N = N} {X = X} {A = A} R (raise e)
  unfolding raise
  Keeps-raise e = record { at = λ w h. h }

  pub Keeps-lift : (r : Outcome A) → Keeps {N = N} {X = X} R (lift r)
  unfolding lift
  Keeps-lift r = record { at = λ w h. h }

  pub Keeps-gets : (f : World N X → A) → Keeps R (gets f)
  unfolding gets
  Keeps-gets f = record { at = λ w h. h }

  pub Keeps-call : (o : Op X A) → Keeps {N = N} R (call o)
  unfolding call
  Keeps-call o = record { at = λ w h. h }

  pub Keeps-read : (o : Read X A) → Keeps {N = N} R (read o)
  unfolding read
  Keeps-read o = record { at = λ w h. h }

  pub Keeps-if :
      (b : Bool) {m n : Action N X A} → Keeps R m → Keeps R n → Keeps R (if b then m else n)
  Keeps-if true hm hn = hm
  Keeps-if false hm hn = hn

module _ {N X : Type 0} {R : Run → Type 0} where
  pub Keeps-save : Keeps {N = N} {X = X} R save
  unfolding save
  Keeps-save = record { at = λ w h. h }

  pub Keeps-modify :
      (f : World N X → World N X) → ((w : World N X) → (f w).run ≡ w.run) → Keeps R (modify f)
  unfolding modify
  Keeps-modify f same = record { at = λ w h. subst R (sym (same w)) h }

  pub Keeps-edit_run :
      (f : Run → Run) → ((r : Run) → R r → R (f r)) → Keeps {N = N} {X = X} R (edit_run f)
  unfolding edit_run
  Keeps-edit_run f k = record { at = λ w h. k w.run h }

  pub Keeps-edit_result :
      (id : Text) (f : StepResult → StepResult)
      → ((r : Run) → R r → R (edit_step id f r))
      → Keeps {N = N} {X = X} R (edit_result id f)
  unfolding edit_result edit_run
  Keeps-edit_result id f k = record { at = λ w h. k w.run h }

module _ {N X A B : Type 0} {R : Run → Type 0} where
  Keeps-continue :
      (f : A → Action N X B) (o : Outcome A) (w : World N X)
      → R w.run
      → ((a : A) → Keeps R (f a))
      → R (continue o f w).1.run
  Keeps-continue f (ok a) w h k = (k a).at w h
  Keeps-continue f (raised e) w h k = h

  pub Keeps-bind :
      {m : Action N X A} (f : A → Action N X B)
      → Keeps R m
      → ((a : A) → Keeps R (f a))
      → Keeps R (m >>= f)
  unfolding ◌>>=◌
  Keeps-bind {m = m} f hm hf = record {
    at = λ w h. Keeps-continue f (m w).0 (m w).1 (hm.at w h) hf;
  }

module _ {N X A : Type 0} where
  Keeps-after :
      (R : Run → Type 0) (r : Outcome A) (o : Outcome (Unit {0})) (w : World N X)
      → R w.run
      → R (after r (o, w)).1.run
  Keeps-after R r (ok _) w h = h
  Keeps-after R r (raised e) w h = h

  pub Keeps-finally :
      {R : Run → Type 0} {m : Action N X A} {k : Action N X (Unit {0})}
      → Keeps R m
      → Keeps R k
      → Keeps R (finally m k)
  unfolding finally
  Keeps-finally {R} {m = m} {k = k} hm hk = record {
    at = λ w h. let w' = (m w).1 in Keeps-after R (m w).0 (k w').0 (k w').1 (hk.at w' (hm.at w h));
  }

module _ {N X : Type 0} {R : Run → Type 0} where
  pub Keeps-ignore_errors : {m : Action N X (Unit {0})} → Keeps R m → Keeps R (ignore_errors m)
  unfolding ignore_errors
  Keeps-ignore_errors hm = record { at = λ w h. hm.at w h }

  pub Keeps-write_artifact :
      (env : Env N X) (rel content : Text) → Keeps R (write_artifact env rel content)
  unfolding write_artifact
  Keeps-write_artifact env rel content =
      Keeps-bind _ (Keeps-lift (jailed_relpath rel)) λ path. Keeps-modify _ λ w. refl

pub ruleset keeps_rules = (
  Keeps-pure, Keeps-raise, Keeps-lift, Keeps-gets, Keeps-call, Keeps-read, Keeps-if, Keeps-save,
  Keeps-bind, Keeps-finally, Keeps-ignore_errors, Keeps-write_artifact,
)
