-- ===== src/Engine/World/Triples.antt =====
-- Partial correctness of actions: from `P`, if the action returns, its result and state satisfy `Q`.
use ticket_bot.Prelude.{◌≡◌, refl, Bool, true, false, if◌then◌else◌}
use ticket_bot.Prelude.Outcomes.{Exn, Outcome, ok, raised}
use ticket_bot.Engine.World.{World, Action, pure, raise, continue, ◌>>=◌}

pub data Returns {N X A : Type 0} (Q : A → World N X → Type 0)
    : Outcome A × World N X → Type 0 where
  returned : {a : A} {w : World N X} → Q a w → Returns Q (ok a, w)
  threw : {e : Exn} {w : World N X} → Returns Q (raised e, w)

pub record Triple {N X A : Type 0} (P : World N X → Type 0) (m : Action N X A)
    (Q : A → World N X → Type 0) : Type 0 where
  pub at : (w : World N X) → P w → Returns Q (m w)

module _ {N X A : Type 0} {P : World N X → Type 0} {Q : A → World N X → Type 0} where
  pub Triple-pure : (a : A) → ((w : World N X) → P w → Q a w) → Triple P (pure a) Q
  unfolding pure
  Triple-pure a k = record { at = λ w h. returned (k w h) }

  pub Triple-raise : (e : Exn) → Triple P (raise e) Q
  unfolding raise
  Triple-raise e = record { at = λ w h. threw }

  pub Triple-weaken :
      {P' : World N X → Type 0} {m : Action N X A}
      → Triple P m Q
      → ((w : World N X) → P' w → P w)
      → Triple P' m Q
  Triple-weaken t k = record { at = λ w h. t.at w (k w h) }

  pub Triple-if :
      (b : Bool) {m n : Action N X A}
      → (b ≡ true → Triple P m Q)
      → (b ≡ false → Triple P n Q)
      → Triple P (if b then m else n) Q
  Triple-if true hm hn = hm refl
  Triple-if false hm hn = hn refl

module _ {N X A B : Type 0} {R : A → World N X → Type 0} {Q : B → World N X → Type 0} where
  Returns-continue :
      (f : A → Action N X B) (o : Outcome A × World N X)
      → Returns R o
      → ((a : A) → Triple (R a) (f a) Q)
      → Returns Q (continue o.0 f o.1)
  Returns-continue f o (returned {a} {w} h) k = (k a).at w h
  Returns-continue f o threw k = threw

  pub Triple-bind :
      {P : World N X → Type 0} {m : Action N X A} (f : A → Action N X B)
      → Triple P m R
      → ((a : A) → Triple (R a) (f a) Q)
      → Triple P (m >>= f) Q
  unfolding ◌>>=◌
  Triple-bind {m = m} f hm hf = record { at = λ w h. Returns-continue f (m w) (hm.at w h) hf }
