-- ===== src/Engine/World.antt =====
-- The state that the run loop changes, and its actions: what may raise and leaves its writes behind.
pub mod Triples
pub mod Keeps
use ticket_bot.Prelude.{ℕ, Text, List, Option, some}
use ticket_bot.Prelude.Outcomes.{Exn, Outcome, ok, raised}
use ticket_bot.Core.Run.{Run, StepResult, edit_step, jailed_relpath}
use ticket_bot.Core.WorkItem.{WorkItem}
use ticket_bot.Engine.Budget.{Budget}
use ticket_bot.Engine.Env.{Op, Read, Env}

-- `saved` is the content of `run.json`; `item` is the work item, which the ingest step edits.
pub record World (N X : Type 0) : Type 0 where
  pub run : Run
  pub saved : Option Run
  pub budget : Budget
  pub item : WorkItem N
  pub outside : X

abbrev pub Action : Type 0 → Type 0 → Type 0 → Type 0
Action N X A = World N X → Outcome A × World N X

module _ {N X A : Type 0} where
  unfoldable pub pure : A → Action N X A
  pure a w = (ok a, w)

  unfoldable pub raise : Exn → Action N X A
  raise e w = (raised e, w)

  unfoldable pub lift : Outcome A → Action N X A
  lift r w = (r, w)

  unfoldable pub gets : (World N X → A) → Action N X A
  gets f w = (ok (f w), w)

  -- A call of an adapter.
  unfoldable pub call : Op X A → Action N X A
  call o w = let (r, x) = o w.outside in (r, record w { outside = x })

  -- A reading of a clock.
  unfoldable pub read : Read X A → Action N X A
  read o w = let (a, x) = o w.outside in (ok a, record w { outside = x })

module _ {N X : Type 0} where
  unfoldable pub modify : (World N X → World N X) → Action N X (Unit {0})
  modify f w = (ok tt, f w)

  unfoldable pub edit_run : (Run → Run) → Action N X (Unit {0})
  edit_run f w = (ok tt, record w { run = f w.run })

  unfoldable pub edit_result : Text → (StepResult → StepResult) → Action N X (Unit {0})
  edit_result id f = edit_run (edit_step id f)

  -- `self.store.save(run)`: atomic, and taken not to fail.
  unfoldable pub save : Action N X (Unit {0})
  save w = (ok tt, record w { saved = some w.run })

module _ {N X A B : Type 0} where
  abbrev pub continue : Outcome A → (A → Action N X B) → Action N X B
  continue (ok a) f w = f a w
  continue (raised e) f w = (raised e, w)

  infixl 5 ◌>>=◌ ◌>>◌
  unfoldable pub ◌>>=◌ : Action N X A → (A → Action N X B) → Action N X B
  ◌>>=◌ m f w = let (r, w') = m w in continue r f w'

  abbrev pub ◌>>◌ : Action N X A → Action N X B → Action N X B
  m >> n = m >>= λ _. n

-- `try: m finally: k`: an exception of `k` takes the place of that of `m`.
abbrev pub after :
    {N X A : Type 0} → Outcome A → Outcome (Unit {0}) × World N X → Outcome A × World N X
after r (ok _, w) = (r, w)
after r (raised e, w) = (raised e, w)

unfoldable pub finally : {N X A : Type 0} → Action N X A → Action N X (Unit {0}) → Action N X A
finally m k w = let (r, w') = m w in after r (k w')

-- `try: m except Exception: log`
abbrev pub forget : {N X : Type 0} → Outcome (Unit {0}) × World N X → Outcome (Unit {0}) × World N X
forget (r, w) = (ok tt, w)

unfoldable pub ignore_errors : {N X : Type 0} → Action N X (Unit {0}) → Action N X (Unit {0})
ignore_errors m w = forget (m w)

-- `self.store.write_artifact(run, relpath, data)`
unfoldable pub write_artifact : {N X : Type 0} → Env N X → Text → Text → Action N X (Unit {0})
write_artifact env relpath content = do
  rel ← lift (jailed_relpath relpath)
  modify (λ w. record w {
    outside = env.adapters.write_file rel (env.adapters.scrub content) w.outside;
  })
