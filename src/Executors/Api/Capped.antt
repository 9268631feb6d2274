-- ===== src/Executors/Api/Capped.antt =====
-- The cost cap of a run of the loop.
use ticket_bot.Prelude.{
  ℕ, zero, suc, ◌+◌, ltb, ◌≡◌, subst, false, Option, none, some, Text, Bool-cases, inl, inr, List,
  [], ◌∷◌,
}
use ticket_bot.Prelude.Outcomes.{Exn, Outcome, ok, raised}
use ticket_bot.Executors.Snapshots.{Snapshot}
use ticket_bot.Models.{ToolCall, ProviderMessage}
use ticket_bot.Executors.Api.{
  Setting, Request, ApiResult, Talk, Ending, answered, failed, timed_out, Round, over, crashed,
  again, exceeds, provider_message, fail_round, go_on, answer_calls, after_cap, after_answer,
  answer_round, round, rounds, finish, finished, run,
}

module _ {N X : Type 0} (set : Setting N X) (req : Request) where
  -- The costs so far are not over the cap.
  abbrev pub IsWithin : ℕ → Type 0
  IsWithin cost = exceeds cost req.max_cost_usd ≡ false

  EndsWithin : Ending → Talk N X → Type 0
  EndsWithin answered t = IsWithin t.usage.cost_usd
  EndsWithin _ t = Unit

  After : Round N X → Type 0
  After (over ending t) = EndsWithin ending t
  After (crashed e t) = Unit
  After (again t) = IsWithin t.usage.cost_usd

  after_cap-After :
      (cs : List (ToolCall N)) (pm : ProviderMessage N) (t : Talk N X)
      → IsWithin t.usage.cost_usd
      → After (after_cap set req cs pm t)
  unfolding After EndsWithin answer_calls
  after_cap-After [] pm t w = w
  after_cap-After (c ∷ cs) pm t w = w

  after_answer-After : (pm : ProviderMessage N) (t : Talk N X) → After (after_answer set req pm t)
  unfolding After EndsWithin after_answer
  after_answer-After pm t =
      elim (Bool-cases (exceeds (t.usage.cost_usd + pm.usage.cost_usd) req.max_cost_usd)) [
        | inl cap ↦ rw cap tt
        | inr free ↦ rw free (after_cap-After pm.tool_calls pm _ free)
      ]

  fail_round-After :
      (e : Exn) (message : Option Text) (t : Talk N X) → After (fail_round e message t)
  unfolding After EndsWithin
  fail_round-After e none t = tt
  fail_round-After e (some message) t = tt

  answer_round-After :
      (t : Talk N X) (answer : Outcome (ProviderMessage N) × X)
      → After (answer_round set req t answer)
  unfolding answer_round
  answer_round-After t (ok pm, x) =
      after_answer-After pm (record t { desk = record t.desk { outside = x } })
  answer_round-After t (raised e, x) = fail_round-After e (provider_message e) _

  round-After : (deadline : ℕ) (t : Talk N X) → After (round set req deadline t)
  unfolding After EndsWithin round
  round-After deadline t = elim (Bool-cases (ltb deadline (set.monotonic t.desk.outside).0)) [
    | inl late ↦ rw late tt
    | inr in_time ↦ rw in_time (answer_round-After t _)
  ]

  -- What a loop leaves, where it leaves an ending.
  Left : Outcome Ending × Talk N X → Type 0
  Left (ok ending, t) = EndsWithin ending t
  Left (raised e, t) = Unit

  go_on-Left :
      (next : Talk N X → Outcome Ending × Talk N X) (o : Round N X)
      → ((t : Talk N X) → Left (next t))
      → After o
      → Left (go_on next o)
  unfolding Left After
  go_on-Left next (over ending t) h a = a
  go_on-Left next (crashed e t) h a = tt
  go_on-Left next (again t) h a = h t

  rounds-Left : (fuel deadline : ℕ) (t : Talk N X) → Left (rounds set req fuel deadline t)
  unfolding rounds Left EndsWithin
  rounds-Left zero deadline t = tt
  rounds-Left (suc fuel) deadline t =
      go_on-Left (rounds set req fuel deadline) _ (rounds-Left fuel deadline)
        (round-After deadline t)

  value_of : {a b : ApiResult} → ok a ≡ ok b → a ≡ b
  value_of e = cc

  passed_on :
      {a b : ApiResult}
      → a ≡ b
      → (a.error ≡ none → IsWithin a.usage.cost_usd)
      → b.error ≡ none
      → IsWithin b.usage.cost_usd
  passed_on e h = subst (λ r. r.error ≡ none → IsWithin r.usage.cost_usd) e h

  finished-IsWithin :
      (before : Snapshot) (o : Outcome Ending × Talk N X) (r : ApiResult)
      → Left o
      → (finished set req before o).0 ≡ ok r
      → r.error ≡ none
      → IsWithin r.usage.cost_usd
  unfolding finished finish Left EndsWithin
  finished-IsWithin before (ok answered, t) r l e no_error =
      passed_on (value_of e) (λ _. l) no_error
  finished-IsWithin before (ok (failed m), t) r l e no_error =
      passed_on (value_of e) (λ none_left. cc) no_error
  finished-IsWithin before (ok (timed_out m), t) r l e no_error =
      passed_on (value_of e) (λ none_left. cc) no_error
  finished-IsWithin before (raised exn, t) r l e no_error = cc

  -- A run that answers without an error has cost no more than `max_cost_usd`, where that is given.
  pub run-IsWithin :
      (x : X) (r : ApiResult)
      → (run set req x).0 ≡ ok r
      → r.error ≡ none
      → IsWithin r.usage.cost_usd
  unfolding run
  run-IsWithin x r e no_error =
      finished-IsWithin _ _ r (rounds-Left set.max_iterations _ _) e no_error
