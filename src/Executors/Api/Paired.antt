-- ===== src/Executors/Api/Paired.antt =====
-- What the loop asks of the provider.
use ticket_bot.Prelude.{
  ℕ, zero, suc, ◌+◌, ◌*◌, ◌≤◌, ltb, ◌≡◌, refl, sym, subst, ◌∙◌, arith, Option, none, some, Text,
  Bool-cases, inl, inr, List, [], ◌∷◌, ◌++◌, length, length-append,
}
use ticket_bot.Prelude.Outcomes.{Exn, Outcome, ok, raised}
use ticket_bot.Predicate.Values.{Fields}
use ticket_bot.Executors.Snapshots.{Snapshot}
use ticket_bot.Executors.Tools.Os.{Desk}
use ticket_bot.Executors.Tools.Names.{build_tools}
use ticket_bot.Executors.Tools.Dispatch.{dispatch}
use ticket_bot.Models.{
  ToolCall, Block, text_block, tool_use, tool_result, Msg, prompt_msg, user_msg, assistant_msg,
  ProviderMessage,
}
use ticket_bot.Executors.Api.{
  Setting, Request, Talk, Ending, Round, over, crashed, again, exceeds, provider_message,
  fail_round, go_on, start_talk, tool_context, tool_uses, run_calls, answer_calls, after_cap,
  after_answer, answer_round, round, rounds, finished, run,
}

module _ {N : Type 0} where
  -- The blocks are the calls, one by one and in order.
  abbrev pub Uses : List (ToolCall N) → List (Block N) → Type 0
  Uses [] [] = Unit
  Uses (c ∷ cs) (tool_use d ∷ bs) = (d ≡ c) × Uses cs bs
  Uses _ _ = ⊥

  tool_uses-Uses : (cs : List (ToolCall N)) → Uses cs (tool_uses cs)
  unfolding tool_uses
  tool_uses-Uses [] = tt
  tool_uses-Uses (c ∷ cs) = (refl, tool_uses-Uses cs)

  module _ {X : Type 0} (set : Setting N X) (req : Request) where
    -- The results are those that the tools give for the calls, one by one and in order, each call on
    -- what the one before left, under the id of its call.
    abbrev pub Answers : List (ToolCall N) → Desk X → List (Block N) → Type 0
    Answers [] desk [] = Unit
    Answers (c ∷ cs) desk (tool_result id out is_error ∷ bs) =
        let done = dispatch set.os (tool_context set req) c.name c.input desk in
        (id ≡ c.id) × ((out, is_error) ≡ done.0) × Answers cs done.1 bs
    Answers _ desk _ = ⊥

    -- What the provider answers to messages, and the state it leaves.
    abbrev pub asked_for : List (Msg N) → X → Outcome (ProviderMessage N) × X
    asked_for ms x = set.complete req.system ms (build_tools req.tools) set.max_tokens x

    -- The prompt of the request, and then pairs of messages: the text and the calls of an answer that
    -- the provider gave to the messages before, and the results of those calls.
    pub data Paired : List (Msg N) → Type 0 where
      opened : Paired (prompt_msg req.prompt ∷ [])
      and_then :
          {ms : List (Msg N)} (x : X) (pm : ProviderMessage N) (c : ToolCall N)
          (cs : List (ToolCall N)) (calls results : List (Block N)) (desk : Desk X)
          → Paired ms
          → asked_for ms x ≡ (ok pm, desk.outside)
          → pm.tool_calls ≡ c ∷ cs
          → Uses pm.tool_calls calls
          → Answers pm.tool_calls desk results
          → Paired (ms ++ (assistant_msg (text_block pm.text ∷ calls) ∷ user_msg results ∷ []))

    run_calls-Answers :
        (cs : List (ToolCall N)) (desk : Desk X) → Answers cs desk (run_calls set req cs desk).0
    unfolding run_calls
    run_calls-Answers [] desk = tt
    run_calls-Answers (c ∷ cs) desk = (refl, refl, run_calls-Answers cs _)

    -- A property of the outside world, with the number of questions that the provider was asked, which
    -- the clock and the tools keep, and which holds with one more question after the provider was asked
    -- with messages of the right form.
    pub record IsKept (R : ℕ → X → Type 0) : Type 0 where
      pub clock : (k : ℕ) (x : X) → R k x → R k (set.monotonic x).1
      pub tools :
          (k : ℕ) (wire : Text) (args : Fields N) (desk : Desk X)
          → R k desk.outside
          → R k (dispatch set.os (tool_context set req) wire args desk).1.outside
      pub asked :
          (k : ℕ) (ms : List (Msg N)) (x : X)
          → Paired ms
          → length ms ≡ 1 + 2 * k
          → R k x
          → R (suc k) (set.complete req.system ms (build_tools req.tools) set.max_tokens x).1

    module _ (R : ℕ → X → Type 0) (kept : IsKept R) where
      run_calls-keeps :
          (k : ℕ) (cs : List (ToolCall N)) (desk : Desk X)
          → R k desk.outside
          → R k (run_calls set req cs desk).1.outside
      unfolding run_calls
      run_calls-keeps k [] desk r = r
      run_calls-keeps k (c ∷ cs) desk r =
          run_calls-keeps k cs _ (kept.tools k c.name c.input desk r)

      -- The state between two rounds, after `k` questions.
      record Between (k : ℕ) (t : Talk N X) : Type 0 where
        paired : Paired t.messages
        long : length t.messages ≡ 1 + 2 * k
        holds : R k t.desk.outside

      -- What a round that began after `k` questions leads to.
      After : ℕ → Round N X → Type 0
      After k (over ending u) = (j : ℕ) × (j ≤ suc k) × R j u.desk.outside
      After k (crashed e u) = (j : ℕ) × (j ≤ suc k) × R j u.desk.outside
      After k (again u) = Between (suc k) u

      after_cap-After :
          (k : ℕ) (cs : List (ToolCall N)) (pm : ProviderMessage N) (t : Talk N X) (x : X)
          → pm.tool_calls ≡ cs
          → asked_for t.messages x ≡ (ok pm, t.desk.outside)
          → Paired t.messages
          → length t.messages ≡ 1 + 2 * k
          → R (suc k) t.desk.outside
          → After k (after_cap set req cs pm t)
      unfolding After answer_calls
      after_cap-After k [] pm t x same given p l r = (suc k, omega arith, r)
      after_cap-After k (c ∷ cs) pm t x same given p l r = record {
        paired =
            and_then x pm c cs _ _ t.desk p given same (tool_uses-Uses pm.tool_calls)
              (run_calls-Answers pm.tool_calls t.desk);
        long = length-append t.messages _ ∙ omega (arith, l);
        holds = run_calls-keeps (suc k) pm.tool_calls t.desk r;
      }

      after_answer-After :
          (k : ℕ) (pm : ProviderMessage N) (t : Talk N X) (x : X)
          → asked_for t.messages x ≡ (ok pm, t.desk.outside)
          → Paired t.messages
          → length t.messages ≡ 1 + 2 * k
          → R (suc k) t.desk.outside
          → After k (after_answer set req pm t)
      unfolding After after_answer
      after_answer-After k pm t x given p l r =
          elim (Bool-cases (exceeds (t.usage.cost_usd + pm.usage.cost_usd) req.max_cost_usd)) [
            | inl cap ↦ rw cap (suc k, omega arith, r)
            | inr free ↦ rw free (after_cap-After k pm.tool_calls pm _ x refl given p l r)
          ]

      fail_round-After :
          (k : ℕ) (e : Exn) (message : Option Text) (t : Talk N X)
          → R (suc k) t.desk.outside
          → After k (fail_round e message t)
      unfolding After
      fail_round-After k e none t r = (suc k, omega arith, r)
      fail_round-After k e (some message) t r = (suc k, omega arith, r)

      answer_round-After :
          (k : ℕ) (t : Talk N X) (x : X) (answer : Outcome (ProviderMessage N) × X)
          → asked_for t.messages x ≡ answer
          → Paired t.messages
          → length t.messages ≡ 1 + 2 * k
          → R (suc k) answer.1
          → After k (answer_round set req t answer)
      unfolding answer_round
      answer_round-After k t x (ok pm, y) given p l r =
          after_answer-After k pm (record t { desk = record t.desk { outside = y } }) x given p l r
      answer_round-After k t x (raised e, y) given p l r =
          fail_round-After k e (provider_message e) _ r

      round-After :
          (k deadline : ℕ) (t : Talk N X) → Between k t → After k (round set req deadline t)
      unfolding After round
      round-After k deadline t b =
          elim (Bool-cases (ltb deadline (set.monotonic t.desk.outside).0)) [
            | inl late ↦ rw late (k, omega arith, kept.clock k _ b.holds)
            | inr in_time ↦ rw in_time (
                answer_round-After k t _ _ refl b.paired b.long
                  (kept.asked k _ _ b.paired b.long (kept.clock k _ b.holds)))
          ]

      -- After at most `n` questions, `R` holds.
      Within : ℕ → X → Type 0
      Within n x = (j : ℕ) × (j ≤ n) × R j x

      go_on-keeps :
          (k n : ℕ) (next : Talk N X → Outcome Ending × Talk N X) (o : Round N X)
          → suc k ≤ n
          → ((u : Talk N X) → Between (suc k) u → Within n (next u).1.desk.outside)
          → After k o
          → Within n (go_on next o).1.desk.outside
      unfolding After Within
      go_on-keeps k n next (over ending u) room h (j, few, r) = (j, omega (arith, few, room), r)
      go_on-keeps k n next (crashed e u) room h (j, few, r) = (j, omega (arith, few, room), r)
      go_on-keeps k n next (again u) room h b = h u b

      rounds-keeps :
          (fuel k deadline : ℕ) (t : Talk N X)
          → Between k t
          → Within (k + fuel) (rounds set req fuel deadline t).1.desk.outside
      unfolding rounds Within
      rounds-keeps zero k deadline t b = (k, omega arith, b.holds)
      rounds-keeps (suc fuel) k deadline t b =
          go_on-keeps k (k + suc fuel) (rounds set req fuel deadline) (round set req deadline t)
            (omega arith)
            (λ u c.
              let (j, few, r) = rounds-keeps fuel (suc k) deadline u c in
              (j, omega (arith, few), r))
            (round-After k deadline t b)

    finished-outside :
        (before : Snapshot) (o : Outcome Ending × Talk N X)
        → (finished set req before o).1 ≡ o.1.desk.outside
    unfolding finished
    finished-outside before (ok ending, t) = refl
    finished-outside before (raised e, t) = refl

    -- A run asks its provider at most `max_iterations` times, the question after `k` others with
    -- `1 + 2k` messages: the prompt of the request, and for every answer with tool calls, each to the
    -- messages before it, one message of its text and its calls and one with the results that the tools
    -- gave for these calls, in their order and under their ids.
    pub run-IsKept :
        (R : ℕ → X → Type 0) (x : X)
        → IsKept R
        → R 0 x
        → (j : ℕ) × (j ≤ set.max_iterations) × R j (run set req x).1
    unfolding run Within
    run-IsKept R x kept r =
        let start : Between R kept 0 (start_talk req (set.monotonic x).1) = record {
          paired = opened;
          long = refl;
          holds = kept.clock 0 x r;
        } in
        let (j, few, last) = rounds-keeps R kept set.max_iterations 0 _ _ start in
        (j, omega (arith, few), subst (R j) (sym (finished-outside _ _)) last)
