-- ===== src/Executors/Api/Quiet.antt =====
-- A run of the loop with tools that only read.
use ticket_bot.Prelude.{ℕ, ◌≡◌, refl, ap, ◌∙◌, Text, List}
use ticket_bot.Executors.Tools.Allowed.{IsReadOnly, dispatch-read_only}
use ticket_bot.Models.{Msg}
use ticket_bot.Executors.Api.{Setting, Request, tool_context, run}
use ticket_bot.Executors.Api.Paired.{IsKept, run-IsKept}

-- What neither the clock nor the provider changes is as it was after a run whose tools only read,
-- whatever the provider answers: a file, say.
pub run-read_only :
    {N X V : Type 0} (set : Setting N X) (req : Request) (content : X → V) (x : X)
    → IsReadOnly set.os (tool_context set req)
    → ((y : X) → content (set.monotonic y).1 ≡ content y)
    → ((system : Text) (ms : List (Msg N)) (tools : List Text) (n : ℕ) (y : X)
        → content (set.complete system ms tools n y).1 ≡ content y)
    → content (run set req x).1 ≡ content x
run-read_only set req content x reading clock asks =
    let (j, few, same) = run-IsKept set req (λ _ y. content y ≡ content x) x kept refl in same
  where
    kept : IsKept set req (λ _ y. content y ≡ content x)
    kept = record {
      clock = λ k y same. clock y ∙ same;
      tools = λ k wire args desk same.
          ap (λ d. content d.outside)
            (dispatch-read_only set.os (tool_context set req) wire args desk reading)
          ∙ same;
      asked = λ k ms y p l same. asks _ ms _ _ y ∙ same;
    }
