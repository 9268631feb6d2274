-- ===== src/Tests/Apis.antt =====
-- The theorems on the API loop at concrete inputs: the outside state counts the questions to the
-- provider, which calls a tool twice and then answers.
use ticket_bot.Prelude.{
  ℕ, suc, ltb, ◌≤◌, ◌≡◌, refl, ap, ◌∙◌, true, false, none, some, codes, text_eq, text_in,
  starts_with, strip, rstrip, lstrip, split_on, if◌then◌else◌, [], ◌∷◌,
}
use ticket_bot.Prelude.Int.{pos}
use ticket_bot.Prelude.Outcomes.{ok, raised, adapter_error}
use ticket_bot.Predicate.Values.{end}
use ticket_bot.Executors.Tools.Os.{Os}
use ticket_bot.Executors.Tools.Allowed.{IsReadOnly, dispatch-read_only}
use ticket_bot.Models.{Usage, ProviderMessage, no_usage}
use ticket_bot.Executors.Api.{Setting, Request, tool_context, ApiResult, run, rounds}
use ticket_bot.Executors.Api.Paired.{IsKept, run-IsKept}
use ticket_bot.Executors.Api.Capped.{IsWithin, run-IsWithin}
use ticket_bot.Tests.Samples.{py}

abbrev os : Os ℕ ℕ
os = record {
  python = py;
  links = record { resolve = λ x p. p; exists = λ x p. true };
  is_file = λ x p. false;
  is_dir = λ x p. false;
  read_bytes = λ x p. raised (adapter_error []);
  entries = λ x p. ok [];
  mkdir = λ p x. (ok tt, x);
  write = λ p bytes x. (ok tt, x);
  encode = λ t. ok t;
  decode = λ bytes. bytes;
  to_int = λ v. ok (pos 0);
  subprocess = λ argv cwd timeout x. (raised (adapter_error []), x);
  runtime = none;
  redact = λ t. t;
  message = λ e. codes "refused";
}

abbrev usage : Usage
usage = record no_usage { cost_usd = 5 }

abbrev answer : ℕ → ProviderMessage ℕ
answer x =
    if ltb x 2
    then record {
      text = codes "reading";
      tool_calls = record { id = codes "c"; name = codes "source_read"; input = end } ∷ [];
      usage = usage;
    }
    else record { text = codes "done"; tool_calls = []; usage = usage }

abbrev setting : Setting ℕ ℕ
setting = record {
  os = os;
  complete = λ system ms tools n x. (ok (answer x), suc x);
  monotonic = λ x. (0, x);
  snapshot_tree = λ x p. [];
  max_iterations = 40;
  max_tokens = 1000;
  shell_timeout_s = 10;
}

abbrev req : Request
req = record {
  system = [];
  prompt = codes "go";
  workspace = codes "w" ∷ [];
  artifacts_dir = codes "r" ∷ [];
  tools = codes "source.read" ∷ [];
  timeout_s = 60;
  max_cost_usd = some 20;
  work_item_text = codes "the ticket";
}

reading_only : IsReadOnly os (tool_context setting req)
unfolding text_in text_eq
reading_only = record { no_write = refl; no_edit = refl; no_shell = refl; no_screenshot = refl }

counted : IsKept setting req (λ k x. x ≡ k)
counted = record {
  clock = λ k x same. same;
  tools = λ k wire args desk same.
      ap (λ d. d.outside)
        (dispatch-read_only os (tool_context setting req) wire args desk reading_only)
      ∙ same;
  asked = λ k ms x paired long same. ap suc same;
}

run-IsKept_example : (j : ℕ) × (j ≤ 40) × ((run setting req 0).1 ≡ j)
run-IsKept_example = run-IsKept setting req (λ k x. x ≡ k) 0 counted refl

abbrev last_result : ApiResult
last_result = record {
  text = codes "done";
  usage = record no_usage { cost_usd = 15 };
  files_written = [];
  question = none;
  defers = [];
  exit_code = pos 0;
  error = none;
  timed_out = false;
}

last_answer : (run setting req 0).0 ≡ ok last_result
unfolding run rounds text_eq split_on starts_with strip rstrip lstrip
last_answer = refl

run-IsWithin_example : IsWithin setting req 15
run-IsWithin_example = run-IsWithin setting req 0 last_result last_answer refl
