-- ===== src/Engine/Step/Fixer.antt =====
-- `_landing_error`, the commit of a step's work, `_spawn_fixer` and the DEFER branch of `_run_step`.
use ticket_bot.Prelude.{
  ℕ, suc, Bool, true, false, ◌||◌, Option, none, some, Text, codes, text_eq, List, [], ◌∷◌, ◌++◌,
  if◌then◌else◌, leb, non_empty,
}
use ticket_bot.Prelude.Outcomes.{Outcome, ok, raised, config_error}
use ticket_bot.Engine.Protocol.{strip_protocol}
use ticket_bot.Engine.Pipeline.{StepDef, PipelineDef}
use ticket_bot.Engine.Context.{get_or, positive_or}
use ticket_bot.Engine.Env.{Env, Section, ExecutorKey, ExecRequest, ExecResult, Prompt}
use ticket_bot.Engine.World.{Action, pure, raise, call, edit_result, write_artifact, ◌>>=◌, ◌>>◌}
use ticket_bot.Engine.Step.Ends.{StepOutcome, fail_run, step_file}

abbrev pub max_defers_spawned : ℕ
max_defers_spawned = 2

abbrev pub any_text : List Text → Bool
any_text [] = false
any_text (_ ∷ _) = true

-- `step.commit` and `step.prompt` count only where they are not empty.
abbrev pub given : Option Text → Option Text
given none = none
given (some t) = if non_empty t then some t else none

-- `text[:n]`
unfoldable pub first_chars : ℕ → Text → Text
first_chars n [] = []
first_chars ℕ.zero (c ∷ s) = []
first_chars (suc n) (c ∷ s) = c ∷ first_chars n s

unfoldable pub fixer_prompt : {N : Type 0} → List (StepDef N) → Text
fixer_prompt [] = codes "builtin:prompts/roles/fixer.md"
fixer_prompt (s ∷ steps) =
    if text_eq s.role (codes "fixer")
    then get_or (given s.prompt) (codes "builtin:prompts/roles/fixer.md")
    else fixer_prompt steps

abbrev pub with_commit :
    {N X : Type 0} → Option Text → Action N X (Unit {0}) → Action N X (Unit {0})
with_commit none sha = pure tt
with_commit (some _) m = m

module _ {N X : Type 0} (env : Env N X) where
  -- `_landing_error`
  unfoldable pub landing_error : List Text → Action N X (Option Text)
  landing_error files = do
    missing ← call (env.adapters.verify_landed files)
    drifted ← call env.adapters.drifted
    pure (
        if any_text missing || any_text drifted
        then some (env.adapters.landing_message missing drifted)
        else none)

  abbrev pub record_commit : Text → Option Text → Action N X (Unit {0})
  record_commit id none = pure tt
  record_commit id (some sha) =
      edit_result id (λ sr. record sr { commits = sr.commits ++ (sha ∷ []) })

  abbrev pub commit_landed :
      StepDef N
      → Option Section
      → Text
      → ExecResult
      → List Text
      → Option Text
      → Action N X (Option StepOutcome)
  commit_landed step section template result texts (some message) = do
    outcome ← fail_run env step.id message texts
    pure (some outcome)
  commit_landed step section template result texts none = do
    sha ← call (
        env.adapters.repo_commit (env.adapters.render_commit template section)
          (strip_protocol result.text))
    record_commit step.id sha
    pure none

  unfoldable pub commit_with :
      StepDef N
      → Option Section
      → ExecResult
      → List Text
      → Option Text
      → Action N X (Option StepOutcome)
  unfolding landing_error
  commit_with step section result texts none = pure none
  commit_with step section result texts (some template) = do
    problem ← landing_error result.files_written
    commit_landed step section template result texts problem

  -- "10. verify landed + commit"
  unfoldable pub commit_result :
      StepDef N → Option Section → ExecResult → List Text → Action N X (Option StepOutcome)
  unfolding commit_with
  commit_result step section result texts =
      commit_with step section result texts (given step.commit)

  abbrev pub commit_fix : Text → ExecResult → Option Text → Action N X (Unit {0})
  commit_fix line result (some problem) = pure tt
  commit_fix line result none = do
    sha ← call (
        env.adapters.repo_commit (codes "fix: " ++ first_chars 60 line)
          (strip_protocol result.text))
    pure tt

  abbrev pub fixer_id : StepDef N → Text
  fixer_id step = step.id ++ codes "-fixer"

  abbrev pub fix_and_commit : StepDef N → Text → ExecResult → Option Text → Action N X (Unit {0})
  fix_and_commit step line result none = pure tt
  fix_and_commit step line result (some template) = do
    problem ← landing_error result.files_written
    commit_fix line result problem

  abbrev pub fixer_request : StepDef N → Prompt → ExecRequest
  fixer_request step prompt = record {
    prompt = prompt;
    tools = step.tools;
    produces = step.produces;
    timeout_s = positive_or step.timeout_s 900;
    max_cost_usd = none;
    step_id = fixer_id step;
    model = none;
  }

  abbrev pub run_fixer : StepDef N → ExecutorKey → Text → Prompt → Action N X (Unit {0})
  run_fixer step executor line prompt = do
    result ← call (env.adapters.run_executor executor (fixer_request step prompt))
    fix_and_commit step line result (given step.commit)
    write_artifact env (step_file (fixer_id step)) result.text

  -- `except ConfigError: log; return`, and any other exception goes on.
  abbrev pub with_prompt : StepDef N → ExecutorKey → Text → Outcome Prompt → Action N X (Unit {0})
  with_prompt step executor line (ok prompt) = run_fixer step executor line prompt
  with_prompt step executor line (raised (config_error message)) = pure tt
  with_prompt step executor line (raised e) = raise e

  abbrev pub attempt : {A : Type 0} → (X → Outcome A × X) → Action N X (Outcome A)
  attempt o w = let (r, x) = o w.outside in (ok r, record w { outside = x })

  -- `_spawn_fixer`
  unfoldable pub spawn_fixer :
      PipelineDef N → StepDef N → ExecutorKey → Text → Action N X (Unit {0})
  unfolding fixer_prompt first_chars landing_error
  spawn_fixer pipeline step executor line = do
    prompt ← attempt (env.adapters.load_prompt (fixer_prompt pipeline.steps) (some line) none)
    with_prompt step executor line prompt

  -- The loop over `result.defers`; it returns the number spawned in this step so far.
  unfoldable pub spawn_all : PipelineDef N → StepDef N → ExecutorKey → List Text → ℕ → Action N X ℕ
  unfolding spawn_fixer
  spawn_all pipeline step executor [] spawned = pure spawned
  spawn_all pipeline step executor (line ∷ lines) spawned = do
    edit_result step.id (λ sr. record sr { defers = sr.defers ++ (line ∷ []) })
    let full = leb max_defers_spawned spawned
    if full then pure tt else spawn_fixer pipeline step executor line
    spawn_all pipeline step executor lines (if full then spawned else suc spawned)

  unfoldable pub spawn_defers :
      PipelineDef N → StepDef N → ExecutorKey → List Text → ℕ → Action N X ℕ
  unfolding spawn_all
  spawn_defers pipeline step executor lines spawned =
      if text_eq pipeline.on_defer (codes "spawn_fixer")
      then spawn_all pipeline step executor lines spawned
      else pure spawned
