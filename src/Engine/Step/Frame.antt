-- ===== src/Engine/Step/Frame.antt =====
-- The frame of a step: what its parts do to the results of the other steps.
use ticket_bot.Prelude.{
  ℕ, suc, ◌≡◌, refl, false, Option, none, some, Text, text_eq, if◌then◌else◌, List, [], ◌∷◌, lookup,
  leb,
}
use ticket_bot.Prelude.Outcomes.{Outcome, ok, raised, config_error}
use ticket_bot.Core.Run.{Run, RunStatus, StepResult, edit_step}
use ticket_bot.Core.Run.Steps.{lookup-edit_step}
use ticket_bot.Engine.Gates
use ticket_bot.Engine.Gates.{GateDecision}
use ticket_bot.Engine.Pipeline.{StepDef, PipelineDef}
use ticket_bot.Engine.Env.{Env, Section, ExecutorKey, ExecResult, Prompt}
use ticket_bot.Engine.World.{edit_result}
use ticket_bot.Engine.World.Keeps.{
  Keeps, Keeps-edit_run, Keeps-edit_result, Keeps-modify, keeps_rules, Keeps-bind, Keeps-if,
  Keeps-call, Keeps-pure, Keeps-gets,
}
use ticket_bot.Engine.Step.Ends.{
  save_texts, save_step, stamp_end, fail_run, block_run, skip_step, set_status,
}
use ticket_bot.Engine.Step.Hooks.{before_review, after_ingest, after_planner}
use ticket_bot.Engine.Step.Reporter.{ensure_file, after_reporter, announce_pr}
use ticket_bot.Engine.Step.Question.{obey, handle_question, answer_question}
use ticket_bot.Engine.Step.Fixer.{
  landing_error, commit_with, commit_result, record_commit, commit_landed, commit_fix,
  fix_and_commit, run_fixer, with_prompt, attempt, spawn_fixer, spawn_all, spawn_defers, given,
}

-- The result of the step `j`.
abbrev pub Holds : Text → Option StepResult → Run → Type 0
Holds j o run = lookup j run.steps ≡ o

module _ {N X : Type 0} (env : Env N X) (id j : Text) (o : Option StepResult)
    (apart : text_eq id j ≡ false) where
  elsewhere : (f : StepResult → StepResult) (r : Run) → Holds j o r → Holds j o (edit_step id f r)
  elsewhere f r h = rw (lookup-edit_step id j f r, apart) h

  pub edit_result-Frame :
      (f : StepResult → StepResult) → Keeps {N = N} {X = X} (Holds j o) (edit_result id f)
  edit_result-Frame f = Keeps-edit_result id f (elsewhere f)

  pub set_status-Frame : (s : RunStatus) → Keeps {N = N} {X = X} (Holds j o) (set_status s)
  set_status-Frame s = Keeps-edit_run _ λ r h. h

  ruleset frame_rules = (keeps_rules, edit_result-Frame, set_status-Frame)

  save_texts-Frame : (texts : List Text) → Keeps (Holds j o) (save_texts env id texts)
  unfolding save_texts
  save_texts-Frame [] = search frame_rules
  save_texts-Frame (t ∷ ts) = search frame_rules depth 20

  pub save_step-Frame : (texts : List Text) → Keeps (Holds j o) (save_step env id texts)
  unfolding save_step
  save_step-Frame texts = search (frame_rules, save_texts-Frame)

  pub stamp_end-Frame : Keeps (Holds j o) (stamp_end env id)
  unfolding stamp_end
  stamp_end-Frame = search frame_rules

  ruleset end_rules = (frame_rules, save_step-Frame, stamp_end-Frame)

  pub fail_run-Frame :
      (message : Text) (texts : List Text) → Keeps (Holds j o) (fail_run env id message texts)
  unfolding fail_run
  fail_run-Frame message texts = search end_rules depth 20

  pub block_run-Frame : (texts : List Text) → Keeps (Holds j o) (block_run env id texts)
  unfolding block_run
  block_run-Frame texts = search end_rules depth 20

  pub skip_step-Frame : (reason : Text) → Keeps (Holds j o) (skip_step env id reason)
  unfolding skip_step
  skip_step-Frame reason = search end_rules depth 20

module _ {N X : Type 0} (env : Env N X) (j : Text) (o : Option StepResult) where
  pub before_review-Frame : Keeps (Holds j o) (before_review env)
  unfolding before_review
  before_review-Frame =
      Keeps-bind _ (Keeps-call _)
        λ diff. Keeps-bind _ (search keeps_rules) λ _. Keeps-edit_run _ λ r h. h

  pub after_ingest-Frame : (text : Text) → Keeps (Holds j o) (after_ingest env text)
  unfolding after_ingest
  after_ingest-Frame text = Keeps-bind _ (Keeps-modify _ λ w. refl) λ _. search keeps_rules

  pub after_planner-Frame : Keeps (Holds j o) (after_planner env)
  unfolding after_planner
  after_planner-Frame = Keeps-bind _ (Keeps-gets _) λ outside. Keeps-edit_run _ λ r h. h

  ensure_file-Frame : (name text : Text) → Keeps (Holds j o) (ensure_file env name text)
  unfolding ensure_file
  ensure_file-Frame name text = search keeps_rules

  announce_pr-Frame : (url : Option Text) → Keeps (Holds j o) (announce_pr env url)
  announce_pr-Frame none = search keeps_rules
  announce_pr-Frame (some url) = Keeps-bind _ (Keeps-edit_run _ λ r h. h) λ _. search keeps_rules

  pub after_reporter-Frame : (text : Text) → Keeps (Holds j o) (after_reporter env text)
  unfolding after_reporter
  after_reporter-Frame text = search (keeps_rules, ensure_file-Frame, announce_pr-Frame) depth 40

  attempt-Frame :
      {A : Type 0} (call_out : X → Outcome A × X) → Keeps (Holds j o) (attempt env call_out)
  attempt-Frame call_out = record { at = λ w h. h }

  landing_error-Frame : (files : List Text) → Keeps (Holds j o) (landing_error env files)
  unfolding landing_error
  landing_error-Frame files = search keeps_rules depth 10

module _ {N X : Type 0} (env : Env N X) (pipeline : PipelineDef N) (step : StepDef N) (j : Text)
    (o : Option StepResult) (apart : text_eq step.id j ≡ false) where
  obey-Frame :
      (question : Text) (texts : List Text) (decision : GateDecision) (action : Gates.Action)
      → Keeps (Holds j o) (obey env step question texts decision action)
  unfolding obey
  obey-Frame question texts decision Gates.block =
      search (keeps_rules, block_run-Frame env step.id j o apart) depth 20
  obey-Frame question texts decision Gates.fail =
      search (keeps_rules, fail_run-Frame env step.id j o apart) depth 20
  obey-Frame question texts decision _ = search keeps_rules

  handle_question-Frame :
      (question : Text) (texts : List Text)
      → Keeps (Holds j o) (handle_question env step question texts)
  unfolding handle_question
  handle_question-Frame question texts = Keeps-bind _ (Keeps-gets _) λ rounds.
      Keeps-bind _ (Keeps-edit_run _ λ r h. h)
        λ _. search (keeps_rules, edit_result-Frame env step.id j o apart, obey-Frame) depth 20

  pub answer_question-Frame :
      (question : Option Text) (texts : List Text)
      → Keeps (Holds j o) (answer_question env pipeline step question texts)
  unfolding answer_question
  answer_question-Frame none texts = search keeps_rules
  answer_question-Frame (some question) texts =
      search
        (
          keeps_rules,
          edit_result-Frame env step.id j o apart,
          fail_run-Frame env step.id j o apart,
          handle_question-Frame,
        )
        depth 20

  record_commit-Frame : (sha : Option Text) → Keeps (Holds j o) (record_commit env step.id sha)
  record_commit-Frame none = search keeps_rules
  record_commit-Frame (some sha) = edit_result-Frame env step.id j o apart _

  commit_landed-Frame :
      (section : Option Section) (template : Text) (result : ExecResult) (texts : List Text)
      (problem : Option Text)
      → Keeps (Holds j o) (commit_landed env step section template result texts problem)
  commit_landed-Frame section template result texts none =
      search (keeps_rules, record_commit-Frame) depth 20
  commit_landed-Frame section template result texts (some m) =
      search (keeps_rules, fail_run-Frame env step.id j o apart) depth 20

  commit_with-Frame :
      (section : Option Section) (result : ExecResult) (texts : List Text) (template : Option Text)
      → Keeps (Holds j o) (commit_with env step section result texts template)
  unfolding commit_with
  commit_with-Frame section result texts none = search keeps_rules
  commit_with-Frame section result texts (some t) =
      search (keeps_rules, landing_error-Frame env j o, commit_landed-Frame) depth 20

  pub commit_result-Frame :
      (section : Option Section) (result : ExecResult) (texts : List Text)
      → Keeps (Holds j o) (commit_result env step section result texts)
  unfolding commit_result
  commit_result-Frame section result texts =
      commit_with-Frame section result texts (given step.commit)

  commit_fix-Frame :
      (line : Text) (result : ExecResult) (problem : Option Text)
      → Keeps (Holds j o) (commit_fix env line result problem)
  commit_fix-Frame line result none = search keeps_rules depth 10
  commit_fix-Frame line result (some m) = search keeps_rules

  fix_and_commit-Frame :
      (line : Text) (result : ExecResult) (template : Option Text)
      → Keeps (Holds j o) (fix_and_commit env step line result template)
  fix_and_commit-Frame line result none = search keeps_rules
  fix_and_commit-Frame line result (some t) =
      search (keeps_rules, landing_error-Frame env j o, commit_fix-Frame) depth 20

  run_fixer-Frame :
      (executor : ExecutorKey) (line : Text) (prompt : Prompt)
      → Keeps (Holds j o) (run_fixer env step executor line prompt)
  run_fixer-Frame executor line prompt = search (keeps_rules, fix_and_commit-Frame) depth 20

  with_prompt-Frame :
      (executor : ExecutorKey) (line : Text) (prompt : Outcome Prompt)
      → Keeps (Holds j o) (with_prompt env step executor line prompt)
  with_prompt-Frame executor line (ok prompt) = run_fixer-Frame executor line prompt
  with_prompt-Frame executor line (raised (config_error m)) = search keeps_rules
  with_prompt-Frame executor line (raised e) = search keeps_rules

  spawn_fixer-Frame :
      (executor : ExecutorKey) (line : Text)
      → Keeps (Holds j o) (spawn_fixer env pipeline step executor line)
  unfolding spawn_fixer
  spawn_fixer-Frame executor line =
      Keeps-bind _ (attempt-Frame env j o _) λ prompt. with_prompt-Frame executor line prompt

  spawn_all-Frame :
      (executor : ExecutorKey) (lines : List Text) (spawned : ℕ)
      → Keeps (Holds j o) (spawn_all env pipeline step executor lines spawned)
  unfolding spawn_all
  spawn_all-Frame executor [] spawned = search keeps_rules
  spawn_all-Frame executor (line ∷ lines) spawned =
      Keeps-bind _ (edit_result-Frame env step.id j o apart _) λ _.
        Keeps-bind _ (Keeps-if (leb 2 spawned) (Keeps-pure _) (spawn_fixer-Frame executor line))
          λ _. spawn_all-Frame executor lines (if leb 2 spawned then spawned else suc spawned)

  pub spawn_defers-Frame :
      (executor : ExecutorKey) (lines : List Text) (spawned : ℕ)
      → Keeps (Holds j o) (spawn_defers env pipeline step executor lines spawned)
  unfolding spawn_defers
  spawn_defers-Frame executor lines spawned = search (keeps_rules, spawn_all-Frame)
