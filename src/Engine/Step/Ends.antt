-- ===== src/Engine/Step/Ends.antt =====
-- `_save_step`, and the ways in which `_run_step` ends a step early.
use ticket_bot.Prelude.{some, Text, codes, List, [], ◌∷◌, ◌++◌, join, text_in, if◌then◌else◌}
use ticket_bot.Core.Run.{RunStatus, blocked, failed, skipped, step_blocked, step_failed}
use ticket_bot.Engine.Env.{Env}
use ticket_bot.Engine.World.{
  Action, pure, read, edit_run, edit_result, save, write_artifact, ◌>>=◌, ◌>>◌,
}

-- What `_run_step` returns: 'continue' or 'stop'.
pub data StepOutcome : Type 0 where
  go_on stop : StepOutcome

abbrev pub set_status : {N X : Type 0} → RunStatus → Action N X (Unit {0})
set_status s = edit_run (λ run. record run { status = s })

-- `"\n\n---\n\n".join(texts) if len(texts) > 1 else texts[0]`
abbrev pub step_file : Text → Text
step_file id = codes "steps/" ++ (id ++ codes ".md")

abbrev pub add_artifact : Text → List Text → List Text
add_artifact rel artifacts = if text_in rel artifacts then artifacts else artifacts ++ (rel ∷ [])

module _ {N X : Type 0} (env : Env N X) where
  unfoldable pub save_texts : Text → List Text → Action N X (Unit {0})
  save_texts id [] = pure tt
  save_texts id (t ∷ ts) = do
    let text = join (codes "\n\n---\n\n") (t ∷ ts)
    edit_result id (λ sr. record sr { text = text })
    write_artifact env (step_file id) text
    edit_result id (λ sr. record sr { artifacts = add_artifact (step_file id) sr.artifacts })

  -- `_save_step`
  unfoldable pub save_step : Text → List Text → Action N X (Unit {0})
  unfolding save_texts
  save_step id texts = do save_texts id texts; save

  -- `sr.ended_at = _iso_now()`
  unfoldable pub stamp_end : Text → Action N X (Unit {0})
  stamp_end id = do
    now ← read env.adapters.iso_now
    edit_result id (λ sr. record sr { ended_at = some now })

  -- The step fails and so does the run.
  unfoldable pub fail_run : Text → Text → List Text → Action N X StepOutcome
  unfolding stamp_end save_step
  fail_run id message texts = do
    edit_result id (λ sr. record sr { status = step_failed; error = some message })
    stamp_end id
    set_status failed
    save_step id texts
    pure stop

  -- The step is blocked and so is the run.
  unfoldable pub block_run : Text → List Text → Action N X StepOutcome
  unfolding stamp_end save_step
  block_run id texts = do
    set_status blocked
    edit_result id (λ sr. record sr { status = step_blocked })
    stamp_end id
    save_step id texts
    pure stop

  -- A step whose `when:` does not hold.
  unfoldable pub skip_step : Text → Text → Action N X StepOutcome
  unfolding stamp_end
  skip_step id reason = do
    edit_result id (λ sr. record sr { status = skipped; text = reason })
    stamp_end id
    save
    pure go_on
