-- ===== src/Core/Run.antt =====
-- ticketbot/core/run.py: the state of one ticket-to-PR run.
pub mod Steps
use ticket_bot.Prelude.{
  ℕ, Bool, true, false, not, ◌||◌, ◌&&◌, Option, none, some, Text, codes, text_eq, ◌==◌,
  if◌then◌else◌, List, [], ◌∷◌, Dict, lookup, insert, map, starts_with, split_on, text_in,
}
use ticket_bot.Prelude.Outcomes.{Outcome, ok, raised, value_error}

pub data RunStatus : Type 0 where
  received clarifying planning implementing verifying pr_open blocked done failed : RunStatus

pub data StepStatus : Type 0 where
  pending ok_status skipped step_blocked step_failed : StepStatus

-- `status.value`
unfoldable pub status_value : RunStatus → Text
status_value received = codes "received"
status_value clarifying = codes "clarifying"
status_value planning = codes "planning"
status_value implementing = codes "implementing"
status_value verifying = codes "verifying"
status_value pr_open = codes "pr_open"
status_value blocked = codes "blocked"
status_value done = codes "done"
status_value failed = codes "failed"

-- Durations in milliseconds, money in micro-dollars.
pub record StepResult : Type 0 where
  pub id : Text
  pub role : Text
  pub status : StepStatus
  pub started_at : Option Text
  pub ended_at : Option Text
  pub duration_s : ℕ
  pub cost_usd : ℕ
  pub text : Text
  pub artifacts : List Text
  pub commits : List Text
  pub question : Option Text
  pub defers : List Text
  pub error : Option Text

-- `run.extra`, with a field for each key that the engine writes.
pub record Extra : Type 0 where
  pub branch : Option Text
  pub workspace : Option Text
  pub pr_url : Option Text
  pub run_error : Option Text
  pub clarify_rounds : Option ℕ
  pub section_count : Option ℕ
  pub plan_security : Option Text
  pub diff_files : Option ℕ
  pub diff_touches_security : Option Bool
  pub screenshots : List Text

pub record Run : Type 0 where
  pub id : Text
  pub profile_name : Text
  pub work_item_key : Text
  pub external_id : Option Text
  pub status : RunStatus
  pub created_at : Text
  pub updated_at : Text
  pub pipeline_ref : Text
  pub pipeline_reason : Text
  pub banner : Text
  pub cost_usd : ℕ
  pub steps : Dict StepResult
  pub extra : Extra

-- `StepResult(id=step_id)`
abbrev pub new_step : Text → StepResult
new_step id = record {
  id = id;
  role = [];
  status = pending;
  started_at = none;
  ended_at = none;
  duration_s = 0;
  cost_usd = 0;
  text = [];
  artifacts = [];
  commits = [];
  question = none;
  defers = [];
  error = none;
}

abbrev pub or_new : Text → Option StepResult → StepResult
or_new id none = new_step id
or_new id (some sr) = sr

-- `run.step(step_id)`: the result object that the run holds, a new one if there is none.
unfoldable pub step : Run → Text → StepResult
step run id = or_new id (lookup id run.steps)

-- A write to that object, through the reference that `run.step` returned.
unfoldable pub edit_step : Text → (StepResult → StepResult) → Run → Run
unfolding step
edit_step id f run = record run { steps = insert id (f (step run id)) run.steps }

unfoldable pub is_done_status : StepStatus → Bool
is_done_status ok_status = true
is_done_status skipped = true
is_done_status _ = false

unfoldable pub complete_result : Option StepResult → Bool
unfolding is_done_status
complete_result none = false
complete_result (some sr) = is_done_status sr.status

-- `run.is_complete(step_id)`
unfoldable pub is_complete : Run → Text → Bool
unfolding complete_result
is_complete run id = complete_result (lookup id run.steps)

abbrev pub unix_sep : ℕ → ℕ
unix_sep c = if c == 92 then b'/' else c

-- `_jailed_relpath`, on a POSIX path; the path is not normalised further.
unfoldable pub jailed_relpath : Text → Outcome Text
jailed_relpath relpath =
    let rel = map unix_sep relpath in
    if starts_with rel (codes "/")
    then raised (value_error (codes "relpath must be relative"))
    else if text_in (codes "..") (split_on b'/' rel)
    then raised (value_error (codes "relpath must not contain '..'"))
    else ok rel
