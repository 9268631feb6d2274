-- ===== src/Core/Run/Steps.antt =====
-- How the results of a run's steps change.
use ticket_bot.Prelude.{
  ◌≡◌, some, Text, text_eq, if◌then◌else◌, lookup, lookup-insert, lookup-insert_self,
}
use ticket_bot.Core.Run.{Run, StepResult, step, edit_step}

-- A write to one step's result shows at that step, and leaves every other step's result alone.
pub lookup-edit_step :
    (id j : Text) (f : StepResult → StepResult) (run : Run)
    → lookup j (edit_step id f run).steps
      ≡ (if text_eq id j then some (f (step run id)) else lookup j run.steps)
unfolding edit_step
lookup-edit_step id j f run = lookup-insert id j (f (step run id)) run.steps

pub lookup-edit_step_self :
    (id : Text) (f : StepResult → StepResult) (run : Run)
    → lookup id (edit_step id f run).steps ≡ some (f (step run id))
unfolding edit_step
lookup-edit_step_self id f run = lookup-insert_self id (f (step run id)) run.steps
