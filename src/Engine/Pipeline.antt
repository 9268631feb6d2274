-- ===== src/Engine/Pipeline.antt =====
-- ticketbot/engine/pipeline.py: a pipeline and its steps, and the checks of a loaded file.
pub mod Load
pub mod Valid
pub mod Runnable
use ticket_bot.Prelude.{ℕ, Bool, Option, Text, List}
use ticket_bot.Predicate.Rules.{When}

-- `isolation` and `max_rounds` are informational, and read by nothing.
pub record StepDef (N : Type 0) : Type 0 where
  pub id : Text
  pub role : Text
  pub model : Option Text
  pub executor : Option Text
  pub tools : List Text
  pub condition : When N
  pub for_each : Option Text
  pub produces : List Text
  pub gate : Option Text
  pub commit : Option Text
  pub on_block : Option Text
  pub timeout_s : Option ℕ
  pub prompt : Option Text
  pub optional : Bool

-- The keys of `defaults` that the engine reads are fields.
pub record PipelineDef (N : Type 0) : Type 0 where
  pub name : Text
  pub default_model : Option Text
  pub default_executor : Option Text
  pub default_timeout_s : Option ℕ
  pub steps : List (StepDef N)
  pub on_question : Text
  pub on_defer : Text
  pub ref : Text
