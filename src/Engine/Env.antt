-- ===== src/Engine/Env.antt =====
-- What the run loop is given: the profile's settings, and the adapters, files and clocks that it
-- calls, as functions on an outside state `X`. An adapter may raise.
use ticket_bot.Prelude.{ℕ, Bool, Option, Text, List, Dict}
use ticket_bot.Prelude.Outcomes.{Exn, Outcome}
use ticket_bot.Predicate.Values.{Python}
use ticket_bot.Predicate.Rules.{Spec}
use ticket_bot.Core.WorkItem.{WorkItem, Ambiguity}
use ticket_bot.Engine.Budget.{BudgetConfig}
use ticket_bot.Engine.Gates.{GatesConfig}
use ticket_bot.Engine.Pipeline.{PipelineDef}

-- A call that may raise, and one that does not.
abbrev pub Op : Type 0 → Type 0 → Type 0
Op X A = X → Outcome A × X

abbrev pub Read : Type 0 → Type 0 → Type 0
Read X A = X → A × X

-- One entry of `sections` in `_run_step`.
pub record Section : Type 0 where
  pub file : Text
  pub title : Text
  pub index : ℕ
  pub count : ℕ

pub record Prompt : Type 0 where
  pub system : Text
  pub body : Text

-- The executor kind and, for `api`, the model slot: the key under which `_executor` caches.
pub record ExecutorKey : Type 0 where
  pub kind : Text
  pub slot : Option Text

-- ExecRequest of ticketbot/executors/base.py, less the paths and texts that are the same for the
-- whole run.
pub record ExecRequest : Type 0 where
  pub prompt : Prompt
  pub tools : List Text
  pub produces : List Text
  pub timeout_s : ℕ
  pub max_cost_usd : Option ℕ
  pub step_id : Text
  pub model : Option Text

-- ExecResult of ticketbot/executors/base.py; `cost_usd` is that of its usage.
pub record ExecResult : Type 0 where
  pub text : Text
  pub cost_usd : ℕ
  pub files_written : List Text
  pub question : Option Text
  pub defers : List Text
  pub error : Option Text

-- What the ingest step's JSON says: `acceptance` and `ambiguity`, each where it is there and valid.
pub record Ingested : Type 0 where
  pub acceptance : Option Text
  pub ambiguity : Option Ambiguity

-- A kind of executor in the profile: whether its type is `api`, and the model slot it names.
pub record ExecutorKind : Type 0 where
  pub is_api : Bool
  pub model : Option Text

pub record SelectorRule (N : Type 0) : Type 0 where
  pub condition : Spec N
  pub use_ref : Text

pub record Profile (N : Type 0) : Type 0 where
  pub name : Text
  pub gates : GatesConfig
  pub budget : BudgetConfig
  pub executor_default : Text
  pub executor_kinds : Dict ExecutorKind
  pub model_default : Text
  pub model_slots : List Text
  pub screenshot_on : List Text
  pub selector_rules : List (SelectorRule N)
  pub selector_default : Text
  pub interactive : Bool
  pub pause_at : Option Text

pub record Adapters (N X : Type 0) : Type 0 where
  pub iso_now : Read X Text
  pub monotonic : Read X ℕ
  pub load_pipeline : Text → Op X (PipelineDef N)
  pub load_prompt : Text → Option Text → Option Section → Op X Prompt
  pub render_commit : Text → Option Section → Text
  pub run_executor : ExecutorKey → ExecRequest → Op X ExecResult
  pub verify_landed : List Text → Op X (List Text)
  pub drifted : Op X (List Text)
  pub landing_message : List Text → List Text → Text
  pub repo_branch_name : WorkItem N → Text
  pub repo_checkout : Text → Op X Text
  pub repo_diff : Op X Text
  pub repo_commit : Text → Text → Op X (Option Text)
  pub repo_push : Op X (Unit {0})
  pub repo_open_pr : Text → Text → Op X (Option Text)
  pub repo_cleanup : Op X (Unit {0})
  pub sink_comment : Text → Op X (Unit {0})
  pub sink_unassign : Op X (Unit {0})
  pub sink_transition : Text → Op X (Unit {0})
  pub sink_link : Text → Text → Op X (Unit {0})
  pub sink_set_pr_url : Text → Op X (Unit {0})
  pub source_claim : Op X Bool
  pub runtime_start : Op X (Unit {0})
  pub runtime_stop : Op X (Unit {0})
  pub screenshot : Op X (Option Text)
  pub count_shots : Text → X → ℕ
  pub shot_name : Text → ℕ → Text
  pub list_sections : X → List (Text × Text)
  pub read_file : Text → X → Option Text
  pub write_file : Text → Text → X → X
  pub scrub : Text → Text
  pub item_json : WorkItem N → Text
  pub banner_text : WorkItem N → Text → Text → Text
  pub parse_ingest : Text → Ingested
  pub security_answer : Text → Option Text
  pub message_of : Exn → Text

pub record Env (N X : Type 0) : Type 0 where
  pub python : Python N
  pub profile : Profile N
  pub adapters : Adapters N X
