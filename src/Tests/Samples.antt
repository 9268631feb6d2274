-- ===== src/Tests/Samples.antt =====
-- A number type, adapters, a profile and a pipeline for the tests: the outside state is a clock.
use ticket_bot.Prelude.{
  ℕ, suc, ltb, leb, ◌==◌, true, false, none, some, Text, codes, [], ◌∷◌, if◌then◌else◌,
}
use ticket_bot.Prelude.Outcomes.{ok, raised, config_error}
use ticket_bot.Predicate.Values.{end, Python, str}
use ticket_bot.Predicate.Rules.{absent, bare}
use ticket_bot.Core.Run.{Run, received}
use ticket_bot.Core.WorkItem.{WorkItem}
use ticket_bot.Engine.Budget.{new_budget}
use ticket_bot.Engine.Pipeline.{StepDef, PipelineDef}
use ticket_bot.Engine.Env.{Env, Adapters, Profile, ExecResult}
use ticket_bot.Engine.World.{World}
use ticket_bot.Engine.Gates.{comment_only, human_review}
use ticket_bot.Core.Run.{StepResult, new_step, ok_status}

abbrev pub py : Python ℕ
py = record {
  num_lt = ltb;
  num_le = leb;
  num_eq = λ a b. a == b;
  is_zero = λ n. n == 0;
  of_bool = λ b. if b then 1 else 0;
  of_nat = λ n. n;
  of_literal = λ t. 5;
  parse_float = λ t. none;
  to_float = λ n. some n;
  str_of = λ v. [];
  attribute = λ v t. none;
}

abbrev result : ExecResult
result = record {
  text = codes "ok";
  cost_usd = 5;
  files_written = [];
  question = none;
  defers = [];
  error = none;
}

abbrev adapters : Adapters ℕ ℕ
adapters = record {
  iso_now = λ x. (codes "now", x);
  monotonic = λ x. (x, suc x);
  load_pipeline = λ ref x. (raised (config_error []), x);
  load_prompt = λ ref line section x. (ok (record { system = []; body = [] }), x);
  render_commit = λ template section. template;
  run_executor = λ key request x. (ok result, x);
  verify_landed = λ files x. (ok [], x);
  drifted = λ x. (ok [], x);
  landing_message = λ missing drifted. [];
  repo_branch_name = λ item. [];
  repo_checkout = λ branch x. (ok [], x);
  repo_diff = λ x. (ok [], x);
  repo_commit = λ message body x. (ok none, x);
  repo_push = λ x. (ok tt, x);
  repo_open_pr = λ title body x. (ok none, x);
  repo_cleanup = λ x. (ok tt, x);
  sink_comment = λ text x. (ok tt, x);
  sink_unassign = λ x. (ok tt, x);
  sink_transition = λ state x. (ok tt, x);
  sink_link = λ url title x. (ok tt, x);
  sink_set_pr_url = λ url x. (ok tt, x);
  source_claim = λ x. (ok true, x);
  runtime_start = λ x. (ok tt, x);
  runtime_stop = λ x. (ok tt, x);
  screenshot = λ x. (ok none, x);
  count_shots = λ id x. 0;
  shot_name = λ id n. [];
  list_sections = λ x. [];
  read_file = λ name x. none;
  write_file = λ name content x. x;
  scrub = λ t. t;
  item_json = λ item. [];
  banner_text = λ item ref branch. [];
  parse_ingest = λ text. record { acceptance = none; ambiguity = none };
  security_answer = λ plan. none;
  message_of = λ e. codes "capped";
}

abbrev pub profile : Profile ℕ
profile = record {
  name = codes "default";
  gates = record { on_unclear = comment_only; on_pr_ready = human_review; max_clarify_rounds = 2 };
  budget = record { max_cost_usd = some 100; max_wall_clock_s = some 3600 };
  executor_default = codes "stub";
  executor_kinds = (codes "stub", record { is_api = false; model = none }) ∷ [];
  model_default = codes "main";
  model_slots = codes "main" ∷ [];
  screenshot_on = [];
  selector_rules =
      record {
        condition = (codes "workitem.title", bare (str (codes "t"))) ∷ [];
        use_ref = codes "small";
      }
      ∷ [];
  selector_default = codes "standard";
  interactive = false;
  pause_at = none;
}

abbrev pub env : Env ℕ ℕ
env = record { python = py; profile = profile; adapters = adapters }

abbrev pub step_of : Text → StepDef ℕ
step_of id = record {
  id = id;
  role = codes "coder";
  model = none;
  executor = none;
  tools = [];
  condition = absent;
  for_each = none;
  produces = [];
  gate = none;
  commit = none;
  on_block = none;
  timeout_s = none;
  prompt = none;
  optional = false;
}

abbrev pub plan_step : StepDef ℕ
plan_step = step_of (codes "plan")

abbrev pub test_step : StepDef ℕ
test_step = step_of (codes "test")

abbrev pub two_steps : PipelineDef ℕ
two_steps = record {
  name = codes "p";
  default_model = none;
  default_executor = none;
  default_timeout_s = none;
  steps = plan_step ∷ test_step ∷ [];
  on_question = codes "pause_and_relay";
  on_defer = codes "spawn_fixer";
  ref = codes "p";
}

abbrev pub new_run : Run
new_run = record {
  id = codes "r";
  profile_name = codes "default";
  work_item_key = codes "K";
  external_id = none;
  status = received;
  created_at = [];
  updated_at = [];
  pipeline_ref = [];
  pipeline_reason = [];
  banner = [];
  cost_usd = 0;
  steps = [];
  extra = record {
    branch = none;
    workspace = none;
    pr_url = none;
    run_error = none;
    clarify_rounds = none;
    section_count = none;
    plan_security = none;
    diff_files = none;
    diff_touches_security = none;
    screenshots = [];
  };
}

abbrev pub work_item : WorkItem ℕ
work_item = record {
  id = codes "K";
  title = codes "t";
  description = [];
  external_id = none;
  issue_type = codes "bug";
  story_points = some 3;
  labels = [];
  acceptance = [];
  status = none;
  assignee = none;
  url = none;
  comments = [];
  attachments = [];
  ambiguity = none;
  source_ref = [];
  raw = end;
}

abbrev world_of : Run → World ℕ ℕ
world_of run = record {
  run = run;
  saved = none;
  budget = new_budget (record { max_cost_usd = some 100; max_wall_clock_s = some 3600 });
  item = work_item;
  outside = 0;
}

abbrev pub new_world : World ℕ ℕ
new_world = world_of new_run

abbrev finished_result : Text → StepResult
finished_result id = record (new_step id) { status = ok_status }

-- Both steps have been run.
abbrev pub finished_world : World ℕ ℕ
finished_world = world_of (record new_run {
  steps =
      (codes "plan", finished_result (codes "plan"))
      ∷ (codes "test", finished_result (codes "test"))
      ∷ [];
})
