-- ===== src/Engine/Pipeline/Load.antt =====
-- `_step_from_dict` and `PipelineDef.load` of ticketbot/engine/pipeline.py, on the data of the file.
-- Keys that the checks do not look at are taken with the type that their annotation gives.
use ticket_bot.Prelude.{
  ℕ, Bool, true, false, ◌&&◌, Option, none, some, Text, codes, text_in, if◌then◌else◌, List, [],
  ◌∷◌, non_empty,
}
use ticket_bot.Prelude.Outcomes.{Outcome, ok, raised, config_error, predicate_error, ◌>>=◌}
use ticket_bot.Predicate.Values.{Python, dict, end}
use ticket_bot.Predicate.Rules.{When, evaluate_any}
use ticket_bot.Engine.Pipeline.{StepDef, PipelineDef}

-- One step of the file. `id` and `role` are absent where the key is, or where its value is falsy;
-- `keys` are all the keys of the mapping.
pub record RawStep (N : Type 0) : Type 0 where
  pub keys : List Text
  pub id : Option Text
  pub role : Option Text
  pub model : Option Text
  pub executor : Option Text
  pub tools : List Text
  pub condition : When N
  pub for_each : Option Text
  pub produces : List Text
  pub gate : Option Text
  pub commit : Option Text
  pub on_block : Option Text
  pub timeout_s : Option ℕ
  pub prompt : Option Text
  pub optional : Bool

pub data RawItem (N : Type 0) : Type 0 where
  mapping_item : RawStep N → RawItem N
  other_item : RawItem N

-- The value of `steps`: falsy (absent, null or empty), a list that is not empty, or anything else.
pub data RawSteps (N : Type 0) : Type 0 where
  no_steps not_a_list : RawSteps N
  step_list : RawItem N → List (RawItem N) → RawSteps N

pub record RawPipeline (N : Type 0) : Type 0 where
  pub name : Option Text
  pub default_model : Option Text
  pub default_executor : Option Text
  pub default_timeout_s : Option ℕ
  pub steps : RawSteps N
  pub on_question : Option Text
  pub on_defer : Option Text

-- `_VALID_STEP_KEYS`, `_VALID_GATES`, `_VALID_FOR_EACH`
abbrev pub valid_step_keys : List Text
valid_step_keys =
    codes "id"
    ∷ codes "role"
    ∷ codes "model"
    ∷ codes "executor"
    ∷ codes "tools"
    ∷ codes "when"
    ∷ codes "for_each"
    ∷ codes "produces"
    ∷ codes "gate"
    ∷ codes "isolation"
    ∷ codes "commit"
    ∷ codes "on_block"
    ∷ codes "timeout_s"
    ∷ codes "prompt"
    ∷ codes "optional"
    ∷ codes "max_rounds"
    ∷ []

abbrev pub valid_gates : List Text
valid_gates = codes "optional_human" ∷ codes "human" ∷ []

abbrev pub valid_for_each : List Text
valid_for_each = codes "plan.sections" ∷ []

unfoldable pub all_known : List Text → Bool
all_known [] = true
all_known (k ∷ ks) = text_in k valid_step_keys && all_known ks

-- Absent, or one of these.
unfoldable pub absent_or_in : Option Text → List Text → Bool
absent_or_in none valid = true
absent_or_in (some t) valid = text_in t valid

abbrev pub text_or : Option Text → Text → Text
text_or none t = t
text_or (some t) _ = t

abbrev pub refuse_unless : {A : Type 0} → Bool → Text → Outcome A → Outcome A
refuse_unless true message rest = rest
refuse_unless false message rest = raised (config_error message)

-- `except PredicateError as exc: raise ConfigError`
unfoldable pub checked_when : Outcome Bool → Outcome Bool
checked_when (raised (predicate_error message)) = raised (config_error (codes "invalid when"))
checked_when r = r

module _ {N : Type 0} (py : Python N) where
  abbrev pub make_step : RawStep N → StepDef N
  make_step raw = record {
    id = text_or raw.id [];
    role = text_or raw.role [];
    model = raw.model;
    executor = raw.executor;
    tools = raw.tools;
    condition = raw.condition;
    for_each = raw.for_each;
    produces = raw.produces;
    gate = raw.gate;
    commit = raw.commit;
    on_block = raw.on_block;
    timeout_s = raw.timeout_s;
    prompt = raw.prompt;
    optional = raw.optional;
  }

  unfoldable pub step_from_mapping : RawStep N → List Text → Outcome (StepDef N)
  unfolding all_known absent_or_in checked_when
  step_from_mapping raw seen_ids =
      refuse_unless (all_known raw.keys) (codes "step has unknown key(s)") (
        refuse_unless (non_empty (text_or raw.id [])) (codes "step is missing a required 'id'") (
          if text_in (text_or raw.id []) seen_ids
          then raised (config_error (codes "duplicate step id"))
          else refuse_unless (non_empty (text_or raw.role []))
              (codes "step is missing a required 'role'")
              (refuse_unless (absent_or_in raw.for_each valid_for_each)
                (codes "step has an unsupported for_each")
                (checked_when (evaluate_any py raw.condition (dict end)) >>= λ _.
                  refuse_unless (absent_or_in raw.gate valid_gates)
                    (codes "step has an unknown gate") (ok (make_step raw))))))

  -- `_step_from_dict`
  unfoldable pub step_from_dict : RawItem N → List Text → Outcome (StepDef N)
  unfolding step_from_mapping
  step_from_dict (mapping_item raw) seen_ids = step_from_mapping raw seen_ids
  step_from_dict other_item seen_ids = raised (config_error (codes "step must be a mapping"))

  -- The loop of `load`; `seen_ids` is a set.
  unfoldable pub load_steps : List (RawItem N) → List Text → Outcome (List (StepDef N))
  unfolding step_from_dict
  load_steps [] seen_ids = ok []
  load_steps (raw ∷ raws) seen_ids = do
    step ← step_from_dict raw seen_ids
    steps ← load_steps raws (step.id ∷ seen_ids)
    ok (step ∷ steps)

  unfoldable pub load_raw_steps : RawSteps N → Outcome (List (StepDef N))
  unfolding load_steps
  load_raw_steps no_steps = raised (config_error (codes "pipeline has no steps"))
  load_raw_steps not_a_list = raised (config_error (codes "'steps' must be a list"))
  load_raw_steps (step_list raw raws) = load_steps (raw ∷ raws) []

  -- `str(data.get("name") or path.stem)`
  abbrev pub name_or : Option Text → Text → Text
  name_or none stem = stem
  name_or (some name) stem = if non_empty name then name else stem

  -- `PipelineDef.load`, behind `resolve_ref` and `load_yaml`.
  unfoldable pub load : Text → Text → RawPipeline N → Outcome (PipelineDef N)
  unfolding load_raw_steps
  load ref stem data_of = do
    steps ← load_raw_steps data_of.steps
    ok (record {
      name = name_or data_of.name stem;
      default_model = data_of.default_model;
      default_executor = data_of.default_executor;
      default_timeout_s = data_of.default_timeout_s;
      steps = steps;
      on_question = text_or data_of.on_question (codes "pause_and_relay");
      on_defer = text_or data_of.on_defer (codes "spawn_fixer");
      ref = ref;
    })
