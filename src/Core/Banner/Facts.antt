-- ===== src/Core/Banner/Facts.antt =====
-- The facts of a banner, ticketbot/core/banner.py: of a work item, and of a profile alone. Names of
-- models are ASCII; `int_of` is Python's `int` of a finite number.
use ticket_bot.Prelude.{
  ℕ, Option, none, some, Text, codes, text_eq, ◌-◌, ◌&&◌, leb, lower, if◌then◌else◌, List, [], ◌∷◌,
  ◌++◌, join, non_empty, map, split_on, lookup,
}
use ticket_bot.Predicate.Values.{str_items, Value, Python, null, str, num, list, cons, truthy}
use ticket_bot.Config.Schema.{AdapterConfig, ModelConfig, ExecutorConfig, opt}
use ticket_bot.Core.WorkItem.{WorkItem}
use ticket_bot.Core.Banner.{BannerFacts}

-- The blocks of a profile that `facts_from_profile` reads.
pub record BannerProfile (N : Type 0) : Type 0 where
  pub pipeline_default : Text
  pub model : ModelConfig N
  pub executor : ExecutorConfig N
  pub runtime : AdapterConfig N
  pub repo : AdapterConfig N

abbrev space : Text
space = 32 ∷ []

abbrev upper_code : ℕ → ℕ
upper_code c = if leb 97 c && leb c 122 then c - 32 else c

-- `s.capitalize()`
unfoldable pub capitalize : Text → Text
unfolding lower
capitalize [] = []
capitalize (c ∷ s) = upper_code c ∷ lower s

unfoldable pub capitalized_parts : List Text → List Text
unfolding capitalize
capitalized_parts [] = []
capitalized_parts (p ∷ ps) =
    let rest = capitalized_parts ps in if non_empty p then capitalize p ∷ rest else rest

-- `_prettify_model_id`
unfoldable pub prettify_model_id : Text → Text
unfolding split_on capitalized_parts join
prettify_model_id model_id = join space (capitalized_parts (split_on b'-' model_id))

module _ {N : Type 0} (py : Python N) where
  unfoldable pub format_points : (N → N) → N → Text
  format_points int_of points =
      if py.num_eq points (int_of points)
      then py.str_of (num (int_of points))
      else py.str_of (num points)

  abbrev pub parenthetical : (N → N) → Option N → Text → Text
  unfolding format_points
  parenthetical int_of none issue_type = codes "(" ++ (issue_type ++ codes ")")
  parenthetical int_of (some points) issue_type =
      codes "(" ++ (format_points int_of points ++ (codes " points, " ++ (issue_type ++ codes ")")))

  abbrev pub no_id_head : Text → Text → Text
  no_id_head source_kind title = source_kind ++ (codes " \"" ++ (title ++ codes "\""))

  abbrev pub head_of : Text → Option Text → Text → Text
  head_of source_kind none title = no_id_head source_kind title
  head_of source_kind (some []) title = no_id_head source_kind title
  head_of source_kind (some (c ∷ id)) title =
      source_kind ++ (space ++ ((c ∷ id) ++ (codes " \"" ++ (title ++ codes "\""))))

  -- `source_fact`
  unfoldable pub source_fact : (N → N) → WorkItem N → Text → Text
  source_fact int_of item source_kind =
      head_of source_kind item.external_id item.title
      ++ (space ++ parenthetical int_of item.story_points item.issue_type)

  -- `_describe_model`
  unfoldable pub describe_model : AdapterConfig N → Text
  unfolding opt prettify_model_id text_eq
  describe_model cfg =
      let model_id = py.str_of (opt cfg (codes "model") (str cfg.type)) in
      if text_eq cfg.type (codes "anthropic")
      then prettify_model_id model_id
      else model_id ++ (codes " (" ++ (cfg.type ++ codes ")"))

  abbrev pub command_line : Value N → Text
  unfolding str_items join
  command_line (list (cons v vs)) = codes "process: " ++ join space (str_items py (cons v vs))
  command_line _ = codes "process"

  -- `_describe_executor`
  unfoldable pub describe_executor : AdapterConfig N → Text
  unfolding opt text_eq truthy
  describe_executor cfg =
      let slot = opt cfg (codes "model") null in
      if text_eq cfg.type (codes "process")
      then command_line (opt cfg (codes "cmd") null)
      else if text_eq cfg.type (codes "api")
      then if truthy py slot then codes "api: " ++ py.str_of slot else codes "api"
      else cfg.type

  unfoldable pub str_if_truthy : Value N → List Text → List Text
  unfolding truthy
  str_if_truthy v rest = if truthy py v then py.str_of v ∷ rest else rest

  abbrev pub with_extra : Text → List Text → Text
  unfolding join
  with_extra type [] = type
  with_extra type (e ∷ es) = type ++ (space ++ join space (e ∷ es))

  -- `_describe_runtime`
  unfoldable pub describe_runtime : AdapterConfig N → Text
  unfolding opt str_if_truthy
  describe_runtime cfg = with_extra cfg.type (
      str_if_truthy (opt cfg (codes "mode") null)
        (str_if_truthy (opt cfg (codes "resolution") null) []))

  -- `_describe_repo`
  unfoldable pub describe_repo : AdapterConfig N → Text
  unfolding opt truthy
  describe_repo cfg =
      let clone = opt cfg (codes "clone") null in
      let detail = if truthy py clone then clone else opt cfg (codes "path") null in
      if truthy py detail
      then cfg.type ++ (codes " (" ++ (py.str_of detail ++ codes ")"))
      else cfg.type

  abbrev pub slot_text : Text × AdapterConfig N → Text
  unfolding describe_model
  slot_text (slot, cfg) = slot ++ (codes ":" ++ describe_model cfg)

  abbrev pub executor_fact : Option (AdapterConfig N) → Text
  unfolding describe_executor
  executor_fact none = []
  executor_fact (some cfg) = describe_executor cfg

  -- `facts_from_profile`
  unfoldable pub facts_from_profile : BannerProfile N → BannerFacts
  unfolding lookup describe_runtime describe_repo
  facts_from_profile profile = record {
    source = [];
    pipeline = profile.pipeline_default;
    models = map slot_text profile.model.providers;
    executor = executor_fact (lookup profile.executor.default profile.executor.kinds);
    runtime = describe_runtime profile.runtime;
    repo = describe_repo profile.repo;
  }
