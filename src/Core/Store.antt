-- ===== src/Core/Store.antt =====
-- `RunStore` of ticketbot/core/run.py: `run.json` of each run. Formatting a date, random bytes and the
-- text of JSON are parameters.
pub mod Kept
use ticket_bot.Prelude.{
  text_before_or_eq, ℕ, Bool, true, false, ◌&&◌, Option, none, some, is_some, Text, codes, text_eq,
  if◌then◌else◌, List, [], ◌∷◌, ◌++◌, Dict, lookup, insert,
}
use ticket_bot.Prelude.Trim.{take}
use ticket_bot.Prelude.Outcomes.{Outcome, ok, raised, file_not_found, ◌>>=◌}
use ticket_bot.Predicate.Values.{Value, Fields}
use ticket_bot.Core.Run.{Run, Extra, received}
use ticket_bot.Core.WorkItem.{WorkItem, key}
use ticket_bot.Core.Slug.{slugify}
use ticket_bot.Core.Json.{Numbers}
use ticket_bot.Core.Json.Runs.{run_to_dict, run_from_dict}

-- `json.dumps` and `json.load`, and the numbers in them.
pub record Json (N : Type 0) : Type 0 where
  pub numbers : Numbers N
  pub dumps : Fields N → Text
  pub loads : Text → Outcome (Fields N)

-- The files `run.json` and `run.json.tmp` of a directory below the root.
pub record RunDir : Type 0 where
  pub run_json : Option Text
  pub run_json_tmp : Option Text

-- The directories below the root, by name.
abbrev pub Root : Type 0
Root = Dict RunDir

-- `new_id`, from the date of `strftime("%Y-%m-%d-%H%M")` and the digits of `token_hex(2)`.
unfoldable pub new_id : (Text → Text) → Text → Text → Text → Text
unfolding slugify
new_id to_ascii timestamp hex item_key =
    timestamp ++ (codes "-" ++ (slugify to_ascii item_key 40 ++ (codes "-" ++ hex)))

-- `new_run` for a work item: its key, its external id, and the two texts of the date.
unfoldable pub new_run : (Text → Text) → Text → Text → Text → Option Text → Text → Text → Run
unfolding new_id
new_run to_ascii profile_name hex item_key external_id timestamp iso = record {
  id = new_id to_ascii timestamp hex item_key;
  profile_name = profile_name;
  work_item_key = item_key;
  external_id = external_id;
  status = received;
  created_at = iso;
  updated_at = iso;
  pipeline_ref = [];
  pipeline_reason = [];
  banner = [];
  cost_usd = 0;
  steps = [];
  extra = record {
    branch = none;
    workspace = none;
    pr_url = none;
    run_error = none;
    clarify_rounds = none;
    section_count = none;
    plan_security = none;
    diff_files = none;
    diff_touches_security = none;
    screenshots = [];
  };
}

abbrev pub or_empty_dir : Option RunDir → RunDir
or_empty_dir none = record { run_json = none; run_json_tmp = none }
or_empty_dir (some d) = d

-- `dir`
unfoldable pub run_dir : Text → Root → RunDir
run_dir id root = or_empty_dir (lookup id root)

-- The temporary file with a text in it, as `write` leaves it.
unfoldable pub write_tmp : Text → Text → Root → Root
unfolding run_dir
write_tmp id text root = insert id (record (run_dir id root) { run_json_tmp = some text }) root

-- `os.replace`: in one step, or not at all.
unfoldable pub replace_json : Text → Root → Root
unfolding run_dir
replace_json id root =
    insert id (record { run_json = (run_dir id root).run_json_tmp; run_json_tmp = none }) root

module _ {N : Type 0} (json : Json N) where
  unfoldable pub payload : Run → Text
  unfolding run_to_dict
  payload run = json.dumps (run_to_dict json.numbers run)

  -- A `save` that was cut off after the first `n` characters of the temporary file.
  unfoldable pub save_cut_off : ℕ → Run → Root → Root
  unfolding write_tmp payload
  save_cut_off n run root = write_tmp run.id (take n (payload run)) root

  -- `save`
  unfoldable pub save_run : Run → Root → Root
  unfolding write_tmp payload replace_json
  save_run run root = replace_json run.id (write_tmp run.id (payload run) root)

  abbrev pub read_run : Option Text → Outcome Run
  unfolding run_from_dict
  read_run none = raised file_not_found
  read_run (some text) = json.loads text >>= run_from_dict json.numbers

  abbrev pub read_dir : Option RunDir → Outcome Run
  read_dir none = raised file_not_found
  read_dir (some d) = read_run d.run_json

  -- `load`
  unfoldable pub load_run : Text → Root → Outcome Run
  load_run id root = read_dir (lookup id root)

-- `sorted` of the names.
unfoldable pub insert_id : Text → List Text → List Text
unfolding text_before_or_eq
insert_id id [] = id ∷ []
insert_id id (j ∷ ids) =
    let rest = insert_id id ids in if text_before_or_eq id j then id ∷ j ∷ ids else j ∷ rest

-- `list_ids`
unfoldable pub list_ids : Root → List Text
unfolding insert_id
list_ids [] = []
list_ids ((id, d) ∷ root) =
    let rest = list_ids root in if is_some d.run_json then insert_id id rest else rest

abbrev pub last_id : List Text → Option Text
last_id [] = none
last_id (id ∷ []) = some id
last_id (id ∷ j ∷ ids) = last_id (j ∷ ids)

-- `latest`
unfoldable pub latest : {N : Type 0} → Json N → Root → Outcome (Option Run)
unfolding list_ids load_run
latest json root = load_last (last_id (list_ids root))
  where
    load_last : Option Text → Outcome (Option Run)
    load_last none = ok none
    load_last (some id) = load_run json id root >>= λ run. ok (some run)
