-- ===== src/Adapters/Files.antt =====
-- `FileSource` of ticketbot/adapters/sources/file.py. The files are those of a state of the disk, YAML
-- is read by `safe_load`.
pub mod Kept
use ticket_bot.Prelude.{
  ℕ, Bool, true, false, Option, none, some, Text, codes, text_eq, text_in, or_else, List, [], ◌∷◌,
  ◌++◌, strip, split_on, non_empty,
}
use ticket_bot.Prelude.Trim.{take}
use ticket_bot.Prelude.Outcomes.{Outcome, ok, raised, adapter_error, yaml_error, ◌>>=◌}
use ticket_bot.Predicate.Compare.{float_or_overflow}
use ticket_bot.Predicate.Values.{
  shown, Value, Items, Fields, Python, missing, null, bool, num, str, list, dict, nil, cons, end,
  field, get_field, truthy,
}
use ticket_bot.Core.FrontMatter.{is_dashes, front_matter, first_heading}
use ticket_bot.Core.WorkItem.{WorkItem}
use ticket_bot.Core.Slug.{slugify}

-- `_KNOWN_FRONT_MATTER_KEYS`
abbrev pub known_keys : List Text
known_keys =
    codes "key"
    ∷ codes "title"
    ∷ codes "type"
    ∷ codes "points"
    ∷ codes "labels"
    ∷ codes "acceptance"
    ∷ codes "url"
    ∷ codes "status"
    ∷ codes "assignee"
    ∷ []

-- The paths and files that the source asks for; `none` stands for an OSError.
pub record Disk (X : Type 0) : Type 0 where
  pub is_file : Text → X → Bool
  pub read_text : Text → X → Option Text
  pub resolve : Text → X → Option Text
  pub glob_by_mtime : Text → X → Option (List Text)
  pub is_relative_to : Text → Text → Bool
  pub stem : Text → Text
  pub name : Text → Text
  pub under : Text → Text → Text
  pub make_dir : Text → X → X
  pub replace : Text → Text → X → X

-- The options of the source, with `base_dir`; `_resolve` is `under base_dir`.
pub record FileOptions : Type 0 where
  pub base_dir : Text
  pub path : Option Text
  pub text : Option Text
  pub glob : Text
  pub processed_dir : Text

abbrev pub source_error : {A : Type 0} → Text → Text → Outcome A
source_error problem ref = raised (adapter_error (codes "file source: " ++ (problem ++ ref)))

-- The first line that is not blank, cut.
unfoldable pub first_line : List Text → Option Text
unfolding strip take
first_line [] = none
first_line (l ∷ ls) = elim (non_empty (strip l)) [
  | true ↦ some (take 120 (strip l))
  | false ↦ first_line ls
]

module _ {N X : Type 0} (py : Python N) (safe_load : Text → Outcome (Value N)) (ascii : Text → Text)
    (disk : Disk X) where
  -- `_clean_str`
  abbrev pub clean_str : Option (Value N) → Option Text
  clean_str none = none
  clean_str (some null) = none
  clean_str (some v) = some (shown py v)

  abbrev pub text_of : Option (Value N) → Text → Text
  text_of v default = elim (clean_str v) [ none ↦ default | some t ↦ or_else t default ]

  abbrev pub mapping_of : Text → Text → Outcome (Value N) → Outcome (Fields N × Text)
  mapping_of ref body (raised (yaml_error m)) =
      source_error (codes "malformed YAML front matter in ") ref
  mapping_of ref body (raised e) = raised e
  mapping_of ref body (ok null) = ok (end, body)
  mapping_of ref body (ok (dict fs)) = ok (fs, body)
  mapping_of ref body (ok _) = source_error (codes "no YAML mapping in ") ref

  -- `_split_front_matter` on the lines of a text.
  unfoldable pub split_front_matter : Text → Text → List Text → Outcome (Fields N × Text)
  unfolding front_matter is_dashes
  split_front_matter raw ref [] = ok (end, raw)
  split_front_matter raw ref (l ∷ ls) = elim (is_dashes l) [
    | false ↦ ok (end, raw)
    | true ↦ elim (front_matter (l ∷ ls)) [
      | none ↦ ok (end, raw)
      | some (block, body) ↦ mapping_of ref body (safe_load block)
    ]
  ]

  -- `_title_fallback`
  unfoldable pub title_fallback : Text → Text → Text
  unfolding first_heading first_line split_on text_eq
  title_fallback body ref = elim (first_heading (split_on 10 body)) [
    | some title ↦ title
    | none ↦ elim (first_line (split_on 10 body)) [
      | some line ↦ line
      | none ↦ elim (text_eq ref (codes "--input-text")) [
        | true ↦ codes "untitled task"
        | false ↦ elim (non_empty ref) [
          | false ↦ codes "untitled task"
          | true ↦ or_else (disk.stem ref) (codes "untitled task")
        ]
      ]
    ]
  ]

  -- `float(raw_points)`, or no points where it raises TypeError or ValueError; OverflowError passes.
  abbrev pub points_of : Option (Value N) → Outcome (Option N)
  points_of (some (num n)) = float_or_overflow (py.to_float n)
  points_of (some (bool b)) = ok (some (py.of_bool b))
  points_of (some (str t)) = ok (py.parse_float t)
  points_of _ = ok none

  unfoldable pub shown_items : Items N → List Text
  shown_items nil = []
  shown_items (cons v vs) = shown py v ∷ shown_items vs

  abbrev pub labels_of : Option (Value N) → List Text
  unfolding shown_items
  labels_of (some (str t)) = t ∷ []
  labels_of (some (list vs)) = shown_items vs
  labels_of _ = []

  -- The keys of the front matter that are not known.
  unfoldable pub unknown_fields : Fields N → Fields N
  unfolding text_in
  unknown_fields end = end
  unknown_fields (field k v fs) = elim (text_in k known_keys) [
    | true ↦ unknown_fields fs
    | false ↦ field k v (unknown_fields fs)
  ]

  abbrev pub or_slug : Option Text → Text → Text
  unfolding slugify
  or_slug none title = slugify ascii title 40
  or_slug (some id) title = or_else id (slugify ascii title 40)

  -- The item that `_build` returns, with its points.
  unfoldable pub item_of : Fields N → Text → Text → Option N → WorkItem N
  unfolding or_slug labels_of unknown_fields title_fallback get_field strip
  item_of fm body ref points =
      let title = text_of (get_field (codes "title") fm) (title_fallback body ref) in
      let external_id = clean_str (get_field (codes "key") fm) in
      record {
        id = or_slug external_id title;
        title = title;
        description = strip body;
        external_id = external_id;
        issue_type = text_of (get_field (codes "type") fm) (codes "Task");
        story_points = points;
        labels = labels_of (get_field (codes "labels") fm);
        acceptance = text_of (get_field (codes "acceptance") fm) [];
        status = clean_str (get_field (codes "status") fm);
        assignee = clean_str (get_field (codes "assignee") fm);
        url = clean_str (get_field (codes "url") fm);
        comments = [];
        attachments = [];
        ambiguity = none;
        source_ref = ref;
        raw = unknown_fields fm;
      }

  -- `_build`, of the front matter and the body.
  unfoldable pub build_item : Fields N → Text → Text → Outcome (WorkItem N)
  unfolding item_of get_field
  build_item fm body ref = do
    points ← points_of (get_field (codes "points") fm)
    ok (item_of fm body ref points)

  unfoldable pub build : Text → Text → Outcome (WorkItem N)
  unfolding split_front_matter build_item split_on
  build raw ref =
      split_front_matter raw ref (split_on 10 raw) >>= λ (fm, body). build_item fm body ref

  -- `_from_file`
  unfoldable pub from_file : Text → X → Outcome (WorkItem N)
  unfolding build
  from_file path x = elim (disk.read_text path x) [
    | none ↦ source_error (codes "cannot read ") path
    | some raw ↦ elim (disk.resolve path x) [
      | none ↦ source_error (codes "cannot resolve ") path
      | some ref ↦ build raw ref
    ]
  ]

  -- A candidate of `poll`: a file whose path resolves to one outside of the directory of those done.
  abbrev pub is_candidate : Text → Text → X → Bool
  is_candidate processed path x = elim (disk.is_file path x) [
    | false ↦ false
    | true ↦ elim (disk.resolve path x) [
      | none ↦ false
      | some resolved ↦ elim (disk.is_relative_to resolved processed) [
        | true ↦ false
        | false ↦ true
      ]
    ]
  ]

  abbrev pub item_then :
      Outcome (WorkItem N)
      → List (WorkItem N) × Outcome (Unit {0})
      → List (WorkItem N) × Outcome (Unit {0})
  item_then (raised e) rest = ([], raised e)
  item_then (ok item) rest = (item ∷ rest.0, rest.1)

  -- The items that `poll` yields of the files that were found, and how it ends.
  unfoldable pub yielded : Text → List Text → X → List (WorkItem N) × Outcome (Unit {0})
  unfolding from_file
  yielded processed [] x = ([], ok tt)
  yielded processed (path ∷ paths) x = elim (is_candidate processed path x) [
    | false ↦ yielded processed paths x
    | true ↦ item_then (from_file path x) (yielded processed paths x)
  ]

  module _ (options : FileOptions) where
    abbrev pub is_text : Option Text → Bool
    is_text none = false
    is_text (some t) = non_empty t

    abbrev pub processed_path : Text
    processed_path = disk.under options.base_dir options.processed_dir

    -- `poll`
    unfoldable pub poll : X → List (WorkItem N) × Outcome (Unit {0})
    unfolding yielded
    poll x = elim (disk.resolve processed_path x) [
      | none ↦ ([], source_error (codes "cannot resolve ") options.processed_dir)
      | some processed ↦ elim (disk.glob_by_mtime options.glob x) [
        | none ↦ ([], source_error (codes "cannot glob ") options.glob)
        | some paths ↦ yielded processed paths x
      ]
    ]

    -- `fetch` behind the external id.
    unfoldable pub fetch_configured : Option Text → Option Text → X → Outcome (WorkItem N)
    unfolding from_file build
    fetch_configured (some (c ∷ path)) text x =
        let full = disk.under options.base_dir (c ∷ path) in
        elim (disk.is_file full x) [
          | true ↦ from_file full x
          | false ↦ source_error (codes "configured path does not exist: ") full
        ]
    fetch_configured _ (some (c ∷ text)) x = build (c ∷ text) (codes "--input-text")
    fetch_configured _ _ x = source_error (codes "fetch() found nothing usable") []

    -- `fetch`
    unfoldable pub fetch : Option Text → X → Outcome (WorkItem N)
    unfolding fetch_configured from_file
    fetch none x = fetch_configured options.path options.text x
    fetch (some []) x = fetch_configured options.path options.text x
    fetch (some (c ∷ id)) x =
        let candidate = disk.under options.base_dir (c ∷ id) in
        elim (disk.is_file candidate x) [
          | true ↦ from_file candidate x
          | false ↦ fetch_configured options.path options.text x
        ]

    -- `mark_processed`
    unfoldable pub mark_processed : Text → X → X
    unfolding text_eq
    mark_processed [] x = x
    mark_processed (c ∷ ref) x = elim (text_eq (c ∷ ref) (codes "--input-text")) [
      | true ↦ x
      | false ↦ elim (disk.is_file (c ∷ ref) x) [
        | false ↦ x
        | true ↦
            disk.replace (c ∷ ref) (disk.under processed_path (disk.name (c ∷ ref)))
              (disk.make_dir processed_path x)
      ]
    ]
