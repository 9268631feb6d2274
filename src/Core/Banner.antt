-- ===== src/Core/Banner.antt =====
-- `render_banner` of ticketbot/core/banner.py, and `_work_item_text` of ticketbot/engine/orchestrator.py:
-- what a run tells a reader of itself, and an executor of the work item.
pub mod Facts
use ticket_bot.Prelude.{or_else, Option, none, some, Text, codes, List, [], ◌∷◌, ◌++◌, join, map}
use ticket_bot.Predicate.Values.{Python, num}
use ticket_bot.Core.WorkItem.{WorkItem, Comment, key}

pub record BannerFacts : Type 0 where
  pub source : Text
  pub pipeline : Text
  pub models : List Text
  pub executor : Text
  pub runtime : Text
  pub repo : Text

-- A line, where its fact is not empty.
unfoldable pub line_if : Text → Text → List Text → List Text
line_if label [] lines = lines
line_if label (c ∷ fact) lines = (label ++ (c ∷ fact)) ∷ lines

-- `_MODEL_JOIN`
abbrev pub model_join : Text
model_join = 32 ∷ 183 ∷ 32 ∷ []

unfoldable pub banner_lines : BannerFacts → List Text
unfolding line_if
banner_lines facts = line_if (codes "Using source=") facts.source (
    line_if (codes "pipeline=") facts.pipeline (
      models_line facts.models (
        line_if (codes "executor=") facts.executor
          (line_if (codes "runtime=") facts.runtime (line_if (codes "repo=") facts.repo [])))))
  where
    models_line : List Text → List Text → List Text
    models_line [] lines = lines
    models_line (m ∷ ms) lines = (codes "models=" ++ join model_join (m ∷ ms)) ∷ lines

-- `render_banner`
unfoldable pub render_banner : BannerFacts → Text
unfolding banner_lines join
render_banner facts = join (10 ∷ []) (banner_lines facts) ++ (10 ∷ [])

abbrev pub or_no_text : Option Text → Text
or_no_text none = []
or_no_text (some t) = t

abbrev pub comment_line : Comment → Text
comment_line c = codes "- " ++ (c.author ++ (codes ": " ++ c.body))

abbrev pub points_line : {N : Type 0} → Python N → Option N → List Text
points_line py none = []
points_line py (some n) = (codes "Story points: " ++ py.str_of (num n)) ∷ []

abbrev pub labels_line : List Text → List Text
labels_line [] = []
labels_line (l ∷ ls) = (codes "Labels: " ++ join (codes ", ") (l ∷ ls)) ∷ []

abbrev pub acceptance_lines : Text → List Text
acceptance_lines [] = []
acceptance_lines (c ∷ s) = [] ∷ codes "Acceptance criteria:" ∷ (c ∷ s) ∷ []

abbrev pub comments_lines : List Comment → List Text
comments_lines [] = []
comments_lines (c ∷ cs) = [] ∷ codes "Comments:" ∷ map comment_line (c ∷ cs)

-- `_work_item_text`
unfoldable pub work_item_text : {N : Type 0} → Python N → WorkItem N → Text
unfolding key line_if join
work_item_text py item = join (10 ∷ []) (
    (key item ++ (codes ": " ++ item.title))
    ∷ (codes "Type: " ++ item.issue_type)
    ∷ (points_line py item.story_points
        ++ (labels_line item.labels
            ++ (line_if (codes "URL: ") (or_no_text item.url) []
                ++ ([]
                    ∷ or_else item.description (codes "(no description)")
                    ∷ (acceptance_lines item.acceptance ++ comments_lines item.comments))))))
