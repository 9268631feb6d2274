-- ===== src/Tests/Banners.antt =====
-- Tests of ticketbot/core/banner.py and ticketbot/config/redact.py.
use mathlib.Core.Path.{◌≡◌, refl}
use ticket_bot.Prelude.{codes, join, split_on, starts_with, lower, [], ◌∷◌}
use ticket_bot.Core.Banner.{BannerFacts, render_banner, banner_lines, line_if}
use ticket_bot.Core.Banner.Facts.{prettify_model_id, capitalized_parts, capitalize}
use ticket_bot.Config.Redact.{scrub, apply_all, replace_all}
use ticket_bot.Executors.Edits.{replace, replace_from}

pretty : prettify_model_id (codes "claude-opus--5") ≡ codes "Claude Opus 5"
unfolding prettify_model_id capitalized_parts capitalize split_on join lower
pretty = refl

abbrev two_facts : BannerFacts
two_facts = record {
  source = codes "Jira";
  pipeline = [];
  models = codes "a" ∷ codes "b" ∷ [];
  executor = [];
  runtime = [];
  repo = [];
}

two_lines : render_banner two_facts ≡ codes "Using source=Jira\nmodels=a · b\n"
unfolding render_banner banner_lines line_if join
two_lines = refl

masked : scrub [] (codes "hunter22" ∷ []) (codes "pw hunter22!") ≡ codes "pw ***REDACTED***!"
unfolding scrub apply_all replace_all replace replace_from starts_with
masked = refl

-- A secret that starts with another one is masked in part, in one of the two orders of the set.
leaked :
    scrub [] (codes "hunter22" ∷ codes "hunter22-long" ∷ []) (codes "hunter22-long")
    ≡ codes "***REDACTED***-long"
unfolding scrub apply_all replace_all replace replace_from starts_with
leaked = refl
