-- ===== src/Engine/Context.antt =====
-- `build_context` of ticketbot/engine/context.py: what a `when:` predicate can name.
pub mod Prompts
use ticket_bot.Prelude.{ℕ, false, Option, none, some, codes, ◌==◌, if◌then◌else◌}
use ticket_bot.Predicate.Values.{Value, Python, num, str, bool, dict, end, field}
use ticket_bot.Core.Run.{Run, status_value}
use ticket_bot.Core.WorkItem.{WorkItem, as_context}

-- `d.get(k, default)`
abbrev pub get_or {ℓ} : {A : Type ℓ} → Option A → A → A
get_or none d = d
get_or (some a) d = a

-- `n or d` on a number that may be absent.
abbrev pub positive_or : Option ℕ → ℕ → ℕ
positive_or none d = d
positive_or (some n) d = if n == 0 then d else n

module _ {N : Type 0} (py : Python N) where
  abbrev pub count : Option ℕ → Value N
  count n = num (py.of_nat (get_or n 0))

  -- The keys of the item stand under `workitem` and, mirrored, at the top; the literal's later keys
  -- replace an earlier one of the same name, and none has one.
  unfoldable pub build_context : WorkItem N → Run → Value N
  build_context item run = dict (
      field (codes "workitem") (dict (as_context py item end)) (
        as_context py item (
          field (codes "plan")
            (dict (
              field (codes "security") (str (get_or run.extra.plan_security (codes "yes")))
                (field (codes "sections") (count run.extra.section_count) end)))
            (field (codes "diff")
              (dict (
                field (codes "touches_security")
                  (bool (get_or run.extra.diff_touches_security false))
                  (field (codes "files") (count run.extra.diff_files) end)))
              (field (codes "run")
                (dict (
                  field (codes "id") (str run.id) (
                    field (codes "clarify_rounds") (count run.extra.clarify_rounds)
                      (field (codes "status") (str (status_value run.status)) end))))
                (field (codes "step") (dict end) end))))))
