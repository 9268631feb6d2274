-- ===== src/Core/Json/Runs.antt =====
-- `Run.to_dict` and `Run.from_dict`. `run.extra` has the keys that are set, here in a fixed order.
use ticket_bot.Prelude.{ℕ, Option, none, some, Text, codes, List, [], ◌∷◌, Dict}
use ticket_bot.Prelude.Outcomes.{Outcome, ok, ◌>>=◌}
use ticket_bot.Predicate.Values.{Value, Fields, bool, num, str, list, dict, end, field, get_field}
use ticket_bot.Core.Run.{status_value, StepResult, Extra, Run}
use ticket_bot.Core.Json.{
  Numbers, run_status_of, opt_text, text_items, as_needed, as_text_or, as_opt_text, as_texts,
  as_fields, as_opt_bool, as_nat_or_zero, as_opt_nat, result_to_dict, result_from_dict,
}

module _ {N : Type 0} where
  -- A key that is set.
  abbrev pub put : {A : Type 0} → Text → (A → Value N) → Option A → Fields N → Fields N
  put key write none fs = fs
  put key write (some a) fs = field key (write a) fs

  unfoldable pub put_texts : Text → List Text → Fields N → Fields N
  unfolding text_items
  put_texts key [] fs = fs
  put_texts key (t ∷ ts) fs = field key (list (text_items (t ∷ ts))) fs

  module _ (numbers : Numbers N) where
    abbrev pub number : ℕ → Value N
    number n = num (numbers.write n)

    -- `self.extra`
    unfoldable pub extra_to_dict : Extra → Fields N
    unfolding put_texts
    extra_to_dict e = put (codes "branch") str e.branch (
        put (codes "workspace") str e.workspace (
          put (codes "pr_url") str e.pr_url (
            put (codes "error") str e.run_error (
              put (codes "clarify_rounds") number e.clarify_rounds (
                put (codes "section_count") number e.section_count (
                  put (codes "plan_security") str e.plan_security (
                    put (codes "diff_files") number e.diff_files (
                      put (codes "diff_touches_security") bool e.diff_touches_security
                        (put_texts (codes "screenshots") e.screenshots end)))))))))

    -- `dict(d.get("extra", {}))`
    unfoldable pub extra_from_dict : Fields N → Outcome Extra
    unfolding as_texts get_field
    extra_from_dict d = do
      branch ← as_opt_text (get_field (codes "branch") d)
      workspace ← as_opt_text (get_field (codes "workspace") d)
      pr_url ← as_opt_text (get_field (codes "pr_url") d)
      run_error ← as_opt_text (get_field (codes "error") d)
      clarify_rounds ← as_opt_nat numbers (get_field (codes "clarify_rounds") d)
      section_count ← as_opt_nat numbers (get_field (codes "section_count") d)
      plan_security ← as_opt_text (get_field (codes "plan_security") d)
      diff_files ← as_opt_nat numbers (get_field (codes "diff_files") d)
      diff_touches_security ← as_opt_bool (get_field (codes "diff_touches_security") d)
      screenshots ← as_texts (get_field (codes "screenshots") d)
      ok (record {
        branch = branch;
        workspace = workspace;
        pr_url = pr_url;
        run_error = run_error;
        clarify_rounds = clarify_rounds;
        section_count = section_count;
        plan_security = plan_security;
        diff_files = diff_files;
        diff_touches_security = diff_touches_security;
        screenshots = screenshots;
      })

    -- `{step_id: step.to_dict() for step_id, step in self.steps.items()}`
    unfoldable pub steps_to_dict : Dict StepResult → Fields N
    unfolding result_to_dict
    steps_to_dict [] = end
    steps_to_dict ((id, r) ∷ steps) =
        field id (dict (result_to_dict numbers r)) (steps_to_dict steps)

    -- The results of `steps`; the keys of a mapping differ.
    unfoldable pub steps_from_dict : Fields N → Outcome (Dict StepResult)
    unfolding result_from_dict
    steps_from_dict end = ok []
    steps_from_dict (field id v fs) = do
      d ← as_fields (some v)
      r ← result_from_dict numbers d
      steps ← steps_from_dict fs
      ok ((id, r) ∷ steps)

    -- `Run.to_dict`
    unfoldable pub run_to_dict : Run → Fields N
    unfolding status_value steps_to_dict extra_to_dict
    run_to_dict run = field (codes "id") (str run.id) (
        field (codes "profile_name") (str run.profile_name) (
          field (codes "work_item_key") (str run.work_item_key) (
            field (codes "external_id") (opt_text run.external_id) (
              field (codes "status") (str (status_value run.status)) (
                field (codes "created_at") (str run.created_at) (
                  field (codes "updated_at") (str run.updated_at) (
                    field (codes "pipeline_ref") (str run.pipeline_ref) (
                      field (codes "pipeline_reason") (str run.pipeline_reason) (
                        field (codes "banner") (str run.banner) (
                          field (codes "cost_usd") (number run.cost_usd) (
                            field (codes "steps") (dict (steps_to_dict run.steps)) (
                              field (codes "extra") (dict (extra_to_dict run.extra)) end))))))))))))

    -- `Run.from_dict`
    unfoldable pub run_from_dict : Fields N → Outcome Run
    unfolding steps_from_dict extra_from_dict run_status_of get_field
    run_from_dict d = do
      step_dicts ← as_fields (get_field (codes "steps") d)
      steps ← steps_from_dict step_dicts
      id ← as_needed (get_field (codes "id") d)
      profile_name ← as_text_or [] (get_field (codes "profile_name") d)
      work_item_key ← as_text_or [] (get_field (codes "work_item_key") d)
      external_id ← as_opt_text (get_field (codes "external_id") d)
      status_text ← as_text_or (codes "received") (get_field (codes "status") d)
      status ← run_status_of status_text
      created_at ← as_text_or [] (get_field (codes "created_at") d)
      updated_at ← as_text_or [] (get_field (codes "updated_at") d)
      pipeline_ref ← as_text_or [] (get_field (codes "pipeline_ref") d)
      pipeline_reason ← as_text_or [] (get_field (codes "pipeline_reason") d)
      banner ← as_text_or [] (get_field (codes "banner") d)
      cost_usd ← as_nat_or_zero numbers (get_field (codes "cost_usd") d)
      extra_dict ← as_fields (get_field (codes "extra") d)
      extra ← extra_from_dict extra_dict
      ok (record {
        id = id;
        profile_name = profile_name;
        work_item_key = work_item_key;
        external_id = external_id;
        status = status;
        created_at = created_at;
        updated_at = updated_at;
        pipeline_ref = pipeline_ref;
        pipeline_reason = pipeline_reason;
        banner = banner;
        cost_usd = cost_usd;
        steps = steps;
        extra = extra;
      })
