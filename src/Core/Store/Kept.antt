-- ===== src/Core/Store/Kept.antt =====
-- What the store keeps of a run.
use ticket_bot.Prelude.{
  ℕ, ◌≡◌, refl, ap, ◌∙◌, false, Option, none, some, Text, text_eq, text_eq_refl, text_eq_sound,
  Bool-cases, inl, inr, lookup, lookup-insert,
}
use ticket_bot.Prelude.Outcomes.{ok}
use ticket_bot.Core.Run.{Run}
use ticket_bot.Core.Json.Runs.{run_to_dict}
use ticket_bot.Core.Json.RunTrip.{run_from_dict-to_dict}
use ticket_bot.Core.Store.{
  Json, RunDir, Root, or_empty_dir, run_dir, write_tmp, replace_json, payload, save_cut_off,
  save_run, read_run, read_dir, load_run,
}

module _ {N : Type 0} (json : Json N) where
  -- A run that was saved is loaded as it was, whatever was there before, and the other runs are as they
  -- were; JSON is taken to read the text that it has written of the run.
  pub load_run-save_run :
      (run : Run) (root : Root)
      → ((n : ℕ) → json.numbers.read (json.numbers.write n) ≡ n)
      → json.loads (payload json run) ≡ ok (run_to_dict json.numbers run)
      → (load_run json run.id (save_run json run root) ≡ ok run)
        × ((id : Text)
            → text_eq run.id id ≡ false
            → load_run json id (save_run json run root) ≡ load_run json id root)
  unfolding load_run save_run replace_json write_tmp run_dir read_run text_eq
  load_run-save_run run root exact reads = (
    simp (lookup-insert, text_eq_refl, reads, run_from_dict-to_dict N json.numbers exact),
    λ id other. simp (lookup-insert, other),
  )

  -- A save that is cut off before the replacement, wherever it was, leaves every run as it was.
  pub load_run-save_cut_off :
      (n : ℕ) (run : Run) (id : Text) (root : Root)
      → load_run json id (save_cut_off json n run root) ≡ load_run json id root
  unfolding load_run save_cut_off write_tmp run_dir read_run
  load_run-save_cut_off n run id root = elim (Bool-cases (text_eq run.id id)) [
    | inr other ↦ simp (lookup-insert, other)
    | inl same ↦
        simp (lookup-insert, same)
          (ap (λ j. read_run json (or_empty_dir (lookup j root)).run_json)
              (text_eq_sound run.id id same)
            ∙ of_dir (lookup id root))
  ]
    where
      of_dir : (o : Option RunDir) → read_run json (or_empty_dir o).run_json ≡ read_dir json o
      of_dir none = refl
      of_dir (some d) = refl
