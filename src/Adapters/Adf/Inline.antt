-- ===== src/Adapters/Adf/Inline.antt =====
-- The inline parts of a tidy document, and lists of its items, are read without an exception.
use ticket_bot.Prelude.{
  ℕ, zero, suc, ◌≡◌, Bool, true, Option, none, some, Text, codes, text_eq, Bool-cases, inl, inr,
  join,
}
use ticket_bot.Prelude.Outcomes.{Outcome, ok, ◌>>=◌}
use ticket_bot.Predicate.Values.{
  Value, Items, Fields, Python, missing, null, bool, num, str, list, dict, object, nil, cons,
  get_field,
}
use ticket_bot.Adapters.Adf.{
  type_of, items_or_empty, href_of, text_part, nested_text, inline_node, concat_items,
  render_inline, inline_of, texts_of, texts_in, list_lines,
}
use ticket_bot.Adapters.Adf.Tidy.{
  is_list_or_null, tidy, tidy_items, Gives, Gives->>=, Any, tidy_or_none, TidyDict, tidy_dict, Tidy,
  items_or_empty-Gives, both, href_of-Gives,
}

-- A rendering that does not raise on what is tidy.
unfoldable pub Renders : {N : Type 0} → (Value N → Outcome Text) → Type 0
unfolding Gives tidy
Renders {N = N} render = (v : Value N) → tidy v ≡ true → Gives Any (render v)

unfoldable pub RendersAll : {N : Type 0} → (Items N → Outcome Text) → Type 0
unfolding Gives tidy
RendersAll {N = N} render = (vs : Items N) → tidy_items vs ≡ true → Gives Any (render vs)

module _ {N : Type 0} (py : Python N) where
  pub text_part-Gives :
      (d : Fields N) (o : Option (Value N)) → TidyDict d → Gives Any (text_part py d o)
  unfolding Gives text_part Tidy
  text_part-Gives d (some (str text)) t =
      Gives->>= Tidy Any (items_or_empty py (get_field (codes "marks") d)) _
        (items_or_empty-Gives py _ t.marks (t.inside (codes "marks")))
        λ marks tidy_marks.
          Gives->>= Any Any (href_of py none marks) _ (href_of-Gives py none marks tidy_marks)
            λ href _. tt
  text_part-Gives d none t = tt
  text_part-Gives d (some missing) t = tt
  text_part-Gives d (some null) t = tt
  text_part-Gives d (some (bool b)) t = tt
  text_part-Gives d (some (num n)) t = tt
  text_part-Gives d (some (list vs)) t = tt
  text_part-Gives d (some (dict fs)) t = tt
  text_part-Gives d (some (object s)) t = tt

  pub concat_items-Gives :
      (render : Value N → Outcome Text) → Renders render → RendersAll (concat_items py render)
  unfolding Gives concat_items Renders RendersAll
  concat_items-Gives render r nil h = tt
  concat_items-Gives render r (cons v vs) h =
      let (t, ts) = both v vs h in
      Gives->>= Any Any (render v) _ (r v t) λ first _.
        Gives->>= Any Any (concat_items py render vs) _ (concat_items-Gives render r vs ts)
          λ rest _. tt

  pub texts_of-Gives :
      (render : Value N → Outcome Text) (vs : Items N)
      → Renders render
      → tidy_items vs ≡ true
      → Gives Any (texts_of py render vs)
  unfolding Gives texts_of Renders
  texts_of-Gives render nil r h = tt
  texts_of-Gives render (cons v vs) r h =
      let (t, ts) = both v vs h in
      Gives->>= Any Any (render v) _ (r v t) λ first _.
        Gives->>= Any Any (texts_of py render vs) _ (texts_of-Gives render vs r ts) λ rest _. tt

  pub list_lines-Gives :
      (ordered : Bool) (render : Value N → Outcome Text) (i : ℕ) (vs : Items N)
      → Renders render
      → tidy_items vs ≡ true
      → Gives Any (list_lines py ordered render i vs)
  unfolding Gives list_lines Renders
  list_lines-Gives ordered render i nil r h = tt
  list_lines-Gives ordered render i (cons v vs) r h =
      let (t, ts) = both v vs h in
      Gives->>= Any Any (render v) _ (r v t) λ first _.
        Gives->>= Any Any (list_lines py ordered render (suc i) vs) _
          (list_lines-Gives ordered render (suc i) vs r ts) λ rest _. tt

  -- What is read of a key that is a list of tidy items, or nothing.
  pub of_list :
      {A : Type 0} (read : Option (Value N) → Outcome A) (o : Option (Value N))
      → is_list_or_null o ≡ true
      → tidy_or_none o ≡ true
      → Gives Any (read none)
      → Gives Any (read (some null))
      → ((vs : Items N) → tidy_items vs ≡ true → Gives Any (read (some (list vs))))
      → Gives Any (read o)
  unfolding tidy_or_none tidy
  of_list read none h t a b c = a
  of_list read (some null) h t a b c = b
  of_list read (some (list vs)) h t a b c = c vs t
  of_list read (some missing) h t a b c = cc
  of_list read (some (bool x)) h t a b c = cc
  of_list read (some (num n)) h t a b c = cc
  of_list read (some (str s)) h t a b c = cc
  of_list read (some (dict fs)) h t a b c = cc
  of_list read (some (object s)) h t a b c = cc

  pub in_content :
      (read : Option (Value N) → Outcome Text) (d : Fields N)
      → TidyDict d
      → Gives Any (read none)
      → Gives Any (read (some null))
      → ((vs : Items N) → tidy_items vs ≡ true → Gives Any (read (some (list vs))))
      → Gives Any (read (get_field (codes "content") d))
  in_content read d t = of_list read _ t.content (t.inside (codes "content"))

  pub inline_node-Gives :
      (deeper : Items N → Outcome Text) → RendersAll deeper → Renders (inline_node py deeper)
  unfolding Gives inline_node Renders RendersAll
  inline_node-Gives deeper r (dict d) h =
      let t = tidy_dict d h in
      elim (Bool-cases (text_eq (type_of d) (codes "text"))) [
        | inl e ↦ rw e (text_part-Gives d (get_field (codes "text") d) t)
        | inr e ↦ elim (Bool-cases (text_eq (type_of d) (codes "hardBreak"))) [
          | inl e' ↦ rw (e, e') tt
          | inr e' ↦ rw (e, e') (in_content (nested_text py deeper) d t tt tt r)
        ]
      ]
  inline_node-Gives deeper r missing h = tt
  inline_node-Gives deeper r null h = tt
  inline_node-Gives deeper r (bool b) h = tt
  inline_node-Gives deeper r (num n) h = tt
  inline_node-Gives deeper r (str s) h = tt
  inline_node-Gives deeper r (list vs) h = tt
  inline_node-Gives deeper r (object s) h = tt

  pub render_inline-Gives : (left : ℕ) → RendersAll (render_inline py left)
  unfolding Gives render_inline RendersAll
  render_inline-Gives zero vs h = tt
  render_inline-Gives (suc left) vs h =
      concat_items-Gives (inline_node py (render_inline py left))
        (inline_node-Gives (render_inline py left) (render_inline-Gives left)) vs h

  pub content_inline :
      (left : ℕ) (d : Fields N)
      → TidyDict d
      → Gives Any (inline_of py left (get_field (codes "content") d))
  unfolding Gives inline_of RendersAll
  content_inline left d t = in_content (inline_of py left) d t tt tt (render_inline-Gives left)

  pub content_texts :
      (render : Value N → Outcome Text) (sep : Text) (d : Fields N)
      → TidyDict d
      → Renders render
      → Gives Any
          (texts_in py render (get_field (codes "content") d) >>= λ texts. ok (join sep texts))
  unfolding Gives texts_in
  content_texts render sep d t r =
      in_content (λ o. texts_in py render o >>= λ texts. ok (join sep texts)) d t tt tt
        (λ vs tidy_vs.
          Gives->>= Any Any (texts_of py render vs) _ (texts_of-Gives render vs r tidy_vs)
            λ texts _. tt)
