-- ===== src/Adapters/Adf/Reads.antt =====
-- A tidy document is read without an exception.
use ticket_bot.Prelude.{
  ℕ, zero, suc, ◌≡◌, refl, true, ◌||◌, Text, codes, text_eq, Bool-cases, inl, inr, [],
}
use ticket_bot.Prelude.Outcomes.{Outcome, ok, raised}
use ticket_bot.Predicate.Values.{
  Value, Fields, Python, missing, null, bool, num, str, list, dict, object, get_field,
}
use ticket_bot.Adapters.Adf.{
  type_of, get_in, items_or_empty, inline_of, list_lines, list_item, render_node, on_dict,
  render_block, adf_to_text,
}
use ticket_bot.Adapters.Adf.Tidy.{
  tidy, Gives, Gives->>=, Any, TidyDict, tidy_dict, get_in-Gives, Tidy, items_or_empty-Gives,
}
use ticket_bot.Adapters.Adf.Inline.{Renders, list_lines-Gives, content_inline, content_texts}

module _ {N : Type 0} (py : Python N) where
  render_node-Gives :
      (block item : Value N → Outcome Text) (left : ℕ) (d : Fields N)
      → Renders block
      → Renders item
      → TidyDict d
      → Gives Any (render_node py block item left d)
  unfolding Gives render_node Tidy
  render_node-Gives block item left d b i t =
      let kind = type_of d in
      elim (Bool-cases (text_eq kind (codes "codeBlock"))) [
        | inl e ↦ rw e (
            Gives->>= Any Any (inline_of py left (get_field (codes "content") d)) _
              (content_inline py left d t)
              λ code _.
                Gives->>= Any Any (get_in py (codes "language") (get_field (codes "attrs") d)) _
                  (get_in-Gives py (codes "language") _ t.attrs) λ language _. tt)
        | inr e ↦ elim (Bool-cases (text_eq kind (codes "rule"))) [
          | inl e1 ↦ rw (e, e1) tt
          | inr e1 ↦
              elim (Bool-cases
                (text_eq kind (codes "bulletList") || text_eq kind (codes "orderedList"))) [
                  | inl e2 ↦
                      rw (e, e1, e2)
                        (Gives->>= Tidy Any (items_or_empty py (get_field (codes "content") d)) _
                          (items_or_empty-Gives py _ t.content (t.inside (codes "content")))
                          λ vs tidy_vs.
                            Gives->>= Any Any
                              (list_lines py (text_eq kind (codes "orderedList")) item 1 vs) _
                              (list_lines-Gives py _ item 1 vs i tidy_vs) λ lines _. tt)
                  | inr e2 ↦
                      elim (Bool-cases
                        (text_eq kind (codes "paragraph") || text_eq kind (codes "heading"))) [
                          | inl e3 ↦ rw (e, e1, e2, e3) (content_inline py left d t)
                          | inr e3 ↦
                              rw (e, e1, e2, e3) (content_texts py block (codes "\n\n") d t b)
                        ]
                ]
        ]
      ]

  list_item-Gives : (block : Value N → Outcome Text) → Renders block → Renders (list_item py block)
  unfolding Gives Renders list_item
  list_item-Gives block r (dict d) h = content_texts py block (codes " ") d (tidy_dict d h) r
  list_item-Gives block r missing h = tt
  list_item-Gives block r null h = tt
  list_item-Gives block r (bool b) h = tt
  list_item-Gives block r (num n) h = tt
  list_item-Gives block r (str s) h = tt
  list_item-Gives block r (list vs) h = tt
  list_item-Gives block r (object s) h = tt

  on_dict-Gives :
      (render : Fields N → Outcome Text)
      → ((d : Fields N) → TidyDict d → Gives Any (render d))
      → Renders (on_dict py render)
  unfolding Gives Renders
  on_dict-Gives render r (dict d) h = r d (tidy_dict d h)
  on_dict-Gives render r missing h = tt
  on_dict-Gives render r null h = tt
  on_dict-Gives render r (bool b) h = tt
  on_dict-Gives render r (num n) h = tt
  on_dict-Gives render r (str s) h = tt
  on_dict-Gives render r (list vs) h = tt
  on_dict-Gives render r (object s) h = tt

  render_block-Gives : (left : ℕ) → Renders (render_block py left)
  unfolding Gives Renders render_block
  render_block-Gives zero v h = tt
  render_block-Gives (suc zero) v h =
      on_dict-Gives _
        (λ d t.
          render_node-Gives (render_block py zero) (λ w. ok []) zero d (render_block-Gives zero)
            (λ w t. tt) t)
        v h
  render_block-Gives (suc (suc left)) v h =
      on_dict-Gives _
        (λ d t.
          render_node-Gives (render_block py (suc left)) (list_item py (render_block py left))
            (suc left) d (render_block-Gives (suc left))
            (list_item-Gives (render_block py left) (render_block-Gives left)) t)
        v h

  reads : (doc : Value N) → tidy doc ≡ true → Gives Any (adf_to_text py doc)
  unfolding Gives adf_to_text
  reads (dict d) h =
      content_texts py (render_block py 6) (codes "\n\n") d (tidy_dict d h) (render_block-Gives 6)
  reads missing h = tt
  reads null h = tt
  reads (bool b) h = tt
  reads (num n) h = tt
  reads (str s) h = tt
  reads (list vs) h = tt
  reads (object s) h = tt

  -- A document, however deep, is read as a text if `attrs`, `marks` and `content` are a mapping, a list
  -- and a list wherever they stand in it, or null or missing; the other keys may be anything.
  pub adf_to_text-tidy :
      (doc : Value N) → tidy doc ≡ true → (text : Text) × (adf_to_text py doc ≡ ok text)
  unfolding Gives
  adf_to_text-tidy doc h = given (adf_to_text py doc) (reads doc h)
    where
      given : (r : Outcome Text) → Gives Any r → (text : Text) × (r ≡ ok text)
      given (ok text) g = (text, refl)
      given (raised e) g = elim g [ ]
