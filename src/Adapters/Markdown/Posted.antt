-- ===== src/Adapters/Markdown/Posted.antt =====
-- A document of the bot is tidy, so `adf_to_text` reads it.
use ticket_bot.Prelude.{◌≡◌, refl, true, none, some, Text, text_eq, List, [], ◌∷◌}
use ticket_bot.Prelude.Outcomes.{ok}
use ticket_bot.Predicate.Values.{Python, get_field}
use ticket_bot.Adapters.Adf.{adf_to_text}
use ticket_bot.Adapters.Adf.Tidy.{tidy, tidy_items, tidy_keys}
use ticket_bot.Adapters.Adf.Reads.{adf_to_text-tidy}
use ticket_bot.Adapters.Markdown.Spans.{Mark, link, strong, em, code, Inline}
use ticket_bot.Adapters.Markdown.Nodes.{
  Node, paragraph_node, heading_node, code_node, rule_node, bullet_node, ordered_node,
  markdown_to_adf, unmarked,
}
use ticket_bot.Adapters.Markdown.Document.{
  marks_field, item_value, language_value, mark_value, mark_values, inline_value, inline_values,
  content_field, item_values, text_content, node_value, node_values, doc_value,
}
use ticket_bot.Adapters.Markdown.Total.{markdown_to_adf-ok}

module _ {N : Type 0} (py : Python N) where
  mark_value-tidy : (mark : Mark) → tidy (mark_value py mark) ≡ true
  unfolding tidy tidy_keys get_field text_eq mark_value
  mark_value-tidy (link href) = refl
  mark_value-tidy strong = refl
  mark_value-tidy em = refl
  mark_value-tidy code = refl

  mark_values-tidy : (marks : List Mark) → tidy_items (mark_values py marks) ≡ true
  unfolding tidy mark_values
  mark_values-tidy [] = refl
  mark_values-tidy (mark ∷ marks) = rw (mark_value-tidy mark) (mark_values-tidy marks)

  inline_value-tidy : (node : Inline) → tidy (inline_value py node) ≡ true
  unfolding tidy tidy_keys get_field text_eq inline_value marks_field
  inline_value-tidy node = of_marks node.text node.marks
    where
      of_marks :
          (t : Text) (marks : List Mark)
          → tidy (inline_value py (record { text = t; marks = marks })) ≡ true
      of_marks t [] = refl
      of_marks t (mark ∷ marks) = rw (mark_values-tidy (mark ∷ marks)) refl

  inline_values-tidy : (nodes : List Inline) → tidy_items (inline_values py nodes) ≡ true
  unfolding tidy inline_values
  inline_values-tidy [] = refl
  inline_values-tidy (node ∷ nodes) = rw (inline_value-tidy node) (inline_values-tidy nodes)

  item_values-tidy : (items : List (List Inline)) → tidy_items (item_values py items) ≡ true
  unfolding tidy tidy_keys get_field text_eq item_values item_value content_field
  item_values-tidy [] = refl
  item_values-tidy ([] ∷ items) = item_values-tidy items
  item_values-tidy ((node ∷ nodes) ∷ items) =
      rw (inline_values-tidy (node ∷ nodes)) (item_values-tidy items)

  node_value-tidy : (node : Node) → tidy (node_value py node) ≡ true
  unfolding tidy tidy_keys get_field text_eq node_value content_field text_content language_value
  node_value-tidy (paragraph_node []) = refl
  node_value-tidy (paragraph_node (n ∷ ns)) = rw (inline_values-tidy (n ∷ ns)) refl
  node_value-tidy (heading_node level []) = refl
  node_value-tidy (heading_node level (n ∷ ns)) = rw (inline_values-tidy (n ∷ ns)) refl
  node_value-tidy (code_node none []) = refl
  node_value-tidy (code_node none (c ∷ s)) = rw (inline_values-tidy (unmarked (c ∷ s) ∷ [])) refl
  node_value-tidy (code_node (some none) []) = refl
  node_value-tidy (code_node (some none) (c ∷ s)) =
      rw (inline_values-tidy (unmarked (c ∷ s) ∷ [])) refl
  node_value-tidy (code_node (some (some l)) []) = refl
  node_value-tidy (code_node (some (some l)) (c ∷ s)) =
      rw (inline_values-tidy (unmarked (c ∷ s) ∷ [])) refl
  node_value-tidy rule_node = refl
  node_value-tidy (bullet_node items) = rw (item_values-tidy items) refl
  node_value-tidy (ordered_node order items) = rw (item_values-tidy items) refl

  node_values-tidy : (nodes : List Node) → tidy_items (node_values py nodes) ≡ true
  unfolding tidy node_values
  node_values-tidy [] = refl
  node_values-tidy (node ∷ nodes) = rw (node_value-tidy node) (node_values-tidy nodes)

  doc_value-tidy : (nodes : List Node) → tidy (doc_value py nodes) ≡ true
  unfolding tidy tidy_keys get_field text_eq doc_value
  doc_value-tidy nodes = rw (node_values-tidy nodes) refl

  -- Every text, however malformed its markup is, becomes a document, and `adf_to_text` reads that
  -- document: neither direction raises, and neither runs for ever.
  pub markdown_to_adf-read :
      (md : Text)
      → (nodes : List Node) × (text : Text) × (markdown_to_adf md ≡ ok nodes)
        × (adf_to_text py (doc_value py nodes) ≡ ok text)
  markdown_to_adf-read md =
      let (nodes, converted) = markdown_to_adf-ok md in
      let (text, read) = adf_to_text-tidy py (doc_value py nodes) (doc_value-tidy nodes) in
      (nodes, text, converted, read)
