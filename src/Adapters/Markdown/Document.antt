-- ===== src/Adapters/Markdown/Document.antt =====
-- The document as the JSON value that is posted.
use ticket_bot.Prelude.{Option, none, some, Text, codes, List, [], ◌∷◌}
use ticket_bot.Predicate.Values.{
  Value, Items, Fields, Python, null, num, str, list, dict, nil, cons, end, field,
}
use ticket_bot.Adapters.Markdown.Spans.{Mark, link, strong, em, code, Inline}
use ticket_bot.Adapters.Markdown.Nodes.{
  Node, paragraph_node, heading_node, code_node, rule_node, bullet_node, ordered_node, unmarked,
}

-- A node as the mapping that is posted.
module _ {N : Type 0} (py : Python N) where
  abbrev pub typed : Text → Fields N → Value N
  typed type rest = dict (field (codes "type") (str type) rest)

  unfoldable pub mark_value : Mark → Value N
  mark_value (link href) =
      typed (codes "link") (field (codes "attrs") (dict (field (codes "href") (str href) end)) end)
  mark_value strong = typed (codes "strong") end
  mark_value em = typed (codes "em") end
  mark_value code = typed (codes "code") end

  unfoldable pub mark_values : List Mark → Items N
  unfolding mark_value
  mark_values [] = nil
  mark_values (mark ∷ marks) = cons (mark_value mark) (mark_values marks)

  unfoldable pub marks_field : List Mark → Fields N
  unfolding mark_values
  marks_field [] = end
  marks_field (mark ∷ marks) = field (codes "marks") (list (mark_values (mark ∷ marks))) end

  unfoldable pub inline_value : Inline → Value N
  unfolding marks_field
  inline_value node =
      typed (codes "text") (field (codes "text") (str node.text) (marks_field node.marks))

  unfoldable pub inline_values : List Inline → Items N
  unfolding inline_value
  inline_values [] = nil
  inline_values (node ∷ nodes) = cons (inline_value node) (inline_values nodes)

  -- `node["content"]`, where there is one.
  unfoldable pub content_field : List Inline → Fields N
  unfolding inline_values
  content_field [] = end
  content_field (node ∷ nodes) = field (codes "content") (list (inline_values (node ∷ nodes))) end

  unfoldable pub item_value : List Inline → Value N
  unfolding content_field
  item_value nodes = typed (codes "listItem") (
      field (codes "content") (list (cons (typed (codes "paragraph") (content_field nodes)) nil))
        end)

  unfoldable pub item_values : List (List Inline) → Items N
  unfolding item_value
  item_values [] = nil
  item_values (item ∷ items) = cons (item_value item) (item_values items)

  unfoldable pub text_content : Text → Fields N
  unfolding content_field
  text_content [] = end
  text_content (c ∷ s) = content_field (unmarked (c ∷ s) ∷ [])

  unfoldable pub language_value : Option Text → Value N
  language_value none = null
  language_value (some language) = str language

  unfoldable pub node_value : Node → Value N
  unfolding item_values content_field text_content language_value
  node_value (paragraph_node nodes) = typed (codes "paragraph") (content_field nodes)
  node_value (heading_node level nodes) = typed (codes "heading") (
      field (codes "attrs") (dict (field (codes "level") (num (py.of_nat level)) end))
        (content_field nodes))
  node_value (code_node none body) = typed (codes "codeBlock") (text_content body)
  node_value (code_node (some language) body) = typed (codes "codeBlock") (
      field (codes "attrs") (dict (field (codes "language") (language_value language) end))
        (text_content body))
  node_value rule_node = typed (codes "rule") end
  node_value (bullet_node items) =
      typed (codes "bulletList") (field (codes "content") (list (item_values items)) end)
  node_value (ordered_node order items) = typed (codes "orderedList") (
      field (codes "content") (list (item_values items))
        (field (codes "attrs") (dict (field (codes "order") (num (py.of_nat order)) end)) end))

  unfoldable pub node_values : List Node → Items N
  unfolding node_value
  node_values [] = nil
  node_values (node ∷ nodes) = cons (node_value node) (node_values nodes)

  -- `{"type": "doc", "version": 1, "content": [...]}`
  unfoldable pub doc_value : List Node → Value N
  unfolding node_values
  doc_value nodes = typed (codes "doc") (
      field (codes "version") (num (py.of_nat 1))
        (field (codes "content") (list (node_values nodes)) end))
