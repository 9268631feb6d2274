-- ===== src/Adapters/Adf.antt =====
-- `adf_to_text` of ticketbot/adapters/sinks/adf.py: a document of Jira read as text. Each function has
-- the levels that are left of `_MAX_DEPTH`; a value of the wrong type may raise, as in the program.
pub mod Tidy
pub mod Inline
pub mod Reads
use ticket_bot.Prelude.{
  ℕ, zero, suc, ◌+◌, Bool, true, false, ◌||◌, Option, none, some, Text, codes, text_eq,
  if◌then◌else◌, List, [], ◌∷◌, ◌++◌, join, non_empty,
}
use ticket_bot.Prelude.Outcomes.{Outcome, ok, raised, value_error, ◌>>=◌}
use ticket_bot.Predicate.Values.{
  shown, Value, Items, Fields, Python, null, str, list, dict, nil, cons, end, field, get_field,
  truthy,
}
use ticket_bot.Executors.Tools.Os.{show_nat}

-- The AttributeError or TypeError of an access to a value of the wrong type.
abbrev pub wrong_type : {A : Type 0} → Outcome A
wrong_type = raised (value_error (codes "wrong type"))

-- `_MAX_DEPTH`, and one: the levels from depth 0 on.
abbrev pub max_levels : ℕ
max_levels = 7

module _ {N : Type 0} where
  abbrev pub text_or_empty : Option (Value N) → Text
  text_or_empty (some (str t)) = t
  text_or_empty _ = []

  -- `node.get("type")`, where it is a text; no type that is asked for is empty.
  unfoldable pub type_of : Fields N → Text
  unfolding get_field
  type_of d = text_or_empty (get_field (codes "type") d)

  module _ (py : Python N) where
    -- `(d.get(outer) or {}).get(inner)`
    abbrev pub get_in : Text → Option (Value N) → Outcome (Option (Value N))
    unfolding truthy get_field
    get_in inner none = ok none
    get_in inner (some (dict fs)) = ok (get_field inner fs)
    get_in inner (some v) = if truthy py v then wrong_type else ok none

    -- The items of `node.get(key) or []`; those of a text or a mapping are texts, which are passed by.
    abbrev pub items_or_empty : Option (Value N) → Outcome (Items N)
    unfolding truthy
    items_or_empty none = ok nil
    items_or_empty (some (list vs)) = ok vs
    items_or_empty (some (str t)) = ok nil
    items_or_empty (some (dict fs)) = ok nil
    items_or_empty (some v) = if truthy py v then wrong_type else ok nil

    -- `v or ""`, shown.
    abbrev pub shown_or_empty : Option (Value N) → Text
    unfolding truthy
    shown_or_empty none = []
    shown_or_empty (some v) = if truthy py v then shown py v else []

    -- The `href` of the last mark that is a link, or what it was before.
    unfoldable pub href_of : Option (Value N) → Items N → Outcome (Option (Value N))
    unfolding type_of get_in get_field
    href_of href nil = ok href
    href_of href (cons (dict mark) marks) =
        if text_eq (type_of mark) (codes "link")
        then (get_in (codes "href") (get_field (codes "attrs") mark) >>= λ found.
            href_of found marks)
        else href_of href marks
    href_of href (cons _ marks) = href_of href marks

    -- f"[{text}]({href})" if href else text
    abbrev pub linked : Text → Option (Value N) → Text
    unfolding truthy
    linked text none = text
    linked text (some v) =
        if truthy py v
        then codes "[" ++ (text ++ (codes "](" ++ (shown py v ++ codes ")")))
        else text

    abbrev pub text_part : Fields N → Option (Value N) → Outcome Text
    unfolding href_of items_or_empty
    text_part d (some (str text)) = do
      marks ← items_or_empty (get_field (codes "marks") d)
      href ← href_of none marks
      ok (linked text href)
    text_part d _ = ok []

    -- The content of a node of another type, where it is a list.
    abbrev pub nested_text : (Items N → Outcome Text) → Option (Value N) → Outcome Text
    nested_text deeper (some (list vs)) = deeper vs
    nested_text deeper _ = ok []

    -- One node of `_render_inline`, with the content of a deeper one read by `deeper`.
    unfoldable pub inline_node : (Items N → Outcome Text) → Value N → Outcome Text
    unfolding text_part type_of get_field
    inline_node deeper (dict d) =
        if text_eq (type_of d) (codes "text")
        then text_part d (get_field (codes "text") d)
        else if text_eq (type_of d) (codes "hardBreak")
        then ok (10 ∷ [])
        else nested_text deeper (get_field (codes "content") d)
    inline_node deeper _ = ok []

    -- What `render` answers for each item, in order.
    unfoldable pub concat_items : (Value N → Outcome Text) → Items N → Outcome Text
    concat_items render nil = ok []
    concat_items render (cons v vs) = do
      first ← render v
      rest ← concat_items render vs
      ok (first ++ rest)

    -- `_render_inline` of a list.
    unfoldable pub render_inline : ℕ → Items N → Outcome Text
    unfolding inline_node concat_items
    render_inline zero vs = ok []
    render_inline (suc left) vs = concat_items (inline_node (render_inline left)) vs

    abbrev pub inline_of : ℕ → Option (Value N) → Outcome Text
    unfolding render_inline
    inline_of left (some (list vs)) = render_inline left vs
    inline_of left _ = ok []

    -- The texts that are not empty.
    unfoldable pub texts_of : (Value N → Outcome Text) → Items N → Outcome (List Text)
    texts_of render nil = ok []
    texts_of render (cons v vs) = do
      first ← render v
      rest ← texts_of render vs
      ok (if non_empty first then first ∷ rest else rest)

    abbrev pub texts_in : (Value N → Outcome Text) → Option (Value N) → Outcome (List Text)
    unfolding texts_of
    texts_in render (some (list vs)) = texts_of render vs
    texts_in render _ = ok []

    -- The lines of a list; `i` is the number of the next item.
    unfoldable pub list_lines : Bool → (Value N → Outcome Text) → ℕ → Items N → Outcome (List Text)
    list_lines ordered render i nil = ok []
    list_lines ordered render i (cons v vs) = do
      text ← render v
      rest ← list_lines ordered render (suc i) vs
      ok (
          if non_empty text
          then ((if ordered then show_nat i ++ codes ". " else codes "- ") ++ text) ∷ rest
          else rest)

    -- `_render_list_item`, with the blocks below it rendered by `block`.
    abbrev pub list_item : (Value N → Outcome Text) → Value N → Outcome Text
    unfolding texts_in get_field
    list_item block (dict d) =
        texts_in block (get_field (codes "content") d) >>= λ texts. ok (join (codes " ") texts)
    list_item block _ = ok []

    -- A block that is a mapping: blocks one level below are rendered by `block`, list items by `item`.
    unfoldable pub render_node :
        (Value N → Outcome Text) → (Value N → Outcome Text) → ℕ → Fields N → Outcome Text
    unfolding inline_of texts_in list_lines items_or_empty type_of get_in get_field shown_or_empty
    render_node block item left d =
        let t = type_of d in
        let content = get_field (codes "content") d in
        if text_eq t (codes "codeBlock")
        then (do
          code ← inline_of left content
          language ← get_in (codes "language") (get_field (codes "attrs") d)
          ok (codes "```" ++ (shown_or_empty language ++ (10 ∷ (code ++ codes "\n```")))))
        else if text_eq t (codes "rule")
        then ok (codes "---")
        else if text_eq t (codes "bulletList") || text_eq t (codes "orderedList")
        then (do
          items ← items_or_empty content
          lines ← list_lines (text_eq t (codes "orderedList")) item 1 items
          ok (join (10 ∷ []) lines))
        else if text_eq t (codes "paragraph") || text_eq t (codes "heading")
        then inline_of left content
        else texts_in block content >>= λ texts. ok (join (codes "\n\n") texts)

    -- `isinstance(node, dict)`
    abbrev pub on_dict : (Fields N → Outcome Text) → Value N → Outcome Text
    on_dict render (dict d) = render d
    on_dict render _ = ok []

    -- `_render_block`, and a list item one level below.
    unfoldable pub render_block : ℕ → Value N → Outcome Text
    unfolding render_node list_item
    render_block zero v = ok []
    render_block (suc zero) v = on_dict (render_node (render_block zero) (λ w. ok []) zero) v
    render_block (suc (suc left)) v =
        on_dict (render_node (render_block (suc left)) (list_item (render_block left)) (suc left)) v

    -- `adf_to_text`
    unfoldable pub adf_to_text : Value N → Outcome Text
    unfolding texts_in render_block get_field
    adf_to_text (str t) = ok t
    adf_to_text (dict d) = texts_in (render_block 6) (get_field (codes "content") d) >>= λ texts.
        ok (join (codes "\n\n") texts)
    adf_to_text _ = ok []
