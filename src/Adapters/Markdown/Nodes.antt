-- ===== src/Adapters/Markdown/Nodes.antt =====
-- The nodes of a document, with the budget of `_MAX_NODES`.
use ticket_bot.Prelude.{
  ℕ, suc, leb, true, false, Option, none, some, Text, List, [], ◌∷◌, ◌++◌, split_on,
}
use ticket_bot.Prelude.Outcomes.{Outcome, ok, raised, out_of_fuel, ◌>>=◌}
use ticket_bot.Executors.Edits.{universal_newlines}
use ticket_bot.Adapters.Markdown.Spans.{Inline, Piece, plain, matched, pieces, sources}
use ticket_bot.Adapters.Markdown.Lines.{
  Block, paragraph, heading, code_block, rule, ordered_list, bullet_list, blocks_from_lines,
}

-- `_MAX_NODES`
abbrev pub max_nodes : ℕ
max_nodes = 5000

-- A node of a document. The items of a list hold one paragraph each; a code block has the attribute
-- `language` or no attribute.
pub data Node : Type 0 where
  paragraph_node : List Inline → Node
  heading_node : ℕ → List Inline → Node
  code_node : Option (Option Text) → Text → Node
  rule_node : Node
  bullet_node : List (List Inline) → Node
  ordered_node : ℕ → List (List Inline) → Node

abbrev pub unmarked : Text → Inline
unmarked text = record { text = text; marks = [] }

-- A literal text becomes a node if it is not empty, and is charged to the budget.
abbrev pub add_literal : Text → ℕ → List Inline × ℕ
add_literal [] budget = ([], budget)
add_literal (c ∷ s) budget = (unmarked (c ∷ s) ∷ [], suc budget)

abbrev pub prepend : List Inline → List Inline × ℕ → List Inline × ℕ
prepend nodes more = (nodes ++ more.0, more.1)

-- The loop of `_inline_nodes`, at the literal text since the last match.
unfoldable pub inline_from : Text → List Piece → ℕ → List Inline × ℕ
unfolding sources
inline_from literal [] budget = add_literal literal budget
inline_from literal (plain c ∷ ps) budget = inline_from (literal ++ (c ∷ [])) ps budget
inline_from literal (matched node source ∷ ps) budget = elim (leb max_nodes budget) [
  | true ↦ add_literal (literal ++ (source ++ sources ps)) budget
  | false ↦
      let (before, charged) = add_literal literal budget in
      prepend before (prepend (node ∷ []) (inline_from [] ps (suc charged)))
]

-- `_inline_nodes`
unfoldable pub inline_nodes : Text → ℕ → List Inline × ℕ
unfolding pieces inline_from
inline_nodes text budget = inline_from [] (pieces text) budget

-- The items of a list while the budget lasts.
unfoldable pub list_items : List Text → ℕ → List (List Inline) × ℕ
unfolding inline_nodes
list_items [] budget = ([], budget)
list_items (text ∷ texts) budget = elim (leb max_nodes budget) [
  | true ↦ ([], budget)
  | false ↦
      let (inline, charged) = inline_nodes text budget in
      let (items, spent) = list_items texts (suc (suc charged)) in (inline ∷ items, spent)
]

abbrev pub paragraph_or_none : List Inline × ℕ → Option Node × ℕ
paragraph_or_none ([], budget) = (none, budget)
paragraph_or_none (node ∷ nodes, budget) = (some (paragraph_node (node ∷ nodes)), suc budget)

abbrev pub list_or_none : (List (List Inline) → Node) → List (List Inline) × ℕ → Option Node × ℕ
list_or_none make ([], budget) = (none, budget)
list_or_none make (item ∷ items, budget) = (some (make (item ∷ items)), budget)

-- `_block_to_node`
unfoldable pub block_to_node : Block → ℕ → Option Node × ℕ
unfolding inline_nodes list_items
block_to_node (paragraph text) budget = paragraph_or_none (inline_nodes text budget)
block_to_node (heading level text) budget =
    let (inline, charged) = inline_nodes text budget in
    (some (heading_node level inline), suc charged)
block_to_node (code_block language body) budget =
    (some (code_node (some language) body), suc budget)
block_to_node rule budget = (some rule_node, suc budget)
block_to_node (bullet_list texts) budget = list_or_none bullet_node (list_items texts budget)
block_to_node (ordered_list order texts) budget =
    list_or_none (ordered_node order) (list_items texts budget)

abbrev pub add_node : Option Node → List Node × ℕ → List Node × ℕ
add_node none more = more
add_node (some node) more = (node ∷ more.0, more.1)

-- `_blocks_to_adf_nodes`, with the budget that is spent.
unfoldable pub nodes_of : List Block → ℕ → List Node × ℕ
unfolding block_to_node
nodes_of [] budget = ([], budget)
nodes_of (block ∷ blocks) budget = elim (leb max_nodes budget) [
  | true ↦ ([], budget)
  | false ↦
      let (node, charged) = block_to_node block budget in add_node node (nodes_of blocks charged)
]

abbrev pub or_empty_paragraph : List Node → List Node
or_empty_paragraph [] = paragraph_node [] ∷ []
or_empty_paragraph (node ∷ nodes) = node ∷ nodes

-- `_convert`
unfoldable pub convert : Text → Outcome (List Node)
unfolding blocks_from_lines nodes_of universal_newlines split_on
convert [] = ok (paragraph_node [] ∷ [])
convert (c ∷ s) = blocks_from_lines (split_on 10 (universal_newlines (c ∷ s))) >>= λ blocks.
    ok (or_empty_paragraph (nodes_of blocks 0).0)

-- `_fallback_doc`
abbrev pub fallback : Text → List Node
fallback md = code_node none md ∷ []

-- `except Exception`; fuel is no exception of the program.
abbrev pub caught : Text → Outcome (List Node) → Outcome (List Node)
caught md (ok nodes) = ok nodes
caught md (raised out_of_fuel) = raised out_of_fuel
caught md (raised e) = ok (fallback md)

-- `markdown_to_adf`: the content of its document.
unfoldable pub markdown_to_adf : Text → Outcome (List Node)
unfolding convert
markdown_to_adf md = caught md (convert md)
