-- ===== src/Adapters/Markdown/Budget.antt =====
-- A document holds no more nodes than `_MAX_NODES` and the few of its last block.
use ticket_bot.Prelude.{
  ℕ, suc, ◌+◌, ◌≤◌, ◌<◌, ◌≡◌, refl, arith, leb, Option, none, some, Text, List, [], ◌∷◌, ◌++◌,
  length, Bool-cases, inl, inr, split_on,
}
use ticket_bot.Prelude.Outcomes.{ok, Ensures, Ensures->>=, Ensures-at}
use ticket_bot.Executors.Edits.{universal_newlines}
use ticket_bot.Adapters.Markdown.Spans.{Inline, Piece, plain, matched, pieces, sources}
use ticket_bot.Adapters.Markdown.Lines.{
  Block, paragraph, heading, code_block, rule, ordered_list, bullet_list, blocks_from_lines,
}
use ticket_bot.Adapters.Markdown.Nodes.{
  Node, paragraph_node, heading_node, code_node, rule_node, bullet_node, ordered_node, add_literal,
  inline_from, inline_nodes, list_items, paragraph_or_none, list_or_none, block_to_node, add_node,
  nodes_of, or_empty_paragraph, convert, markdown_to_adf,
}
use ticket_bot.Adapters.Markdown.Total.{markdown_to_adf-cases}

-- An item is a node, and its paragraph another one.
abbrev pub items_size : List (List Inline) → ℕ
items_size [] = 0
items_size (item ∷ items) = suc (suc (length item + items_size items))

-- The nodes that are charged: all but the lists themselves and the text of a code block.
abbrev pub node_size : Node → ℕ
node_size (paragraph_node nodes) = suc (length nodes)
node_size (heading_node level nodes) = suc (length nodes)
node_size (code_node attributes body) = 1
node_size rule_node = 1
node_size (bullet_node items) = items_size items
node_size (ordered_node order items) = items_size items

abbrev pub nodes_size : List Node → ℕ
nodes_size [] = 0
nodes_size (node ∷ nodes) = node_size node + nodes_size nodes

-- The size of what was made is what was charged, and the budget ends at `limit` or below.
record Charged (size : ℕ) (limit budget spent : ℕ) : Type 0 where
  exact : size + budget ≡ spent
  within : spent ≤ limit

add_literal-Charged :
    (s : Text) (budget : ℕ)
    → budget ≤ 5001
    → Charged (length (add_literal s budget).0) 5002 budget (add_literal s budget).1
add_literal-Charged [] budget h = record { exact = omega arith; within = omega arith }
add_literal-Charged (c ∷ s) budget h = record { exact = omega arith; within = omega arith }

inline_from-Charged :
    (literal : Text) (ps : List Piece) (budget : ℕ)
    → budget ≤ 5001
    → Charged
        (length (inline_from literal ps budget).0)
        5002
        budget
        (inline_from literal ps budget).1
unfolding inline_from
inline_from-Charged literal [] budget h = add_literal-Charged literal budget h
inline_from-Charged literal (plain c ∷ ps) budget h = inline_from-Charged _ ps budget h
inline_from-Charged [] (matched node source ∷ ps) budget h = elim (Bool-cases (leb 5000 budget)) [
  | inl e ↦ rw (inline_from, e) (add_literal-Charged ([] ++ (source ++ sources ps)) budget h)
  | inr e ↦
      let rest = inline_from-Charged [] ps (suc budget) (ground arith) in
      rw (inline_from, e) (record { exact = omega (arith, rest.exact); within = rest.within })
]
inline_from-Charged (c ∷ s) (matched node source ∷ ps) budget h =
    elim (Bool-cases (leb 5000 budget)) [
      | inl e ↦
          rw (inline_from, e) (add_literal-Charged ((c ∷ s) ++ (source ++ sources ps)) budget h)
      | inr e ↦
          let rest = inline_from-Charged [] ps (suc (suc budget)) (ground arith) in
          rw (inline_from, e) (record { exact = omega (arith, rest.exact); within = rest.within })
    ]

inline_nodes-Charged :
    (text : Text) (budget : ℕ)
    → budget ≤ 5001
    → Charged (length (inline_nodes text budget).0) 5002 budget (inline_nodes text budget).1
unfolding inline_nodes
inline_nodes-Charged text budget h = inline_from-Charged [] (pieces text) budget h

list_items-Charged :
    (texts : List Text) (budget : ℕ)
    → budget ≤ 5004
    → Charged (items_size (list_items texts budget).0) 5004 budget (list_items texts budget).1
unfolding list_items
list_items-Charged [] budget h = record { exact = omega arith; within = h }
list_items-Charged (text ∷ texts) budget h = elim (Bool-cases (leb 5000 budget)) [
  | inl e ↦ rw (list_items, e) (record { exact = omega arith; within = h })
  | inr e ↦
      let inline = inline_nodes-Charged text budget (ground arith) in
      let rest =
        list_items-Charged texts (suc (suc (inline_nodes text budget).1))
          (omega (arith, inline.within)) in
      rw (list_items, e)
        (record { exact = omega (arith, inline.exact, rest.exact); within = rest.within })
]

abbrev size_or_0 : Option Node → ℕ
size_or_0 none = 0
size_or_0 (some node) = node_size node

paragraph_or_none-Charged :
    (r : List Inline × ℕ) (budget : ℕ)
    → Charged (length r.0) 5002 budget r.1
    → Charged (size_or_0 (paragraph_or_none r).0) 5004 budget (paragraph_or_none r).1
paragraph_or_none-Charged ([], spent) budget h = record {
  exact = h.exact;
  within = omega (arith, h.within);
}
paragraph_or_none-Charged (n ∷ ns, spent) budget h = record {
  exact = omega (arith, h.exact);
  within = omega (arith, h.within);
}

list_or_none-Charged :
    (make : List (List Inline) → Node) (r : List (List Inline) × ℕ) (budget : ℕ)
    → ((items : List (List Inline)) → node_size (make items) ≡ items_size items)
    → Charged (items_size r.0) 5004 budget r.1
    → Charged (size_or_0 (list_or_none make r).0) 5004 budget (list_or_none make r).1
list_or_none-Charged make ([], spent) budget same h = record { exact = h.exact; within = h.within }
list_or_none-Charged make (i ∷ is, spent) budget same h = record {
  exact = omega (arith, h.exact, same (i ∷ is));
  within = h.within;
}

block_to_node-Charged :
    (block : Block) (budget : ℕ)
    → budget < 5000
    → Charged (size_or_0 (block_to_node block budget).0) 5004 budget (block_to_node block budget).1
unfolding block_to_node
block_to_node-Charged (paragraph text) budget h =
    paragraph_or_none-Charged _ budget (inline_nodes-Charged text budget (omega arith))
block_to_node-Charged (heading level text) budget h =
    let inline = inline_nodes-Charged text budget (omega arith) in
    record { exact = omega (arith, inline.exact); within = omega (arith, inline.within) }
block_to_node-Charged (code_block language body) budget h = record {
  exact = omega arith;
  within = omega arith;
}
block_to_node-Charged rule budget h = record { exact = omega arith; within = omega arith }
block_to_node-Charged (bullet_list texts) budget h =
    list_or_none-Charged bullet_node _ budget (λ items. refl)
      (list_items-Charged texts budget (omega arith))
block_to_node-Charged (ordered_list order texts) budget h =
    list_or_none-Charged (ordered_node order) _ budget (λ items. refl)
      (list_items-Charged texts budget (omega arith))

nodes_size-add_node :
    (node : Option Node) (more : List Node × ℕ)
    → nodes_size (add_node node more).0 ≡ size_or_0 node + nodes_size more.0
nodes_size-add_node none more = omega arith
nodes_size-add_node (some node) more = refl

spent-add_node : (node : Option Node) (more : List Node × ℕ) → (add_node node more).1 ≡ more.1
spent-add_node none more = refl
spent-add_node (some node) more = refl

nodes_of-Charged :
    (blocks : List Block) (budget : ℕ)
    → budget ≤ 5004
    → Charged (nodes_size (nodes_of blocks budget).0) 5004 budget (nodes_of blocks budget).1
unfolding nodes_of
nodes_of-Charged [] budget h = record { exact = omega arith; within = h }
nodes_of-Charged (block ∷ blocks) budget h = elim (Bool-cases (leb 5000 budget)) [
  | inl e ↦ rw (nodes_of, e) (record { exact = omega arith; within = h })
  | inr e ↦
      let first = block_to_node-Charged block budget (ground arith) in
      let rest = nodes_of-Charged blocks (block_to_node block budget).1 first.within in
      rw (nodes_of, e, nodes_size-add_node (block_to_node block budget).0 _, spent-add_node _ _)
        (record { exact = omega (arith, first.exact, rest.exact); within = rest.within })
]

-- The document is no larger than `limit`.
abbrev pub IsSmall : List Node → Type 0
IsSmall nodes = nodes_size nodes ≤ 5004

or_empty_paragraph-IsSmall :
    (nodes : List Node) → IsSmall nodes → IsSmall (or_empty_paragraph nodes)
or_empty_paragraph-IsSmall [] h = omega arith
or_empty_paragraph-IsSmall (node ∷ nodes) h = h

nodes_of-IsSmall : (blocks : List Block) → IsSmall (nodes_of blocks 0).0
nodes_of-IsSmall blocks =
    let all = nodes_of-Charged blocks 0 (omega arith) in omega (arith, all.exact, all.within)

convert-IsSmall : (md : Text) → Ensures IsSmall (convert md)
unfolding convert Ensures
convert-IsSmall [] = omega arith
convert-IsSmall (c ∷ s) =
    Ensures->>= IsSmall (blocks_from_lines (split_on 10 (universal_newlines (c ∷ s)))) _
      λ blocks _. or_empty_paragraph-IsSmall _ (nodes_of-IsSmall blocks)

-- The document of a text, however long it is, has at most 5004 nodes, where a list itself and the text
-- of a code block do not count.
pub markdown_to_adf-IsSmall :
    (md : Text) (nodes : List Node) → markdown_to_adf md ≡ ok nodes → IsSmall nodes
markdown_to_adf-IsSmall md nodes e = elim (markdown_to_adf-cases md nodes e) [
  | inl converted ↦ Ensures-at IsSmall (convert md) nodes (convert-IsSmall md) converted
  | inr fell_back ↦ rw fell_back (omega arith)
]
