-- ===== src/Adapters/Markdown/Full.antt =====
-- No text node of a document is empty, its links lead into the web, its headings have a level.
use ticket_bot.Prelude.{
  ◌≤◌, ℕ, suc, ◌≡◌, refl, leb, Option, none, some, Text, List, [], ◌∷◌, ◌++◌, All, Bool-cases,
  Option-cases, inl, inr, split_on, length, zero, ◌-◌, subst,
}
use ticket_bot.Prelude.Outcomes.{ok, Ensures, Ensures->>=, Ensures-at}
use ticket_bot.Executors.Edits.{universal_newlines}
use ticket_bot.Adapters.Markdown.Spans.{
  Inline, match_at, Piece, plain, matched, pieces_from, pieces, sources,
}
use ticket_bot.Adapters.Markdown.Lines.{
  Block, paragraph, heading, code_block, rule, ordered_list, bullet_list, blocks_from_lines,
}
use ticket_bot.Adapters.Markdown.Nodes.{
  Node, paragraph_node, heading_node, code_node, rule_node, bullet_node, ordered_node, add_literal,
  inline_from, inline_nodes, list_items, paragraph_or_none, list_or_none, block_to_node, add_node,
  nodes_of, or_empty_paragraph, convert, markdown_to_adf,
}
use ticket_bot.Adapters.Markdown.Total.{HasLevel, blocks_from_lines-HasLevel, markdown_to_adf-cases}
use ticket_bot.Adapters.Markdown.Matches.{IsFull, FoundFull, match_at-Full}

PieceFull : Piece → Type 0
PieceFull (plain c) = Unit
PieceFull (matched node source) = IsFull node

pieces_from-Full :
    (before : Option ℕ) (skip : ℕ) (s : Text) → All PieceFull (pieces_from before skip s)
unfolding pieces_from PieceFull FoundFull
pieces_from-Full before skip [] = tt
pieces_from-Full before (suc skip) (c ∷ s) = pieces_from-Full (some c) skip s
pieces_from-Full before zero (c ∷ s) = elim (Option-cases (match_at before (c ∷ s))) [
  | inl e ↦ rw (All, pieces_from, e) (tt, pieces_from-Full (some c) zero s)
  | inr ((node, rest), e) ↦
      rw (All, pieces_from, e)
        (full node rest e, pieces_from-Full (some c) (length s - length rest) s)
]
  where
    full : (node : Inline) (rest : Text) → match_at before (c ∷ s) ≡ some (node, rest) → IsFull node
    full node rest e = subst FoundFull e (match_at-Full before (c ∷ s))

All-append : {A : Type 0} (P : A → Type 0) (xs ys : List A) → All P xs → All P ys → All P (xs ++ ys)
All-append P [] ys h k = k
All-append P (x ∷ xs) ys (h, hs) k = (h, All-append P xs ys hs k)

add_literal-Full : (s : Text) (budget : ℕ) → All IsFull (add_literal s budget).0
add_literal-Full [] budget = tt
add_literal-Full (c ∷ s) budget = ((refl, tt), tt)

inline_from-Full :
    (literal : Text) (ps : List Piece) (budget : ℕ)
    → All PieceFull ps
    → All IsFull (inline_from literal ps budget).0
unfolding inline_from PieceFull
inline_from-Full literal [] budget h = add_literal-Full literal budget
inline_from-Full literal (plain c ∷ ps) budget (h, hs) = inline_from-Full _ ps budget hs
inline_from-Full literal (matched node source ∷ ps) budget (h, hs) =
    elim (Bool-cases (leb 5000 budget)) [
      | inl e ↦ rw (inline_from, e) (add_literal-Full (literal ++ (source ++ sources ps)) budget)
      | inr e ↦
          rw (inline_from, e)
            (All-append IsFull (add_literal literal budget).0 _ (add_literal-Full literal budget)
              (h, inline_from-Full [] ps (suc (add_literal literal budget).1) hs))
    ]

inline_nodes-Full : (text : Text) (budget : ℕ) → All IsFull (inline_nodes text budget).0
unfolding inline_nodes pieces
inline_nodes-Full text budget =
    inline_from-Full [] (pieces text) budget (pieces_from-Full none zero text)

list_items-Full : (texts : List Text) (budget : ℕ) → All (All IsFull) (list_items texts budget).0
unfolding list_items
list_items-Full [] budget = tt
list_items-Full (text ∷ texts) budget = elim (Bool-cases (leb 5000 budget)) [
  | inl e ↦ rw (list_items, e) tt
  | inr e ↦
      rw (list_items, e)
        (
          inline_nodes-Full text budget,
          list_items-Full texts (suc (suc (inline_nodes text budget).1)),
        )
]

-- Every text node of a node, and the level of a heading; a code block without text has no text node.
unfoldable pub NodeFull : Node → Type 0
NodeFull (paragraph_node nodes) = All IsFull nodes
NodeFull (heading_node level nodes) = (1 ≤ level × level ≤ 6) × All IsFull nodes
NodeFull (code_node attributes body) = Unit
NodeFull rule_node = Unit
NodeFull (bullet_node items) = All (All IsFull) items
NodeFull (ordered_node order items) = All (All IsFull) items

unfoldable MaybeFull : Option Node → Type 0
MaybeFull none = Unit
MaybeFull (some node) = NodeFull node

paragraph_or_none-Full : (r : List Inline × ℕ) → All IsFull r.0 → MaybeFull (paragraph_or_none r).0
unfolding MaybeFull NodeFull
paragraph_or_none-Full ([], budget) h = tt
paragraph_or_none-Full (n ∷ ns, budget) h = h

list_or_none-Full :
    (make : List (List Inline) → Node) (r : List (List Inline) × ℕ)
    → ((items : List (List Inline)) → All (All IsFull) items → NodeFull (make items))
    → All (All IsFull) r.0
    → MaybeFull (list_or_none make r).0
unfolding MaybeFull
list_or_none-Full make ([], budget) k h = tt
list_or_none-Full make (i ∷ is, budget) k h = k (i ∷ is) h

block_to_node-Full :
    (block : Block) (budget : ℕ) → HasLevel block → MaybeFull (block_to_node block budget).0
unfolding HasLevel MaybeFull NodeFull block_to_node
block_to_node-Full (paragraph text) budget level_ok =
    paragraph_or_none-Full _ (inline_nodes-Full text budget)
block_to_node-Full (heading level text) budget level_ok = (level_ok, inline_nodes-Full text budget)
block_to_node-Full (code_block language body) budget level_ok = tt
block_to_node-Full rule budget level_ok = tt
block_to_node-Full (bullet_list texts) budget level_ok =
    list_or_none-Full bullet_node _ (λ items h. h) (list_items-Full texts budget)
block_to_node-Full (ordered_list order texts) budget level_ok =
    list_or_none-Full (ordered_node order) _ (λ items h. h) (list_items-Full texts budget)

add_node-Full :
    (node : Option Node) (more : List Node × ℕ)
    → MaybeFull node
    → All NodeFull more.0
    → All NodeFull (add_node node more).0
unfolding MaybeFull
add_node-Full none more h hs = hs
add_node-Full (some node) more h hs = (h, hs)

nodes_of-Full :
    (blocks : List Block) (budget : ℕ)
    → All HasLevel blocks
    → All NodeFull (nodes_of blocks budget).0
unfolding nodes_of
nodes_of-Full [] budget levels = tt
nodes_of-Full (block ∷ blocks) budget (level_ok, levels) = elim (Bool-cases (leb 5000 budget)) [
  | inl e ↦ rw (nodes_of, e) tt
  | inr e ↦
      rw (nodes_of, e)
        (add_node-Full _ _ (block_to_node-Full block budget level_ok)
          (nodes_of-Full blocks (block_to_node block budget).1 levels))
]

or_empty_paragraph-Full :
    (nodes : List Node) → All NodeFull nodes → All NodeFull (or_empty_paragraph nodes)
unfolding NodeFull
or_empty_paragraph-Full [] h = (tt, tt)
or_empty_paragraph-Full (node ∷ nodes) h = h

convert-Full : (md : Text) → Ensures (All NodeFull) (convert md)
unfolding convert Ensures NodeFull
convert-Full [] = (tt, tt)
convert-Full (c ∷ s) =
    Ensures->>= (All NodeFull) (blocks_from_lines (split_on 10 (universal_newlines (c ∷ s)))) _
      λ blocks e. or_empty_paragraph-Full _ (
        nodes_of-Full blocks 0
          (Ensures-at (All HasLevel) _ blocks (blocks_from_lines-HasLevel _) e))

-- Whatever the text, no text node in the paragraphs, headings and list items of its document is empty,
-- each link there leads to an http or https address, and each heading has a level from 1 to 6.
pub markdown_to_adf-Full :
    (md : Text) (nodes : List Node) → markdown_to_adf md ≡ ok nodes → All NodeFull nodes
unfolding NodeFull
markdown_to_adf-Full md nodes e = elim (markdown_to_adf-cases md nodes e) [
  | inl converted ↦ Ensures-at (All NodeFull) (convert md) nodes (convert-Full md) converted
  | inr fell_back ↦ rw fell_back (tt, tt)
]
