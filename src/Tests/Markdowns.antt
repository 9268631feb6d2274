-- ===== src/Tests/Markdowns.antt =====
-- The theorems on `markdown_to_adf` at a concrete input.
use ticket_bot.Prelude.{
  ◌≡◌, refl, Text, codes, text_eq, split_on, starts_with, drop, strip, rstrip, lstrip, join, List,
  [], ◌∷◌, All,
}
use ticket_bot.Prelude.Trim.{take}
use ticket_bot.Prelude.Outcomes.{ok}
use ticket_bot.Predicate.Lexer.{span}
use ticket_bot.Adapters.Adf.{adf_to_text}
use ticket_bot.Executors.Edits.{universal_newlines}
use ticket_bot.Adapters.Markdown.Spans.{
  link, strong, marked, closed_run, bold_at, star_at, quoted_at, scheme_length, target_at, link_at,
  match_at, pieces, pieces_from, sources,
}
use ticket_bot.Adapters.Markdown.Lines.{
  spaced_text, fence, is_run_of, is_rule, atx_heading, ordered_item, bullet_item, digits_value,
  int_of_digits, is_block_start, read_while, block_at, blocks_in, blocks_from_lines,
}
use ticket_bot.Adapters.Markdown.Nodes.{
  Node, heading_node, bullet_node, unmarked, inline_from, inline_nodes, list_items, block_to_node,
  nodes_of, convert, markdown_to_adf,
}
use ticket_bot.Adapters.Markdown.Document.{doc_value}
use ticket_bot.Adapters.Markdown.Posted.{markdown_to_adf-read}
use ticket_bot.Adapters.Markdown.Budget.{IsSmall, markdown_to_adf-IsSmall}
use ticket_bot.Adapters.Markdown.Full.{NodeFull, markdown_to_adf-Full}
use ticket_bot.Tests.Samples.{py}

abbrev note : Text
note = codes "# Done\n\n- a **b** c\n- [site](https://x.y)"

abbrev note_nodes : List Node
note_nodes =
    heading_node 1 (unmarked (codes "Done") ∷ [])
    ∷ bullet_node (
        (unmarked (codes "a ") ∷ marked strong (codes "b") ∷ unmarked (codes " c") ∷ [])
        ∷ (marked (link (codes "https://x.y")) (codes "site") ∷ [])
        ∷ [])
    ∷ []

note_converted : markdown_to_adf note ≡ ok note_nodes
unfolding markdown_to_adf convert universal_newlines split_on blocks_from_lines blocks_in block_at
    read_while is_block_start int_of_digits digits_value bullet_item ordered_item atx_heading
    is_rule is_run_of fence spaced_text nodes_of block_to_node list_items inline_nodes inline_from
    pieces pieces_from match_at link_at target_at scheme_length quoted_at star_at bold_at closed_run
    span take drop strip rstrip lstrip starts_with sources text_eq join
note_converted = refl

markdown_to_adf-read_example :
    (nodes : List Node) × (text : Text) × (markdown_to_adf note ≡ ok nodes)
    × (adf_to_text py (doc_value py nodes) ≡ ok text)
markdown_to_adf-read_example = markdown_to_adf-read py note

markdown_to_adf-IsSmall_example : IsSmall note_nodes
markdown_to_adf-IsSmall_example = markdown_to_adf-IsSmall note note_nodes note_converted

markdown_to_adf-Full_example : All NodeFull note_nodes
markdown_to_adf-Full_example = markdown_to_adf-Full note note_nodes note_converted
