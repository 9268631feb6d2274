-- ===== src/Adapters/Markdown.antt =====
-- `markdown_to_adf` of ticketbot/adapters/sinks/adf.py: a text of the bot written as a document of
-- Jira, on ASCII. Markdown/Spans is the inline markup, Markdown/Lines the lines grouped to blocks,
-- Markdown/Nodes the nodes with the budget of `_MAX_NODES`.
pub mod Spans
pub mod Lines
pub mod Nodes
pub mod Document
pub mod Total
pub mod Posted
pub mod Budget
pub mod Matches
pub mod Full
