-- ===== src/Predicate.antt =====
-- The `when:` predicates, ticketbot/core/predicate.py: values, the tokenizer, the parser, the
-- evaluator, and the structured form of the selector rules.
pub mod Values
pub mod Lookup
pub mod Compare
pub mod Nodes
pub mod Lexer
pub mod Parser
pub mod Rules
