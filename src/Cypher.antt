-- ===== src/Cypher.antt =====
-- crates/gemgraph-cypher: queries in a part of Cypher.
pub mod Lexer
pub mod Tokens
pub mod Ast
pub mod Parser
mod Examples
