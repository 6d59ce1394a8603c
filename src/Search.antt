-- ===== src/Search.antt =====
-- The search package (src/sci_etl_core/search): queries and their evaluation.
pub mod Ast
pub mod Boolean
pub mod Normalize
pub mod Tokenize
pub mod Evaluate
pub mod Lexeme
pub mod Parser
pub mod Scanner
pub mod Query
pub mod Fts5
pub mod Graph
pub mod Filters
pub mod Markers
mod Tests
