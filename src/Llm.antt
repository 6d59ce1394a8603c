-- ===== src/Llm.antt =====
-- The clients of language models (src/sci_etl_core/llm).
pub mod Cache
