-- ===== src/Embeddings.antt =====
-- Passages to embed (src/sci_etl_core/embeddings).
pub mod Chunking
