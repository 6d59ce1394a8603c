-- ===== src/Claims.antt =====
-- The stores of extracted claims (src/sci_etl_core/claims).
pub mod Store
