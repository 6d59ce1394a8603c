-- ===== src/State.antt =====
-- The state managers (src/sci_etl_core/state).
pub mod Json
pub mod Lines
pub mod Files
mod Tests
