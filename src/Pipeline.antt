-- ===== src/Pipeline.antt =====
-- pipeline_async.py: the records of a page as interleaved tasks, and the loop over pages.
pub mod Effects
pub mod Page
pub mod Flush
pub mod Position
pub mod Run
pub mod Session
mod Tests
