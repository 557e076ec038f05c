-- ===== src/Runtime.antt =====
-- src/runtime.rs: the threads of the pipeline.
pub mod Writing
pub mod Action
pub mod Stats
pub mod Batches
pub mod Polling
pub mod Evaluation
pub mod Signals
mod Tests
mod ThreadTests
