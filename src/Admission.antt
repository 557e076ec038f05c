-- ===== src/Admission.antt =====
-- src/runtime/state.rs: what may be in flight. `Shared` is the budget of all consumers,
-- `Partition` the one that a poller keeps for its own partitions.
pub mod Shared
pub mod Partition
mod Tests
