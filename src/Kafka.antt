-- ===== src/Kafka.antt =====
-- src/kafka.rs: which offsets each consumer reads, what it hands on, and the buffers that it reuses.
pub mod Ranges
pub mod Shards
pub mod Buffers
pub mod Input
pub mod Boundaries
pub mod Settings
pub mod BoundaryTests
mod Tests
pub mod InputTests
