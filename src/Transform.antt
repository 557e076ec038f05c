-- ===== src/Transform.antt =====
-- src/transform: the plan of predicates and projection, and the worker that applies it.
pub mod Engine
pub mod Policies
pub mod Worker
pub mod Plan
pub mod Tests
