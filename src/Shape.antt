-- ===== src/Shape.antt =====
-- src/shape/: the lattices of table shapes, and what the analyzer hands on.
pub mod Ty
pub mod Core
pub mod Helpers
mod Tests
