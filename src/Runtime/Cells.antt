-- ===== src/Runtime/Cells.antt =====
-- The abstract view of a table of src/rt.rs, and that each operation keeps or changes it as promised.
pub mod Base
pub mod Lists
pub mod Grow
pub mod Set
pub mod Border
pub mod Stores
pub mod Inside
