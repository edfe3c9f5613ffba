-- ===== src/Runtime.antt =====
-- src/rt.rs: the C-ABI runtime that compiled programs link against, its tables and their headers.
pub mod Outcome
pub mod Table
pub mod Grow
pub mod Access
pub mod Cells
pub mod Reserve
pub mod Heap
mod Tests
