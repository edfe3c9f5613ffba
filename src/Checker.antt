-- ===== src/Checker.antt =====
-- src/type_checker.rs: the type checker and its unification of element types.
pub mod Unify
pub mod State
pub mod Check
pub mod Keeps
pub mod Walk
pub mod Blocks
pub mod Program
mod Tests
