-- ===== src/Lowerer.antt =====
-- src/lowerer.rs: from the checked program to blocks of instructions.
pub mod Facts
pub mod State
pub mod Scopes
pub mod Names
pub mod Expr
pub mod Frees
pub mod Alias
pub mod Roots
pub mod Chosen
pub mod Sorting
pub mod Exit
pub mod DoExit
pub mod Assign
pub mod Order
pub mod Loop
pub mod Stmt
pub mod Mutated
pub mod Fills
pub mod Conversions
pub mod Blocks
pub mod Steps
pub mod Flow
pub mod Rules
pub mod Arms
pub mod Exprs
pub mod Runs
pub mod Branches
pub mod Control
pub mod Program
pub mod Whole
pub mod Target
pub mod Unwritten
mod Tests
