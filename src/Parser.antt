-- ===== src/Parser.antt =====
-- src/parser.rs: the recursive-descent parser.
pub mod Result
pub mod Expr
pub mod Stmt
pub mod Ends
pub mod Slots
pub mod Total
mod Tests
