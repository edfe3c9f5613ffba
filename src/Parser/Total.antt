-- ===== src/Parser/Total.antt =====
-- The parser of src/parser.rs ends on every input, with constructors that write no slot twice.
pub mod Steps
pub mod Ctor
pub mod Exprs
pub mod Stmts
