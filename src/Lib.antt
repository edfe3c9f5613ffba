-- ===== src/Lib.antt =====
-- A model of glm, a compiler for a Lua dialect with 0-indexed tables, and of the runtime that its
-- programs link against.
--
-- A program is lexed and parsed (src/parser.rs), its table constructors are numbered
-- (src/analysis.rs), the shape analyzer (src/shape/) infers what each table holds and who owns it,
-- the type checker (src/type_checker.rs) unifies the element types that are left open, the lowerer
-- (src/lowerer.rs) emits the instructions of src/ir.rs, and the backend prints LLVM. The compiled
-- program calls the C-ABI runtime of src/rt.rs for its tables.
--
-- Runtime models src/rt.rs. Runtime/Table has the header `GlmTable` (its field `data` is `buffer`
-- here), Runtime/Grow the growth of the dense span (`span_grow`, `graduate`, `grow_vm`),
-- Runtime/Access `glm_tbl_set`, `glm_tbl_get`, `glm_tbl_len` and `upgrade_to_sparse` on one table, and
-- Runtime/Heap the C-ABI entry points over headers at addresses with `glm_tbl_free` and the count of
-- live tables. An `i64` index is an integer, a length a natural number, and wrap-around is written
-- out. The answers of the allocator and of the kernel are the parameter `Os`, the address of a new
-- header is an argument. The outcome `fault` stands for undefined behaviour: an access through a null or
-- dangling pointer or past a buffer, such as the read of cells of one byte as pointers in the deep free;
-- the end of the fuel is the outcome `out_of_fuel`. The count of
-- `glm_tbl_len` runs on fuel for one key more than the map holds, which always suffices, and
-- `glm_tbl_free` on fuel for the number of headers that it reaches. The pokes of the trace sidecar and
-- the print functions are output and are left out.
--
-- Syntax has the node types of src/ast.rs and the token type of src/lexer.rs. Parser models
-- src/parser.rs: Parser/Result the outcome of a step and `expect`, Parser/Expr the levels from
-- `parse_expr` down to `parse_ctor_entry`, Parser/Stmt `parse_stmt`, `parse_elseif_chain` and
-- `parse_program`. The state of the parser is the list of tokens that remain. `parse_program` gives
-- each statement fuel of sixteen for each token of the file and sixteen more, where twelve for each
-- and nine suffice. The tokenizer is generated by a third-party crate and is left out.
--
-- Sites models src/analysis.rs. The source keeps the number of a table constructor in a map by the
-- address of its node, and the size of the map is the next number; here the number is written in the
-- node. Shape has the lattices of the shape analyzer: Shape/Ty is src/shape/ty.rs with `join_ty`, and
-- Shape/Core is src/shape/core.rs with `LayoutVerdict::join` (`join_layout`) and `TableShape::join`
-- (`join_shape`, which returns the new shape and the flag).
-- Shape/Helpers is src/shape/helpers.rs.
--
-- Sites/Pipeline runs the parser, the numbering and the checker in the order of src/main.rs.
--
-- Checker models src/type_checker.rs and `elem_of` of src/shape/facts.rs, which it calls. Checker/Unify has
-- `resolve_var`, `unify` and `types_compatible`, Checker/State the state and the scopes, Checker/Check
-- the walk. A step takes the state and ends with a value, an error (the state as far as the step came is
-- kept), a panic, or out of fuel. Fuel counts the bindings that `resolve_var` follows and the tables that
-- it and `unify` enter; the walk itself is structural. No fuel suffices on a cyclic substitution.
--
-- Ir has the instructions of src/ir.rs. Lowerer models src/lowerer.rs: Lowerer/State the state
-- `IrLowerer` and its scopes, Lowerer/Names the walks over names (`find_mutated_vars`,
-- `collect_fill_stores`), Lowerer/Expr `lower_expr`, Lowerer/Frees `alias_roots` and the frees at
-- the end of a `do` block, Lowerer/Assign the statements without a body, Lowerer/Order and
-- Lowerer/Loop `while`, and Lowerer/Stmt `if`, `lower_stmt` and `lower_program`. A step gives a
-- value, the one error (the state as far as the step came is kept) or a panic. `while` and `if` take
-- the lowering of their bodies as an argument, and the model of `lower_stmt` gives it. Lowerer/Facts
-- has `ShapeFacts` of src/shape/facts.rs, which the steps take as an argument; a map by the address
-- of a statement is keyed by the place of the statement in the program. A set of names is a sorted
-- list, the head of a stack of scopes is the innermost, and `site_regs` keeps the newest entry in
-- front. A register is a `u32`: `free_reg` counts the registers that were given out, and the register that
-- `next_reg` gives is the low 32 bits of the count, so registers repeat after 2 ^ 32 of them. The loop of
-- `alias_roots` has fuel for one visit more than the moves and the arguments of
-- the phis, which always suffices. The proofs follow which blocks are open: Lowerer/Blocks and
-- Lowerer/Flow describe one block at a time, Lowerer/Arms and Lowerer/Runs put actions together, and
-- Lowerer/Control has the loops and the branches.
--
-- The fixed point of src/shape/analyzer.rs is not modelled. src/backend.rs prints text, src/trace.rs
-- records signals for a test tool, and src/main.rs reads files and runs processes; they are left out.
pub mod Prelude
pub mod Runtime
pub mod Syntax
pub mod Parser
pub mod Shape
pub mod Checker
pub mod Sites
pub mod Ir
pub mod Lowerer
