-- ===== src/Parser/Slots.antt =====
-- The slots of the table constructors that src/parser.rs reads.
use glm.Prelude.{ℕ, ◌≡◌, ◌≤◌, false, List, [], ◌∷◌, length}
use glm.Syntax.{
  Expr, Entries, no_entries, entry, integer, float, boolean, string, nil, table_ctor, identifier,
  index, binary_op, unary_op, sys_alloc_count, Stmt, Stmts, no_stmts, stmt, local_decl, assignment,
  index_assign, while_loop, do_block, if_else, print,
}
use glm.Parser.Expr.{member}

abbrev pub slots : Entries → List ℕ
slots no_entries = []
slots (entry k v es) = k ∷ slots es

-- No constructor in the expression writes a slot twice.
unfoldable mutual
  pub IsSlotted : Expr → Type 0
  IsSlotted (table_ctor site es) = EntriesSlotted es
  IsSlotted (index obj key) = IsSlotted obj × IsSlotted key
  IsSlotted (binary_op op l r) = IsSlotted l × IsSlotted r
  IsSlotted (unary_op op e) = IsSlotted e
  IsSlotted (integer n) = Unit
  IsSlotted (float x) = Unit
  IsSlotted (boolean b) = Unit
  IsSlotted (string s) = Unit
  IsSlotted (identifier n) = Unit
  IsSlotted nil = Unit
  IsSlotted sys_alloc_count = Unit

  pub EntriesSlotted : Entries → Type 0
  EntriesSlotted no_entries = Unit
  EntriesSlotted (entry k v es) = (member k (slots es) ≡ false) × IsSlotted v × EntriesSlotted es

abbrev pub ExprsSlotted : List Expr → Type 0
ExprsSlotted [] = Unit
ExprsSlotted (e ∷ es) = IsSlotted e × ExprsSlotted es

-- The same of every expression in a statement and in a block, and no declaration has more initializers
-- than names.
unfoldable mutual
  pub StmtSlotted : Stmt → Type 0
  StmtSlotted (local_decl names exprs) = (length exprs ≤ length names) × ExprsSlotted exprs
  StmtSlotted (assignment name e) = IsSlotted e
  StmtSlotted (index_assign obj key value) = IsSlotted obj × IsSlotted key × IsSlotted value
  StmtSlotted (while_loop c body) = IsSlotted c × StmtsSlotted body
  StmtSlotted (do_block body) = StmtsSlotted body
  StmtSlotted (if_else c body rest) = IsSlotted c × StmtsSlotted body × StmtsSlotted rest
  StmtSlotted (print exprs) = ExprsSlotted exprs

  pub StmtsSlotted : Stmts → Type 0
  StmtsSlotted no_stmts = Unit
  StmtsSlotted (stmt s ss) = StmtSlotted s × StmtsSlotted ss
