-- ===== src/Sites.antt =====
-- src/analysis.rs: `number_sites` gives each table constructor its number. The source keeps the numbers in
-- a map by the address of the node, whose size is the next number; here they are written in the nodes.
use glm.Prelude.{ℕ, suc, List, [], ◌∷◌}
use glm.Syntax.{
  Expr, Entries, no_entries, entry, table_ctor, index, binary_op, unary_op, Stmt, Stmts, no_stmts,
  stmt, local_decl, assignment, index_assign, while_loop, do_block, if_else, print,
}
pub mod Order
pub mod Numbered
pub mod Pipeline

unfoldable mutual
  pub number_expr : Expr → ℕ → Expr × ℕ
  number_expr (table_ctor site entries) k =
      let (es, n) = number_entries entries (suc k) in (table_ctor k es, n)
  number_expr (index obj key) k =
      let (o, m) = number_expr obj k in let (e, n) = number_expr key m in (index o e, n)
  number_expr (binary_op op left right) k =
      let (l, m) = number_expr left k in let (r, n) = number_expr right m in (binary_op op l r, n)
  number_expr (unary_op op e) k = let (a, n) = number_expr e k in (unary_op op a, n)
  number_expr e k = (e, k)

  pub number_entries : Entries → ℕ → Entries × ℕ
  number_entries no_entries k = (no_entries, k)
  number_entries (entry slot e more) k =
      let (a, m) = number_expr e k in let (es, n) = number_entries more m in (entry slot a es, n)

unfoldable pub number_exprs : List Expr → ℕ → List Expr × ℕ
number_exprs [] k = ([], k)
number_exprs (e ∷ es) k =
    let (a, m) = number_expr e k in let (rest, n) = number_exprs es m in (a ∷ rest, n)

unfoldable mutual
  pub number_stmt : Stmt → ℕ → Stmt × ℕ
  number_stmt (local_decl names exprs) k =
      let (es, n) = number_exprs exprs k in (local_decl names es, n)
  number_stmt (assignment x e) k = let (a, n) = number_expr e k in (assignment x a, n)
  number_stmt (index_assign obj key value) k =
      let (o, l) = number_expr obj k in
      let (i, m) = number_expr key l in let (v, n) = number_expr value m in (index_assign o i v, n)
  number_stmt (while_loop e body) k =
      let (a, m) = number_expr e k in let (b, n) = number_sites body m in (while_loop a b, n)
  number_stmt (do_block body) k = let (b, n) = number_sites body k in (do_block b, n)
  number_stmt (if_else e then_body else_body) k =
      let (a, l) = number_expr e k in
      let (t, m) = number_sites then_body l in
      let (f, n) = number_sites else_body m in (if_else a t f, n)
  number_stmt (print exprs) k = let (es, n) = number_exprs exprs k in (print es, n)

  pub number_sites : Stmts → ℕ → Stmts × ℕ
  number_sites no_stmts k = (no_stmts, k)
  number_sites (stmt s ss) k =
      let (a, m) = number_stmt s k in let (rest, n) = number_sites ss m in (stmt a rest, n)
