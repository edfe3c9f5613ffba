-- ===== src/Sites/Order.antt =====
-- The numbers that `number_sites` of src/analysis.rs gives, in the order of the source text.
use glm.Prelude.{ℕ, suc, ◌≤◌, arith, List, [], ◌∷◌, ◌++◌}
use glm.Syntax.{
  Expr, Entries, no_entries, entry, table_ctor, index, binary_op, unary_op, Stmt, Stmts, no_stmts,
  stmt, local_decl, assignment, index_assign, while_loop, do_block, if_else, print,
}
use glm.Sites.{number_expr, number_entries, number_exprs, number_stmt, number_sites}

-- The sites in the order of the text, a constructor before what it holds.
unfoldable mutual
  pub sites_expr : Expr → List ℕ
  sites_expr (table_ctor site entries) = site ∷ sites_entries entries
  sites_expr (index obj key) = sites_expr obj ++ sites_expr key
  sites_expr (binary_op op left right) = sites_expr left ++ sites_expr right
  sites_expr (unary_op op e) = sites_expr e
  sites_expr e = []

  pub sites_entries : Entries → List ℕ
  sites_entries no_entries = []
  sites_entries (entry slot e more) = sites_expr e ++ sites_entries more

unfoldable pub sites_exprs : List Expr → List ℕ
sites_exprs [] = []
sites_exprs (e ∷ es) = sites_expr e ++ sites_exprs es

unfoldable mutual
  pub sites_stmt : Stmt → List ℕ
  sites_stmt (local_decl names exprs) = sites_exprs exprs
  sites_stmt (assignment x e) = sites_expr e
  sites_stmt (index_assign obj key value) = sites_expr obj ++ (sites_expr key ++ sites_expr value)
  sites_stmt (while_loop e body) = sites_expr e ++ sites_stmts body
  sites_stmt (do_block body) = sites_stmts body
  sites_stmt (if_else e then_body else_body) =
      sites_expr e ++ (sites_stmts then_body ++ sites_stmts else_body)
  sites_stmt (print exprs) = sites_exprs exprs

  pub sites_stmts : Stmts → List ℕ
  sites_stmts no_stmts = []
  sites_stmts (stmt s ss) = sites_stmt s ++ sites_stmts ss

-- The list `k`, `k + 1` and so on, up to `n` and without it.
pub data Consecutive : ℕ → List ℕ → ℕ → Type 0 where
  none_left : (k : ℕ) → Consecutive k [] k
  next : {xs : List ℕ} {n : ℕ} (k : ℕ) → Consecutive (suc k) xs n → Consecutive k (k ∷ xs) n

pub Consecutive-append :
    {xs ys : List ℕ} {k m n : ℕ}
    → Consecutive k xs m
    → Consecutive m ys n
    → Consecutive k (xs ++ ys) n
Consecutive-append (none_left k) q = q
Consecutive-append (next k p) q = next k (Consecutive-append p q)

pub Consecutive-le : {xs : List ℕ} {k n : ℕ} → Consecutive k xs n → k ≤ n
Consecutive-le (none_left k) = omega arith
Consecutive-le (next k p) = let h = Consecutive-le p in omega arith

mutual
  unfolding number_expr sites_expr

  pub number_expr-Consecutive :
      (e : Expr) (k : ℕ) → Consecutive k (sites_expr ((number_expr e k).0)) ((number_expr e k).1)
  number_expr-Consecutive (table_ctor site entries) k =
      next k (number_entries-Consecutive entries (suc k))
  number_expr-Consecutive (index obj key) k =
      Consecutive-append (number_expr-Consecutive obj k) (number_expr-Consecutive key _)
  number_expr-Consecutive (binary_op op left right) k =
      Consecutive-append (number_expr-Consecutive left k) (number_expr-Consecutive right _)
  number_expr-Consecutive (unary_op op e) k = number_expr-Consecutive e k
  number_expr-Consecutive e k = none_left k

  pub number_entries-Consecutive :
      (es : Entries) (k : ℕ)
      → Consecutive k (sites_entries ((number_entries es k).0)) ((number_entries es k).1)
  number_entries-Consecutive no_entries k = none_left k
  number_entries-Consecutive (entry slot e more) k =
      Consecutive-append (number_expr-Consecutive e k) (number_entries-Consecutive more _)

pub number_exprs-Consecutive :
    (es : List Expr) (k : ℕ)
    → Consecutive k (sites_exprs ((number_exprs es k).0)) ((number_exprs es k).1)
unfolding number_exprs sites_exprs
number_exprs-Consecutive [] k = none_left k
number_exprs-Consecutive (e ∷ es) k =
    Consecutive-append (number_expr-Consecutive e k) (number_exprs-Consecutive es _)

mutual
  unfolding number_stmt sites_stmt

  pub number_stmt-Consecutive :
      (s : Stmt) (k : ℕ) → Consecutive k (sites_stmt ((number_stmt s k).0)) ((number_stmt s k).1)
  number_stmt-Consecutive (local_decl names exprs) k = number_exprs-Consecutive exprs k
  number_stmt-Consecutive (assignment x e) k = number_expr-Consecutive e k
  number_stmt-Consecutive (index_assign obj key value) k =
      Consecutive-append (number_expr-Consecutive obj k)
        (Consecutive-append (number_expr-Consecutive key _) (number_expr-Consecutive value _))
  number_stmt-Consecutive (while_loop e body) k =
      Consecutive-append (number_expr-Consecutive e k) (number_block-Consecutive body _)
  number_stmt-Consecutive (do_block body) k = number_block-Consecutive body k
  number_stmt-Consecutive (if_else e then_body else_body) k =
      Consecutive-append (number_expr-Consecutive e k) (
        Consecutive-append (number_block-Consecutive then_body _)
          (number_block-Consecutive else_body _))
  number_stmt-Consecutive (print exprs) k = number_exprs-Consecutive exprs k

  number_block-Consecutive :
      (ss : Stmts) (k : ℕ)
      → Consecutive k (sites_stmts ((number_sites ss k).0)) ((number_sites ss k).1)
  number_block-Consecutive no_stmts k = none_left k
  number_block-Consecutive (stmt s ss) k =
      Consecutive-append (number_stmt-Consecutive s k) (number_block-Consecutive ss _)

-- The numbers of the table constructors follow each other without a gap, in the order of the text and
-- from the number at which the counter stood.
pub number_sites-Consecutive :
    (ss : Stmts) (k : ℕ)
    → Consecutive k (sites_stmts ((number_sites ss k).0)) ((number_sites ss k).1)
number_sites-Consecutive ss k = number_block-Consecutive ss k
