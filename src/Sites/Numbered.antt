-- ===== src/Sites/Numbered.antt =====
-- What `number_sites` of src/analysis.rs gives is what the type checker asks of a program.
use glm.Prelude.{ℕ, suc, ◌≤◌, ◌≡◌, refl, arith, List, [], ◌∷◌, length, ap}
use glm.Syntax.{
  StaticType, Expr, Entries, no_entries, entry, table_ctor, index, binary_op, unary_op, Stmt, Stmts,
  no_stmts, stmt, local_decl, assignment, index_assign, while_loop, do_block, if_else, print,
}
use glm.Sites.{number_expr, number_entries, number_exprs, number_stmt, number_sites}
use glm.Sites.Order.{
  Consecutive-le, number_expr-Consecutive, number_entries-Consecutive, number_exprs-Consecutive,
  number_sites-Consecutive,
}
use glm.Checker.Unify.{Substitutions}
use glm.Checker.Check.{new_checker, check_program}
use glm.Checker.Keeps.{Keeps}
use glm.Checker.Walk.{Numbered, EntriesNumbered, ExprsNumbered, StmtNumbered, StmtsNumbered}
use glm.Checker.Program.{check_program-Keeps}

-- A declaration has no more initializers than names, as `parse_stmt` demands.
unfoldable mutual
  pub StmtDeclares : Stmt → Type 0
  StmtDeclares (local_decl names exprs) = length exprs ≤ length names
  StmtDeclares (while_loop e body) = StmtsDeclare body
  StmtDeclares (do_block body) = StmtsDeclare body
  StmtDeclares (if_else e then_body else_body) = StmtsDeclare then_body × StmtsDeclare else_body
  StmtDeclares _ = Unit

  pub StmtsDeclare : Stmts → Type 0
  StmtsDeclare no_stmts = Unit
  StmtsDeclare (stmt s ss) = StmtDeclares s × StmtsDeclare ss

module _ (n : ℕ) where
  mutual
    unfolding number_expr Numbered

    number_expr-Numbered :
        (e : Expr) (k : ℕ) → (number_expr e k).1 ≤ n → Numbered n ((number_expr e k).0)
    number_expr-Numbered (table_ctor site entries) k h =
        let le = Consecutive-le (number_entries-Consecutive entries (suc k)) in
        (omega arith, number_entries-Numbered entries (suc k) h)
    number_expr-Numbered (index obj key) k h =
        let le = Consecutive-le (number_expr-Consecutive key ((number_expr obj k).1)) in
        (number_expr-Numbered obj k (omega arith), number_expr-Numbered key _ h)
    number_expr-Numbered (binary_op op left right) k h =
        let le = Consecutive-le (number_expr-Consecutive right ((number_expr left k).1)) in
        (number_expr-Numbered left k (omega arith), number_expr-Numbered right _ h)
    number_expr-Numbered (unary_op op e) k h = number_expr-Numbered e k h
    number_expr-Numbered e k h = tt

    number_entries-Numbered :
        (es : Entries) (k : ℕ)
        → (number_entries es k).1 ≤ n
        → EntriesNumbered n ((number_entries es k).0)
    number_entries-Numbered no_entries k h = tt
    number_entries-Numbered (entry slot e more) k h =
        let le = Consecutive-le (number_entries-Consecutive more ((number_expr e k).1)) in
        (number_expr-Numbered e k (omega arith), number_entries-Numbered more _ h)

  number_exprs-Numbered :
      (es : List Expr) (k : ℕ) → (number_exprs es k).1 ≤ n → ExprsNumbered n ((number_exprs es k).0)
  unfolding number_exprs
  number_exprs-Numbered [] k h = tt
  number_exprs-Numbered (e ∷ es) k h =
      let le = Consecutive-le (number_exprs-Consecutive es ((number_expr e k).1)) in
      (number_expr-Numbered e k (omega arith), number_exprs-Numbered es _ h)

  length-number_exprs : (es : List Expr) (k : ℕ) → length ((number_exprs es k).0) ≡ length es
  unfolding number_exprs
  length-number_exprs [] k = refl
  length-number_exprs (e ∷ es) k = ap suc (length-number_exprs es _)

  mutual
    unfolding number_stmt StmtNumbered StmtDeclares

    number_stmt-Numbered :
        (s : Stmt) (k : ℕ)
        → StmtDeclares s
        → (number_stmt s k).1 ≤ n
        → StmtNumbered n ((number_stmt s k).0)
    number_stmt-Numbered (local_decl names exprs) k d h =
        let same = length-number_exprs exprs k in (omega arith, number_exprs-Numbered exprs k h)
    number_stmt-Numbered (assignment x e) k d h = number_expr-Numbered e k h
    number_stmt-Numbered (index_assign obj key value) k d h =
        let l = (number_expr obj k).1 in
        let p = Consecutive-le (number_expr-Consecutive key l) in
        let q = Consecutive-le (number_expr-Consecutive value ((number_expr key l).1)) in
        (
          number_expr-Numbered obj k (omega arith),
          number_expr-Numbered key _ (omega arith),
          number_expr-Numbered value _ h,
        )
    number_stmt-Numbered (while_loop e body) k d h =
        let le = Consecutive-le (number_sites-Consecutive body ((number_expr e k).1)) in
        (number_expr-Numbered e k (omega arith), number_sites-Numbered body _ d h)
    number_stmt-Numbered (do_block body) k d h = number_sites-Numbered body k d h
    number_stmt-Numbered (if_else e then_body else_body) k (dt, df) h =
        let l = (number_expr e k).1 in
        let p = Consecutive-le (number_sites-Consecutive then_body l) in
        let q =
          Consecutive-le (number_sites-Consecutive else_body ((number_sites then_body l).1)) in
        (
          number_expr-Numbered e k (omega arith),
          number_sites-Numbered then_body _ dt (omega arith),
          number_sites-Numbered else_body _ df h,
        )
    number_stmt-Numbered (print exprs) k d h = number_exprs-Numbered exprs k h

    pub number_sites-Numbered :
        (ss : Stmts) (k : ℕ)
        → StmtsDeclare ss
        → (number_sites ss k).1 ≤ n
        → StmtsNumbered n ((number_sites ss k).0)
    number_sites-Numbered no_stmts k d h = tt
    number_sites-Numbered (stmt s ss) k (d, ds) h =
        let le = Consecutive-le (number_sites-Consecutive ss ((number_stmt s k).1)) in
        (number_stmt-Numbered s k d (omega arith), number_sites-Numbered ss _ ds h)

-- The checker after the numbering: on a program whose declarations have no more initializers than names,
-- numbered from 0, with an element type for every number given, `check_program` does not panic, and
-- unless a resolution does not end its state has one scope at the end.
pub check_numbered-Keeps :
    (f : ℕ) (ss : Stmts) (elems : List StaticType) (shape : Substitutions)
    → StmtsDeclare ss
    → length elems ≡ (number_sites ss 0).1
    → Keeps
        (new_checker elems shape)
        (check_program f ((number_sites ss 0).0) (new_checker elems shape))
check_numbered-Keeps f ss elems shape d e =
    check_program-Keeps f elems shape _ (number_sites-Numbered (length elems) ss 0 d (omega arith))
