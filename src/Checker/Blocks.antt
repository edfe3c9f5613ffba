-- ===== src/Checker/Blocks.antt =====
-- Statements, blocks and programs of src/type_checker.rs: the scopes are balanced, nothing panics.
use Prim.Native.String.{String}
use glm.Prelude.{ℕ, suc, ◌≤◌, ◌≡◌, refl, ap, ◌∙◌, arith, List, [], ◌∷◌, ◌++◌, length, append_assoc}
use glm.Syntax.{
  StaticType, boolean, table, unknown, Expr, nil, Stmt, Stmts, no_stmts, stmt, local_decl,
  assignment, index_assign, while_loop, do_block, if_else, print,
}
use glm.Checker.Unify.{type_eq, type_name}
use glm.Checker.State.{empty_ctor, Checker, Checked, ok, err, panicked, Check, proceed, pure}
use glm.Checker.Check.{
  is_empty_table_constructor, check_expr, check_exprs, declare_all, check_release, check_assigned,
  check_assignment, check_store, condition_type, check_condition, printable, check_printed, report,
  scoped, check_stmt, check_block,
}
use glm.Checker.Keeps.{
  Extends-refl, Extends-trans, Keeps, gives, fails, Ready, Ready-Extends, Safe, Safe-bind,
  Safe-pure, Safe-raise, Keeps-proceed, Safe-if, resolve-Safe, var_type-Safe, unify_types-Safe,
  assign_var-Safe, declare_var-Safe, next_bare-Safe, Runs, done, scope-Safe,
}
use glm.Checker.Walk.{
  Numbered, ExprsNumbered, StmtNumbered, StmtsNumbered, check_expr-Safe, indexing-Safe,
}

check_exprs-Safe : (n f : ℕ) (es : List Expr) → ExprsNumbered n es → Safe n (check_exprs f es)
unfolding check_exprs
check_exprs-Safe n f [] h = Safe-pure n []
check_exprs-Safe n f (e ∷ es) (he, hs) =
    Safe-bind n _ _ (check_expr-Safe n f e he)
      λ t. Safe-bind n _ _ (check_exprs-Safe n f es hs) (λ ts. Safe-pure n (t ∷ ts))

-- As many types as expressions.
unfoldable Long : {A : Type 0} → ℕ → Checked (List A) → Type 0
Long k (ok ts _) = length ts ≡ k
Long k _ = Unit

Long-proceed :
    {A B : Type 0} (k : ℕ) (r : Checked A) (next : A → Check (List B))
    → ((a : A) (d : Checker) → Long k (next a d))
    → Long k (proceed r next)
unfolding proceed Long
Long-proceed k (ok a d) next h = h a d
Long-proceed k (err e d) next h = tt
Long-proceed k panicked next h = tt
Long-proceed k Checked.out_of_fuel next h = tt

Long-longer :
    {A : Type 0} (k : ℕ) (x : A) (r : Checked (List A))
    → Long k r
    → Long (suc k) (proceed r (λ xs. pure (x ∷ xs)))
unfolding proceed Long
Long-longer k x (ok xs d) h = ap suc h
Long-longer k x (err e d) h = tt
Long-longer k x panicked h = tt
Long-longer k x Checked.out_of_fuel h = tt

check_exprs-Long : (f : ℕ) (es : List Expr) (c : Checker) → Long (length es) (check_exprs f es c)
unfolding check_exprs Long
check_exprs-Long f [] c = refl
check_exprs-Long f (e ∷ es) c =
    Long-proceed (suc (length es)) (check_expr f e c) _
      λ t d. Long-longer (length es) t (check_exprs f es d) (check_exprs-Long f es d)

declare_all-Safe :
    (n : ℕ) (xs : List String) (ts : List StaticType)
    → length ts ≤ length xs
    → Safe n (declare_all xs ts)
unfolding declare_all
declare_all-Safe n [] [] h = Safe-pure n tt
declare_all-Safe n [] (t ∷ ts) h = absurd (omega arith)
declare_all-Safe n (x ∷ xs) (t ∷ ts) h =
    Safe-bind n _ _ (declare_var-Safe n x t) (λ _. declare_all-Safe n xs ts (omega arith))
declare_all-Safe n (x ∷ xs) [] h = Safe-bind n _ _ (next_bare-Safe n) λ i.
    Safe-bind n _ _ (declare_var-Safe n x (unknown i)) (λ _. declare_all-Safe n xs [] (omega arith))

declare_types :
    (n : ℕ) (xs : List String) (k : ℕ) (c : Checker) (r : Checked (List StaticType))
    → Ready n c
    → Keeps c r
    → Long k r
    → k ≤ length xs
    → Keeps c (proceed r (λ ts. declare_all xs ts))
unfolding proceed Long
declare_types n xs k c (ok ts d) ready kept long le =
    Keeps-proceed n c (ok ts d) (λ _. declare_all xs ts) ready kept
      λ _. declare_all-Safe n xs ts (omega arith)
declare_types n xs k c r ready (fails x) long le = fails x
declare_types n xs k c r ready Keeps.runs_out long le = Keeps.runs_out

check_release-Safe : (n : ℕ) (x : String) (t : StaticType) → Safe n (check_release x t)
unfolding check_release
check_release-Safe n x (table _) = Safe-pure n tt
check_release-Safe n x (unknown _) = Safe-pure n tt
check_release-Safe n x t = Safe-raise n _

check_assigned-Safe :
    (n f : ℕ) (x : String) (e : Expr) (expected actual : StaticType)
    → Safe n (check_assigned f x e expected actual)
unfolding check_assigned
check_assigned-Safe n f x e expected actual =
    Safe-if n (type_eq expected actual) _ _ (Safe-pure n tt) (
      Safe-if n (is_empty_table_constructor e) _ _
        (Safe-raise n (empty_ctor (type_name actual) x (type_name expected)))
        (Safe-bind n _ _ (unify_types-Safe n f expected actual)
          λ _. Safe-bind n _ _ (resolve-Safe n f actual) (λ t. assign_var-Safe n x t)))

check_assignment-Safe :
    (n f : ℕ) (x : String) (e : Expr) (expected : StaticType)
    → Numbered n e
    → Safe n (check_assignment f x e expected)
unfolding check_assignment
check_assignment-Safe n f x nil expected h = check_release-Safe n x expected
check_assignment-Safe n f x e expected h =
    Safe-bind n _ _ (check_expr-Safe n f e h)
      (λ actual. check_assigned-Safe n f x e expected actual)

check_store-Safe : (n f : ℕ) (a b : StaticType) → Safe n (check_store f a b)
unfolding check_store
check_store-Safe n f (table a) (table b) = unify_types-Safe n f a b
check_store-Safe n f a b = unify_types-Safe n f a b

condition_type-Safe : (n : ℕ) (kw : String) (t : StaticType) → Safe n (condition_type kw t)
unfolding condition_type
condition_type-Safe n kw boolean = Safe-pure n tt
condition_type-Safe n kw t = Safe-raise n _

check_condition-Safe :
    (n f : ℕ) (e : Expr) (kw : String) → Numbered n e → Safe n (check_condition f e kw)
unfolding check_condition
check_condition-Safe n f e kw h =
    Safe-bind n _ _ (check_expr-Safe n f e h) (λ t. condition_type-Safe n kw t)

printable-Safe : (n : ℕ) (t : StaticType) → Safe n (printable t)
unfolding printable
printable-Safe n (table _) = Safe-raise n _
printable-Safe n t = Safe-pure n tt

check_printed-Safe : (n f : ℕ) (es : List Expr) → ExprsNumbered n es → Safe n (check_printed f es)
unfolding check_printed
check_printed-Safe n f [] h = Safe-pure n tt
check_printed-Safe n f (e ∷ es) (he, hs) =
    Safe-bind n _ _ (check_expr-Safe n f e he)
      λ t. Safe-bind n _ _ (printable-Safe n t) (λ _. check_printed-Safe n f es hs)

report-Runs :
    (n : ℕ) (c : Checker) (r : Checked (Unit {0})) (rest : Check (Unit {0}))
    → Ready n c
    → Keeps c r
    → ((d : Checker) → Ready n d → Runs d (rest d))
    → Runs c (report r rest)
unfolding report
report-Runs n c r rest ready (gives {d} x) h = extend (rest d) (h d (Ready-Extends ready x))
  where
    extend : (q : Checked (Unit {0})) → Runs d q → Runs c q
    extend q (done y) = done (Extends-trans c d _ x y)
    extend q Runs.runs_out = Runs.runs_out
report-Runs n c r rest ready (fails {e} {d} x) h = done (record {
  depth = x.depth;
  sites = x.sites;
  news = x.news ++ (e ∷ []);
  grown = ap (λ l. l ++ (e ∷ [])) x.grown ∙ append_assoc c.diagnostics x.news (e ∷ []);
})
report-Runs n c r rest ready Keeps.runs_out h = Runs.runs_out

mutual
  unfolding check_stmt StmtNumbered scoped

  check_stmt-Safe : (n f : ℕ) (s : Stmt) → StmtNumbered n s → Safe n (check_stmt f s)
  check_stmt-Safe n f (local_decl names exprs) (fewer, h) = λ c r.
      declare_types n names (length exprs) c _ r (check_exprs-Safe n f exprs h c r)
        (check_exprs-Long f exprs c) fewer
  check_stmt-Safe n f (assignment x e) h =
      Safe-bind n _ _ (var_type-Safe n f x) (λ expected. check_assignment-Safe n f x e expected h)
  check_stmt-Safe n f (index_assign obj key value) (ho, hk, hv) =
      indexing-Safe n _ _ _ (check_expr-Safe n f obj ho) (check_expr-Safe n f key hk)
        λ elem. Safe-bind n _ _ (check_expr-Safe n f value hv) (λ v. check_store-Safe n f elem v)
  check_stmt-Safe n f (while_loop e body) (he, hb) =
      Safe-bind n _ _ (check_condition-Safe n f e "while" he)
        λ _. scope-Safe n _ (walk_block-Runs n f body hb)
  check_stmt-Safe n f (if_else e then_body else_body) (he, hy, hn) =
      Safe-bind n _ _ (check_condition-Safe n f e "if" he) λ _.
        Safe-bind n _ _ (scope-Safe n _ (walk_block-Runs n f then_body hy))
          λ _. scope-Safe n _ (walk_block-Runs n f else_body hn)
  check_stmt-Safe n f (do_block body) h = scope-Safe n _ (walk_block-Runs n f body h)
  check_stmt-Safe n f (print exprs) h = check_printed-Safe n f exprs h

  walk_block-Runs :
      (n f : ℕ) (ss : Stmts)
      → StmtsNumbered n ss
      → (c : Checker) → Ready n c
      → Runs c (check_block f ss c)
  walk_block-Runs n f no_stmts h c r = done (Extends-refl c)
  walk_block-Runs n f (stmt s ss) (hs, hss) c r =
      report-Runs n c _ _ r (check_stmt-Safe n f s hs c r) (walk_block-Runs n f ss hss)

-- With a scope open and every site numbered, a block never panics and never fails: it leaves as many
-- scopes as were open, the element types of the sites, and all diagnostics that there were.
pub check_block-Runs :
    (n f : ℕ) (ss : Stmts)
    → StmtsNumbered n ss
    → (c : Checker) → Ready n c
    → Runs c (check_block f ss c)
check_block-Runs n f ss h c r = walk_block-Runs n f ss h c r
