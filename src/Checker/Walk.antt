-- ===== src/Checker/Walk.antt =====
-- The walk of src/type_checker.rs keeps the scopes balanced, and it does not panic on what the parser
-- and `number_sites` make.
use glm.Prelude.{ℕ, ◌≤◌, ◌<◌, not, ◌||◌, List, [], ◌∷◌, length}
use glm.Syntax.{
  StaticType, integer, float, boolean, string, table, BinOp, less_than, less_eq, greater_than,
  greater_eq, equal, not_equal, and_op, or_op, UnOp, neg, not_op, len, Expr, Entries, no_entries,
  entry, nil, table_ctor, index, binary_op, unary_op, sys_alloc_count, Stmt, Stmts, no_stmts, stmt,
  local_decl, assignment, index_assign, while_loop, do_block, if_else, print,
}
use glm.Checker.Unify.{type_eq, type_name, types_compatible}
use glm.Checker.State.{string_comparison, compares, Check, pure, ◌>>=◌, ◌>>◌}
use glm.Checker.Check.{
  bin_op_name, numeric_operand, logic_operand, equality_operand, check_binary, check_len,
  check_unary, index_base, index_type, check_element, check_expr, check_entries,
}
use glm.Checker.Keeps.{
  Safe, Safe-bind, Safe-pure, Safe-raise, Safe-if, resolve-Safe, var_type-Safe, unify_types-Safe,
  elem_of-Safe,
}

-- Every site is below `n`.
unfoldable mutual
  pub Numbered : ℕ → Expr → Type 0
  Numbered n (table_ctor site entries) = (site < n) × EntriesNumbered n entries
  Numbered n (index obj key) = Numbered n obj × Numbered n key
  Numbered n (binary_op op left right) = Numbered n left × Numbered n right
  Numbered n (unary_op op e) = Numbered n e
  Numbered n _ = Unit

  pub EntriesNumbered : ℕ → Entries → Type 0
  EntriesNumbered n no_entries = Unit
  EntriesNumbered n (entry slot e more) = Numbered n e × EntriesNumbered n more

abbrev pub ExprsNumbered : ℕ → List Expr → Type 0
ExprsNumbered n [] = Unit
ExprsNumbered n (e ∷ es) = Numbered n e × ExprsNumbered n es

-- A declaration has no more initializers than names.
unfoldable mutual
  pub StmtNumbered : ℕ → Stmt → Type 0
  StmtNumbered n (local_decl names exprs) = (length exprs ≤ length names) × ExprsNumbered n exprs
  StmtNumbered n (assignment x e) = Numbered n e
  StmtNumbered n (index_assign obj key value) = Numbered n obj × Numbered n key × Numbered n value
  StmtNumbered n (while_loop e body) = Numbered n e × StmtsNumbered n body
  StmtNumbered n (do_block body) = StmtsNumbered n body
  StmtNumbered n (if_else e t f) = Numbered n e × StmtsNumbered n t × StmtsNumbered n f
  StmtNumbered n (print exprs) = ExprsNumbered n exprs

  pub StmtsNumbered : ℕ → Stmts → Type 0
  StmtsNumbered n no_stmts = Unit
  StmtsNumbered n (stmt s ss) = StmtNumbered n s × StmtsNumbered n ss

numeric_operand-Safe : (n : ℕ) (l r : StaticType) (op : BinOp) → Safe n (numeric_operand l r op)
unfolding numeric_operand
numeric_operand-Safe n integer integer op = Safe-pure n integer
numeric_operand-Safe n float float op = Safe-pure n float
numeric_operand-Safe n l r op = Safe-raise n _

logic_operand-Safe : (n : ℕ) (l r : StaticType) (op : BinOp) → Safe n (logic_operand l r op)
unfolding logic_operand
logic_operand-Safe n l r op = Safe-if n _ _ _ (Safe-pure n boolean) (Safe-raise n _)

equality_operand-Safe : (n : ℕ) (l r : StaticType) (op : BinOp) → Safe n (equality_operand l r op)
unfolding equality_operand
equality_operand-Safe n l r op =
    Safe-if n (type_eq l string || type_eq r string) _ _ (Safe-raise n string_comparison) (
      Safe-if n (not (types_compatible l r)) _ _
        (Safe-raise n (compares (bin_op_name op) (type_name l) (type_name r)))
        (Safe-pure n boolean))

compare-Safe :
    (n : ℕ) (l r : StaticType) (op : BinOp)
    → Safe {A = StaticType} n (numeric_operand l r op >> pure boolean)
compare-Safe n l r op = Safe-bind n _ _ (numeric_operand-Safe n l r op) (λ _. Safe-pure n boolean)

check_binary-Safe : (n : ℕ) (op : BinOp) (l r : StaticType) → Safe n (check_binary op l r)
unfolding check_binary
check_binary-Safe n and_op l r = logic_operand-Safe n l r and_op
check_binary-Safe n or_op l r = logic_operand-Safe n l r or_op
check_binary-Safe n less_than l r = compare-Safe n l r less_than
check_binary-Safe n greater_than l r = compare-Safe n l r greater_than
check_binary-Safe n less_eq l r = compare-Safe n l r less_eq
check_binary-Safe n greater_eq l r = compare-Safe n l r greater_eq
check_binary-Safe n equal l r = equality_operand-Safe n l r equal
check_binary-Safe n not_equal l r = equality_operand-Safe n l r not_equal
check_binary-Safe n op l r = numeric_operand-Safe n l r op

check_len-Safe : (n : ℕ) (t r : StaticType) → Safe n (check_len t r)
unfolding check_len
check_len-Safe n t (table _) = Safe-pure n integer
check_len-Safe n t r = Safe-raise n _

check_unary-Safe : (n f : ℕ) (op : UnOp) (t : StaticType) → Safe n (check_unary f op t)
unfolding check_unary
check_unary-Safe n f neg integer = Safe-pure n integer
check_unary-Safe n f neg float = Safe-pure n float
check_unary-Safe n f neg t = Safe-raise n _
check_unary-Safe n f not_op boolean = Safe-pure n boolean
check_unary-Safe n f not_op t = Safe-raise n _
check_unary-Safe n f len t = Safe-bind n _ _ (resolve-Safe n f t) (λ r. check_len-Safe n t r)

index_base-Safe : (n : ℕ) (t : StaticType) → Safe n (index_base t)
unfolding index_base
index_base-Safe n (table e) = Safe-pure n e
index_base-Safe n t = Safe-raise n _

index_type-Safe : (n : ℕ) (t : StaticType) → Safe n (index_type t)
unfolding index_type
index_type-Safe n integer = Safe-pure n tt
index_type-Safe n t = Safe-raise n _

check_element-Safe : (n f : ℕ) (elem t : StaticType) → Safe n (check_element f elem t)
unfolding check_element
check_element-Safe n f (table a) (table b) =
    Safe-if n _ _ _ (Safe-pure n tt) (unify_types-Safe n f a b)
check_element-Safe n f elem t = Safe-if n _ _ _ (Safe-pure n tt) (Safe-raise n _)

-- The indexing of a table, up to its element type.
pub indexing-Safe :
    {A : Type 0} (n : ℕ) (obj key : Check StaticType) (k : StaticType → Check A)
    → Safe n obj
    → Safe n key
    → ((t : StaticType) → Safe n (k t))
    → Safe n (do t ← obj; elem ← index_base t; i ← key; index_type i; k elem)
indexing-Safe n obj key k ho hk hr = Safe-bind n _ _ ho λ t.
    Safe-bind n _ _ (index_base-Safe n t)
      λ elem. Safe-bind n _ _ hk λ i. Safe-bind n _ _ (index_type-Safe n i) (λ _. hr elem)

mutual
  unfolding check_expr Numbered

  pub check_expr-Safe : (n f : ℕ) (e : Expr) → Numbered n e → Safe n (check_expr f e)
  check_expr-Safe n f (Expr.integer _) h = Safe-pure n integer
  check_expr-Safe n f (Expr.float _) h = Safe-pure n float
  check_expr-Safe n f (Expr.boolean _) h = Safe-pure n boolean
  check_expr-Safe n f (Expr.string _) h = Safe-pure n string
  check_expr-Safe n f nil h = Safe-raise n _
  check_expr-Safe n f (table_ctor site entries) (lt, h) =
      Safe-bind n _ _ (elem_of-Safe n site lt) λ elem.
        Safe-bind n _ _ (check_entries-Safe n f elem entries h) (λ _. Safe-pure n (table elem))
  check_expr-Safe n f (index obj key) (ho, hk) =
      indexing-Safe n _ _ _ (check_expr-Safe n f obj ho) (check_expr-Safe n f key hk)
        (λ t. Safe-pure n t)
  check_expr-Safe n f (Expr.identifier x) h = var_type-Safe n f x
  check_expr-Safe n f (binary_op op left right) (hl, hr) =
      Safe-bind n _ _ (check_expr-Safe n f left hl)
        λ l. Safe-bind n _ _ (check_expr-Safe n f right hr) (λ r. check_binary-Safe n op l r)
  check_expr-Safe n f (unary_op op e) h =
      Safe-bind n _ _ (check_expr-Safe n f e h) (λ t. check_unary-Safe n f op t)
  check_expr-Safe n f sys_alloc_count h = Safe-pure n integer

  check_entries-Safe :
      (n f : ℕ) (elem : StaticType) (es : Entries)
      → EntriesNumbered n es
      → Safe n (check_entries f elem es)
  check_entries-Safe n f elem no_entries h = Safe-pure n tt
  check_entries-Safe n f elem (entry slot e more) (he, hm) =
      Safe-bind n _ _ (check_expr-Safe n f e he) λ t.
        Safe-bind n _ _ (check_element-Safe n f elem t) (λ _. check_entries-Safe n f elem more hm)
