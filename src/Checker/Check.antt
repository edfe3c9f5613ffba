-- ===== src/Checker/Check.antt =====
-- src/type_checker.rs: the walk over expressions, statements and programs.
use Prim.Native.String.{String}
use glm.Prelude.{ℕ, Bool, true, false, ◌||◌, ◌&&◌, not, List, [], ◌∷◌, ◌++◌, if◌then◌else◌}
use glm.Syntax.{
  StaticType, integer, float, boolean, string, table, unknown, BinOp, add, sub, mul, div, int_div,
  mod_op, less_than, less_eq, greater_than, greater_eq, equal, not_equal, and_op, or_op, UnOp, neg,
  not_op, len, Expr, Entries, no_entries, entry, nil, table_ctor, index, binary_op, unary_op,
  sys_alloc_count, Stmt, Stmts, no_stmts, stmt, local_decl, assignment, index_assign, while_loop,
  do_block, if_else, print,
}
use glm.Checker.Unify.{Substitutions, bind_var, type_eq, type_name, types_compatible}
use glm.Checker.State.{
  nil_release, empty_ctor, index_key, not_indexable, condition, print_table, nil_value,
  mixed_elements, logic_operands, mixed_numbers, numeric_operands, string_comparison, compares,
  neg_operand, not_operand, len_operand, Scope, Checker, Checked, ok, err, panicked, out_of_fuel,
  Check, pure, raise, ◌>>=◌, ◌>>◌, begin_scope, end_scope, declare_var, var_type, assign_var,
  unify_types, next_bare, elem_of, resolve, scope_replace,
}

unfoldable pub bin_op_name : BinOp → String
bin_op_name add = "+"
bin_op_name sub = "-"
bin_op_name mul = "*"
bin_op_name div = "/"
bin_op_name int_div = "//"
bin_op_name mod_op = "%"
bin_op_name less_than = "<"
bin_op_name greater_than = ">"
bin_op_name less_eq = "<="
bin_op_name greater_eq = ">="
bin_op_name equal = "=="
bin_op_name not_equal = "~="
bin_op_name and_op = "and"
bin_op_name or_op = "or"

unfoldable pub numeric_operand : StaticType → StaticType → BinOp → Check StaticType
numeric_operand integer integer op = pure integer
numeric_operand float float op = pure float
numeric_operand integer float op = raise (mixed_numbers (bin_op_name op))
numeric_operand float integer op = raise (mixed_numbers (bin_op_name op))
numeric_operand l r op = raise (numeric_operands (bin_op_name op))

unfoldable pub logic_operand : StaticType → StaticType → BinOp → Check StaticType
logic_operand l r op =
    if type_eq l boolean && type_eq r boolean
    then pure boolean
    else raise (logic_operands (bin_op_name op))

unfoldable pub equality_operand : StaticType → StaticType → BinOp → Check StaticType
equality_operand l r op =
    if type_eq l string || type_eq r string
    then raise string_comparison
    else if not (types_compatible l r)
    then raise (compares (bin_op_name op) (type_name l) (type_name r))
    else pure boolean

-- The arms of a binary operator on the types of its operands.
unfoldable pub check_binary : BinOp → StaticType → StaticType → Check StaticType
check_binary and_op l r = logic_operand l r and_op
check_binary or_op l r = logic_operand l r or_op
check_binary less_than l r = (do numeric_operand l r less_than; pure boolean)
check_binary greater_than l r = (do numeric_operand l r greater_than; pure boolean)
check_binary less_eq l r = (do numeric_operand l r less_eq; pure boolean)
check_binary greater_eq l r = (do numeric_operand l r greater_eq; pure boolean)
check_binary equal l r = equality_operand l r equal
check_binary not_equal l r = equality_operand l r not_equal
check_binary op l r = numeric_operand l r op

unfoldable pub check_len : StaticType → StaticType → Check StaticType
check_len t (table _) = pure integer
check_len t _ = raise (len_operand (type_name t))

unfoldable pub check_unary : ℕ → UnOp → StaticType → Check StaticType
check_unary f neg integer = pure integer
check_unary f neg float = pure float
check_unary f neg t = raise neg_operand
check_unary f not_op boolean = pure boolean
check_unary f not_op t = raise not_operand
check_unary f len t = do r ← resolve f t; check_len t r

-- The element type of a table that is indexed.
unfoldable pub index_base : StaticType → Check StaticType
index_base (table elem) = pure elem
index_base t = raise (not_indexable (type_name t))

unfoldable pub index_type : StaticType → Check (Unit {0})
index_type integer = pure tt
index_type t = raise (index_key (type_name t))

-- An element of a constructor against the element type of its site.
unfoldable pub check_element : ℕ → StaticType → StaticType → Check (Unit {0})
check_element f (table a) (table b) = if type_eq a b then pure tt else unify_types f a b
check_element f elem t =
    if type_eq t elem then pure tt else raise (mixed_elements (type_name t) (type_name elem))

unfoldable mutual
  pub check_expr : ℕ → Expr → Check StaticType
  check_expr f (Expr.integer _) = pure integer
  check_expr f (Expr.float _) = pure float
  check_expr f (Expr.boolean _) = pure boolean
  check_expr f (Expr.string _) = pure string
  check_expr f nil = raise nil_value
  check_expr f (table_ctor site entries) = do
    elem ← elem_of site
    check_entries f elem entries
    pure (table elem)
  check_expr f (index obj key) = do
    t ← check_expr f obj
    elem ← index_base t
    k ← check_expr f key
    index_type k
    pure elem
  check_expr f (Expr.identifier x) = var_type f x
  check_expr f (binary_op op left right) = do
    l ← check_expr f left
    r ← check_expr f right
    check_binary op l r
  check_expr f (unary_op op e) = do t ← check_expr f e; check_unary f op t
  check_expr f sys_alloc_count = pure integer

  pub check_entries : ℕ → StaticType → Entries → Check (Unit {0})
  check_entries f elem no_entries = pure tt
  check_entries f elem (entry slot e more) = do
    t ← check_expr f e
    check_element f elem t
    check_entries f elem more

unfoldable pub check_exprs : ℕ → List Expr → Check (List StaticType)
check_exprs f [] = pure []
check_exprs f (e ∷ es) = do t ← check_expr f e; ts ← check_exprs f es; pure (t ∷ ts)

-- The names that have no initializer are bare; fewer names than initializers are out of range.
unfoldable pub declare_all : List String → List StaticType → Check (Unit {0})
declare_all [] [] = pure tt
declare_all [] (_ ∷ _) = λ c. panicked
declare_all (x ∷ xs) (t ∷ ts) = do declare_var x t; declare_all xs ts
declare_all (x ∷ xs) [] = do i ← next_bare; declare_var x (unknown i); declare_all xs []

unfoldable pub is_empty_table_constructor : Expr → Bool
is_empty_table_constructor (table_ctor _ no_entries) = true
is_empty_table_constructor _ = false

-- `x = nil` on a variable of the type.
unfoldable pub check_release : String → StaticType → Check (Unit {0})
check_release x (table _) = pure tt
check_release x (unknown _) = pure tt
check_release x t = raise (nil_release x (type_name t))

unfoldable pub check_assigned : ℕ → String → Expr → StaticType → StaticType → Check (Unit {0})
check_assigned f x e expected actual =
    if type_eq expected actual
    then pure tt
    else if is_empty_table_constructor e
    then raise (empty_ctor (type_name actual) x (type_name expected))
    else (do unify_types f expected actual; t ← resolve f actual; assign_var x t)

unfoldable pub check_assignment : ℕ → String → Expr → StaticType → Check (Unit {0})
check_assignment f x nil expected = check_release x expected
check_assignment f x e expected = do actual ← check_expr f e; check_assigned f x e expected actual

-- The type of a cell and of the value that it takes.
unfoldable pub check_store : ℕ → StaticType → StaticType → Check (Unit {0})
check_store f (table a) (table b) = unify_types f a b
check_store f elem t = unify_types f elem t

unfoldable pub condition_type : String → StaticType → Check (Unit {0})
condition_type kw boolean = pure tt
condition_type kw t = raise (condition kw (type_name t))

unfoldable pub check_condition : ℕ → Expr → String → Check (Unit {0})
check_condition f e kw = do t ← check_expr f e; condition_type kw t

unfoldable pub printable : StaticType → Check (Unit {0})
printable (table _) = raise print_table
printable _ = pure tt

unfoldable pub check_printed : ℕ → List Expr → Check (Unit {0})
check_printed f [] = pure tt
check_printed f (e ∷ es) = do t ← check_expr f e; printable t; check_printed f es

-- The error of a statement is reported, and the rest of its block is left out.
unfoldable pub report : Checked (Unit {0}) → Check (Unit {0}) → Checked (Unit {0})
report (ok _ c) rest = rest c
report (err e c) rest = ok tt (record c { diagnostics = c.diagnostics ++ (e ∷ []) })
report panicked rest = panicked
report out_of_fuel rest = out_of_fuel

unfoldable pub scoped : Check (Unit {0}) → Check (Unit {0})
scoped body = do begin_scope; body; end_scope

unfoldable mutual
  pub check_stmt : ℕ → Stmt → Check (Unit {0})
  check_stmt f (local_decl names exprs) = do types ← check_exprs f exprs; declare_all names types
  check_stmt f (assignment x e) = do expected ← var_type f x; check_assignment f x e expected
  check_stmt f (index_assign obj key value) = do
    t ← check_expr f obj
    elem ← index_base t
    k ← check_expr f key
    index_type k
    v ← check_expr f value
    check_store f elem v
  check_stmt f (while_loop e body) = do check_condition f e "while"; scoped (check_block f body)
  check_stmt f (if_else e then_body else_body) = do
    check_condition f e "if"
    scoped (check_block f then_body)
    scoped (check_block f else_body)
  check_stmt f (do_block body) = scoped (check_block f body)
  check_stmt f (print exprs) = check_printed f exprs

  pub check_block : ℕ → Stmts → Check (Unit {0})
  check_block f no_stmts = pure tt
  check_block f (stmt s ss) = λ c. report (check_stmt f s c) (check_block f ss)

unfoldable pub resolve_scope : ℕ → Scope → Check Scope
resolve_scope f [] = pure []
resolve_scope f ((x, t) ∷ s) = do u ← resolve f t; r ← resolve_scope f s; pure ((x, u) ∷ r)

-- Outermost first, as the source's scopes stand.
unfoldable pub resolve_scopes : ℕ → List Scope → Check Scope
resolve_scopes f [] = pure []
resolve_scopes f (s ∷ ss) = do
  outer ← resolve_scopes f ss
  own ← resolve_scope f s
  pure (outer ++ own)

unfoldable pub replace_all : String → StaticType → List Scope → List Scope
replace_all x t [] = []
replace_all x t (s ∷ ss) = scope_replace x t s ∷ replace_all x t ss

unfoldable pub reassign : Scope → List Scope → List Scope
reassign [] ss = ss
reassign ((x, t) ∷ r) ss = reassign r (replace_all x t ss)

-- The bindings that no later one shadows go over to the shape facts.
unfoldable pub flush : Substitutions → Substitutions → Substitutions
flush [] shape = shape
flush ((i, t) ∷ s) shape = bind_var i t (flush s shape)

unfoldable pub resolve_all_scopes : ℕ → Check (Unit {0})
resolve_all_scopes f c =
    (do r ← resolve_scopes f c.scopes; λ d. ok tt (record d { scopes = reassign r d.scopes }))
      (record c { shape_substitutions = flush c.substitutions c.shape_substitutions })

-- `TypeChecker::new` on what the shape analysis leaves.
unfoldable pub new_checker : List StaticType → Substitutions → Checker
new_checker elems shape = record {
  scopes = [] ∷ [];
  substitutions = [];
  bare_next = 18_446_744_073_709_551_615;
  elems = elems;
  shape_substitutions = shape;
  diagnostics = [];
}

unfoldable pub check_program : ℕ → Stmts → Check (Unit {0})
check_program f ss = do check_block f ss; resolve_all_scopes f
