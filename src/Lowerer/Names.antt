-- ===== src/Lowerer/Names.antt =====
-- src/lowerer.rs: the names that statements write and that a fill loop fills. A set of names is a list in
-- the order of the strings, without duplicates.
use Prim.Native.String.{String, compare}
use text.Mathlib.Text.{◌==◌ as str_eq, is_lt}
use glm.Prelude.{Bool, false, not, ◌||◌, Option, none, some, List, [], ◌∷◌, if◌then◌else◌}
use glm.Syntax.{
  Expr, identifier, index, binary_op, unary_op, Stmt, Stmts, no_stmts, stmt, local_decl, assignment,
  index_assign, while_loop, do_block, if_else, print,
}

unfoldable pub str_lt : String → String → Bool
str_lt x y = is_lt (compare x y)

unfoldable pub name_insert : String → List String → List String
name_insert x [] = x ∷ []
name_insert x (y ∷ ys) =
    if str_eq x y then y ∷ ys else if str_lt x y then x ∷ y ∷ ys else y ∷ name_insert x ys

unfoldable pub names_extend : List String → List String → List String
names_extend xs [] = xs
names_extend xs (y ∷ ys) = names_extend (name_insert y xs) ys

unfoldable pub contains : String → List String → Bool
contains x [] = false
contains x (y ∷ ys) = str_eq y x || contains x ys

unfoldable mutual
  pub stmt_mutates : Stmt → List String → List String
  stmt_mutates (assignment x e) acc = name_insert x acc
  stmt_mutates (while_loop c body) acc = names_extend acc (mutated_from body [])
  stmt_mutates (do_block body) acc = names_extend acc (mutated_from body [])
  stmt_mutates (if_else c then_body else_body) acc =
      names_extend (names_extend acc (mutated_from then_body [])) (mutated_from else_body [])
  stmt_mutates (local_decl names exprs) acc = acc
  stmt_mutates (index_assign obj key value) acc = acc
  stmt_mutates (print exprs) acc = acc

  pub mutated_from : Stmts → List String → List String
  mutated_from no_stmts acc = acc
  mutated_from (stmt s ss) acc = mutated_from ss (stmt_mutates s acc)

unfoldable pub find_mutated_vars : Stmts → List String
find_mutated_vars ss = mutated_from ss []

unfoldable pub as_ident : Expr → Option String
as_ident (identifier x) = some x
as_ident _ = none

unfoldable pub get_base_identifier : Expr → Option String
get_base_identifier (identifier x) = some x
get_base_identifier (index obj key) = get_base_identifier obj
get_base_identifier _ = none

unfoldable pub idents_from : Expr → List String → List String
idents_from (identifier x) out = name_insert x out
idents_from (binary_op op left right) out = idents_from right (idents_from left out)
idents_from (unary_op op e) out = idents_from e out
idents_from (index obj key) out = idents_from key (idents_from obj out)
idents_from _ out = out

unfoldable pub free_idents : Expr → List String
free_idents e = idents_from e []

-- The two sets that `collect_fill_stores` extends.
pub record Fills : Type 0 where
  pub fills : List String
  pub nested_fills : List String

-- A store at the guard's index into a table whose name is not mutated.
unfoldable pub note_fill : Expr → String → Fills → Fills
note_fill (identifier x) root f =
    if str_eq x root then record f { fills = name_insert root f.fills } else f
note_fill (index obj key) root f = record f { nested_fills = name_insert root f.nested_fills }
note_fill _ root f = f

unfoldable pub note_store : String → List String → Expr → String → Fills → Fills
note_store guard mutated obj key f =
    if not (str_eq key guard) then f else elim (get_base_identifier obj) [
      | none ↦ f
      | some root ↦ if contains root mutated then f else note_fill obj root f
    ]

unfoldable mutual
  pub stmt_fills : String → List String → Stmt → Fills → Fills
  stmt_fills guard mutated (index_assign obj (identifier key) value) f =
      note_store guard mutated obj key f
  stmt_fills guard mutated (while_loop c body) f = collect_fill_stores guard mutated body f
  stmt_fills guard mutated (do_block body) f = collect_fill_stores guard mutated body f
  stmt_fills guard mutated (if_else c then_body else_body) f =
      collect_fill_stores guard mutated else_body (collect_fill_stores guard mutated then_body f)
  stmt_fills guard mutated _ f = f

  pub collect_fill_stores : String → List String → Stmts → Fills → Fills
  collect_fill_stores guard mutated no_stmts f = f
  collect_fill_stores guard mutated (stmt s ss) f =
      collect_fill_stores guard mutated ss (stmt_fills guard mutated s f)
