-- ===== src/Lowerer/Order.antt =====
-- src/lowerer.rs: the order of the phis, and the loops that are converted.
use Prim.Native.String.{String}
use glm.Prelude.{
  Bool, true, false, not, ◌&&◌, ◌||◌, Option, none, some, List, [], ◌∷◌, ◌==◌, ltb, if◌then◌else◌,
  length,
}
use glm.Syntax.{StaticType, less_than, Expr, binary_op, Stmts}
use glm.Checker.Unify.{type_eq}
use glm.Lowerer.Facts.{is_dense_at_depth}
use glm.Lowerer.State.{Facts, Local, Scope, Lower, pure, ◌>>=◌, get, read_var, has_var}
use glm.Lowerer.Names.{str_lt, contains, free_idents, Fills, collect_fill_stores}
use glm.Lowerer.Expr.{is_table}

-- `join_phi_ty`
unfoldable pub join_phi_ty : StaticType → StaticType → StaticType
join_phi_ty a b = if type_eq a b then a else if is_table a then a else b

-- The variables of the list that are in scope, by register and then by name.
unfoldable pub before : String × Local → String × Local → Bool
before (x, a) (y, b) = ltb a.reg b.reg || (a.reg == b.reg && not (str_lt y x))

unfoldable pub insert_by_reg : String × Local → List (String × Local) → List (String × Local)
insert_by_reg v [] = v ∷ []
insert_by_reg v (w ∷ ws) = if before v w then v ∷ w ∷ ws else w ∷ insert_by_reg v ws

unfoldable pub sort_by_reg : List (String × Local) → List (String × Local)
sort_by_reg [] = []
sort_by_reg (v ∷ vs) = insert_by_reg v (sort_by_reg vs)

unfoldable pub read_present : List String → Lower (List (String × Local))
read_present [] = pure []
read_present (x ∷ xs) = do
  s ← get
  if has_var x s.scopes
      then (do l ← read_var x; ls ← read_present xs; pure ((x, l) ∷ ls))
      else read_present xs

unfoldable pub phi_order : List String → Lower (List (String × Local))
phi_order names = do ls ← read_present names; pure (sort_by_reg ls)

-- A loop `while guard < bound` that fills tables: its guard, its bound, the tables that are filled at the
-- guard's index, and those of which a row is.
pub record Conversion : Type 0 where
  pub guard : String
  pub bound : Expr
  pub names : List String
  pub nested : List String

unfoldable pub dense_names : Facts → List Scope → List String → List String
dense_names facts cs [] = []
dense_names facts cs (x ∷ xs) =
    let rest = dense_names facts cs xs in
    if has_var x cs && is_dense_at_depth facts x (length cs) then x ∷ rest else rest

unfoldable pub any_contained : List String → List String → Bool
any_contained [] ys = false
any_contained (x ∷ xs) ys = contains x ys || any_contained xs ys

abbrev pub is_empty : {A : Type 0} → List A → Bool
is_empty [] = true
is_empty (_ ∷ _) = false

unfoldable pub fills_of : String → Expr → List String → Stmts → Fills
fills_of guard bound mutated body =
    if any_contained (free_idents bound) mutated
    then record { fills = []; nested_fills = [] }
    else collect_fill_stores guard mutated body (record { fills = []; nested_fills = [] })

unfoldable pub conversion : Facts → List Scope → Expr → List String → Stmts → Option Conversion
conversion facts cs (binary_op less_than (Expr.identifier guard) bound) mutated body =
    let f = fills_of guard bound mutated body in
    let names = dense_names facts cs f.fills in
    if is_empty names && is_empty f.nested_fills
    then none
    else some (record { guard = guard; bound = bound; names = names; nested = f.nested_fills })
conversion facts cs _ mutated body = none
