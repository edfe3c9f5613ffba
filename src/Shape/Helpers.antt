-- ===== src/Shape/Helpers.antt =====
-- src/shape/helpers.rs: the guard of a loop, and the merge of the scopes of two branches.
use Prim.Native.String.{String}
use text.Mathlib.Text.{◌==◌ as str_eq}
use glm.Prelude.{Option, none, some, List, [], ◌∷◌, if◌then◌else◌}
use glm.Syntax.{Expr, identifier, binary_op, less_than}
use glm.Shape.Core.{TableShape, join_shape}
pub mod Laws

unfoldable pub extract_guard : Expr → Option String
extract_guard (binary_op less_than (identifier x) right) = some x
extract_guard _ = none

abbrev pub ShapeScope : Type 0
ShapeScope = List (String × TableShape)

unfoldable pub shape_of : String → ShapeScope → Option TableShape
shape_of x [] = none
shape_of x ((y, v) ∷ s) = if str_eq x y then some v else shape_of x s

-- `if let Some(x) = slot.get(name) { val.join(x) }`
unfoldable pub join_found : TableShape → Option TableShape → TableShape
join_found v none = v
join_found v (some x) = (join_shape v x).0

-- The names of a scope, each joined with what the two other scopes have of it.
unfoldable pub merge_scope : ShapeScope → ShapeScope → ShapeScope → ShapeScope
merge_scope [] a b = []
merge_scope ((x, v) ∷ s) a b =
    (x, join_found (join_found v (shape_of x a)) (shape_of x b)) ∷ merge_scope s a b

-- The head of each stack is the outermost scope; a scope without a partner stays.
unfoldable pub merge_table_scopes :
    List ShapeScope → List ShapeScope → List ShapeScope → List ShapeScope
merge_table_scopes (s ∷ into) (a ∷ rest) (b ∷ bs) =
    merge_scope s a b ∷ merge_table_scopes into rest bs
merge_table_scopes into _ _ = into
