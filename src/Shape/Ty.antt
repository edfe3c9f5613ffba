-- ===== src/Shape/Ty.antt =====
-- src/shape/ty.rs: the types of the shape analysis and their join.
pub mod Laws
use glm.Prelude.{Bool, true, false, ◌&&◌, ◌||◌, if◌then◌else◌, ℕ, ◌≡◌, ◌↔◌}

pub data Ty : Type 0 where
  pending int flt bool str : Ty
  tbl : Ty → Ty
  conflict : Ty

pub Ty-discrete : Discrete Ty
Ty-discrete = hlevel

-- The derived `PartialEq`.
unfoldable pub ty_eq : Ty → Ty → Bool
ty_eq pending pending = true
ty_eq int int = true
ty_eq flt flt = true
ty_eq bool bool = true
ty_eq str str = true
ty_eq (tbl a) (tbl b) = ty_eq a b
ty_eq conflict conflict = true
ty_eq _ _ = false

unfoldable pub scalar : Ty → Bool
scalar int = true
scalar flt = true
scalar bool = true
scalar str = true
scalar _ = false

-- The table of a join of elements, unless they conflict.
abbrev pub table_of : Ty → Ty
table_of conflict = conflict
table_of t = tbl t

unfoldable pub join_ty : Ty → Ty → Ty
join_ty pending x = x
join_ty x pending = x
join_ty conflict _ = conflict
join_ty _ conflict = conflict
join_ty (tbl a) (tbl b) = table_of (join_ty a b)
join_ty int int = int
join_ty flt flt = flt
join_ty bool bool = bool
join_ty str str = str
join_ty _ _ = conflict

unfoldable pub arith_ty : Ty → Ty → Ty
unfolding ty_eq
arith_ty a b =
    if ty_eq a pending || ty_eq b pending
    then pending
    else if ty_eq a b && (ty_eq a int || ty_eq a flt)
    then a
    else conflict
