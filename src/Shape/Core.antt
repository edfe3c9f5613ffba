-- ===== src/Shape/Core.antt =====
-- src/shape/core.rs: the layout lattice and the shape of a table.
use glm.Prelude.{
  Bool, true, false, ◌&&◌, ◌||◌, not, if◌then◌else◌, ℕ, ◌+◌, ◌*◌, ◌==◌, ltb, List, [], ◌∷◌, length,
  ◌≡◌,
}
use glm.Shape.Ty.{Ty, ty_eq, join_ty}
pub mod Laws

pub data LayoutVerdict : Type 0 where
  dense growing sparse bounds_fail : LayoutVerdict

unfoldable pub layout_eq : LayoutVerdict → LayoutVerdict → Bool
layout_eq dense dense = true
layout_eq growing growing = true
layout_eq sparse sparse = true
layout_eq bounds_fail bounds_fail = true
layout_eq _ _ = false

-- `LayoutVerdict::join`
unfoldable pub join_layout : LayoutVerdict → LayoutVerdict → LayoutVerdict
join_layout bounds_fail _ = bounds_fail
join_layout _ bounds_fail = bounds_fail
join_layout sparse _ = sparse
join_layout _ sparse = sparse
join_layout growing _ = growing
join_layout _ growing = growing
join_layout _ _ = dense

-- A set of sites is a list without duplicates.
pub record TableShape : Type 0 where
  pub ty : Ty
  pub layout : LayoutVerdict
  pub aliases : List ℕ

abbrev pub member : ℕ → List ℕ → Bool
member k [] = false
member k (j ∷ js) = j == k || member k js

unfoldable pub set_insert : ℕ → List ℕ → List ℕ
set_insert k s = if member k s then s else k ∷ s

-- `BTreeSet::extend`
unfoldable pub extend : List ℕ → List ℕ → List ℕ
extend s [] = s
extend s (k ∷ ks) = extend (set_insert k s) ks

-- `TableShape::join`, with its answer: whether the shape changed.
unfoldable pub join_shape : TableShape → TableShape → TableShape × Bool
join_shape a b = (
  record {
    ty = join_ty a.ty b.ty;
    layout = join_layout a.layout b.layout;
    aliases = extend a.aliases b.aliases;
  },
  not (ty_eq a.ty (join_ty a.ty b.ty))
      || not (layout_eq a.layout (join_layout a.layout b.layout))
      || ltb (length a.aliases) (length (extend a.aliases b.aliases)),
)
