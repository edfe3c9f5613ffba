-- ===== src/Shape/Tests.antt =====
-- The theorems on src/shape/ at inputs that meet their hypotheses.
use Prim.Native.String.{String}
use glm.Prelude.{ℕ, ◌<◌, ◌≤◌, List, length, ◌≡◌, ◌≢◌, ◌↔◌, refl, true, false, [], ◌∷◌}
use glm.Shape.Ty.{Ty, pending, int, tbl, join_ty}
use glm.Shape.Ty.Laws.{Below, nest, is_clean, join_ty-IsLub, join_ty-climbs}
use glm.Shape.Core.{dense, growing, sparse, bounds_fail, join_layout, TableShape, join_shape}
use glm.Shape.Helpers.{ShapeScope, merge_table_scopes}
use glm.Shape.Helpers.Laws.{shape_at, merged, merge_table_scopes-merged}
use glm.Shape.Core.Laws.{join_layout-IsSemilattice, join_shape-unchanged_iff}

join_ty-IsLub_example :
    (is_clean (join_ty (tbl pending) (tbl int)) ≡ true)
    × Below (tbl pending) (join_ty (tbl pending) (tbl int))
    × Below (tbl int) (join_ty (tbl pending) (tbl int))
    × ((c : Ty)
        → Below (tbl pending) c
        → Below (tbl int) c
        → Below (join_ty (tbl pending) (tbl int)) c)
unfolding is_clean
join_ty-IsLub_example = join_ty-IsLub (tbl pending) (tbl int) refl refl

join_ty-climbs_example :
    (join_ty (nest 3) (nest 4) ≡ nest 4) × (nest 3 ≢ nest 4) × (is_clean (nest 3) ≡ true)
join_ty-climbs_example = join_ty-climbs 3

join_layout-IsSemilattice_example :
    (join_layout growing sparse ≡ join_layout sparse growing)
    × (join_layout (join_layout growing sparse) dense
        ≡ join_layout growing (join_layout sparse dense))
    × (join_layout growing growing ≡ growing)
    × (join_layout dense growing ≡ growing)
    × (join_layout bounds_fail growing ≡ bounds_fail)
join_layout-IsSemilattice_example = join_layout-IsSemilattice growing sparse dense

-- A dense table of integers made at site 0, and a growing one made at site 2.
abbrev rows : TableShape
rows = record { ty = int; layout = dense; aliases = 0 ∷ [] }

abbrev cells : TableShape
cells = record { ty = int; layout = growing; aliases = 2 ∷ [] }

join_shape-unchanged_iff_example :
    ((join_shape rows cells).1 ≡ false) ↔ ((join_shape rows cells).0 ≡ rows)
join_shape-unchanged_iff_example = join_shape-unchanged_iff rows cells

-- A scope with the table `t` before a branch, and the same scope at the end of an arm.
abbrev before_arm : List ShapeScope
before_arm = (("t", rows) ∷ []) ∷ []

abbrev after_arm : List ShapeScope
after_arm = (("t", cells) ∷ []) ∷ []

merge_table_scopes-merged_example :
    (length (merge_table_scopes before_arm after_arm before_arm) ≡ 1)
    × ((n : ℕ) (x : String)
        → (n < 1
            → n < 1
            → shape_at n x (merge_table_scopes before_arm after_arm before_arm)
              ≡ merged (shape_at n x before_arm) (shape_at n x after_arm) (shape_at n x before_arm))
          × (1 ≤ n
              → shape_at n x (merge_table_scopes before_arm after_arm before_arm)
                ≡ shape_at n x before_arm)
          × (1 ≤ n
              → shape_at n x (merge_table_scopes before_arm after_arm before_arm)
                ≡ shape_at n x before_arm))
merge_table_scopes-merged_example = merge_table_scopes-merged before_arm after_arm before_arm
