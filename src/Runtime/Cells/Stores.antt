-- ===== src/Runtime/Cells/Stores.antt =====
-- Any number of calls of `glm_tbl_set` of src/rt.rs against a plain map from indices to words.
use glm.Prelude.{ℕ, ◌≡◌, refl, ap, ◌∙◌, sym, subst, List, [], ◌∷◌, arith, ◌==◌, if◌then◌else◌, pos}
use glm.Runtime.Outcome.{Outcome, ok, ran, Os, ◌>>=◌}
use glm.Runtime.Table.{GlmTable, cell_of}
use glm.Runtime.Access.{tbl_set, tbl_get}
use glm.Runtime.Cells.Base.{IsValid, view}
use glm.Runtime.Cells.Set.{tbl_get-tbl_set, tbl_set-IsValid, tbl_get-view}

-- The stores of a program, in order.
unfoldable pub store_all : Os → GlmTable → List (ℕ × ℕ) → Outcome GlmTable
store_all os t [] = ok t
store_all os t ((i, val) ∷ ws) = tbl_set os t (pos i) val >>= λ t'. store_all os t' ws

-- The specification: what index `j` holds after the stores, where a cell is `esize` bytes wide.
unfoldable pub written : ℕ → List (ℕ × ℕ) → ℕ → ℕ → ℕ
written esize [] j old = old
written esize ((i, val) ∷ ws) j old = written esize ws j (if i == j then cell_of esize val else old)

view-tbl_set :
    (os : Os) (t : GlmTable) (i j val : ℕ) (t' : GlmTable)
    → IsValid t
    → tbl_set os t (pos i) val ≡ ok t'
    → view t' j ≡ (if i == j then cell_of t.esize val else view t j)
view-tbl_set os t i j val t' v h =
    let (v', same) = tbl_set-IsValid os t (pos i) val t' v h in
    let get = tbl_get-tbl_set os t i j val t' v h in
    let a = tbl_get-view t' j v' in let b = tbl_get-view t j v in ground arith

view-store_all :
    (os : Os) (ws : List (ℕ × ℕ)) (t : GlmTable) (j : ℕ) (t' : GlmTable)
    → IsValid t
    → store_all os t ws ≡ ok t'
    → IsValid t' × (view t' j ≡ written t.esize ws j (view t j))
unfolding store_all written
view-store_all os [] t j t' v h =
    let same : t ≡ t' = ground arith in
    (subst IsValid same v, ap (λ (x : GlmTable). view x j) (sym same))
view-store_all os ((i, val) ∷ ws) t j t' v h =
    let record { value = s; first = a; second = b } =
      ran (λ x. store_all os x ws) (tbl_set os t (pos i) val) h in
    let (vs, same) = tbl_set-IsValid os t (pos i) val s v a in
    let (v', w) = view-store_all os ws s j t' vs b in
    (v', w ∙ rw (same, view-tbl_set os t i j val s v a) refl)

-- After stores that all succeed, a table reads as the plain map that was written in the same order: each
-- index gives the last word stored at it, cut to the cell's size, or what it gave before.
pub tbl_get-store_all :
    (os : Os) (t : GlmTable) (ws : List (ℕ × ℕ)) (j w : ℕ) (t' : GlmTable)
    → IsValid t
    → tbl_get t (pos j) ≡ ok w
    → store_all os t ws ≡ ok t'
    → tbl_get t' (pos j) ≡ ok (written t.esize ws j w)
tbl_get-store_all os t ws j w t' v old h =
    let (v', seen) = view-store_all os ws t j t' v h in
    let before = tbl_get-view t j v in
    let same : view t j ≡ w = ground arith in
    tbl_get-view t' j v' ∙ ap ok (seen ∙ ap (written t.esize ws j) same)
