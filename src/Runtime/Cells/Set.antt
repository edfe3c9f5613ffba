-- ===== src/Runtime/Cells/Set.antt =====
-- What `glm_tbl_set` of src/rt.rs writes is what `glm_tbl_get` reads, through growth and upgrade.
use glm.Prelude.{
  ℕ, ◌+◌, ◌%◌, ◌^◌, ◌≤◌, ◌<◌, ◌≡◌, refl, ap, ◌∙◌, sym, subst, Option, none, some, List, [], arith,
  ltb, ◌==◌, ==_iff, if◌then◌else◌, Bool-cases, inl, inr, set, length-set, ℤ, pos, negsuc, to_i64,
  i64_max,
}
use glm.Runtime.Outcome.{ok, panicked, ran, Os}
use glm.Runtime.Table.{GlmTable, TableMode, TableMode-cases, SparseMap, dense, sparse, cell_of}
use glm.Runtime.Grow.{span_grow}
use glm.Runtime.Access.{
  insert, find, or_zero, copy_cells, upgraded, upgrade_to_sparse, force_sparse, sparse_insert,
  make_sparse, threshold, write_cell, dense_set, tbl_set, dense_get, sparse_get, tbl_get,
}
use glm.Runtime.Cells.Base.{IsValid, Stored, Stored-sparse, Stored-dense, word_at, view}
use glm.Runtime.Cells.Lists.{
  cell_of_idem, cell_of-zero, find-insert, get_or-set, get_or-beyond, find-copied,
}
use glm.Runtime.Cells.Grow.{Refused, span_grow-pos-cases}

-- On a well-formed table a read succeeds, with the word of the view.
pub tbl_get-view : (t : GlmTable) (j : ℕ) → IsValid t → tbl_get t (pos j) ≡ ok (view t j)
unfolding tbl_get view dense_get sparse_get
tbl_get-view t j v = get t.mode t.buffer t.sparse_map refl refl refl v.stored
  where
    get :
        (m : TableMode) (b : Option (List ℕ)) (s : Option SparseMap)
        → t.mode ≡ m
        → t.buffer ≡ b
        → t.sparse_map ≡ s
        → Stored m b s t.len t.reserve
        → tbl_get t (pos j) ≡ ok (view t j)
    get dense (some cells) none em eb es h =
        ground (arith, get_or-beyond cells j, cell_of-zero t.esize)
    get dense none none em eb es h = ground (arith, cell_of-zero t.esize)
    get sparse none (some m) em eb es h = ground (arith, cell_of-zero t.esize)
    get dense none (some _) em eb es h = absurd h
    get dense (some _) (some _) em eb es h = absurd h
    get sparse none none em eb es h = absurd h
    get sparse (some _) _ em eb es h = absurd h

-- What a store promises: the word at `i`, every other word as it was.
pub record Stores (t : GlmTable) (i val : ℕ) (t' : GlmTable) : Type 0 where
  pub valid : IsValid t'
  pub words : (j : ℕ) → view t' j ≡ (if i == j then cell_of t.esize val else view t j)
  pub same_esize : t'.esize ≡ t.esize

module _ (t : GlmTable) (i val : ℕ) (t' : GlmTable) (v : IsValid t) where
  pub sparse_insert-Stores : t.mode ≡ sparse → sparse_insert t i val ≡ ok t' → Stores t i val t'
  unfolding sparse_insert view
  sparse_insert-Stores e h =
      let (m, es, eb, el, er) = Stored-sparse t.mode t.buffer t.sparse_map e v.stored in
      let new = insert i (cell_of t.esize val) m in
      let eq : t' ≡ record t { sparse_map = some new } = ground arith in
      rw eq (record {
        valid = record { stored = rw (e, eb) (el, er); sized = v.sized };
        words = λ j.
            rw (e, es, find-insert i j (cell_of t.esize val) m)
              (ground (arith, cell_of_idem t.esize val));
        same_esize = refl;
      })

  pub write_cell-Stores :
      t.mode ≡ dense → i < t.len → write_cell t i val ≡ ok t' → Stores t i val t'
  unfolding write_cell view
  write_cell-Stores e lt h = elim (Stored-dense t.mode t.buffer t.sparse_map e v.stored) [
    | inl (es, eb, el, er) ↦ absurd (omega arith)
    | inr (cells, es, eb, el) ↦
        let new = set cells i (cell_of t.esize val) in
        let eq : t' ≡ record t { buffer = some new } = ground arith in
        rw eq (record {
          valid = record {
            stored = rw (e, es) (omega (arith, length-set {0} cells i (cell_of t.esize val)));
            sized = v.sized;
          };
          words = λ j.
              rw (e, eb, get_or-set cells i j (cell_of t.esize val) (omega arith))
                (ground (arith, cell_of_idem t.esize val));
          same_esize = refl;
        })
  ]

-- The table in its sparse mode, with the words that it had.
pub record Sparsened (t t' : GlmTable) : Type 0 where
  pub valid : IsValid t'
  pub words : (j : ℕ) → view t' j ≡ view t j
  pub same_esize : t'.esize ≡ t.esize
  pub is_sparse : t'.mode ≡ sparse

module _ (t : GlmTable) (v : IsValid t) (e : t.mode ≡ dense) where
  upgraded-Sparsened :
      (m : SparseMap)
      → ((j : ℕ) → or_zero (find j m) ≡ word_at t.mode t.buffer t.sparse_map j)
      → Sparsened t (upgraded t m)
  unfolding view
  upgraded-Sparsened m w = record {
    valid = record { stored = (refl, refl); sized = v.sized };
    words = λ j. ap (cell_of t.esize) (w j);
    same_esize = refl;
    is_sparse = refl;
  }

  -- The upgrade of a table keeps every word, the zero cells of its span included.
  copied-Sparsened :
      (cells : List ℕ) → t.buffer ≡ some cells → Sparsened t (upgraded t (copy_cells cells 0 []))
  copied-Sparsened cells eb =
      upgraded-Sparsened (copy_cells cells 0 []) λ j. rw (e, eb) (find-copied cells j)

  pub make_sparse-Sparsened : (t' : GlmTable) → make_sparse t ≡ ok t' → Sparsened t t'
  unfolding make_sparse upgrade_to_sparse force_sparse find
  make_sparse-Sparsened t' h = elim (Stored-dense t.mode t.buffer t.sparse_map e v.stored) [
    | inl (es, eb, el, er) ↦
        let eq : t' ≡ upgraded t [] = ground arith in
        rw eq (upgraded-Sparsened [] λ j. rw (e, eb) refl)
    | inr (cells, es, eb, el) ↦ elim (Bool-cases (t.len == 0)) [
      | inl empty ↦
          let eq : t' ≡ upgraded t [] = ground arith in
          rw eq (upgraded-Sparsened [] λ j. rw (e, eb) (sym (get_or-beyond cells j (ground arith))))
      | inr filled ↦
          let eq : t' ≡ upgraded t (copy_cells cells 0 []) = ground arith in
          rw eq (copied-Sparsened cells eb)
    ]
  ]

-- A store after a step that keeps the words is a store.
Stores-after :
    (t s t' : GlmTable) (i val : ℕ)
    → ((j : ℕ) → view s j ≡ view t j)
    → s.esize ≡ t.esize
    → Stores s i val t'
    → Stores t i val t'
Stores-after t s t' i val w se st = record {
  valid = st.valid;
  words = λ j. st.words j ∙ simp (se, w j);
  same_esize = st.same_esize ∙ se;
}

-- The length that a store in range asks for, as the `i64` that it is computed as.
pub wanted-eq : (i : ℕ) → i < i64_max → to_i64 ((i + 1) % 2 ^ 64) ≡ pos (i + 1)
wanted-eq i h = ground arith

span_grow-top :
    (os : Os) (t : GlmTable) (i : ℕ)
    → i ≡ i64_max
    → span_grow os t (to_i64 ((i + 1) % 2 ^ 64)) ≡ panicked
unfolding span_grow
span_grow-top os t i e = rw e

threshold-le : (len : ℕ) → threshold len ≤ i64_max
unfolding threshold
threshold-le len = ground arith

-- No store into a null buffer succeeds.
write_cell-Refused :
    (os : Os) (t s : GlmTable) (i val : ℕ) (t' : GlmTable)
    → Refused os t s
    → write_cell s i val ≡ ok t'
    → ⊥
unfolding write_cell
write_cell-Refused os t s i val t' r h =
    let null : s.buffer ≡ none = ap (λ (x : GlmTable). x.buffer) r.left in absurd (ground arith)

module _ (os : Os) (t : GlmTable) (val : ℕ) (t' : GlmTable) (v : IsValid t) where
  dense_set-Stores : (i : ℕ) → t.mode ≡ dense → dense_set os t i val ≡ ok t' → Stores t i val t'
  unfolding dense_set
  dense_set-Stores i e h = elim (Bool-cases (ltb (threshold t.len) i)) [
    | inl far ↦
        let record { value = s; first = made; second = stored } =
          ran (λ s. sparse_insert s i val) (make_sparse t) (rw far at h) in
        let sp = make_sparse-Sparsened t v e s made in
        Stores-after t s t' i val sp.words sp.same_esize
          (sparse_insert-Stores s i val t' sp.valid sp.is_sparse stored)
    | inr near ↦
        let record { value = s; first = grew; second = wrote } =
          ran (λ s. write_cell s i val) (span_grow os t (to_i64 ((i + 1) % 2 ^ 64)))
            (rw near at h) in
        elim (Bool-cases (i == i64_max)) [
          | inl top ↦ cc (span_grow-top os t i ((==_iff i i64_max).0 top))
          | inr below ↦
              let fits : i < i64_max = ground (arith, threshold-le t.len) in
              elim (span_grow-pos-cases os t s v (i + 1) e (rw (wanted-eq i fits) at grew)) [
                | inl (k, room) ↦
                    Stores-after t s t' i val k.words k.same_esize
                      (write_cell-Stores s i val t' k.valid (k.same_mode ∙ e) (omega arith) wrote)
                | inr r ↦ absurd (write_cell-Refused os t s i val t' r wrote)
              ]
        ]
  ]

  -- A store that succeeds leaves the word at its index, of the table's cell size, and every other
  -- word as it was, whether the table stays dense, grows, or is upgraded to a hash map.
  pub tbl_set-Stores : (i : ℕ) → tbl_set os t (pos i) val ≡ ok t' → Stores t i val t'
  unfolding tbl_set
  tbl_set-Stores i h = elim (TableMode-cases t.mode) [
    | inl e ↦ dense_set-Stores i e (ground arith)
    | inr e ↦ sparse_insert-Stores t i val t' v e (ground arith)
  ]

-- After a store that succeeds at index `i` a read at `j` gives the stored value, cut to the cell's
-- size, if `j` is `i`, and otherwise what it gave before. The table may be dense or sparse, and may
-- grow, move into a mapping or be upgraded to a hash map on the way, whatever the allocator answers.
pub tbl_get-tbl_set :
    (os : Os) (t : GlmTable) (i j val : ℕ) (t' : GlmTable)
    → IsValid t
    → tbl_set os t (pos i) val ≡ ok t'
    → tbl_get t' (pos j) ≡ (if i == j then ok (cell_of t.esize val) else tbl_get t (pos j))
tbl_get-tbl_set os t i j val t' v h =
    let st = tbl_set-Stores os t val t' v i h in
    tbl_get-view t' j st.valid ∙ ap ok (st.words j) ∙ rw (tbl_get-view t j v) (ground arith)

-- A store that succeeds keeps the table well formed, and its cell size.
pub tbl_set-IsValid :
    (os : Os) (t : GlmTable) (idx : ℤ) (val : ℕ) (t' : GlmTable)
    → IsValid t
    → tbl_set os t idx val ≡ ok t'
    → IsValid t' × (t'.esize ≡ t.esize)
unfolding tbl_set
tbl_set-IsValid os t (pos i) val t' v h =
    let st = tbl_set-Stores os t val t' v i h in (st.valid, st.same_esize)
tbl_set-IsValid os t (negsuc i) val t' v h =
    let same : t ≡ t' = ground arith in
    (subst IsValid same v, ap (λ (x : GlmTable). x.esize) (sym same))
