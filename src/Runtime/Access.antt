-- ===== src/Runtime/Access.antt =====
-- src/rt.rs: storing to and reading from a live table, its length, and the upgrade to a hash map.
use glm.Prelude.{
  ℕ, suc, ◌+◌, ◌%◌, ◌^◌, Bool, true, false, Option, none, some, List, [], ◌∷◌, ltb, leb, ◌==◌,
  if◌then◌else◌, length, set, get_or, ℤ, pos, negsuc, to_i64, i64_max,
}
use glm.Runtime.Outcome.{Outcome, ok, fault, ◌>>=◌, Os}
use glm.Runtime.Table.{GlmTable, SparseMap, dense, sparse, sparse_threshold, elem_layout, cell_of}
use glm.Runtime.Grow.{span_grow}

-- `HashMap::insert`, `get` and `contains_key`.
unfoldable pub insert : ℕ → ℕ → SparseMap → SparseMap
insert index cell [] = (index, cell) ∷ []
insert index cell (entry ∷ map) =
    let kept = entry ∷ insert index cell map in
    if index == entry.0 then (index, cell) ∷ map else kept

unfoldable pub find : ℕ → SparseMap → Option ℕ
find index [] = none
find index (entry ∷ map) = if index == entry.0 then some entry.1 else find index map

abbrev pub is_some {ℓ} : {A : Type ℓ} → Option A → Bool
is_some none = false
is_some (some _) = true

-- A missing key reads as zero.
abbrev pub or_zero : Option ℕ → ℕ
or_zero none = 0
or_zero (some v) = v

-- The loop that copies the cells `i`, `i + 1`, … into the map.
unfoldable pub copy_cells : List ℕ → ℕ → SparseMap → SparseMap
copy_cells [] i m = m
copy_cells (cell ∷ cells) i m = copy_cells cells (i + 1) (insert i cell m)

-- The table with its buffer given back and `m` in its place.
abbrev pub upgraded : GlmTable → SparseMap → GlmTable
upgraded t m = record t { buffer = none; len = 0; reserve = 0; mode = sparse; sparse_map = some m }

-- `dealloc(tbl.data, elem_layout(tbl.len, tbl.esize))`, or `munmap` of a reserved mapping.
unfoldable pub give_back : GlmTable → Outcome (Unit {0})
give_back t = if t.reserve == 0 then (elem_layout t.len t.esize >>= λ _. ok tt) else ok tt

unfoldable pub upgrade_to_sparse : GlmTable → Outcome (GlmTable × Bool)
upgrade_to_sparse t = if t.len == 0 then ok (t, false) else elim t.buffer [
  | none ↦ fault
  | some cells ↦ give_back t >>= λ _. ok (upgraded t (copy_cells cells 0 []), true)
]

-- The branch of `glm_tbl_set` for a table that `upgrade_to_sparse` refused.
unfoldable pub force_sparse : GlmTable → Outcome GlmTable
force_sparse t = elim t.buffer [
  | none ↦ ok (upgraded t [])
  | some _ ↦ give_back t >>= λ _. ok (upgraded t [])
]

-- The two of them together: the table in its sparse mode.
unfoldable pub make_sparse : GlmTable → Outcome GlmTable
make_sparse t = do (t', done) ← upgrade_to_sparse t; if done then ok t' else force_sparse t'

unfoldable pub sparse_insert : GlmTable → ℕ → ℕ → Outcome GlmTable
sparse_insert t i val = elim t.sparse_map [
  | none ↦ fault
  | some m ↦ ok (record t { sparse_map = some (insert i (cell_of t.esize val) m) })
]

-- `len.saturating_add(SPARSE_THRESHOLD)`
unfoldable pub threshold : ℕ → ℕ
threshold len = if ltb i64_max (len + sparse_threshold) then i64_max else len + sparse_threshold

unfoldable pub write_cell : GlmTable → ℕ → ℕ → Outcome GlmTable
write_cell t i val = elim t.buffer [
  | none ↦ fault
  | some cells ↦
      if ltb i (length cells)
      then ok (record t { buffer = some (set cells i (cell_of t.esize val)) })
      else fault
]

unfoldable pub dense_set : Os → GlmTable → ℕ → ℕ → Outcome GlmTable
dense_set os t i val =
    if ltb (threshold t.len) i
    then (do t' ← make_sparse t; sparse_insert t' i val)
    else (do t' ← span_grow os t (to_i64 ((i + 1) % 2 ^ 64)); write_cell t' i val)

-- `glm_tbl_set` on a live table; `val` is the word at the pointer. A negative index is above no
-- threshold, and is dropped in both modes.
unfoldable pub tbl_set : Os → GlmTable → ℤ → ℕ → Outcome GlmTable
tbl_set os t (negsuc _) val = ok t
tbl_set os t (pos i) val = elim t.mode [
  | sparse ↦ sparse_insert t i val
  | dense ↦ dense_set os t i val
]

-- `glm_tbl_get` on a live table, as the word that it leaves at a zeroed `dst`.
unfoldable pub dense_get : GlmTable → ℕ → Outcome ℕ
dense_get t i = if leb t.len i then ok 0 else elim t.buffer [
  | none ↦ fault
  | some cells ↦ if ltb i (length cells) then ok (cell_of t.esize (get_or cells i 0)) else fault
]

unfoldable pub sparse_get : GlmTable → ℕ → Outcome ℕ
sparse_get t i = elim t.sparse_map [
  | none ↦ fault
  | some m ↦ elim (find i m) [ none ↦ ok 0 | some v ↦ ok (cell_of t.esize v) ]
]

unfoldable pub tbl_get : GlmTable → ℤ → Outcome ℕ
tbl_get t (negsuc _) = ok 0
tbl_get t (pos i) = elim t.mode [ sparse ↦ sparse_get t i | dense ↦ dense_get t i ]

-- `while map.contains_key(&bound) { bound += 1 }`, on fuel.
unfoldable pub border : ℕ → SparseMap → ℕ → Option ℕ
border ℕ.zero m bound = none
border (suc fuel) m bound =
    let more = border fuel m (bound + 1) in if is_some (find bound m) then more else some bound

-- `glm_tbl_len` on a live table; a map of `n` keys is given `n + 1` rounds.
unfoldable pub tbl_len : GlmTable → Outcome ℕ
tbl_len t = elim t.mode [
  | dense ↦ ok t.len
  | sparse ↦ elim t.sparse_map [
    | none ↦ fault
    | some m ↦ elim (border (length m + 1) m 0) [ some n ↦ ok n | none ↦ fault ]
  ]
]
