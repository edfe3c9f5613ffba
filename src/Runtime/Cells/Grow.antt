-- ===== src/Runtime/Cells/Grow.antt =====
-- Growing a table of src/rt.rs keeps its well-formedness and every word of it, unless the allocator
-- refuses its first buffer.
use glm.Prelude.{
  ℕ, zero, suc, ◌+◌, ◌%◌, ◌^◌, ◌*◌, ◌==◌, ◌&&◌, i64_max, to_i64, ◌≤◌, ◌<◌, ◌≡◌, refl, ap, sym, ◌∙◌,
  subst, false, none, ◌⊎◌, Option, none, some, List, arith, length-replicate, ℤ, pos, negsuc, leb,
  Bool-cases, inl, inr,
}
use glm.Runtime.Outcome.{ok, Os}
use glm.Runtime.Table.{
  elem_layout, graduate_at, GlmTable, TableMode, TableMode-cases, SparseMap, dense, sparse, cell_of,
}
use glm.Runtime.Grow.{
  with_buffer, grown, graduate, grow_vm, grow_heap, grown_len, grow_to, span_grow, tbl_grow,
  tbl_reserve,
}
use glm.Runtime.Cells.Base.{IsValid, Stored, word_at, view}
use glm.Runtime.Cells.Lists.{get_or-replicate, get_or-grow_cells, length-grow_cells}

pub grown_len_bounds :
    (len want : ℕ) → (len < want → len ≤ grown_len len want) × (want ≤ grown_len len want)
unfolding grown_len
grown_len_bounds len want = (λ h. omega arith, omega arith)

Stored-grown :
    (m : TableMode) (b : Option (List ℕ)) (s : Option SparseMap) (len reserve n r : ℕ)
    → m ≡ dense
    → len ≤ n
    → Stored m b s len reserve
    → Stored m (some (grown b n)) s n r
unfolding grown
Stored-grown dense (some cells) none len reserve n r e h v = length-grow_cells cells n (omega arith)
Stored-grown dense none none len reserve n r e h v = length-replicate n 0
Stored-grown dense none (some _) len reserve n r e h v = absurd v
Stored-grown dense (some _) (some _) len reserve n r e h v = absurd v
Stored-grown sparse _ _ len reserve n r e h v = cc

word_at-grown :
    (m : TableMode) (b : Option (List ℕ)) (s : Option SparseMap) (n j : ℕ)
    → m ≡ dense
    → word_at m (some (grown b n)) s j ≡ word_at m b s j
unfolding grown
word_at-grown dense none s n j e = get_or-replicate n j
word_at-grown dense (some cells) s n j e = get_or-grow_cells cells n j
word_at-grown sparse b s n j e = cc

-- What a successful growth returns: the cells kept, zeros behind them.
abbrev IsGrown : GlmTable → ℕ → GlmTable → Type 0
IsGrown t n t' = t' ≡ with_buffer t (some (grown t.buffer n)) n t'.reserve

-- A null buffer under a new length, where the allocator refused the bytes for it.
pub record Refused (os : Os) (t t' : GlmTable) : Type 0 where
  pub empty : t.buffer ≡ none
  pub refused : os.alloc_zeroed (t'.len * t.esize) ≡ false
  pub left : t' ≡ with_buffer t none t'.len t.reserve

module _ (os : Os) (t : GlmTable) (n : ℕ) (t' : GlmTable) where
  graduate-IsGrown : (bytes : ℕ) → graduate os t bytes n ≡ ok t' → IsGrown t n t'
  unfolding graduate
  graduate-IsGrown bytes h = ground arith

  grow_vm-IsGrown : (bytes : ℕ) → grow_vm os t bytes n ≡ ok t' → IsGrown t n t'
  unfolding grow_vm
  grow_vm-IsGrown bytes h = ground arith

  -- The first buffer is refused: the pointer stays null under the new length.
  grow_heap-cases : grow_heap os t n ≡ ok t' → IsGrown t n t' ⊎ Refused os t t'
  unfolding grow_heap grown elem_layout
  grow_heap-cases h = go t.buffer refl
    where
      go : (b : Option (List ℕ)) → t.buffer ≡ b → IsGrown t n t' ⊎ Refused os t t'
      go (some cells) e = inl (ground arith)
      go none e = elim (Bool-cases (os.alloc_zeroed (n * t.esize))) [
        | inl granted ↦ inl (ground arith)
        | inr no_memory ↦
            let same : t' ≡ with_buffer t none n t.reserve = ground arith in
            let len : t'.len ≡ n = ap (λ (x : GlmTable). x.len) same in
            inr (record {
              empty = e;
              refused = rw len no_memory;
              left = same ∙ ap (λ k. with_buffer t none k t.reserve) (sym len);
            })
      ]

  grow_to-cases : grow_to os t n ≡ ok t' → IsGrown t n t' ⊎ Refused os t t'
  unfolding grow_to
  grow_to-cases h =
      let bytes = n * t.esize in
      elim (Bool-cases (t.reserve == 0)) [
        | inl heap ↦ elim (Bool-cases (leb graduate_at bytes && os.vm)) [
          | inl moves ↦ inl (graduate-IsGrown bytes (ground arith))
          | inr stays ↦ grow_heap-cases (ground arith)
        ]
        | inr mapped ↦ inl (grow_vm-IsGrown bytes (ground arith))
      ]

-- What every operation that grows a table promises of the result.
pub record Keeps (t t' : GlmTable) : Type 0 where
  pub valid : IsValid t'
  pub words : (j : ℕ) → view t' j ≡ view t j
  pub same_mode : t'.mode ≡ t.mode
  pub same_esize : t'.esize ≡ t.esize
  pub longer : t.len ≤ t'.len

pub Keeps-self : (t : GlmTable) → IsValid t → Keeps t t
Keeps-self t v = record {
  valid = v;
  words = λ j. refl;
  same_mode = refl;
  same_esize = refl;
  longer = omega arith;
}

IsGrown-Keeps :
    (t : GlmTable) (n : ℕ) (t' : GlmTable)
    → t.mode ≡ dense
    → t.len ≤ n
    → IsValid t
    → IsGrown t n t'
    → Keeps t t'
unfolding view
IsGrown-Keeps t n t' e h v g = rw g (record {
  valid = record {
    stored = Stored-grown t.mode t.buffer t.sparse_map t.len t.reserve n t'.reserve e h v.stored;
    sized = v.sized;
  };
  words = λ j. ap (cell_of t.esize) (word_at-grown t.mode t.buffer t.sparse_map n j e);
  same_mode = refl;
  same_esize = refl;
  longer = h;
})

module _ (os : Os) (t t' : GlmTable) (v : IsValid t) where
  pub span_grow-pos-cases :
      (n : ℕ)
      → t.mode ≡ dense
      → span_grow os t (pos n) ≡ ok t'
      → (Keeps t t' × (n ≤ t'.len)) ⊎ Refused os t t'
  unfolding span_grow
  span_grow-pos-cases n e h = elim (Bool-cases (leb n t.len)) [
    | inl fits ↦
        let same : t ≡ t' = ground arith in
        inl (subst (Keeps t) same (Keeps-self t v), rw (← same) (ground arith))
    | inr short ↦
        let m = grown_len t.len n in
        let bound = grown_len_bounds t.len n in
        elim (grow_to-cases os t m t' (ground arith)) [
          | inl gr ↦
              let len_eq : t'.len ≡ m = ap (λ (x : GlmTable). x.len) gr in
              inl (IsGrown-Keeps t m t' e (bound.0 (ground arith)) v gr, rw len_eq bound.1)
          | inr r ↦ inr r
        ]
  ]

  span_grow-cases :
      (n : ℤ) → t.mode ≡ dense → span_grow os t n ≡ ok t' → Keeps t t' ⊎ Refused os t t'
  span_grow-cases (pos n) e h = elim (span_grow-pos-cases n e h) [ inl k ↦ inl k.0 | inr r ↦ inr r ]
  span_grow-cases (negsuc n) e h = unfold span_grow in cc

  Keeps-eq : t ≡ t' → Keeps t t'
  Keeps-eq same = subst (Keeps t) same (Keeps-self t v)

  tbl_grow-dense-cases :
      (idx : ℤ) → t.mode ≡ dense → tbl_grow os t idx ≡ ok t' → Keeps t t' ⊎ Refused os t t'
  unfolding tbl_grow
  tbl_grow-dense-cases (pos i) e h = elim (Bool-cases (i == i64_max)) [
    | inl top ↦ absurd (ground arith)
    | inr below ↦ span_grow-cases (to_i64 ((i + 1) % 2 ^ 64)) e (ground arith)
  ]
  tbl_grow-dense-cases (negsuc zero) e h = span_grow-cases (pos 0) e (ground arith)
  tbl_grow-dense-cases (negsuc (suc k)) e h = span_grow-cases (negsuc k) e (ground arith)

  -- A growth of a well-formed table that ends without an abort keeps the table well formed and every word
  -- of it, its mode and its cell size, and never shortens it; or the table had no buffer, the allocator
  -- refused the bytes of its new length, and only the length is changed, over a null buffer.
  pub tbl_grow-Keeps : (idx : ℤ) → tbl_grow os t idx ≡ ok t' → Keeps t t' ⊎ Refused os t t'
  unfolding tbl_grow
  tbl_grow-Keeps idx h = elim (TableMode-cases t.mode) [
    | inr e ↦ inl (Keeps-eq (ground arith))
    | inl e ↦ tbl_grow-dense-cases idx e h
  ]

  pub tbl_reserve-Keeps : (n : ℤ) → tbl_reserve os t n ≡ ok t' → Keeps t t' ⊎ Refused os t t'
  unfolding tbl_reserve
  tbl_reserve-Keeps n h = elim (TableMode-cases t.mode) [
    | inr e ↦ inl (Keeps-eq (ground arith))
    | inl e ↦ span_grow-cases n e (ground arith)
  ]
