-- ===== src/Runtime/Reserve.antt =====
-- The reserved mappings of src/rt.rs: the pages that are committed hold the span and stay inside.
use native.Mathlib.Nat.{pow-suc}
use glm.Prelude.{
  ℕ, zero, suc, ap, sym, true, List, ◌+◌, ◌*◌, ◌%◌, ◌^◌, ◌≤◌, ◌<◌, ◌≡◌, refl, some, arith, ltb,
  if◌then◌else◌, leb, Bool-cases, leb→le, inl, inr, ◌⊎◌, ◌==◌, ==_iff, ◌&&◌, ◌∙◌, subst, ℤ, pos,
  negsuc,
}
use glm.Runtime.Outcome.{ok, ran, Os}
use glm.Runtime.Table.{
  GlmTable, page, graduate_at, reserve_floor, next_power_of_two, reserve_for, round_up_page,
}
use glm.Runtime.Grow.{
  with_buffer, grown, graduate, remap, grow_vm, grow_heap, grow_to, grown_len, span_grow,
}

-- A mapping of whole pages that a 64-bit address can count.
pub record IsReserve (r : ℕ) : Type 0 where
  pub whole : r % page ≡ 0
  pub small : r ≤ 2 ^ 63

pow_whole : (n : ℕ) → 12 ≤ n → 2 ^ n % page ≡ 0
pow_whole zero h = absurd (omega arith)
pow_whole (suc n) h = elim (Bool-cases (leb 12 n)) [
  | inl more ↦ omega (arith, pow_whole n (leb→le 12 n more), pow-suc 2 n)
  | inr less ↦ let e : n ≡ 11 = ground arith in rw e refl
]

pow_mono : (n k : ℕ) → n ≤ k → 2 ^ n ≤ 2 ^ k
pow_mono n zero h = let e : n ≡ 0 = omega arith in rw e (omega arith)
pow_mono n (suc k) h = elim (Bool-cases (leb n k)) [
  | inl le ↦ omega (arith, pow_mono n k (leb→le n k le), pow-suc 2 k)
  | inr gt ↦ let e : n ≡ suc k = ground arith in rw e (omega arith)
]

-- A power of two that is not below the floor is a multiple of a page.
pow_floor : (n : ℕ) → reserve_floor ≤ 2 ^ n → 2 ^ n % page ≡ 0
pow_floor n h = elim (Bool-cases (leb 12 n)) [
  | inl more ↦ pow_whole n (leb→le 12 n more)
  | inr less ↦ absurd (omega (arith, pow_mono n 12 (ground arith)))
]

-- The search returns a power of two that is not below its argument.
next_power_of_two-eq :
    (k p n a r : ℕ)
    → p ≡ 2 ^ a
    → next_power_of_two k p n ≡ some r
    → (b : ℕ) × (r ≡ 2 ^ b) × (n ≤ r) × (b < a + k)
unfolding next_power_of_two
next_power_of_two-eq zero p n a r e h = cc
next_power_of_two-eq (suc k) p n a r e h = elim (Bool-cases (leb n p)) [
  | inl fits ↦ (a, ground arith, ground arith, omega arith)
  | inr short ↦
      let (b, eq, le, lt) =
        next_power_of_two-eq k (p * 2) n (suc a) r (omega (arith, pow-suc 2 a)) (rw short at h) in
      (b, eq, le, omega arith)
]

-- A granted reservation holds what was asked for, and is whole pages.
reserve_for-IsReserve : (bytes r : ℕ) → reserve_for bytes ≡ ok r → (bytes ≤ r) × IsReserve r
unfolding reserve_for
reserve_for-IsReserve bytes r h =
    let asked = if ltb bytes reserve_floor then reserve_floor else bytes in
    let (b, eq, le, lt) = next_power_of_two-eq 64 1 asked 0 r refl (ground arith) in
    let enough : reserve_floor ≤ r = ground arith in
    (
      ground arith,
      rw eq (record { whole = pow_floor b (rw eq at enough); small = pow_mono b 63 (omega arith) }),
    )

round_up_page-whole : (n : ℕ) → round_up_page n % page ≡ 0
unfolding round_up_page
round_up_page-whole n = omega arith

-- The committed pages hold the span and end inside the mapping.
commit_bounds :
    (bytes r : ℕ)
    → IsReserve r
    → bytes ≤ r
    → (bytes ≤ round_up_page bytes) × (round_up_page bytes ≤ r)
unfolding round_up_page
commit_bounds bytes r i h = (omega arith, omega arith)

-- A mapping of whole pages that the buffer is in and that holds the span.
pub record Mapped (t : GlmTable) : Type 0 where
  pub reserved : IsReserve t.reserve
  pub holds : t.len * t.esize ≤ t.reserve
  pub cells : List ℕ
  pub buffer : t.buffer ≡ some cells

-- No mapping, in which case the buffer is in the heap or null, or a mapping that holds the span.
abbrev pub InReserve : GlmTable → Type 0
InReserve t = (t.reserve ≡ 0) ⊎ Mapped t

-- A growth in a mapping: the kernel granted the commit of whole pages from its start that hold the span
-- and end inside it.
pub record Commits (os : Os) (t' : GlmTable) : Type 0 where
  pub mapped : Mapped t'
  pub committed : ℕ
  pub granted : os.mprotect committed ≡ true
  pub whole : committed % page ≡ 0
  pub held : t'.len * t'.esize ≤ committed
  pub inside : committed ≤ t'.reserve

module _ (os : Os) (t : GlmTable) (n : ℕ) (t' : GlmTable) where
  commits :
      (r : ℕ)
      → IsReserve r
      → n * t.esize ≤ r
      → os.mprotect (round_up_page (n * t.esize)) ≡ true
      → t' ≡ with_buffer t (some (grown t.buffer n)) n r
      → Commits os t'
  commits r i le granted same =
      let (held, inside) = commit_bounds (n * t.esize) r i le in
      subst (Commits os) (sym same) (record {
        mapped = record { reserved = i; holds = le; cells = grown t.buffer n; buffer = refl };
        committed = round_up_page (n * t.esize);
        granted = granted;
        whole = round_up_page-whole (n * t.esize);
        held = held;
        inside = inside;
      })

  -- A table that moves into a mapping for `n` cells has that length, the kernel granted the mapping, and
  -- it granted the commit of whole pages from the start of the mapping that hold the new span and end
  -- inside the mapping.
  pub graduate-Commits :
      graduate os t (n * t.esize) n ≡ ok t'
      → (t'.len ≡ n) × (os.mmap t'.reserve ≡ true) × Commits os t'
  unfolding graduate
  graduate-Commits h =
      let record { value = r; first = got; second = rest } = ran _ (reserve_for (n * t.esize)) h in
      let (le, i) = reserve_for-IsReserve (n * t.esize) r got in
      let same : t' ≡ with_buffer t (some (grown t.buffer n)) n r = ground arith in
      let asked : os.mmap r ≡ true = ground arith in
      (
        ap (λ (x : GlmTable). x.len) same,
        ap os.mmap (ap (λ (x : GlmTable). x.reserve) same) ∙ asked,
        commits r i le (ground arith) same,
      )

  remap-IsReserve :
      (r : ℕ)
      → IsReserve t.reserve
      → remap os t (n * t.esize) ≡ ok r
      → (n * t.esize ≤ r) × IsReserve r
  unfolding remap
  remap-IsReserve r i h = elim (Bool-cases (ltb t.reserve (n * t.esize))) [
    | inl more ↦
        let record { value = s; first = got; second = rest } =
          ran _ (reserve_for (n * t.esize)) (rw more at h) in
        let same : s ≡ r = ground arith in rw same at (reserve_for-IsReserve (n * t.esize) s got)
    | inr fits ↦ let same : t.reserve ≡ r = ground arith in (ground arith, rw same at i)
  ]

  grow_vm-Commits : IsReserve t.reserve → grow_vm os t (n * t.esize) n ≡ ok t' → Commits os t'
  unfolding grow_vm
  grow_vm-Commits i h =
      let record { value = r; first = got; second = rest } = ran _ (remap os t (n * t.esize)) h in
      let (le, ir) = remap-IsReserve r i got in commits r ir le (ground arith) (ground arith)

  grow_heap_reserve : grow_heap os t n ≡ ok t' → t'.reserve ≡ t.reserve
  unfolding grow_heap
  grow_heap_reserve h = ground arith

  grow_to-Commits : InReserve t → grow_to os t n ≡ ok t' → (t'.reserve ≡ 0) ⊎ Commits os t'
  unfolding grow_to
  grow_to-Commits i h = elim (Bool-cases (t.reserve == 0)) [
    | inl heap ↦ elim (Bool-cases (leb graduate_at (n * t.esize) && os.vm)) [
      | inl moves ↦
          let moved : graduate os t (n * t.esize) n ≡ ok t' = ground arith in
          let (len, asked, c) = graduate-Commits moved in inr c
      | inr stays ↦ inl (grow_heap_reserve (ground arith) ∙ (==_iff t.reserve 0).0 heap)
    ]
    | inr mapped ↦ elim i [
      | inl none_yet ↦ absurd (ground arith)
      | inr m ↦ inr (grow_vm-Commits m.reserved (ground arith))
    ]
  ]

-- Growing the span of a table that has no mapping, or a mapping of whole pages that holds its buffer and
-- span, leaves such a table, whatever the kernel and the allocator answer. Where it ends, the table is
-- unchanged, or it has no mapping, or the kernel granted the commit of whole pages from the start of the
-- mapping that hold the new span and end inside the mapping.
pub span_grow-InReserve :
    (os : Os) (t : GlmTable) (want : ℤ) (t' : GlmTable)
    → InReserve t
    → span_grow os t want ≡ ok t'
    → InReserve t' × ((t ≡ t') ⊎ (t'.reserve ≡ 0) ⊎ Commits os t')
unfolding span_grow
span_grow-InReserve os t (negsuc w) t' i h = cc
span_grow-InReserve os t (pos w) t' i h = elim (Bool-cases (leb w t.len)) [
  | inl fits ↦ let same : t ≡ t' = ground arith in (subst InReserve same i, inl same)
  | inr short ↦ elim (grow_to-Commits os t (grown_len t.len w) t' i (ground arith)) [
    | inl heap ↦ (inl heap, inr (inl heap))
    | inr c ↦ (inr c.mapped, inr (inr c))
  ]
]
