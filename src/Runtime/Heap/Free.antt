-- ===== src/Runtime/Heap/Free.antt =====
-- `glm_tbl_free` of src/rt.rs on a tree of tables frees its headers, each once, and no other.
use glm.Prelude.{
  ℕ, zero, suc, ◌+◌, ◌-◌, ◌%◌, ◌^◌, ◌≤◌, ◌<◌, ◌≡◌, refl, Bool-cases, inl, inr, true, false, none,
  some, List, [], ◌∷◌, ◌++◌, arith, ◌==◌, ==_iff, length, length-append,
}
use glm.Runtime.Outcome.{Outcome, ok, ◌>>=◌}
use glm.Runtime.Table.{GlmTable}
use glm.Runtime.Heap.{
  Ptr, null, Machine, update, load, child_words, free_children, release, glm_tbl_free,
}
use glm.Runtime.Heap.Owned.{
  contains, contains-append, Distinct, Owned, OwnedAll, own, done, skip, child, Agree,
  OwnedAll-Agree, Freed,
}

-- A list without repetitions splits into two such lists that share nothing.
Distinct-append :
    (ps qs : List Ptr)
    → Distinct (ps ++ qs)
    → Distinct ps × Distinct qs × ((q : Ptr) → contains q qs ≡ true → contains q ps ≡ false)
unfolding contains
Distinct-append [] qs d = (tt, d, λ q m. refl)
Distinct-append (p ∷ ps) qs d =
    let (dp, dq, apart) = Distinct-append ps qs d.1 in
    (
      (ground (arith, d.0, contains-append p ps qs), dp),
      dq,
      λ q m. ground (arith, apart q m, contains-append p ps qs, d.0),
    )

-- The machine can count the headers `ps` down.
abbrev Counts : Machine → List Ptr → Type 0
Counts m ps = (length ps ≤ m.alloc_count) × (m.alloc_count < 2 ^ 64)

-- The call `run` frees `ps`.
abbrev Frees : Outcome Machine → Machine → List Ptr → Type 0
Frees run m ps = (m' : Machine) × (run ≡ ok m') × Freed m ps m'

-- `free` frees every tree of at most `f` headers.
abbrev FreesTrees : ℕ → (Ptr → Machine → Outcome Machine) → Type 0
FreesTrees f free =
    (p : Ptr) (ps : List Ptr) (m : Machine)
    → Owned m.header p ps
    → Distinct ps
    → length ps ≤ f
    → Counts m ps
    → Frees (free p m) m ps

-- Freeing one list of headers after another frees both.
Freed-append :
    (m m' m'' : Machine) (ps qs : List Ptr)
    → Freed m ps m'
    → Freed m' qs m''
    → Freed m (ps ++ qs) m''
Freed-append m m' m'' ps qs a b = record {
  headers = λ q. ground (arith, a.headers q, b.headers q, contains-append q ps qs);
  count = omega (arith, a.count, b.count, length-append {0} ps qs);
}

module _ (f : ℕ) (free : Ptr → Machine → Outcome Machine) (ih : FreesTrees f free) where
  free_children-Frees :
      (cs : List ℕ) (qs : List Ptr) (m : Machine)
      → OwnedAll m.header cs qs
      → Distinct qs
      → length qs ≤ f
      → Counts m qs
      → Frees (free_children free cs m) m qs
  unfolding free_children contains
  free_children-Frees [] _ m done d le c =
      (m, refl, record { headers = λ q. refl; count = omega arith })
  free_children-Frees (w ∷ cs) _ m (skip {qs = qs} v rest) d le c =
      rw v (free_children-Frees cs qs m rest d le c)
  free_children-Frees (w ∷ cs) _ m (child {ps = ps} {qs = qs} v tree rest) d le c =
      let (dp, dq, apart) = Distinct-append ps qs d in
      let total = length-append {0} ps qs in
      let (m', freed, one) = ih w ps m tree dp (omega (arith, total)) (omega (arith, total), c.1) in
      let kept : OwnedAll m'.header cs qs =
        OwnedAll-Agree rest (λ q h. ground (arith, one.headers q, apart q h)) in
      let (m'', frees, two) =
        free_children-Frees cs qs m' kept dq (omega (arith, total))
          (omega (arith, total, one.count), omega (arith, one.count, c.1)) in
      (m'', rw (v, freed) frees, Freed-append m m' m'' ps qs one two)

-- The machine after the header's own box is taken back.
abbrev unboxed : Machine → Ptr → Machine
unboxed m p = record m {
  header = update m.header p none;
  alloc_count = (m.alloc_count + 2 ^ 64 - 1) % 2 ^ 64;
}

unboxed-Agree :
    (m : Machine) (p : Ptr) (qs : List Ptr)
    → contains p qs ≡ false
    → Agree m.header (unboxed m p).header qs
unfolding update
unboxed-Agree m p qs d q h = elim (Bool-cases (p == q)) [
  | inl same ↦ absurd (cc (d, h, (==_iff p q).0 same))
  | inr other ↦ rw other
]

Freed-unboxed :
    (m m' : Machine) (p : Ptr) (qs : List Ptr)
    → Counts m (p ∷ qs)
    → Freed (unboxed m p) qs m'
    → Freed m (p ∷ qs) m'
unfolding update contains
Freed-unboxed m m' p qs c a = record {
  headers = λ q. ground (arith, a.headers q);
  count = omega (arith, a.count);
}

-- One level of the free, on a live header.
free-live :
    (f : ℕ) (p : Ptr) (m : Machine) (t : GlmTable)
    → (p == null) ≡ false
    → m.header p ≡ some t
    → glm_tbl_free (suc f) p m ≡ (
        child_words t >>= λ ws.
        free_children (glm_tbl_free f) ws (unboxed m p) >>= λ m'. release t >>= λ _. ok m')
unfolding glm_tbl_free load
free-live f p m t n e = rw (n, e, load)

free-FreesTrees : (fuel : ℕ) → FreesTrees fuel (glm_tbl_free fuel)
free-FreesTrees zero _ _ m (own t ws n e r w c) d le cs = absurd (omega arith)
free-FreesTrees (suc f) _ _ m (own {p = p} {qs = qs} t ws n e r w c) d le cs =
    let kept = OwnedAll-Agree c (unboxed-Agree m p qs d.0) in
    let (m', frees, freed) =
      free_children-Frees f (glm_tbl_free f) (free-FreesTrees f) ws qs (unboxed m p) kept d.1
        (omega arith) (omega arith, omega arith) in
    (m', rw (free-live f p m t n e, w, frees, r), Freed-unboxed m m' p qs cs freed)

-- Freeing a table from which the deep free reaches a tree of headers `ps`, none of them twice, where the
-- buffers that are searched for tables are empty or have cells of 8 bytes and the count of live tables is
-- at least the number of the headers and below 2 ^ 64, succeeds with fuel for that number: it takes
-- exactly the headers `ps`, keeps every other one, and counts the live tables down by their number.
pub glm_tbl_free-Freed :
    (fuel : ℕ) (p : Ptr) (ps : List Ptr) (m : Machine)
    → Owned m.header p ps
    → Distinct ps
    → length ps ≤ fuel
    → length ps ≤ m.alloc_count
    → m.alloc_count < 2 ^ 64
    → (m' : Machine) × (glm_tbl_free fuel p m ≡ ok m') × Freed m ps m'
glm_tbl_free-Freed fuel p ps m o d le c lt = free-FreesTrees fuel p ps m o d le (c, lt)
