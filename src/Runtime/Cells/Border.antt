-- ===== src/Runtime/Cells/Border.antt =====
-- The length that `glm_tbl_len` of src/rt.rs counts on a hash map, and the length after an upgrade.
use glm.Prelude.{
  ℕ, zero, suc, ◌+◌, ◌≤◌, ◌<◌, ◌≡◌, refl, true, false, Option, none, some, List, [], ◌∷◌, arith,
  ltb, leb, ◌==◌, ==_iff, if◌then◌else◌, Bool-cases, inl, inr, length, ap, ltb→lt,
}
use glm.Runtime.Outcome.{ok}
use glm.Runtime.Table.{GlmTable, SparseMap, dense, sparse}
use glm.Runtime.Access.{is_some, find, copy_cells, upgraded, upgrade_to_sparse, border, tbl_len}
use glm.Runtime.Cells.Base.{IsValid, Stored-dense}
use glm.Runtime.Cells.Lists.{find-copy_cells}

-- How many entries have a key that is not below `b`: what is left for the loop to find.
above : ℕ → SparseMap → ℕ
above b [] = 0
above b ((k, v) ∷ m) = if leb b k then suc (above b m) else above b m

above-le-length : (b : ℕ) (m : SparseMap) → above b m ≤ length m
unfolding above
above-le-length b [] = omega arith
above-le-length b ((k, v) ∷ m) = ground (arith, above-le-length b m)

above_mono : (b : ℕ) (m : SparseMap) → above (b + 1) m ≤ above b m
unfolding above
above_mono b [] = omega arith
above_mono b ((k, v) ∷ m) = ground (arith, above_mono b m)

above-lt : (b : ℕ) (m : SparseMap) → is_some (find b m) ≡ true → above (b + 1) m < above b m
unfolding above find
above-lt b [] h = cc
above-lt b ((k, v) ∷ m) h = ground (arith, above_mono b m, above-lt b m)

-- The first number from `b` on that is no key.
pub record IsBorder (m : SparseMap) (b n : ℕ) : Type 0 where
  pub from : b ≤ n
  pub missing : find n m ≡ none
  pub present : (k : ℕ) → b ≤ k → k < n → is_some (find k m) ≡ true

missing_of : (o : Option ℕ) → is_some o ≡ false → o ≡ none
missing_of none h = refl
missing_of (some a) h = cc

-- Enough fuel gives the border.
border-IsBorder :
    (fuel : ℕ) (m : SparseMap) (b : ℕ)
    → above b m < fuel
    → (n : ℕ) × (border fuel m b ≡ some n) × IsBorder m b n
unfolding border
border-IsBorder zero m b h = absurd (omega arith)
border-IsBorder (suc fuel) m b h = elim (Bool-cases (is_some (find b m))) [
  | inr gone ↦ (
    b,
    rw gone,
    record {
      from = omega arith;
      missing = missing_of (find b m) gone;
      present = λ k p q. absurd (omega arith);
    },
  )
  | inl here ↦
      let (n, runs, spec) = border-IsBorder fuel m (b + 1) (omega (arith, above-lt b m here)) in
      (
        n,
        rw here runs,
        record {
          from = omega (arith, spec.from);
          missing = spec.missing;
          present = λ k p q. elim (Bool-cases (k == b)) [
            | inl e ↦ rw ((==_iff k b).0 e) here
            | inr e ↦ spec.present k (ground arith) q
          ];
        },
      )
]

-- On a sparse table the count ends, with the first index that holds no entry: every index below it
-- holds one.
pub tbl_len-IsBorder :
    (t : GlmTable) (m : SparseMap)
    → t.mode ≡ sparse
    → t.sparse_map ≡ some m
    → (n : ℕ) × (tbl_len t ≡ ok n) × IsBorder m 0 n
unfolding tbl_len
tbl_len-IsBorder t m e es =
    let (n, runs, spec) = border-IsBorder (length m + 1) m 0 (omega (arith, above-le-length 0 m)) in
    (n, rw (e, es, runs), spec)

find-copied_iff :
    (cells : List ℕ) (k : ℕ) → is_some (find k (copy_cells cells 0 [])) ≡ ltb k (length cells)
unfolding find
find-copied_iff cells k = ground (arith, find-copy_cells cells 0 k [])

IsBorder-copied : (cells : List ℕ) (n : ℕ) → IsBorder (copy_cells cells 0 []) 0 n → n ≡ length cells
IsBorder-copied cells n b = elim (Bool-cases (ltb n (length cells))) [
  | inl short ↦ cc (ap is_some b.missing, find-copied_iff cells n)
  | inr long ↦ elim (Bool-cases (ltb (length cells) n)) [
    | inl more ↦
        let here = b.present (length cells) (omega arith) (ltb→lt _ _ more) in
        absurd (ground (arith, here, find-copied_iff cells (length cells)))
    | inr same ↦ ground arith
  ]
]

-- An upgrade to the hash map that takes place does not change what `#t` counts: the span of the dense
-- table, since its zero cells are copied too.
pub upgrade_to_sparse-tbl_len :
    (t t' : GlmTable)
    → IsValid t
    → t.mode ≡ dense
    → upgrade_to_sparse t ≡ ok (t', true)
    → tbl_len t' ≡ tbl_len t
unfolding upgrade_to_sparse tbl_len
upgrade_to_sparse-tbl_len t t' v e h = elim (Stored-dense t.mode t.buffer t.sparse_map e v.stored) [
  | inl (es, eb, el, er) ↦ absurd (ground arith)
  | inr (cells, es, eb, el) ↦
      let eq : t' ≡ upgraded t (copy_cells cells 0 []) = ground arith in
      let (n, runs, spec) = tbl_len-IsBorder (upgraded t (copy_cells cells 0 [])) _ refl refl in
      rw (eq, runs, e) (ground (arith, IsBorder-copied cells n spec))
]
