-- ===== src/Runtime/Cells/Lists.antt =====
-- Laws of the cells of a buffer and of the hash map of src/rt.rs.
use glm.Prelude.{
  ℕ, zero, suc, ◌+◌, ◌-◌, ◌≤◌, ◌<◌, ◌≡◌, refl, ◌&&◌, some, List, [], ◌∷◌, ◌++◌, arith, ltb, leb,
  ◌==◌, if◌then◌else◌, length, length-append, length-replicate, set, get_or, replicate,
}
use glm.Runtime.Table.{SparseMap, cell_of, grow_cells}
use glm.Runtime.Access.{insert, find, copy_cells, or_zero}

pub cell_of_idem : (e v : ℕ) → cell_of e (cell_of e v) ≡ cell_of e v
unfolding cell_of
cell_of_idem e v = ground arith

pub cell_of-zero : (e : ℕ) → cell_of e 0 ≡ 0
unfolding cell_of
cell_of-zero e = ground arith

pub find-insert :
    (k j v : ℕ) (m : SparseMap) → find j (insert k v m) ≡ (if k == j then some v else find j m)
unfolding find insert
find-insert k j v [] = ground arith
find-insert k j v (entry ∷ m) = ground (arith, find-insert k j v m)

pub get_or-replicate : (n j : ℕ) → get_or {A = ℕ} (replicate n 0) j 0 ≡ 0
get_or-replicate zero j = refl
get_or-replicate (suc n) zero = refl
get_or-replicate (suc n) (suc j) = get_or-replicate n j

pub get_or-append_zeros : (xs : List ℕ) (n j : ℕ) → get_or (xs ++ replicate n 0) j 0 ≡ get_or xs j 0
get_or-append_zeros [] n j = get_or-replicate n j
get_or-append_zeros (x ∷ xs) n zero = refl
get_or-append_zeros (x ∷ xs) n (suc j) = get_or-append_zeros xs n j

pub get_or-grow_cells : (xs : List ℕ) (n j : ℕ) → get_or (grow_cells xs n) j 0 ≡ get_or xs j 0
unfolding grow_cells
get_or-grow_cells xs n j = get_or-append_zeros xs (n - length xs) j

pub length-grow_cells : (xs : List ℕ) (n : ℕ) → length xs ≤ n → length (grow_cells xs n) ≡ n
unfolding grow_cells
length-grow_cells xs n h = omega (
  arith,
  length-append {0} xs (replicate (n - length xs) 0),
  length-replicate {A = ℕ} (n - length xs) 0,
)

pub get_or-set :
    (xs : List ℕ) (i j v : ℕ)
    → i < length xs
    → get_or (set xs i v) j 0 ≡ (if i == j then v else get_or xs j 0)
get_or-set [] i j v h = elim h [ ]
get_or-set (x ∷ xs) zero zero v h = ground arith
get_or-set (x ∷ xs) zero (suc j) v h = ground arith
get_or-set (x ∷ xs) (suc i) zero v h = ground arith
get_or-set (x ∷ xs) (suc i) (suc j) v h = ground (arith, get_or-set xs i j v)

pub get_or-beyond : (xs : List ℕ) (j : ℕ) → length xs ≤ j → get_or xs j 0 ≡ 0
get_or-beyond [] j h = refl
get_or-beyond (x ∷ xs) zero h = absurd (omega arith)
get_or-beyond (x ∷ xs) (suc j) h = get_or-beyond xs j (omega arith)

-- What the copied map holds: the cells at their indices, what it held before elsewhere.
pub find-copy_cells :
    (xs : List ℕ) (i j : ℕ) (m : SparseMap)
    → find j (copy_cells xs i m)
      ≡ (if leb i j && ltb j (i + length xs) then some (get_or xs (j - i) 0) else find j m)
unfolding copy_cells
find-copy_cells [] i j m = ground arith
find-copy_cells (x ∷ xs) i j m =
    ground (arith, find-copy_cells xs (i + 1) j (insert i x m), find-insert i j x m)

-- The copied cells read back, and zero beyond them.
pub find-copied : (xs : List ℕ) (j : ℕ) → or_zero (find j (copy_cells xs 0 [])) ≡ get_or xs j 0
unfolding find
find-copied xs j =
    let start : j - 0 ≡ j = omega arith in
    rw (find-copy_cells xs 0 j [], start) (ground (arith, get_or-beyond xs j))
