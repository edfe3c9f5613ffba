-- ===== src/Lowerer/Sorting.antt =====
-- The order of the registers that src/lowerer.rs frees: each once, and increasing.
use glm.Prelude.{
  ◌≤◌, ◌<◌, ◌≡◌, refl, arith, true, false, ◌||◌, List, [], ◌∷◌, ◌==◌, leb, if◌then◌else◌,
}
use glm.Ir.{RegId}
use glm.Lowerer.Frees.{member, insert_sorted, sort, dedup_after, dedup}

-- The registers in strictly increasing order, from above the first.
unfoldable pub Above : RegId → List RegId → Type 0
Above p [] = Unit
Above p (r ∷ rs) = (p < r) × Above r rs

unfoldable pub Increasing : List RegId → Type 0
Increasing [] = Unit
Increasing (r ∷ rs) = Above r rs

unfoldable pub Sorted : RegId → List RegId → Type 0
Sorted p [] = Unit
Sorted p (r ∷ rs) = (p ≤ r) × Sorted r rs

insert-Sorted :
    (p r : RegId) (qs : List RegId) → p ≤ r → Sorted p qs → Sorted p (insert_sorted r qs)
unfolding insert_sorted Sorted
insert-Sorted p r [] le s = (le, tt)
insert-Sorted p r (q ∷ qs) le s =
    elim (leb r q)
        as (λ b. leb r q ≡ b → Sorted p (if b then r ∷ q ∷ qs else q ∷ insert_sorted r qs)) [
          | true ↦ λ h. (le, (ground arith, s.1))
          | false ↦ λ h. (s.0, insert-Sorted q r qs (ground arith) s.1)
        ]
      refl

pub sort-Sorted : (rs : List RegId) → Sorted 0 (sort rs)
unfolding sort Sorted
sort-Sorted [] = tt
sort-Sorted (r ∷ rs) = insert-Sorted 0 r (sort rs) (omega arith) (sort-Sorted rs)

Sorted-mono : (p q : RegId) (rs : List RegId) → p ≤ q → Sorted q rs → Sorted p rs
unfolding Sorted
Sorted-mono p q [] le s = tt
Sorted-mono p q (r ∷ rs) le s = let a = s.0 in (omega arith, s.1)

dedup_after-Above : (p : RegId) (rs : List RegId) → Sorted p rs → Above p (dedup_after p rs)
unfolding dedup_after Sorted Above
dedup_after-Above p [] s = tt
dedup_after-Above p (r ∷ rs) s =
    elim (r == p)
        as (λ b. r == p ≡ b → Above p (if b then dedup_after p rs else r ∷ dedup_after r rs)) [
          | true ↦ λ h. let le = s.0 in dedup_after-Above p rs (Sorted-mono p r rs le s.1)
          | false ↦ λ h. let le = s.0 in (ground arith, dedup_after-Above r rs s.1)
        ]
      refl

pub dedup-Increasing : (rs : List RegId) → Sorted 0 rs → Increasing (dedup rs)
unfolding dedup Sorted Increasing
dedup-Increasing [] s = tt
dedup-Increasing (r ∷ rs) s = dedup_after-Above r rs s.1

member-insert_sorted :
    (q r : RegId) (qs : List RegId) → member q (insert_sorted r qs) ≡ r == q || member q qs
unfolding insert_sorted
member-insert_sorted q r [] = refl
member-insert_sorted q r (p ∷ qs) =
    let ih = member-insert_sorted q r qs in
    elim (leb r p)
      as (λ b.
        member q (if b then r ∷ p ∷ qs else p ∷ insert_sorted r qs) ≡ r == q || member q (p ∷ qs)) [
          | true ↦ refl
          | false ↦ ground arith
        ]

pub member-sort : (q : RegId) (rs : List RegId) → member q (sort rs) ≡ member q rs
unfolding sort
member-sort q [] = refl
member-sort q (r ∷ rs) =
    let ih = member-sort q rs in let i = member-insert_sorted q r (sort rs) in ground arith

member-dedup_after :
    (q p : RegId) (rs : List RegId) → p == q || member q (dedup_after p rs) ≡ p == q || member q rs
unfolding dedup_after
member-dedup_after q p [] = refl
member-dedup_after q p (r ∷ rs) =
    let ih = member-dedup_after q p rs in
    let jh = member-dedup_after q r rs in
    elim (r == p)
        as (λ b.
          r == p ≡ b
          → p == q || member q (if b then dedup_after p rs else r ∷ dedup_after r rs)
            ≡ p == q || member q (r ∷ rs)) [ true ↦ λ h. ground arith | false ↦ λ h. ground arith ]
      refl

pub member-dedup : (q : RegId) (rs : List RegId) → member q (dedup rs) ≡ member q rs
unfolding dedup
member-dedup q [] = refl
member-dedup q (r ∷ rs) = member-dedup_after q r rs
