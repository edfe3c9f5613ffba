-- ===== src/Shape/Ty/Laws.antt =====
-- The laws of `join_ty` of src/shape/ty.rs: a semilattice but for one kind of type.
use glm.Prelude.{Bool, true, false, ◌||◌, ◌≡◌, ◌≢◌, refl, ap, sym, ◌∙◌, arith, ℕ, suc, zero}
use glm.Shape.Ty.{Ty, pending, int, flt, bool, str, tbl, conflict, ty_eq, table_of, join_ty, scalar}

pub join_ty_comm : (a b : Ty) → join_ty a b ≡ join_ty b a
unfolding join_ty
join_ty_comm pending pending = refl
join_ty_comm (tbl a) (tbl b) = ap table_of (join_ty_comm a b)
join_ty_comm a b = ground arith

join_ty-table_of : (a b : Ty) → join_ty (table_of a) (tbl b) ≡ table_of (join_ty a b)
unfolding join_ty
join_ty-table_of conflict pending = refl
join_ty-table_of conflict b = ground arith
join_ty-table_of a b = refl

-- A join with a table on the left is a table or a conflict, which another scalar or conflict spoils.
table_of-join_ty :
    (t c : Ty) → scalar c || ty_eq c conflict ≡ true → join_ty (table_of t) c ≡ conflict
unfolding join_ty scalar ty_eq
table_of-join_ty t c h = ground arith

join_ty-table_of-scalar :
    (t a : Ty) → scalar a || ty_eq a conflict ≡ true → join_ty a (table_of t) ≡ conflict
join_ty-table_of-scalar t a h = join_ty_comm a (table_of t) ∙ table_of-join_ty t a h

pub join_ty_assoc : (a b c : Ty) → join_ty (join_ty a b) c ≡ join_ty a (join_ty b c)
unfolding join_ty scalar ty_eq
join_ty_assoc pending b c = refl
join_ty_assoc (tbl a) (tbl b) (tbl c) =
    join_ty-table_of (join_ty a b) c
    ∙ ap table_of (join_ty_assoc a b c)
    ∙ sym (
        join_ty_comm (tbl a) (table_of (join_ty b c))
        ∙ join_ty-table_of (join_ty b c) a
        ∙ ap table_of (join_ty_comm (join_ty b c) a))
join_ty_assoc (tbl a) (tbl b) pending = join_ty_comm (table_of (join_ty a b)) pending
join_ty_assoc (tbl a) (tbl b) c = table_of-join_ty (join_ty a b) c refl
join_ty_assoc int (tbl b) (tbl c) = sym (join_ty-table_of-scalar (join_ty b c) int refl)
join_ty_assoc flt (tbl b) (tbl c) = sym (join_ty-table_of-scalar (join_ty b c) flt refl)
join_ty_assoc bool (tbl b) (tbl c) = sym (join_ty-table_of-scalar (join_ty b c) bool refl)
join_ty_assoc str (tbl b) (tbl c) = sym (join_ty-table_of-scalar (join_ty b c) str refl)
join_ty_assoc conflict (tbl b) (tbl c) = sym (join_ty-table_of-scalar (join_ty b c) conflict refl)
join_ty_assoc a b c = ground arith

-- No table of `conflict` inside. `join_ty` itself never makes one.
unfoldable pub is_clean : Ty → Bool
is_clean (tbl conflict) = false
is_clean (tbl t) = is_clean t
is_clean _ = true

pub is_clean-table_of : (t : Ty) → is_clean t ≡ true → is_clean (table_of t) ≡ true
unfolding is_clean
is_clean-table_of t h = ground arith

pub is_clean-tbl : (t : Ty) → is_clean (tbl t) ≡ true → (is_clean t ≡ true) × (table_of t ≡ tbl t)
unfolding is_clean
is_clean-tbl conflict h = cc
is_clean-tbl t h = (ground arith, refl)

pub join_ty_idem : (t : Ty) → is_clean t ≡ true → join_ty t t ≡ t
unfolding join_ty is_clean
join_ty_idem (tbl t) h =
    let (clean, shut) = is_clean-tbl t h in ap table_of (join_ty_idem t clean) ∙ shut
join_ty_idem t h = ground arith

pub is_clean-join_ty :
    (a b : Ty) → is_clean a ≡ true → is_clean b ≡ true → is_clean (join_ty a b) ≡ true
unfolding join_ty is_clean
is_clean-join_ty (tbl a) (tbl b) ha hb =
    is_clean-table_of (join_ty a b)
      (is_clean-join_ty a b ((is_clean-tbl a ha).0) ((is_clean-tbl b hb).0))
is_clean-join_ty a b ha hb = ground arith

-- The order that the analyzer climbs.
unfoldable pub Below : Ty → Ty → Type 0
Below a b = join_ty a b ≡ b

-- On types with no table of `conflict` inside, `join_ty` makes the least upper bound in the order
-- `Below`, and the bound is such a type again.
pub join_ty-IsLub :
    (a b : Ty)
    → is_clean a ≡ true
    → is_clean b ≡ true
    → (is_clean (join_ty a b) ≡ true)
      × Below a (join_ty a b)
      × Below b (join_ty a b)
      × ((c : Ty) → Below a c → Below b c → Below (join_ty a b) c)
unfolding Below
join_ty-IsLub a b ha hb = (
  is_clean-join_ty a b ha hb,
  sym (join_ty_assoc a a b) ∙ ap (λ x. join_ty x b) (join_ty_idem a ha),
  join_ty_comm b (join_ty a b) ∙ join_ty_assoc a b b ∙ ap (join_ty a) (join_ty_idem b hb),
  λ c p q. join_ty_assoc a b c ∙ ap (join_ty a) q ∙ p,
)

-- The tables of tables of depth `n`.
unfoldable pub nest : ℕ → Ty
nest zero = pending
nest (suc n) = tbl (nest n)

nest-ne-conflict : (n : ℕ) → table_of (nest n) ≡ tbl (nest n)
unfolding nest
nest-ne-conflict zero = refl
nest-ne-conflict (suc n) = refl

nest-grows : (n : ℕ) → Below (nest n) (nest (suc n)) × (nest n ≢ nest (suc n))
unfolding nest Below join_ty
nest-grows zero = (refl, cc)
nest-grows (suc n) =
    let (below, differ) = nest-grows n in
    (ap table_of below ∙ nest-ne-conflict (suc n), λ e. differ (cc e))

nest-is_clean : (n : ℕ) → is_clean (nest n) ≡ true
unfolding nest is_clean
nest-is_clean zero = refl
nest-is_clean (suc zero) = refl
nest-is_clean (suc (suc n)) = nest-is_clean (suc n)

-- The order has no finite height: from `pending`, taking tables of the last type climbs for ever, each
-- join a type that differs from the one before.
pub join_ty-climbs :
    (n : ℕ)
    → (join_ty (nest n) (nest (suc n)) ≡ nest (suc n))
      × (nest n ≢ nest (suc n))
      × (is_clean (nest n) ≡ true)
unfolding Below
join_ty-climbs n = let (below, differ) = nest-grows n in (below, differ, nest-is_clean n)
