-- ===== src/Shape/Core/Laws.antt =====
-- The laws of the joins of src/shape/core.rs.
use glm.Prelude.{
  Bool, Bool-cases, inl, inr, true, false, ◌||◌, not, ℕ, ltb, List, [], ◌∷◌, length, ◌≡◌, ◌≤◌, ◌↔◌,
  refl, arith, ap, sym, ◌∙◌,
}
use glm.Shape.Ty.{Ty, tbl, ty_eq}
use glm.Shape.Core.{
  LayoutVerdict, dense, bounds_fail, layout_eq, join_layout, TableShape, member, set_insert, extend,
  join_shape,
}

-- The join of layouts is a semilattice whose top is `bounds_fail` and whose bottom is `dense`.
pub join_layout-IsSemilattice :
    (a b c : LayoutVerdict)
    → (join_layout a b ≡ join_layout b a)
      × (join_layout (join_layout a b) c ≡ join_layout a (join_layout b c))
      × (join_layout a a ≡ a)
      × (join_layout dense a ≡ a)
      × (join_layout bounds_fail a ≡ bounds_fail)
unfolding join_layout
join_layout-IsSemilattice a b c =
    (ground arith, ground arith, ground arith, ground arith, ground arith)

ty_eq-to-≡ : (a b : Ty) → ty_eq a b ≡ true → a ≡ b
unfolding ty_eq
ty_eq-to-≡ (tbl a) (tbl b) h = ap tbl (ty_eq-to-≡ a b h)
ty_eq-to-≡ a b h = ground arith

ty_eq_refl : (a : Ty) → ty_eq a a ≡ true
unfolding ty_eq
ty_eq_refl (tbl a) = ty_eq_refl a
ty_eq_refl a = ground arith

layout_eq_iff : (a b : LayoutVerdict) → (layout_eq a b ≡ true) ↔ (a ≡ b)
unfolding layout_eq
layout_eq_iff a b = ground arith

length-set_insert : (k : ℕ) (s : List ℕ) → length s ≤ length (set_insert k s)
unfolding set_insert
length-set_insert k s = ground arith

length-extend : (s ks : List ℕ) → length s ≤ length (extend s ks)
unfolding extend
length-extend s [] = omega arith
length-extend s (k ∷ ks) =
    let a = length-set_insert k s in let b = length-extend (set_insert k s) ks in omega arith

-- A union that is no longer than the set is the set itself.
extend_same : (s ks : List ℕ) → ltb (length s) (length (extend s ks)) ≡ false → extend s ks ≡ s
unfolding extend set_insert
extend_same s [] h = refl
extend_same s (k ∷ ks) h = elim (Bool-cases (member k s)) [
  | inl in_s ↦ rw (in_s) (extend_same s ks (ground arith))
  | inr new ↦ let longer = length-extend (k ∷ s) ks in absurd (ground arith)
]

none_of_three : (p q r : Bool) → not p || not q || r ≡ false → (p ≡ true) × (q ≡ true) × (r ≡ false)
none_of_three p q r h = (ground arith, ground arith, ground arith)

not_longer : (s t : List ℕ) → t ≡ s → ltb (length s) (length t) ≡ false
not_longer s t e = ap (λ u. ltb (length s) (length u)) e ∙ ground arith

-- `join_shape` answers that nothing changed exactly when the joined shape is the shape it was.
pub join_shape-unchanged_iff :
    (a b : TableShape) → ((join_shape a b).1 ≡ false) ↔ ((join_shape a b).0 ≡ a)
unfolding join_shape
join_shape-unchanged_iff a b = (
  λ h.
      let (t, l, s) = none_of_three _ _ _ h in
      let same_ty = sym (ty_eq-to-≡ a.ty _ t) in
      let same_layout = sym ((layout_eq_iff a.layout _).0 l) in
      let same_aliases = extend_same a.aliases b.aliases s in
      λ i. record { ty = same_ty i; layout = same_layout i; aliases = same_aliases i },
  λ e.
      let t = ap (ty_eq a.ty) (ap (λ x. x.ty) e) ∙ ty_eq_refl a.ty in
      let l = (layout_eq_iff a.layout _).1 (sym (ap (λ x. x.layout) e)) in
      let s = not_longer a.aliases _ (ap (λ x. x.aliases) e) in rw (t, l, s) refl,
)
