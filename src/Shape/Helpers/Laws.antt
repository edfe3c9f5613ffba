-- ===== src/Shape/Helpers/Laws.antt =====
-- What `merge_table_scopes` of src/shape/helpers.rs does to one name of one scope.
use Prim.Native.String.{String}
use text.Mathlib.Text.{◌==◌ as str_eq}
use text.Mathlib.TextEquality.{eq_iff}
use glm.Prelude.{
  ◌∙◌, ℕ, zero, suc, ◌<◌, ◌≤◌, ◌≡◌, refl, ap, sym, arith, true, false, Option, none, some, List, [],
  ◌∷◌, length, if◌then◌else◌,
}
use glm.Shape.Core.{TableShape, join_shape}
use glm.Shape.Helpers.{ShapeScope, shape_of, join_found, merge_scope, merge_table_scopes}

-- The shape of a name in the scope at a depth.
unfoldable pub shape_at : ℕ → String → List ShapeScope → Option TableShape
shape_at n x [] = none
shape_at zero x (s ∷ ss) = shape_of x s
shape_at (suc n) x (s ∷ ss) = shape_at n x ss

-- The join of a shape with two that may be: what `join_shape` gives, first with the one and then with
-- the other.
unfoldable pub merged :
    Option TableShape → Option TableShape → Option TableShape → Option TableShape
merged none a b = none
merged (some v) none none = some v
merged (some v) (some x) none = some (join_shape v x).0
merged (some v) none (some y) = some (join_shape v y).0
merged (some v) (some x) (some y) = some (join_shape (join_shape v x).0 y).0

merged-join_found :
    (v : TableShape) (a b : Option TableShape)
    → some (join_found (join_found v a) b) ≡ merged (some v) a b
unfolding merged join_found
merged-join_found v none none = refl
merged-join_found v (some x) none = refl
merged-join_found v none (some y) = refl
merged-join_found v (some x) (some y) = refl

shape_of-merge_scope :
    (x : String) (s a b : ShapeScope)
    → shape_of x (merge_scope s a b) ≡ merged (shape_of x s) (shape_of x a) (shape_of x b)
unfolding shape_of merge_scope merged
shape_of-merge_scope x [] a b = refl
shape_of-merge_scope x ((y, v) ∷ s) a b =
    elim (str_eq x y)
        as (λ t.
          str_eq x y ≡ t
          → (if t
              then some (join_found (join_found v (shape_of y a)) (shape_of y b))
              else shape_of x (merge_scope s a b))
            ≡ merged (if t then some v else shape_of x s) (shape_of x a) (shape_of x b)) [
              | true ↦ λ e.
                  ap (λ z. some (join_found (join_found v (shape_of z a)) (shape_of z b)))
                    (sym ((eq_iff x y).0 e))
                  ∙ merged-join_found v (shape_of x a) (shape_of x b)
              | false ↦ λ _. shape_of-merge_scope x s a b
            ]
      refl

-- The merge keeps the scopes. A name of a scope that has a partner in both branches gets the join of its
-- shape with what the partners have of the name; every other scope is as it was.
pub merge_table_scopes-merged :
    (into a b : List ShapeScope)
    → (length (merge_table_scopes into a b) ≡ length into)
      × ((n : ℕ) (x : String)
          → (n < length a
              → n < length b
              → shape_at n x (merge_table_scopes into a b)
                ≡ merged (shape_at n x into) (shape_at n x a) (shape_at n x b))
            × (length a ≤ n → shape_at n x (merge_table_scopes into a b) ≡ shape_at n x into)
            × (length b ≤ n → shape_at n x (merge_table_scopes into a b) ≡ shape_at n x into))
unfolding merge_table_scopes shape_at merged
merge_table_scopes-merged [] a b = (refl, λ n x. (λ p q. refl, λ p. refl, λ p. refl))
merge_table_scopes-merged (s ∷ into) [] b =
    (refl, λ n x. (λ p q. absurd (omega arith), λ p. refl, λ p. refl))
merge_table_scopes-merged (s ∷ into) (a ∷ rest) [] =
    (refl, λ n x. (λ p q. absurd (omega arith), λ p. refl, λ p. refl))
merge_table_scopes-merged (s ∷ into) (a ∷ rest) (b ∷ bs) =
    let (len, each) = merge_table_scopes-merged into rest bs in (ap suc len, λ n x. at n x each)
  where
    at :
        (n : ℕ) (x : String)
        → ((n : ℕ) (x : String)
            → (n < length rest
                → n < length bs
                → shape_at n x (merge_table_scopes into rest bs)
                  ≡ merged (shape_at n x into) (shape_at n x rest) (shape_at n x bs))
              × (length rest ≤ n
                  → shape_at n x (merge_table_scopes into rest bs) ≡ shape_at n x into)
              × (length bs ≤ n
                  → shape_at n x (merge_table_scopes into rest bs) ≡ shape_at n x into))
        → (n < length (a ∷ rest)
            → n < length (b ∷ bs)
            → shape_at n x (merge_scope s a b ∷ merge_table_scopes into rest bs)
              ≡ merged (shape_at n x (s ∷ into)) (shape_at n x (a ∷ rest)) (shape_at n x (b ∷ bs)))
          × (length (a ∷ rest) ≤ n
              → shape_at n x (merge_scope s a b ∷ merge_table_scopes into rest bs)
                ≡ shape_at n x (s ∷ into))
          × (length (b ∷ bs) ≤ n
              → shape_at n x (merge_scope s a b ∷ merge_table_scopes into rest bs)
                ≡ shape_at n x (s ∷ into))
    at zero x each =
        (λ p q. shape_of-merge_scope x s a b, λ p. absurd (omega arith), λ p. absurd (omega arith))
    at (suc n) x each =
        let (inside, past_a, past_b) = each n x in
        (
          λ p q. inside (omega arith) (omega arith),
          λ p. past_a (omega arith),
          λ p. past_b (omega arith),
        )
