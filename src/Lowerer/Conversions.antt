-- ===== src/Lowerer/Conversions.antt =====
-- The loops that src/lowerer.rs converts: what holds of their bound and of the tables that are reserved.
use Prim.Native.String.{String}
use text.Mathlib.Text.{◌==◌ as str_eq}
use text.Mathlib.TextEquality.{eq_iff}
use glm.Prelude.{
  ◌≡◌, refl, ap, subst, arith, true, false, ◌&&◌, Option, none, some, List, [], ◌∷◌, if◌then◌else◌,
  length, Bool-cases, inl, inr,
}
use glm.Syntax.{Expr, identifier, binary_op, less_than, Stmts}
use glm.Lowerer.Facts.{is_dense_at_depth}
use glm.Lowerer.State.{Facts, Scope, has_var}
use glm.Lowerer.Mutated.{Assigns, Mentions, find_mutated_vars-Assigns, free_idents-Mentions}
use glm.Lowerer.Names.{contains, find_mutated_vars, free_idents, Fills, collect_fill_stores}
use glm.Lowerer.Fills.{Stores, collect-Added}
use glm.Lowerer.Order.{dense_names, any_contained, fills_of, Conversion, conversion, is_empty}

contains-dense_names :
    (facts : Facts) (cs : List Scope) (x : String) (xs : List String)
    → contains x (dense_names facts cs xs) ≡ true
    → (contains x xs ≡ true)
      × (has_var x cs ≡ true)
      × (is_dense_at_depth facts x (length cs) ≡ true)
unfolding dense_names contains
contains-dense_names facts cs x [] h = cc
contains-dense_names facts cs x (y ∷ ys) h =
    elim (has_var y cs && is_dense_at_depth facts y (length cs))
        as (λ b.
          has_var y cs && is_dense_at_depth facts y (length cs) ≡ b
          → contains x (if b then y ∷ dense_names facts cs ys else dense_names facts cs ys) ≡ true
          → (contains x (y ∷ ys) ≡ true)
            × (has_var x cs ≡ true)
            × (is_dense_at_depth facts x (length cs) ≡ true)) [
              | true ↦ λ e k. elim (Bool-cases (str_eq y x)) [
                | inl same ↦
                    let is_x = (eq_iff y x).0 same in
                    let var = ap (λ z. has_var z cs) is_x in
                    let at = ap (λ z. is_dense_at_depth facts z (length cs)) is_x in
                    (ground arith, ground arith, ground arith)
                | inr other ↦
                    let (a, b, c) = contains-dense_names facts cs x ys (ground arith) in
                    (ground arith, b, c)
              ]
              | false ↦ λ _ k.
                  let (a, b, c) = contains-dense_names facts cs x ys k in (ground arith, b, c)
            ]
      refl h

any_contained-false :
    (x : String) (xs ys : List String)
    → any_contained xs ys ≡ false
    → contains x xs ≡ true
    → contains x ys ≡ false
unfolding any_contained contains
any_contained-false x [] ys h k = cc
any_contained-false x (z ∷ zs) ys h k = elim (Bool-cases (str_eq z x)) [
  | inl same ↦ let is_x = ap (λ w. contains w ys) ((eq_iff z x).0 same) in ground arith
  | inr other ↦ any_contained-false x zs ys (ground arith) (ground arith)
]

-- What the tests on a loop that is converted check, against a list of mutated names.
record Checked (facts : Facts) (cs : List Scope) (e : Expr) (mutated : List String) (body : Stmts)
    (c : Conversion) : Type 0 where
  condition : e ≡ binary_op less_than (Expr.identifier c.guard) c.bound
  stable : (x : String) → contains x (free_idents c.bound) ≡ true → contains x mutated ≡ false
  filled :
      (x : String)
      → contains x c.names ≡ true
      → Stores c.guard x body
        × (contains x mutated ≡ false)
        × (has_var x cs ≡ true)
        × (is_dense_at_depth facts x (length cs) ≡ true)

abbrev none_filled : Fills
none_filled = record { fills = []; nested_fills = [] }

abbrev converted : Facts → List Scope → String → Expr → Fills → Option Conversion
converted facts cs guard bound f =
    if is_empty (dense_names facts cs f.fills) && is_empty f.nested_fills
    then none
    else some (record {
      guard = guard;
      bound = bound;
      names = dense_names facts cs f.fills;
      nested = f.nested_fills;
    })

module _ (facts : Facts) (cs : List Scope) (guard : String) (bound : Expr) (mutated : List String)
    (body : Stmts) (c : Conversion)
    (clear : any_contained (free_idents bound) mutated ≡ false) where
  converted-Checked :
      converted facts cs guard bound (collect_fill_stores guard mutated body none_filled) ≡ some c
      → Checked facts cs (binary_op less_than (Expr.identifier guard) bound) mutated body c
  unfolding contains
  converted-Checked h =
      elim (is_empty (dense_names facts cs f.fills) && is_empty f.nested_fills)
          as (λ b.
            (if b then none else some made) ≡ some c
            → Checked facts cs (binary_op less_than (Expr.identifier guard) bound) mutated body c) [
              | true ↦ λ k. cc
              | false ↦ λ k.
                  subst
                    (Checked facts cs (binary_op less_than (Expr.identifier guard) bound) mutated
                      body)
                    (unsome k)
                    (record {
                      condition = refl;
                      stable = λ x k. any_contained-false x (free_idents bound) mutated clear k;
                      filled = λ x k.
                          let (a, var, at) = contains-dense_names facts cs x f.fills k in
                          elim (collect-Added guard mutated x body none_filled a) [
                            | inl old ↦ absurd (empty x old)
                            | inr (s, m) ↦ (s, m, var, at)
                          ];
                    })
            ]
        h
    where
      f : Fills
      f = collect_fill_stores guard mutated body none_filled

      made : Conversion
      made = record {
        guard = guard;
        bound = bound;
        names = dense_names facts cs f.fills;
        nested = f.nested_fills;
      }

      unsome : {a b : Conversion} → some a ≡ some b → a ≡ b
      unsome h = cc

      empty : (x : String) → contains x [] ≡ true → ⊥
      empty x h = cc

conversion-Checked :
    (facts : Facts) (cs : List Scope) (e : Expr) (mutated : List String) (body : Stmts)
    (c : Conversion)
    → conversion facts cs e mutated body ≡ some c
    → Checked facts cs e mutated body c
unfolding conversion fills_of dense_names
conversion-Checked facts cs (binary_op less_than (identifier guard) bound) mutated body c h =
    elim (any_contained (free_idents bound) mutated)
        as (λ b.
          any_contained (free_idents bound) mutated ≡ b
          → converted facts cs guard bound
              (if b then none_filled else collect_fill_stores guard mutated body none_filled)
            ≡ some c
          → Checked facts cs (binary_op less_than (Expr.identifier guard) bound) mutated body c) [
            | true ↦ λ _ k. cc
            | false ↦ λ clear k. converted-Checked facts cs guard bound mutated body c clear k
          ]
      refl h
conversion-Checked facts cs e mutated body c h = cc

-- What holds of a loop that is converted.
pub record Converts (facts : Facts) (cs : List Scope) (e : Expr) (body : Stmts) (c : Conversion)
    : Type 0 where
  pub condition : e ≡ binary_op less_than (Expr.identifier c.guard) c.bound
  pub stable : (x : String) → Mentions x c.bound → Assigns x body → ⊥
  pub filled :
      (x : String)
      → contains x c.names ≡ true
      → Stores c.guard x body
        × (Assigns x body → ⊥)
        × (has_var x cs ≡ true)
        × (is_dense_at_depth facts x (length cs) ≡ true)

-- A loop that is converted compares its guard with the bound, no variable that the bound mentions outside
-- of table constructors is assigned in the body, and each of the `names`, the tables that are reserved as
-- a whole, is in scope, dense, not assigned in the body, and stored to in the body at the guard.
pub conversion-Converts :
    (facts : Facts) (cs : List Scope) (e : Expr) (body : Stmts) (c : Conversion)
    → conversion facts cs e (find_mutated_vars body) body ≡ some c
    → Converts facts cs e body c
conversion-Converts facts cs e body c h =
    let k = conversion-Checked facts cs e (find_mutated_vars body) body c h in
    record {
      condition = k.condition;
      stable =
          λ x m. find_mutated_vars-Assigns x body (k.stable x (free_idents-Mentions x c.bound m));
      filled = λ x i.
          let (s, m, var, at) = k.filled x i in (s, find_mutated_vars-Assigns x body m, var, at);
    }
