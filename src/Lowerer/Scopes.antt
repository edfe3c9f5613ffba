-- ===== src/Lowerer/Scopes.antt =====
-- The scopes of src/lowerer.rs: what a declaration and an update let a name be read as.
use Prim.Native.String.{String}
use text.Mathlib.Text.{◌==◌ as str_eq}
use text.Mathlib.TextEquality.{eq_iff}
use glm.Prelude.{
  suc, ◌≡◌, refl, ap, sym, ◌∙◌, true, false, Option, none, some, List, [], ◌∷◌, if◌then◌else◌,
  length, ◌⊎◌, inl, inr,
}
use glm.Lowerer.State.{
  Local, Scope, Lowerer, undeclared_variable, Lowered, ok, err, scope_get, scope_insert, update_in,
  put_scopes, update_var, find_var, read_var,
}

-- What is read of `y` after `x` has been written.
unfoldable pub Wrote : String → Local → (String → Option Local) → (String → Option Local) → Type 0
Wrote x l f g = (y : String) → ((x ≡ y) → g y ≡ some l) × ((str_eq y x ≡ false) → g y ≡ f y)

scope_get-scope_insert :
    (x : String) (l : Local) (s : Scope)
    → Wrote x l (λ y. scope_get y s) (λ y. scope_get y (scope_insert x l s))
unfolding Wrote scope_get scope_insert
scope_get-scope_insert x l [] y = (
  λ e. ap (λ b. if b then some l else none) (ap (λ z. str_eq z x) (sym e) ∙ (eq_iff x x).1 refl),
  λ n. ap (λ b. if b then some l else none) n,
)
scope_get-scope_insert x l ((k, m) ∷ s) y =
    elim (str_eq x k)
        as (λ b.
          str_eq x k ≡ b
          → ((x ≡ y) → scope_get y (if b then (k, l) ∷ s else (k, m) ∷ scope_insert x l s) ≡ some l)
            × ((str_eq y x ≡ false)
                → scope_get y (if b then (k, l) ∷ s else (k, m) ∷ scope_insert x l s)
                  ≡ (if str_eq y k then some m else scope_get y s))) [
                    | true ↦ λ h.
                        let same = (eq_iff x k).0 h in
                        (
                          λ e.
                              ap (λ b. if b then some l else scope_get y s)
                                (ap (λ z. str_eq z k) (sym e) ∙ h),
                          λ n.
                              let other = ap (str_eq y) (sym same) ∙ n in
                              ap (λ b. if b then some l else scope_get y s) other
                              ∙ sym (ap (λ b. if b then some m else scope_get y s) other),
                        )
                    | false ↦ λ h. (
                      λ e.
                          ap (λ b. if b then some m else scope_get y (scope_insert x l s))
                            (ap (λ z. str_eq z k) (sym e) ∙ h)
                          ∙ (scope_get-scope_insert x l s y).0 e,
                      λ n.
                          ap (λ o. if str_eq y k then some m else o)
                            ((scope_get-scope_insert x l s y).1 n),
                    )
                  ]
      refl

find_var-scope_insert :
    (x : String) (l : Local) (c : Scope) (cs : List Scope)
    → Wrote x l (λ y. find_var y (c ∷ cs)) (λ y. find_var y (scope_insert x l c ∷ cs))
unfolding Wrote find_var
find_var-scope_insert x l c cs y =
    let (there, other) = scope_get-scope_insert x l c y in
    (
      λ e. ap (λ o. elim o [ none ↦ find_var y cs | some l ↦ some l ]) (there e),
      λ n. ap (λ o. elim o [ none ↦ find_var y cs | some l ↦ some l ]) (other n),
    )

-- What an update of the innermost scope that has the name does to the stack.
data Update (x : String) (l : Local) (cs : List Scope) : Option (List Scope) → Type 0 where
  missing : find_var x cs ≡ none → Update x l cs none
  written :
      (ds : List Scope)
      → Wrote x l (λ y. find_var y cs) (λ y. find_var y ds)
      → length ds ≡ length cs
      → Update x l cs (some ds)

update_in-Update : (x : String) (l : Local) (cs : List Scope) → Update x l cs (update_in x l cs)
unfolding update_in find_var Wrote
update_in-Update x l [] = missing refl
update_in-Update x l (c ∷ cs) =
    elim (scope_get x c)
        as (λ o.
          scope_get x c ≡ o
          → Update x l (c ∷ cs) (elim o [
            | some _ ↦ some (scope_insert x l c ∷ cs)
            | none ↦ elim (update_in x l cs) [ none ↦ none | some ds ↦ some (c ∷ ds) ]
          ])) [
            | some m ↦ λ h. written _ (find_var-scope_insert x l c cs) refl
            | none ↦ λ h. outer h (update_in x l cs) (update_in-Update x l cs)
          ]
      refl
  where
    outer :
        scope_get x c ≡ none
        → (o : Option (List Scope)) → Update x l cs o
        → Update x l (c ∷ cs) (elim o [ none ↦ none | some ds ↦ some (c ∷ ds) ])
    outer h _ (missing n) =
        missing (ap (λ o. elim o [ none ↦ find_var x cs | some l ↦ some l ]) h ∙ n)
    outer h _ (written ds w len) =
        written (c ∷ ds)
          (λ y. (
            λ e.
                ap (λ o. elim o [ none ↦ find_var y ds | some l ↦ some l ])
                  (ap (λ z. scope_get z c) (sym e) ∙ h)
                ∙ (w y).0 e,
            λ n. ap (λ v. elim (scope_get y c) [ none ↦ v | some l ↦ some l ]) ((w y).1 n),
          ))
          (ap suc len)

-- The update of a variable: where the variable is not in scope the state is kept and the error returned.
-- Otherwise it ends, the variable reads back as what was written, every other name reads as before,
-- and no scope is opened or closed.
pub update_var-read_var :
    (x : String) (l : Local) (s : Lowerer)
    → ((find_var x s.scopes ≡ none) × (update_var x l s ≡ err undeclared_variable s))
      ⊎ ((d : Lowerer) × (update_var x l s ≡ ok tt d)
          × (read_var x d ≡ ok l d)
          × ((y : String) → str_eq y x ≡ false → find_var y d.scopes ≡ find_var y s.scopes)
          × (length d.scopes ≡ length s.scopes))
unfolding update_var put_scopes Wrote read_var
update_var-read_var x l s = result (update_in x l s.scopes) (update_in-Update x l s.scopes)
  where
    result :
        (o : Option (List Scope))
        → Update x l s.scopes o
        → ((find_var x s.scopes ≡ none) × (put_scopes s o ≡ err undeclared_variable s))
          ⊎ ((d : Lowerer) × (put_scopes s o ≡ ok tt d)
              × (read_var x d ≡ ok l d)
              × ((y : String) → str_eq y x ≡ false → find_var y d.scopes ≡ find_var y s.scopes)
              × (length d.scopes ≡ length s.scopes))
    result _ (missing n) = inl (n, refl)
    result _ (written ds w len) = inr (
      record s { scopes = ds },
      refl,
      ap
          (λ o. elim o as (λ _. Lowered Local) [
            | none ↦ err undeclared_variable (record s { scopes = ds })
            | some l ↦ ok l (record s { scopes = ds })
          ])
          ((w x).0 refl),
      λ y n. (w y).1 n,
      len,
    )
