-- ===== src/Checker/Unify/Cycle.antt =====
-- `unify` of src/type_checker.rs looks for no occurrence of the variable in the type that it binds.
use glm.Prelude.{ℕ, zero, suc, ◌≡◌, refl, arith, none, some}
use glm.Syntax.{StaticType, table, unknown}
use glm.Checker.Unify.{
  Substitutions, binding, bind_var, resolve_var, type_eq, unified, unify_step, unify,
}

resolve_var-cycle :
    (f : ℕ) (s : Substitutions) (i : ℕ)
    → binding i s ≡ some (table (unknown i))
    → (resolve_var f s (unknown i) ≡ none) × (resolve_var f s (table (unknown i)) ≡ none)
unfolding resolve_var
resolve_var-cycle zero s i e = (refl, refl)
resolve_var-cycle (suc f) s i e =
    let (var, tab) = resolve_var-cycle f s i e in (rw (e, resolve_var) tab, rw (var) refl)

binding-bind_var :
    (i : ℕ) (t : StaticType) (s : Substitutions) → binding i (bind_var i t s) ≡ some t
unfolding binding
binding-bind_var i t s = ground arith

-- A variable unifies with a table of that variable, and from then on it does not resolve with any fuel.
pub unify-cycle :
    (s : Substitutions) (i f g : ℕ)
    → let s' : Substitutions = bind_var i (table (unknown i)) s in
      (unify (suc f) s (unknown i) (table (unknown i)) ≡ unified s')
      × (resolve_var g s' (unknown i) ≡ none)
unfolding unify unify_step type_eq
unify-cycle s i f g = (
  refl,
  (resolve_var-cycle g (bind_var i (table (unknown i)) s) i
      (binding-bind_var i (table (unknown i)) s)).0,
)
