-- ===== src/Checker/Unify/Resolves.antt =====
-- What `resolve_var` of src/type_checker.rs computes, as a relation without fuel.
use glm.Prelude.{subst, ℕ, zero, suc, ◌≤◌, ◌≡◌, refl, arith, Bool, true, false, Option, none, some}
use glm.Syntax.{StaticType, table, unknown}
use glm.Checker.Unify.{Substitutions, binding, resolve_var, table_all}

unfoldable pub is_basic : StaticType → Bool
is_basic (table _) = false
is_basic (unknown _) = false
is_basic _ = true

pub data Resolves (s : Substitutions) : StaticType → StaticType → Type 0 where
  basic : (t : StaticType) → is_basic t ≡ true → Resolves s t t
  free : (i : ℕ) → binding i s ≡ none → Resolves s (unknown i) (unknown i)
  bound :
      {t u : StaticType}
      → (i : ℕ) → binding i s ≡ some t
      → Resolves s t u
      → Resolves s (unknown i) u
  inside : {t u : StaticType} → Resolves s t u → Resolves s (table t) (table u)

some-injective : {a b : StaticType} → some a ≡ some b → a ≡ b
some-injective h = cc

pub resolve_var-sound :
    (f : ℕ) (s : Substitutions) (t u : StaticType) → resolve_var f s t ≡ some u → Resolves s t u
unfolding resolve_var is_basic
resolve_var-sound zero s t u h = cc
resolve_var-sound (suc f) s (unknown i) u h =
    bound-sound (binding i s) (resolve_var-sound f s) refl h
  where
    bound-sound :
        (r : Option StaticType)
        → ((t u : StaticType) → resolve_var f s t ≡ some u → Resolves s t u)
        → binding i s ≡ r
        → elim r [ none ↦ some (unknown i) | some t ↦ resolve_var f s t ] ≡ some u
        → Resolves s (unknown i) u
    bound-sound none ih e h = subst (Resolves s (unknown i)) (some-injective h) (free i e)
    bound-sound (some t) ih e h = bound i e (ih t u h)
resolve_var-sound (suc f) s (table t) u h =
    inside-sound (resolve_var f s t) (resolve_var-sound f s t) refl h
  where
    inside-sound :
        (r : Option StaticType)
        → ((v : StaticType) → resolve_var f s t ≡ some v → Resolves s t v)
        → resolve_var f s t ≡ r
        → table_all r ≡ some u
        → Resolves s (table t) u
    inside-sound none ih e h = cc
    inside-sound (some v) ih e h = subst (Resolves s (table t)) (some-injective h) (inside (ih v e))
resolve_var-sound (suc f) s t u h = subst (Resolves s t) (some-injective h) (basic t refl)

-- More fuel changes nothing.
pub resolve_var_more :
    (f g : ℕ) (s : Substitutions) (t u : StaticType)
    → f ≤ g
    → resolve_var f s t ≡ some u
    → resolve_var g s t ≡ some u
unfolding resolve_var
resolve_var_more zero g s t u le h = cc
resolve_var_more (suc f) zero s t u le h = absurd (omega arith)
resolve_var_more (suc f) (suc g) s (unknown i) u le h =
    bound_more (binding i s) (λ t. resolve_var_more f g s t u (omega arith)) h
  where
    bound_more :
        (r : Option StaticType)
        → ((t : StaticType) → resolve_var f s t ≡ some u → resolve_var g s t ≡ some u)
        → elim r [ none ↦ some (unknown i) | some t ↦ resolve_var f s t ] ≡ some u
        → elim r [ none ↦ some (unknown i) | some t ↦ resolve_var g s t ] ≡ some u
    bound_more none ih h = h
    bound_more (some t) ih h = ih t h
resolve_var_more (suc f) (suc g) s (table t) u le h =
    inside_more (resolve_var f s t) (λ v. resolve_var_more f g s t v (omega arith)) refl h
  where
    inside_more :
        (r : Option StaticType)
        → ((v : StaticType) → resolve_var f s t ≡ some v → resolve_var g s t ≡ some v)
        → resolve_var f s t ≡ r
        → table_all r ≡ some u
        → table_all (resolve_var g s t) ≡ some u
    inside_more none ih e h = cc
    inside_more (some v) ih e h = rw (ih v e) h
resolve_var_more (suc f) (suc g) s t u le h = h

-- Enough fuel gives the result.
pub resolve_var_complete :
    (s : Substitutions) (t u : StaticType) → Resolves s t u → (f : ℕ) × (resolve_var f s t ≡ some u)
unfolding resolve_var is_basic
resolve_var_complete s (table _) u (basic _ h) = cc
resolve_var_complete s (unknown _) u (basic _ h) = cc
resolve_var_complete s t u (basic _ h) = (1, refl)
resolve_var_complete s t u (free i e) = (1, rw (e, resolve_var) refl)
resolve_var_complete s t u (bound {t = v} i e r) =
    let (f, w) = resolve_var_complete s v u r in (suc f, rw (e, resolve_var) w)
resolve_var_complete s t u (inside {t = v} {u = w} r) =
    let (f, h) = resolve_var_complete s v w r in (suc f, rw (h, resolve_var) refl)
