-- ===== src/Checker/Unify/Agree.antt =====
-- `unify` of src/type_checker.rs on resolved types: it ends, and it makes the types agree.
use Prim.Native.String.{String}
use glm.Prelude.{
  ℕ, zero, suc, ◌+◌, ◌≤◌, ◌≡◌, refl, ap, sym, subst, arith, Bool, true, false, not, ◌==◌,
  Bool-cases, inl, inr, none, some,
}
use glm.Syntax.{StaticType, table, unknown}
use glm.Checker.Unify.{
  Substitutions, binding, bind_var, resolve_var, type_eq, Unified, unified, clash, unify_step,
  unify, types_compatible,
}
use glm.Checker.Unify.Resolves.{
  is_basic, resolve_var-sound, Resolves, basic, free, bound, inside, resolve_var_complete,
  resolve_var_more,
}

unfoldable pub occurs : ℕ → StaticType → Bool
occurs i (unknown j) = i == j
occurs i (table t) = occurs i t
occurs i _ = false

-- The variables of a resolved type are unbound.
pub result_unbound :
    {s : Substitutions} {t u : StaticType} (i : ℕ)
    → Resolves s t u
    → occurs i u ≡ true
    → binding i s ≡ none
unfolding occurs is_basic
result_unbound i (basic (table _) b) h = cc
result_unbound i (basic (unknown _) b) h = cc
result_unbound i (basic _ b) h = cc
result_unbound {s} i (free j e) h = subst (λ k. binding k s ≡ none) (sym (ground arith)) e
result_unbound i (bound j e r) h = result_unbound i r h
result_unbound i (inside r) h = result_unbound i r h

-- A resolved type resolves to itself.
pub Resolves-result : {s : Substitutions} {t u : StaticType} → Resolves s t u → Resolves s u u
Resolves-result (basic t b) = basic t b
Resolves-result (free i e) = free i e
Resolves-result (bound i e r) = Resolves-result r
Resolves-result (inside r) = inside (Resolves-result r)

inner : {s : Substitutions} {t u : StaticType} → Resolves s (table t) (table u) → Resolves s t u
unfolding is_basic
inner (inside r) = r
inner (basic _ b) = cc

unbound : {s : Substitutions} (i : ℕ) → Resolves s (unknown i) (unknown i) → binding i s ≡ none
unfolding occurs
unbound i r = result_unbound i r (ground arith)

-- The substitutions on which every type resolves: none of their bindings is in a cycle.
abbrev pub IsAcyclic : Substitutions → Type 0
IsAcyclic s = (t : StaticType) → (u : StaticType) × Resolves s t u

module _ (s : Substitutions) (i : ℕ) (v : StaticType) (fresh : binding i s ≡ none) where
  binding_other :
      {t : StaticType} (j : ℕ) → binding j s ≡ some t → binding j (bind_var i v s) ≡ some t
  unfolding binding
  binding_other j e = elim (Bool-cases (j == i)) [
    | inl same ↦ absurd (binding_clash j (ground arith) e)
    | inr other ↦ rw (other) e
  ]
    where
      binding_clash : {t : StaticType} (j : ℕ) → j ≡ i → binding j s ≡ some t → ⊥
      binding_clash j same e = cc (ap (λ k. binding k s) same)

  -- A new binding leaves alone what does not mention the variable.
  pub Resolves-bind :
      {t u : StaticType} → Resolves s t u → occurs i u ≡ false → Resolves (bind_var i v s) t u
  unfolding occurs binding
  Resolves-bind (basic t b) h = basic t b
  Resolves-bind (free j e) h = free j (ground arith)
  Resolves-bind (bound j e r) h = bound j (binding_other j e) (Resolves-bind r h)
  Resolves-bind (inside r) h = inside (Resolves-bind r h)

  pub bind_var-ends :
      {t u : StaticType}
      → Resolves s v v
      → occurs i v ≡ false
      → Resolves s t u
      → (w : StaticType) × Resolves (bind_var i v s) t w
  unfolding binding
  bind_var-ends rv h (basic t b) = (t, basic t b)
  bind_var-ends rv h (free j e) = elim (Bool-cases (j == i)) [
    | inl same ↦ (v, bound j (rw (same) refl) (Resolves-bind rv h))
    | inr other ↦ (unknown j, free j (rw (other) e))
  ]
  bind_var-ends rv h (bound j e r) =
      let (w, q) = bind_var-ends rv h r in (w, bound j (binding_other j e) q)
  bind_var-ends rv h (inside r) = let (w, q) = bind_var-ends rv h r in (table w, inside q)

-- Neither type mentions a variable that it is bound to.
unfoldable pub apart : StaticType → StaticType → Bool
apart (unknown i) (unknown j) = true
apart (unknown i) b = not (occurs i b)
apart a (unknown j) = not (occurs j a)
apart (table a) (table b) = apart a b
apart _ _ = true

-- `unify` makes the types agree, or it rejects types that are not compatible.
pub data Unifies (a b : StaticType) : Unified → Type 0 where
  agree :
      {s : Substitutions} {u : StaticType}
      → types_compatible a b ≡ true
      → IsAcyclic s
      → Resolves s a u
      → Resolves s b u
      → Unifies a b (unified s)
  differ : {m n : String} → types_compatible a b ≡ false → Unifies a b (clash m n)

type_eq-to-≡ : (a b : StaticType) → type_eq a b ≡ true → a ≡ b
unfolding type_eq
type_eq-to-≡ (table a) (table b) h = ap table (type_eq-to-≡ a b h)
type_eq-to-≡ (unknown i) (unknown j) h = ap unknown (ground arith)
type_eq-to-≡ a b h = ground arith

types_compatible-type_eq : (a b : StaticType) → type_eq a b ≡ true → types_compatible a b ≡ true
unfolding type_eq types_compatible
types_compatible-type_eq (table a) (table b) h = rw (h) refl
types_compatible-type_eq a b h = ground arith

bind_left :
    (s : Substitutions) (i : ℕ) (b : StaticType)
    → IsAcyclic s
    → binding i s ≡ none
    → Resolves s b b
    → occurs i b ≡ false
    → types_compatible (unknown i) b ≡ true
    → Unifies (unknown i) b (unified (bind_var i b s))
unfolding binding
bind_left s i b ends fresh rb h c =
    agree c (λ t. let (u, r) = ends t in bind_var-ends s i b fresh rb h r)
      (bound i (ground arith) (Resolves-bind s i b fresh rb h)) (Resolves-bind s i b fresh rb h)

Unifies-swap :
    (a b : StaticType) {s : Substitutions}
    → types_compatible b a ≡ true
    → Unifies a b (unified s)
    → Unifies b a (unified s)
Unifies-swap a b c (agree _ ends ra rb) = agree c ends rb ra

-- What holds of `unify` from some fuel on.
abbrev pub Eventually : (ℕ → Type 0) → Type 0
Eventually P = (f : ℕ) × ((g : ℕ) → f ≤ g → P (suc g))

-- Where the types differ, `unify` is the other arms of its match.
unify_split :
    (s : Substitutions) (a b : StaticType)
    → IsAcyclic s
    → Resolves s a a
    → (f : ℕ) → (type_eq a b ≡ false → (g : ℕ) → f ≤ g → Unifies a b (unify_step (unify g) g s a b))
    → Eventually (λ g. Unifies a b (unify g s a b))
unfolding unify
unify_split s a b ends ra f step = (
  f,
  λ g le. elim (Bool-cases (type_eq a b)) [
    | inl same ↦ rw (same) (
        agree (types_compatible-type_eq a b same) ends ra
          (subst (λ x. Resolves s x a) (type_eq-to-≡ a b same) ra))
    | inr other ↦ rw (other) (step other g le)
  ],
)

Unifies-table :
    (a b : StaticType) (r : Unified)
    → type_eq a b ≡ false
    → Unifies a b r
    → Unifies (table a) (table b) r
unfolding types_compatible
Unifies-table a b r other (agree c ends ra rb) =
    agree (rw (other, c) refl) ends (inside ra) (inside rb)
Unifies-table a b r other (differ c) = differ (rw (other, c) refl)

table_step :
    (s : Substitutions) (a b : StaticType) (f fa fb g : ℕ)
    → resolve_var fa s a ≡ some a
    → resolve_var fb s b ≡ some b
    → type_eq a b ≡ false
    → ((g : ℕ) → f ≤ g → Unifies a b (unify (suc g) s a b))
    → suc f + fa + fb ≤ g
    → Unifies (table a) (table b) (unify_step (unify g) g s (table a) (table b))
unfolding unify_step
table_step s a b f fa fb zero ea eb other run le = absurd (omega arith)
table_step s a b f fa fb (suc g) ea eb other run le =
    rw
      (
        resolve_var_more fa (suc g) s a a (omega arith) ea,
        resolve_var_more fb (suc g) s b b (omega arith) eb,
      )
      (Unifies-table a b _ other (run g (omega arith)))

-- `s` has no cycle, both types are resolved, and neither mentions a variable that it is bound to: then
-- from some fuel on `unify` makes the types agree or rejects types that are not compatible.
pub unify-Unifies :
    (s : Substitutions) (a b : StaticType)
    → IsAcyclic s
    → Resolves s a a
    → Resolves s b b
    → apart a b ≡ true
    → Eventually (λ g. Unifies a b (unify g s a b))
unfolding unify_step type_eq types_compatible apart occurs
unify-Unifies s (table a) (table b) ends ra rb h =
    let (f, run) = unify-Unifies s a b ends (inner ra) (inner rb) h in
    let (fa, ea) = resolve_var_complete s a a (inner ra) in
    let (fb, eb) = resolve_var_complete s b b (inner rb) in
    unify_split s (table a) (table b) ends ra (suc f + fa + fb)
      λ other g le. table_step s a b f fa fb g ea eb other run le
unify-Unifies s (unknown i) (unknown j) ends ra rb h =
    unify_split s (unknown i) (unknown j) ends ra 0 λ other g le.
      Unifies-swap (unknown j) (unknown i) refl
        (bind_left s j (unknown i) ends (unbound j rb) ra (ground arith) refl)
unify-Unifies s (unknown i) b ends ra rb h =
    unify_split s (unknown i) b ends ra 0
      λ other g le. bind_left s i b ends (unbound i ra) rb (ground arith) refl
unify-Unifies s a (unknown j) ends ra rb h = unify_split s a (unknown j) ends ra 0 λ other g le.
    Unifies-swap (unknown j) a refl (bind_left s j a ends (unbound j rb) ra (ground arith) refl)
unify-Unifies s a b ends ra rb h = unify_split s a b ends ra 0 λ other g le. differ other

-- What `resolve_var` gives has no bound variable in it, and with enough fuel it resolves to itself.
pub resolve_var-resolved :
    (f : ℕ) (s : Substitutions) (t u : StaticType)
    → resolve_var f s t ≡ some u
    → ((i : ℕ) → occurs i u ≡ true → binding i s ≡ none) × ((g : ℕ) × (resolve_var g s u ≡ some u))
resolve_var-resolved f s t u h =
    let r = resolve_var-sound f s t u h in
    ((λ i. result_unbound i r), resolve_var_complete s u u (Resolves-result r))
