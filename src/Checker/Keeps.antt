-- ===== src/Checker/Keeps.antt =====
-- What a step of the checker of src/type_checker.rs leaves of its state, however it ends.
use Prim.Native.String.{String}
use glm.Prelude.{
  ℕ, suc, zero, ◌≤◌, ◌<◌, ◌≡◌, refl, ap, sym, ◌∙◌, arith, Bool, true, false, none, some, List, [],
  ◌∷◌, ◌++◌, if◌then◌else◌, length, append_assoc, append-nil,
}
use glm.Syntax.{StaticType}
use glm.Checker.Unify.{resolve_var, Unified, unified, clash, unify}
use glm.Checker.State.{
  CheckError, Scope, Checker, Checked, ok, err, panicked, out_of_fuel, Check, proceed, pure, raise,
  ◌>>=◌, ◌>>◌, begin_scope, pop_scope, end_scope, declare_in, declare_var, lookup_var, resolved,
  resolve, var_type, assign_in, assign_var, record_unified, unify_types, next_bare, elem_at,
  elem_of, scope_get,
}

-- As many scopes, the same element types, and no diagnostic lost.
pub record Extends (c d : Checker) : Type 0 where
  pub depth : length d.scopes ≡ length c.scopes
  pub sites : d.elems ≡ c.elems
  pub news : List CheckError
  pub grown : d.diagnostics ≡ c.diagnostics ++ news

pub Extends-refl : (c : Checker) → Extends c c
Extends-refl c = record {
  depth = refl;
  sites = refl;
  news = [];
  grown = sym (append-nil c.diagnostics);
}

pub Extends-trans : (c d e : Checker) → Extends c d → Extends d e → Extends c e
Extends-trans c d e p q = record {
  depth = q.depth ∙ p.depth;
  sites = q.sites ∙ p.sites;
  news = p.news ++ q.news;
  grown = q.grown ∙ ap (λ x. x ++ q.news) p.grown ∙ append_assoc c.diagnostics p.news q.news;
}

-- The step gives a value, fails, or does not end; in the first two cases the state is extended. There is
-- no constructor for a panic.
pub data Keeps {A : Type 0} (c : Checker) : Checked A → Type 0 where
  gives : {a : A} {d : Checker} → Extends c d → Keeps c (ok a d)
  fails : {e : CheckError} {d : Checker} → Extends c d → Keeps c (err e d)
  runs_out : Keeps c out_of_fuel

-- At `n` sites, with a scope open.
pub record Ready (n : ℕ) (c : Checker) : Type 0 where
  pub open_scope : 1 ≤ length c.scopes
  pub numbered : length c.elems ≡ n

pub Ready-Extends : {n : ℕ} {c d : Checker} → Ready n c → Extends c d → Ready n d
Ready-Extends r x = record {
  open_scope = let e = x.depth in let o = r.open_scope in omega arith;
  numbered = ap length x.sites ∙ r.numbered;
}

-- A step that keeps every state that is ready.
abbrev pub Safe : {A : Type 0} → ℕ → Check A → Type 0
Safe n m = (c : Checker) → Ready n c → Keeps c (m c)

module _ {A B : Type 0} (n : ℕ) where
  pub Keeps-proceed :
      (c : Checker) (r : Checked A) (k : A → Check B)
      → Ready n c
      → Keeps c r
      → ((a : A) → Safe n (k a))
      → Keeps c (proceed r k)
  unfolding proceed
  Keeps-proceed c r k ready (gives {a} {d} x) h = extend (k a d) (h a d (Ready-Extends ready x))
    where
      extend : (q : Checked B) → Keeps d q → Keeps c q
      extend q (gives y) = gives (Extends-trans c d _ x y)
      extend q (fails y) = fails (Extends-trans c d _ x y)
      extend q runs_out = runs_out
  Keeps-proceed c r k ready (fails x) h = fails x
  Keeps-proceed c r k ready runs_out h = runs_out

  pub Safe-bind :
      (m : Check A) (k : A → Check B) → Safe n m → ((a : A) → Safe n (k a)) → Safe n (m >>= k)
  Safe-bind m k hm hk c ready = Keeps-proceed c (m c) k ready (hm c ready) hk

pub Safe-pure : {A : Type 0} (n : ℕ) (a : A) → Safe n (pure a)
Safe-pure n a c r = gives (Extends-refl c)

pub Safe-raise : {A : Type 0} (n : ℕ) (e : CheckError) → Safe n (raise {A = A} e)
Safe-raise n e c r = fails (Extends-refl c)

pub Safe-if :
    {A : Type 0} (n : ℕ) (b : Bool) (p q : Check A)
    → Safe n p
    → Safe n q
    → Safe n (if b then p else q)
Safe-if n true p q hp hq = hp
Safe-if n false p q hp hq = hq

-- A change of the state that leaves the diagnostics, the sites and the number of scopes alone.
pub keeps_all :
    (c d : Checker)
    → length d.scopes ≡ length c.scopes
    → d.elems ≡ c.elems
    → d.diagnostics ≡ c.diagnostics
    → Extends c d
keeps_all c d p q r = record {
  depth = p;
  sites = q;
  news = [];
  grown = r ∙ sym (append-nil c.diagnostics);
}

pub resolve-Safe : (n f : ℕ) (t : StaticType) → Safe n (resolve f t)
unfolding resolve resolved
resolve-Safe n f t c r = elim (resolve_var f c.substitutions t) as (λ x. Keeps c (resolved x c)) [
  | none ↦ runs_out
  | some u ↦ gives (Extends-refl c)
]

pub var_type-Safe : (n f : ℕ) (x : String) → Safe n (var_type f x)
unfolding var_type
var_type-Safe n f x c r =
    elim (lookup_var x c.scopes)
      as (λ v.
        Keeps c (elim v [ none ↦ err (CheckError.undeclared x) c | some t ↦ resolve f t c ])) [
          | none ↦ fails (Extends-refl c)
          | some t ↦ resolve-Safe n f t c r
        ]

pub unify_types-Safe : (n f : ℕ) (a b : StaticType) → Safe n (unify_types f a b)
unfolding unify_types record_unified
unify_types-Safe n f a b c r =
    elim (unify f c.substitutions a b) as (λ u. Keeps c (record_unified u c)) [
      | unified s ↦ gives (keeps_all c _ refl refl refl)
      | clash m k ↦ fails (Extends-refl c)
      | Unified.out_of_fuel ↦ runs_out
    ]

length-assign_in :
    (x : String) (t : StaticType) (ss : List Scope) → length (assign_in x t ss) ≡ length ss
unfolding assign_in
length-assign_in x t [] = refl
length-assign_in x t (s ∷ ss) =
    elim (scope_get x s)
      as (λ v.
        length (elim v [
          | none ↦ s ∷ assign_in x t ss
          | some _ ↦ glm.Checker.State.scope_replace x t s ∷ ss
        ])
        ≡ suc (length ss)) [ none ↦ ap suc (length-assign_in x t ss) | some u ↦ refl ]

pub assign_var-Safe : (n : ℕ) (x : String) (t : StaticType) → Safe n (assign_var x t)
unfolding assign_var
assign_var-Safe n x t c r = gives (keeps_all c _ (length-assign_in x t c.scopes) refl refl)

declare_in-Keeps :
    (x : String) (t : StaticType) (c : Checker) (ss : List Scope)
    → c.scopes ≡ ss
    → 1 ≤ length ss
    → Keeps c (declare_in x t c ss)
unfolding declare_in
declare_in-Keeps x t c [] e h = absurd (omega arith)
declare_in-Keeps x t c (s ∷ ss) e h =
    elim (scope_get x s)
      as (λ v. Keeps c (elim v [
        | none ↦ ok tt (record c { scopes = ((x, t) ∷ s) ∷ ss })
        | some _ ↦ err (CheckError.already_declared x) c
      ])) [
        | none ↦ gives (keeps_all c _ (sym (ap length e)) refl refl)
        | some u ↦ fails (Extends-refl c)
      ]

pub declare_var-Safe : (n : ℕ) (x : String) (t : StaticType) → Safe n (declare_var x t)
unfolding declare_var
declare_var-Safe n x t c r = declare_in-Keeps x t c c.scopes refl r.open_scope

pub next_bare-Safe : (n : ℕ) → Safe n next_bare
unfolding next_bare
next_bare-Safe n c r = gives (keeps_all c _ refl refl refl)

elem_at-some :
    (ts : List StaticType) (k : ℕ) → k < length ts → (t : StaticType) × (elem_at ts k ≡ some t)
unfolding elem_at
elem_at-some [] k h = absurd (omega arith)
elem_at-some (t ∷ ts) zero h = (t, refl)
elem_at-some (t ∷ ts) (suc k) h = elem_at-some ts k (omega arith)

pub elem_of-Safe : (n k : ℕ) → k < n → Safe n (elem_of k)
unfolding elem_of
elem_of-Safe n k h c r =
    let e = r.numbered in
    let (t, found) = elem_at-some c.elems k (omega arith) in
    rw (found, elem_of) (gives (Extends-refl c))

-- A step that does not fail either, as a block reports its errors.
pub data Runs (c : Checker) : Checked (Unit {0}) → Type 0 where
  done : {d : Checker} → Extends c d → Runs c (ok tt d)
  runs_out : Runs c out_of_fuel

pop_scope-Keeps :
    (c d : Checker) (ss : List Scope)
    → length ss ≡ suc (length c.scopes)
    → d.elems ≡ c.elems
    → (news : List CheckError) → d.diagnostics ≡ c.diagnostics ++ news
    → Keeps c (pop_scope d ss)
unfolding pop_scope
pop_scope-Keeps c d [] e s news g = absurd (omega arith)
pop_scope-Keeps c d (s ∷ ss) e same news g =
    gives (record { depth = omega arith; sites = same; news = news; grown = g })

-- A block between `begin_scope` and `end_scope` leaves the scopes that were open.
pub scope-Safe :
    (n : ℕ) (body : Check (Unit {0}))
    → ((c : Checker) → Ready n c → Runs c (body c))
    → Safe n (λ c. proceed (begin_scope c) (λ _. λ d. proceed (body d) (λ _. end_scope)))
unfolding proceed begin_scope end_scope
scope-Safe n body h c r =
    close (body inside) (h inside (record { open_scope = omega arith; numbered = r.numbered }))
  where
    inside : Checker
    inside = record c { scopes = [] ∷ c.scopes }

    close : (q : Checked (Unit {0})) → Runs inside q → Keeps c (proceed q (λ _. end_scope))
    close q (done {d} x) = pop_scope-Keeps c d d.scopes x.depth x.sites x.news x.grown
    close q runs_out = Keeps.runs_out
