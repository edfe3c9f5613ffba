-- ===== src/Checker/State.antt =====
-- src/type_checker.rs: the state of the checker, its scopes, and how a step of it ends.
use Prim.Native.String.{String}
use text.Mathlib.Text.{◌==◌ as str_eq}
use glm.Prelude.{ℕ, suc, zero, ◌-◌, Option, none, some, List, [], ◌∷◌, if◌then◌else◌}
use glm.Syntax.{StaticType, table, unknown}
use glm.Checker.Unify.{Substitutions, binding, resolve_var, Unified, unified, clash, unify}

-- The messages, each with the words that it shows.
pub data CheckError : Type 0 where
  already_declared : String → CheckError
  undeclared : String → CheckError
  nil_release : String → String → CheckError
  empty_ctor : String → String → String → CheckError
  index_key : String → CheckError
  not_indexable : String → CheckError
  condition : String → String → CheckError
  print_table : CheckError
  nil_value : CheckError
  mixed_elements : String → String → CheckError
  logic_operands : String → CheckError
  mixed_numbers : String → CheckError
  numeric_operands : String → CheckError
  string_comparison : CheckError
  compares : String → String → String → CheckError
  neg_operand : CheckError
  not_operand : CheckError
  len_operand : String → CheckError
  type_conflict : String → String → CheckError

-- A scope has one binding for a name.
abbrev pub Scope : Type 0
Scope = List (String × StaticType)

-- `TypeChecker` with the fields of `ShapeFacts` that it uses. The head of `scopes` is the innermost.
pub record Checker : Type 0 where
  pub scopes : List Scope
  pub substitutions : Substitutions
  pub bare_next : ℕ
  pub elems : List StaticType
  pub shape_substitutions : Substitutions
  pub diagnostics : List CheckError

-- An error leaves the state as far as the step came. `panicked` is an index out of range or the last
-- scope popped, `out_of_fuel` a walk that does not end.
pub data Checked {ℓ} (A : Type ℓ) : Type ℓ where
  ok : A → Checker → Checked A
  err : CheckError → Checker → Checked A
  panicked : Checked A
  out_of_fuel : Checked A

abbrev pub Check {ℓ} : Type ℓ → Type ℓ
Check A = Checker → Checked A

abbrev pub pure {ℓ} : {A : Type ℓ} → A → Check A
pure a c = ok a c

abbrev pub raise {ℓ} : {A : Type ℓ} → CheckError → Check A
raise e c = err e c

unfoldable pub proceed {ℓ κ} : {A : Type ℓ} {B : Type κ} → Checked A → (A → Check B) → Checked B
proceed (ok a c) k = k a c
proceed (err e c) k = err e c
proceed panicked k = panicked
proceed out_of_fuel k = out_of_fuel

infixl 1 ◌>>=◌ ◌>>◌
abbrev pub ◌>>=◌ {ℓ κ} : {A : Type ℓ} {B : Type κ} → Check A → (A → Check B) → Check B
(m >>= k) c = proceed (m c) k

abbrev pub ◌>>◌ {ℓ κ} : {A : Type ℓ} {B : Type κ} → Check A → Check B → Check B
(m >> n) c = proceed (m c) (λ _. n)

unfoldable pub scope_get : String → Scope → Option StaticType
scope_get x [] = none
scope_get x ((y, t) ∷ s) = if str_eq x y then some t else scope_get x s

-- `insert` where the name has a binding, and nothing where it has none.
unfoldable pub scope_replace : String → StaticType → Scope → Scope
scope_replace x t [] = []
scope_replace x t ((y, u) ∷ s) = if str_eq x y then (y, t) ∷ s else (y, u) ∷ scope_replace x t s

unfoldable pub begin_scope : Check (Unit {0})
begin_scope c = ok tt (record c { scopes = [] ∷ c.scopes })

unfoldable pub pop_scope : Checker → List Scope → Checked (Unit {0})
pop_scope c [] = panicked
pop_scope c (s ∷ ss) = ok tt (record c { scopes = ss })

unfoldable pub end_scope : Check (Unit {0})
end_scope c = pop_scope c c.scopes

unfoldable pub declare_in : String → StaticType → Checker → List Scope → Checked (Unit {0})
declare_in x t c [] = panicked
declare_in x t c (s ∷ ss) = elim (scope_get x s) [
  | none ↦ ok tt (record c { scopes = ((x, t) ∷ s) ∷ ss })
  | some _ ↦ err (already_declared x) c
]

unfoldable pub declare_var : String → StaticType → Check (Unit {0})
declare_var x t c = declare_in x t c c.scopes

-- The innermost scope that has the name answers.
unfoldable pub lookup_var : String → List Scope → Option StaticType
lookup_var x [] = none
lookup_var x (s ∷ ss) = elim (scope_get x s) [ none ↦ lookup_var x ss | some t ↦ some t ]

unfoldable pub resolved : Option StaticType → Check StaticType
resolved none c = out_of_fuel
resolved (some t) c = ok t c

unfoldable pub resolve : ℕ → StaticType → Check StaticType
resolve f t c = resolved (resolve_var f c.substitutions t) c

unfoldable pub var_type : ℕ → String → Check StaticType
var_type f x c = elim (lookup_var x c.scopes) [
  | none ↦ err (undeclared x) c
  | some t ↦ resolve f t c
]

-- The first scope from the inside that has the name takes the type.
unfoldable pub assign_in : String → StaticType → List Scope → List Scope
assign_in x t [] = []
assign_in x t (s ∷ ss) = elim (scope_get x s) [
  | none ↦ s ∷ assign_in x t ss
  | some _ ↦ scope_replace x t s ∷ ss
]

unfoldable pub assign_var : String → StaticType → Check (Unit {0})
assign_var x t c = ok tt (record c { scopes = assign_in x t c.scopes })

unfoldable pub record_unified : Unified → Check (Unit {0})
record_unified (unified s) c = ok tt (record c { substitutions = s })
record_unified (clash a b) c = err (type_conflict a b) c
record_unified Unified.out_of_fuel c = out_of_fuel

unfoldable pub unify_types : ℕ → StaticType → StaticType → Check (Unit {0})
unify_types f a b c = record_unified (unify f c.substitutions a b) c

-- A bare local takes a variable of its own.
unfoldable pub next_bare : Check ℕ
next_bare c = ok c.bare_next (record c { bare_next = c.bare_next - 1 })

-- `ShapeFacts::resolve_elem_type`, which follows one binding only.
unfoldable pub resolve_elem_type : Substitutions → StaticType → StaticType
resolve_elem_type s (unknown i) = elim (binding i s) [ none ↦ unknown i | some t ↦ t ]
resolve_elem_type s (table t) = table (resolve_elem_type s t)
resolve_elem_type s t = t

unfoldable pub elem_at : List StaticType → ℕ → Option StaticType
elem_at [] n = none
elem_at (t ∷ ts) zero = some t
elem_at (t ∷ ts) (suc n) = elem_at ts n

-- `ShapeFacts::elem_of`, on the number of the constructor's site.
unfoldable pub elem_of : ℕ → Check StaticType
elem_of site c = elim (elem_at c.elems site) [
  | none ↦ panicked
  | some t ↦ ok (resolve_elem_type c.shape_substitutions t) c
]
