-- ===== src/Checker/Unify.antt =====
-- src/type_checker.rs: `resolve_var`, `unify`, `types_compatible` and the names of types.
use Prim.Native.String.{String, ◌++◌ as str_append}
use glm.Prelude.{
  ℕ, zero, suc, Bool, true, false, not, ◌||◌, ◌&&◌, Option, none, some, List, [], ◌∷◌, ◌==◌,
  if◌then◌else◌,
}
use glm.Syntax.{StaticType, integer, float, boolean, string, table, unknown}
pub mod Resolves
pub mod Agree
pub mod Cycle

-- `substitutions`; the head is the binding that was inserted last, and it shadows an older one.
abbrev pub Substitutions : Type 0
Substitutions = List (ℕ × StaticType)

unfoldable pub binding : ℕ → Substitutions → Option StaticType
binding i [] = none
binding i ((j, t) ∷ s) = if i == j then some t else binding i s

abbrev pub bind_var : ℕ → StaticType → Substitutions → Substitutions
bind_var i t s = (i, t) ∷ s

-- The derived `PartialEq`.
unfoldable pub type_eq : StaticType → StaticType → Bool
type_eq integer integer = true
type_eq float float = true
type_eq boolean boolean = true
type_eq string string = true
type_eq (table a) (table b) = type_eq a b
type_eq (unknown i) (unknown j) = i == j
type_eq _ _ = false

abbrev pub table_all : Option StaticType → Option StaticType
table_all none = none
table_all (some t) = some (table t)

-- On fuel for the bindings followed and the tables entered: a cycle of bindings has no end.
unfoldable pub resolve_var : ℕ → Substitutions → StaticType → Option StaticType
resolve_var zero s t = none
resolve_var (suc f) s (unknown i) = elim (binding i s) [
  | none ↦ some (unknown i)
  | some t ↦ resolve_var f s t
]
resolve_var (suc f) s (table t) = table_all (resolve_var f s t)
resolve_var (suc f) s t = some t

unfoldable pub type_name : StaticType → String
type_name integer = "Integer"
type_name float = "Float"
type_name boolean = "Boolean"
type_name string = "String"
type_name (table integer) = "IntTable"
type_name (table float) = "FloatTable"
type_name (table boolean) = "BoolTable"
type_name (table string) = "StringTable"
type_name (table (unknown _)) = "Table<?>"
type_name (table t) = str_append "Table of " (type_name t)
type_name (unknown _) = "?"

-- What `unify` answers: the new substitutions, or the names of the types that clash.
pub data Unified : Type 0 where
  unified : Substitutions → Unified
  clash : String → String → Unified
  out_of_fuel : Unified

-- The element types of two tables are resolved first.
abbrev pub unify_inner :
    (Substitutions → StaticType → StaticType → Unified)
    → Substitutions
    → Option StaticType
    → Option StaticType
    → Unified
unify_inner rec s (some a) (some b) = rec s a b
unify_inner rec s _ _ = out_of_fuel

-- The arms of the match after the first.
unfoldable pub unify_step :
    (Substitutions → StaticType → StaticType → Unified)
    → ℕ
    → Substitutions
    → StaticType
    → StaticType
    → Unified
unify_step rec f s (unknown i) (unknown j) = unified (bind_var j (unknown i) s)
unify_step rec f s (unknown i) b = unified (bind_var i b s)
unify_step rec f s a (unknown j) = unified (bind_var j a s)
unify_step rec f s (table a) (table b) = unify_inner rec s (resolve_var f s a) (resolve_var f s b)
unify_step rec f s a b = clash (type_name a) (type_name b)

unfoldable pub unify : ℕ → Substitutions → StaticType → StaticType → Unified
unify zero s a b = out_of_fuel
unify (suc f) s a b = if type_eq a b then unified s else unify_step (unify f) f s a b

unfoldable pub types_compatible : StaticType → StaticType → Bool
types_compatible (table a) (table b) = type_eq a b || types_compatible a b
types_compatible (unknown _) _ = true
types_compatible _ (unknown _) = true
types_compatible a b = type_eq a b
