-- ===== src/Lowerer/Facts.antt =====
-- `ShapeFacts` of src/shape/facts.rs, as the lowerer reads it.
use Prim.Native.String.{String}
use text.Mathlib.Text.{◌==◌ as str_eq}
use glm.Prelude.{ℕ, Bool, true, false, ◌&&◌, ◌||◌, List, [], ◌∷◌, ◌==◌, if◌then◌else◌}
use glm.Syntax.{StaticType}
use glm.Shape.Core.{LayoutVerdict}
use glm.Checker.Unify.{Substitutions}

-- The address of a statement is its place in the program: the index in its block, which body of the
-- enclosing statement the block is, and the place of that one.
abbrev pub Place : Type 0
Place = List ℕ

unfoldable pub place_eq : Place → Place → Bool
place_eq [] [] = true
place_eq (i ∷ p) (j ∷ q) = i == j && place_eq p q
place_eq _ _ = false

pub record DoExitFree : Type 0 where
  pub site : ℕ
  pub carrier : String

-- The number of a table constructor is written in its node, so the map of the numbers is left out; the
-- diagnostics are the analyzer's.
pub record Facts : Type 0 where
  pub elems : List StaticType
  pub layouts : List LayoutVerdict
  pub free_sites : List Place
  pub do_exit_frees : List (Place × List DoExitFree)
  pub name_dense : List ((String × ℕ) × Bool)
  pub stored_ctor_parents : List ℕ
  pub substitutions : Substitutions

unfoldable pub place_in : Place → List Place → Bool
place_in p [] = false
place_in p (q ∷ qs) = place_eq q p || place_in p qs

unfoldable pub is_free : Facts → Place → Bool
is_free facts p = place_in p facts.free_sites

-- `do_exit_frees.get(..).cloned().unwrap_or_default()`
unfoldable pub frees_at : Place → List (Place × List DoExitFree) → List DoExitFree
frees_at p [] = []
frees_at p ((q, fs) ∷ rest) = if place_eq q p then fs else frees_at p rest

unfoldable pub dense_entry : String → ℕ → List ((String × ℕ) × Bool) → Bool
dense_entry x depth [] = false
dense_entry x depth (((y, d), b) ∷ rest) =
    if str_eq y x && d == depth then b else dense_entry x depth rest

unfoldable pub is_dense_at_depth : Facts → String → ℕ → Bool
is_dense_at_depth facts x depth = dense_entry x depth facts.name_dense

unfoldable pub is_stored_parent : ℕ → List ℕ → Bool
is_stored_parent site [] = false
is_stored_parent site (s ∷ sites) = s == site || is_stored_parent site sites
