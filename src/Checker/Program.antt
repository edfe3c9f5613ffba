-- ===== src/Checker/Program.antt =====
-- src/type_checker.rs: `check_program`, from the state that the shape analysis leaves.
use Prim.Native.String.{String}
use glm.Prelude.{ℕ, suc, ◌≡◌, refl, ap, ◌∙◌, arith, List, [], ◌∷◌, ◌++◌, length}
use glm.Syntax.{StaticType, Stmts}
use glm.Checker.Unify.{Substitutions}
use glm.Checker.State.{Scope, Checker, Checked}
use glm.Checker.Check.{
  new_checker, check_program, resolve_scope, resolve_scopes, replace_all, reassign,
  resolve_all_scopes, flush,
}
use glm.Checker.Keeps.{
  Extends-trans, Keeps, gives, fails, runs_out, Safe, Safe-bind, Safe-pure, Keeps-proceed,
  resolve-Safe, Runs, done, keeps_all,
}
use glm.Checker.Walk.{StmtsNumbered}
use glm.Checker.Blocks.{check_block-Runs}

resolve_scope-Safe : (n f : ℕ) (s : Scope) → Safe n (resolve_scope f s)
unfolding resolve_scope
resolve_scope-Safe n f [] = Safe-pure n []
resolve_scope-Safe n f ((x, t) ∷ s) =
    Safe-bind n _ _ (resolve-Safe n f t)
      λ u. Safe-bind n _ _ (resolve_scope-Safe n f s) (λ r. Safe-pure n ((x, u) ∷ r))

resolve_scopes-Safe : (n f : ℕ) (ss : List Scope) → Safe n (resolve_scopes f ss)
unfolding resolve_scopes
resolve_scopes-Safe n f [] = Safe-pure n []
resolve_scopes-Safe n f (s ∷ ss) =
    Safe-bind n _ _ (resolve_scopes-Safe n f ss)
      λ outer. Safe-bind n _ _ (resolve_scope-Safe n f s) (λ own. Safe-pure n (outer ++ own))

length-replace_all :
    (x : String) (t : StaticType) (ss : List Scope) → length (replace_all x t ss) ≡ length ss
unfolding replace_all
length-replace_all x t [] = refl
length-replace_all x t (s ∷ ss) = ap suc (length-replace_all x t ss)

length-reassign : (r : Scope) (ss : List Scope) → length (reassign r ss) ≡ length ss
unfolding reassign
length-reassign [] ss = refl
length-reassign ((x, t) ∷ r) ss = length-reassign r (replace_all x t ss) ∙ length-replace_all x t ss

resolve_all_scopes-Safe : (n f : ℕ) → Safe n (resolve_all_scopes f)
unfolding resolve_all_scopes
resolve_all_scopes-Safe n f c r = from_flushed _ (
    Keeps-proceed n flushed _ _ (record { open_scope = r.open_scope; numbered = r.numbered })
      (resolve_scopes-Safe n f c.scopes flushed
        (record { open_scope = r.open_scope; numbered = r.numbered }))
      (λ types d _. gives (keeps_all d _ (length-reassign types d.scopes) refl refl)))
  where
    flushed : Checker
    flushed = record c { shape_substitutions = flush c.substitutions c.shape_substitutions }

    from_flushed : (q : Checked (Unit {0})) → Keeps flushed q → Keeps c q
    from_flushed q (gives x) =
        gives (Extends-trans c flushed _ (keeps_all c flushed refl refl refl) x)
    from_flushed q (fails x) =
        fails (Extends-trans c flushed _ (keeps_all c flushed refl refl refl) x)
    from_flushed q runs_out = runs_out

-- On a program whose sites all have an element type, and whose declarations have no more initializers
-- than names, `check_program` does not panic; unless a resolution does not end, its final state has one
-- scope, the one that was open at the start, and the element types of the sites that it was given.
pub check_program-Keeps :
    (f : ℕ) (elems : List StaticType) (shape : Substitutions) (ss : Stmts)
    → StmtsNumbered (length elems) ss
    → Keeps (new_checker elems shape) (check_program f ss (new_checker elems shape))
unfolding new_checker check_program
check_program-Keeps f elems shape ss h =
    Safe-bind (length elems) _ _ (λ c r. as_Keeps c _ (check_block-Runs (length elems) f ss h c r))
      (λ _. resolve_all_scopes-Safe (length elems) f) _
      (record { open_scope = omega arith; numbered = refl })
  where
    as_Keeps : (c : Checker) (q : Checked (Unit {0})) → Runs c q → Keeps c q
    as_Keeps c q (done x) = gives x
    as_Keeps c q Runs.runs_out = Keeps.runs_out
