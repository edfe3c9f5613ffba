-- ===== src/Checker/Tests.antt =====
-- Runs of src/type_checker.rs and src/analysis.rs at fixed inputs, and their theorems at inputs that meet
-- their hypotheses.
use glm.Prelude.{ℕ, ◌≡◌, refl, arith, true, none, some, [], ◌∷◌}
use glm.Syntax.{
  integer, float, table, unknown, Expr, no_entries, table_ctor, Stmts, no_stmts, stmt, local_decl,
  index_assign, do_block,
}
use glm.Checker.Unify.{binding, resolve_var, unified, unify}
use glm.Checker.Unify.Resolves.{basic, free, inside, is_basic}
use glm.Checker.Unify.Agree.{
  IsAcyclic, Unifies, Eventually, apart, occurs, unify-Unifies, resolve_var-resolved,
}
use glm.Checker.Unify.Cycle.{unify-cycle}
use glm.Checker.Check.{check_block, new_checker}
use glm.Checker.Keeps.{Runs}
use glm.Checker.Walk.{StmtsNumbered}
use glm.Checker.Blocks.{check_block-Runs}
use glm.Sites.{number_sites}
use glm.Sites.Order.{Consecutive, sites_stmts, number_sites-Consecutive}

nothing_bound : IsAcyclic []
unfolding is_basic binding
nothing_bound (table t) = let (u, r) = nothing_bound t in (table u, inside r)
nothing_bound (unknown i) = (unknown i, free i refl)
nothing_bound t = (t, basic t refl)

-- `?0` and `Table of ?1` against `Table of Float`
unify-Unifies_example :
    Eventually
      λ g. Unifies (table (unknown 0)) (table float) (unify g [] (table (unknown 0)) (table float))
unfolding apart occurs binding is_basic
unify-Unifies_example =
    unify-Unifies [] (table (unknown 0)) (table float) nothing_bound (inside (free 0 refl))
      (inside (basic float refl)) refl

resolve_var-resolved_example :
    ((i : ℕ) → occurs i (table integer) ≡ true → binding i ((3, integer) ∷ []) ≡ none)
    × ((g : ℕ) × (resolve_var g ((3, integer) ∷ []) (table integer) ≡ some (table integer)))
unfolding resolve_var binding
resolve_var-resolved_example =
    resolve_var-resolved 4 ((3, integer) ∷ []) (table (unknown 3)) (table integer) refl

unify-cycle_example :
    (unify 3 [] (unknown 7) (table (unknown 7)) ≡ unified ((7, table (unknown 7)) ∷ []))
    × (resolve_var 9 ((7, table (unknown 7)) ∷ []) (unknown 7) ≡ none)
unify-cycle_example = unify-cycle [] 7 2 9

-- `local t = {}  do t[0] = {} end`, before the numbering.
abbrev tables : Stmts
tables = stmt (local_decl ("t" ∷ []) (table_ctor 0 no_entries ∷ [])) (
    stmt
      (do_block (
        stmt (index_assign (Expr.identifier "t") (Expr.integer 0) (table_ctor 0 no_entries))
          no_stmts))
      no_stmts)

number_sites-Consecutive_example :
    Consecutive 0 (sites_stmts ((number_sites tables 0).0)) ((number_sites tables 0).1)
number_sites-Consecutive_example = number_sites-Consecutive tables 0

-- A block with one declaration without initializer, in the state of a new checker.
abbrev bare : Stmts
bare = stmt (local_decl ("x" ∷ []) []) no_stmts

check_block-Runs_example : Runs (new_checker [] []) (check_block 5 bare (new_checker [] []))
unfolding StmtsNumbered new_checker
check_block-Runs_example =
    check_block-Runs 0 5 bare ((omega arith, tt), tt) (new_checker [] [])
      (record { open_scope = omega arith; numbered = refl })
