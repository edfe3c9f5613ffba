-- ===== src/Lowerer/Program.antt =====
-- `lower_stmt` and `lower_program` of src/lowerer.rs: the blocks of a program are closed, their
-- terminators go to blocks of the program, and no register is written twice.
use Prim.Native.String.{String}
use glm.Prelude.{ℕ, suc, refl, Bool, true, false, Option, none, some, List, [], ◌∷◌}
use glm.Syntax.{
  Expr, nil, Stmt, Stmts, no_stmts, stmt, local_decl, assignment, index_assign, while_loop,
  do_block, if_else, print,
}
use glm.Ir.{RegId, Instruction, def_reg}
use glm.Lowerer.Facts.{is_free, frees_at}
use glm.Lowerer.State.{
  Place, DoExitFree, Facts, Local, ◌>>=◌, get, read_var, push_scope, pop_scope, or_panic,
}
use glm.Lowerer.Names.{get_base_identifier}
use glm.Lowerer.Expr.{is_ctor}
use glm.Lowerer.Frees.{
  Chosen, free_carriers, free_carrier, emit_frees, free_at_exit, alias_roots, sort, dedup,
}
use glm.Lowerer.Assign.{
  lower_bindings, null_bindings, declare_all, lower_local, free_if, lower_assignment, take_fast,
  store, bound_of, reserve_if, reserve_row, lower_index_assign, lower_printed,
}
use glm.Lowerer.Stmt.{lower_stmt, lower_block}
use glm.Lowerer.Blocks.{target_of}
use glm.Lowerer.Steps.{gives}
use glm.Lowerer.Flow.{Spec}
use glm.Lowerer.Rules.{
  Step-same, Spec-pure, Spec-bind, Spec-before, Spec-next, Spec-emit, Spec-read_var,
  Spec-update_var, Spec-declare_var,
}
use glm.Lowerer.Exprs.{lookup_layout_for-Spec, emits, lower_expr-Spec}
use glm.Lowerer.Runs.{
  Steady, Steady-pure, Steady-bind, Steady-get, Steady-or_panic, Steady-emit, Steady-read_var,
  Spec-Steady,
}
use glm.Lowerer.Control.{lower_while-Spec, lower_if-Spec}

lower_bindings-Spec : (facts : Facts) (es : List Expr) → Spec none (lower_bindings facts es)
unfolding lower_bindings
lower_bindings-Spec facts [] = Spec-pure []
lower_bindings-Spec facts (e ∷ es) = Spec-next _ λ r.
    Spec-before (some r) _ _ (lower_expr-Spec facts e (some r)) λ v.
      Spec-bind none _ _ (lookup_layout_for-Spec facts e)
        λ layout. Spec-bind none _ _ (lower_bindings-Spec facts es) (λ bs. Spec-pure _)

null_bindings-Spec : (xs : List String) (bs : List Local) → Spec none (null_bindings xs bs)
unfolding null_bindings target_of def_reg
null_bindings-Spec (x ∷ xs) (b ∷ bs) =
    Spec-bind none _ _ (null_bindings-Spec xs bs) (λ rest. Spec-pure _)
null_bindings-Spec (x ∷ xs) [] = Spec-next _ λ r.
    Spec-before (some r) _ _ (emits r (Instruction.load_null r) refl)
      λ _. Spec-bind none _ _ (null_bindings-Spec xs []) (λ rest. Spec-pure _)
null_bindings-Spec [] bs = Spec-pure bs

declare_all-Spec : (xs : List String) (bs : List Local) → Spec none (declare_all xs bs)
unfolding declare_all
declare_all-Spec (x ∷ xs) (b ∷ bs) =
    Spec-bind none _ _ (Spec-declare_var x b) (λ _. declare_all-Spec xs bs)
declare_all-Spec [] bs = Spec-pure tt
declare_all-Spec (x ∷ xs) [] = Spec-pure tt

lower_local-Spec :
    (facts : Facts) (xs : List String) (es : List Expr) → Spec none (lower_local facts xs es)
unfolding lower_local
lower_local-Spec facts xs es =
    Spec-bind none _ _ (lower_bindings-Spec facts es)
      λ bs. Spec-bind none _ _ (null_bindings-Spec xs bs) (λ all. declare_all-Spec xs all)

free_if-Spec : (b : Bool) (r : RegId) → Spec none (free_if b r)
unfolding free_if target_of def_reg
free_if-Spec true r = Spec-emit (Instruction.table_free r)
free_if-Spec false r = Spec-pure tt

lower_assignment-Spec :
    (facts : Facts) (place : Place) (x : String) (e : Expr)
    → Spec none (lower_assignment facts place x e)
unfolding lower_assignment target_of def_reg
lower_assignment-Spec facts place x nil = Spec-bind none _ _ (Spec-read_var x) λ l.
    Spec-bind none _ _ (free_if-Spec (is_free facts place) l.reg) λ _. Spec-next _ λ r.
      Spec-before (some r) _ _ (emits r (Instruction.load_null r) refl) (λ _. Spec-update_var x _)
lower_assignment-Spec facts place x e = Spec-next _ λ r.
    Spec-before (some r) _ _ (lower_expr-Spec facts e (some r))
      λ v. Spec-bind none _ _ (lookup_layout_for-Spec facts e) (λ layout. Spec-update_var x _)

take_fast-Spec : (i t : RegId) (base : Option String) → Spec none (take_fast i t base)
unfolding take_fast
take_fast-Spec i t base s ready = gives (Step-same s _ ready refl refl refl)

store-Spec :
    (facts : Facts) (obj : Expr) (fast : Bool) (t i v : RegId)
    → Spec none (store facts obj fast t i v)
unfolding store target_of def_reg
store-Spec facts obj true t i v =
    Spec-bind none _ _ (lookup_layout_for-Spec facts obj)
      (λ layout. Spec-emit (Instruction.table_set_fast t i v layout))
store-Spec facts obj false t i v = Spec-emit (Instruction.table_set t i v)

reserve_if-Spec : (t : RegId) (b : Option RegId) → Steady (reserve_if t b)
unfolding reserve_if target_of def_reg
reserve_if-Spec t none = Steady-pure tt
reserve_if-Spec t (some b) = Steady-emit (Instruction.table_reserve t b) refl

reserve_row-Steady : (b : Bool) (base : Option String) (v : RegId) → Steady (reserve_row b base v)
unfolding reserve_row
reserve_row-Steady false base v = Steady-pure tt
reserve_row-Steady true base v = Steady-get _ (λ s. reserve_if-Spec v (bound_of base s.loop_ctxs))

lower_index_assign-Spec :
    (facts : Facts) (obj key value : Expr) → Spec none (lower_index_assign facts obj key value)
unfolding lower_index_assign
lower_index_assign-Spec facts obj key value =
    Spec-bind none _ _ (lower_expr-Spec facts obj none) λ t.
      Spec-bind none _ _ (lower_expr-Spec facts key none) λ i.
        Spec-bind none _ _ (take_fast-Spec i.0 t.0 (get_base_identifier obj)) λ fast.
          Spec-bind none _ _ (lower_expr-Spec facts value none) λ v.
            Spec-bind none _ _ (store-Spec facts obj fast t.0 i.0 v.0)
              λ _. Spec-Steady _ (reserve_row-Steady (is_ctor value) (get_base_identifier obj) v.0)

lower_printed-Spec : (facts : Facts) (es : List Expr) → Spec none (lower_printed facts es)
unfolding lower_printed
lower_printed-Spec facts [] = Spec-pure []
lower_printed-Spec facts (e ∷ es) =
    Spec-bind none _ _ (lower_expr-Spec facts e none)
      λ v. Spec-bind none _ _ (lower_printed-Spec facts es) (λ vs. Spec-pure _)

free_carriers-Steady :
    (own : ℕ → Option RegId) (fs : List DoExitFree) (c : Chosen) → Steady (free_carriers own fs c)
unfolding free_carriers
free_carriers-Steady own [] c = Steady-pure c
free_carriers-Steady own (f ∷ fs) c =
    elim (own f.site)
      as (λ o. Steady (elim o [
        | some _ ↦ free_carriers own fs c
        | none ↦ (do
          l ← read_var f.carrier
          s ← get
          roots ← or_panic (alias_roots s.blocks l.reg)
          free_carriers own fs (free_carrier l.reg roots c))
      ])) [
        | some _ ↦ free_carriers-Steady own fs c
        | none ↦ Steady-bind _ _ (Steady-read_var f.carrier) λ l. Steady-get _ λ s.
            Steady-bind _ _ (Steady-or_panic (alias_roots s.blocks l.reg))
              λ roots. free_carriers-Steady own fs (free_carrier l.reg roots c)
      ]

emit_frees-Steady : (rs : List RegId) → Steady (emit_frees rs)
unfolding emit_frees target_of def_reg
emit_frees-Steady [] = Steady-pure tt
emit_frees-Steady (r ∷ rs) =
    Steady-bind _ _ (emit_frees-Steady rs) (λ _. Steady-emit (Instruction.table_free r) refl)

free_at_exit-Steady : (fs : List DoExitFree) → Steady (free_at_exit fs)
unfolding free_at_exit
free_at_exit-Steady fs = Steady-get _ λ s.
    Steady-bind _ _ (free_carriers-Steady _ fs _)
      (λ c. emit_frees-Steady (dedup (sort c.free_regs)))

push_scope-Spec : Spec none push_scope
unfolding push_scope
push_scope-Spec s r = gives (Step-same s _ r refl refl refl)

pop_scope-Spec : Spec none pop_scope
unfolding pop_scope
pop_scope-Spec s r = gives (Step-same s _ r refl refl refl)

mutual
  unfolding lower_stmt target_of def_reg

  pub lower_stmt-Spec :
      (facts : Facts) (place : Place) (s : Stmt) → Spec none (lower_stmt facts place s)
  lower_stmt-Spec facts place (local_decl xs es) = lower_local-Spec facts xs es
  lower_stmt-Spec facts place (assignment x e) = lower_assignment-Spec facts place x e
  lower_stmt-Spec facts place (index_assign obj key value) =
      lower_index_assign-Spec facts obj key value
  lower_stmt-Spec facts place (while_loop e body) =
      lower_while-Spec facts e body _ (lower_block-Spec facts (0 ∷ place) 0 body)
  lower_stmt-Spec facts place (do_block body) = Spec-bind none _ _ push_scope-Spec λ _.
      Spec-bind none _ _ (lower_block-Spec facts (0 ∷ place) 0 body) λ _.
        Spec-bind none _ _
          (Spec-Steady _ (free_at_exit-Steady (frees_at place facts.do_exit_frees)))
          (λ _. pop_scope-Spec)
  lower_stmt-Spec facts place (if_else e then_body else_body) =
      lower_if-Spec facts e then_body else_body _ _ (lower_block-Spec facts (0 ∷ place) 0 then_body)
        (lower_block-Spec facts (1 ∷ place) 0 else_body)
  lower_stmt-Spec facts place (print es) =
      Spec-bind none _ _ (lower_printed-Spec facts es) (λ vs. Spec-emit (Instruction.print vs))

  pub lower_block-Spec :
      (facts : Facts) (place : Place) (k : ℕ) (ss : Stmts)
      → Spec none (lower_block facts place k ss)
  lower_block-Spec facts place k no_stmts = Spec-pure tt
  lower_block-Spec facts place k (stmt s ss) =
      Spec-bind none _ _ (lower_stmt-Spec facts (k ∷ place) s)
        (λ _. lower_block-Spec facts place (suc k) ss)
