-- ===== src/Lowerer/Tests.antt =====
-- Runs of src/lowerer.rs at fixed programs, and its theorems at inputs that meet their hypotheses.
use Prim.Native.String.{String}
use text.Mathlib.Text.{◌==◌ as str_eq}
use glm.Prelude.{
  ℕ, ◌≤◌, ap, ◌⊎◌, ◌==◌, subst, if◌then◌else◌, ◌≡◌, refl, arith, true, false, Option, none, some,
  List, [], ◌∷◌, length,
}
use glm.Syntax.{
  BinOp, Expr, StaticType, Stmts, assignment, binary_op, entry, if_else, index_assign, len,
  less_than, local_decl, no_entries, no_stmts, print, stmt, table_ctor, unary_op, while_loop,
}
use glm.Shape.Core.{dense}
use glm.Checker.Unify.{type_eq}
use glm.Checker.State.{elem_at, resolve_elem_type}
use glm.Ir.{RegId, Instruction, BasicBlock, new_basic_block, def_reg}
use glm.Lowerer.State.{Scope, Facts, Local, Lowerer, DoExitFree, undeclared_variable, ok, err}
use glm.Lowerer.Stmt.{Lowering}
use glm.Lowerer.State.{
  and_then, new_block, next_reg, target_or_next, change_block, put_blocks, push_instr, emit,
  set_terminator, terminate, scope_get, scope_insert, declare_in, declare_var, update_in,
  put_scopes, update_var, find_var, read_var, has_var, push_scope, pop_scope, or_panic, elem_of,
}
use glm.Lowerer.Names.{
  str_lt, name_insert, names_extend, contains, find_mutated_vars, as_ident, get_base_identifier,
  idents_from, free_idents, note_fill, note_store, stmt_mutates, mutated_from, stmt_fills,
  collect_fill_stores,
}
use glm.Lowerer.Expr.{
  layout_at, lookup_layout_for, deeper, shallower, is_ctor, has_inline_tables, is_table, mode_bit,
  flags_of, record_birth, store_entries, make_table, lower_index, lower_identifier, logic_arms,
  lower_logic, arithmetic, is_comparison, is_float, result_type, lower_unary, lower_binary,
  lower_expr, lower_entries,
}
use glm.Lowerer.Frees.{
  is_reg, find_def, all_instrs, def_of, set_insert, push_args, sources, alias_loop, weight,
  total_weight, alias_roots, birth, dominating, free_birth, free_births, any_member, extend,
  free_carrier, free_carriers, insert_sorted, sort, dedup_after, dedup, emit_frees, free_at_exit,
}
use glm.Lowerer.Assign.{
  lower_bindings, null_bindings, declare_all, lower_local, free_if, lower_assignment, fills_name,
  authorize, take_fast, store, nested_bound, bound_of, reserve_if, reserve_row, lower_index_assign,
  lower_printed,
}
use glm.Lowerer.Order.{
  join_phi_ty, before, insert_by_reg, sort_by_reg, read_present, phi_order, dense_names,
  any_contained, fills_of, conversion,
}
use glm.Lowerer.Loop.{
  put_all_scopes, reserve_names, reserve_ahead, open_phis, loop_condition, read_regs, reserve_spine,
  reserve_spines, reserve_nested, push_ctx, pop_ctx, open_ctx, lower_arm, back_phi, patch,
  patch_block, patch_phi, close_phis, rebind_phis, lower_loop, lower_while,
}
use glm.Lowerer.Stmt.{
  read_order, join_phis, lower_if, new_lowerer, halt_open, finish, lower_rest, lower_program,
  lower_stmt, lower_block,
}
use glm.Lowerer.Blocks.{writes}
use glm.Lowerer.Alias.{is_root}
use glm.Lowerer.Roots.{Roots, alias_roots-Roots}
use glm.Lowerer.Facts.{is_dense_at_depth, dense_entry}
use glm.Lowerer.Exit.{instrs_at, Gives}
use glm.Lowerer.DoExit.{Frees, BirthsAreRoots, Declared, free_at_exit-Frees}
use glm.Lowerer.Whole.{Closed, lower_program-Closed}
use glm.Lowerer.Scopes.{update_var-read_var}
use glm.Lowerer.Steps.{Post}
use glm.Lowerer.Target.{lower_expr-target}
use glm.Lowerer.Conversions.{Converts, conversion-Converts}
use glm.Lowerer.Unwritten.{sys_alloc_count-unwritten}

abbrev no_facts : Facts
no_facts = record {
  elems = [];
  layouts = [];
  substitutions = [];
  free_sites = [];
  do_exit_frees = [];
  name_dense = [];
  stored_ctor_parents = [];
}

abbrev lowering_of : Option Lowering → Lowering
lowering_of none = record { blocks = []; registers = 0; diagnostics = [] }
lowering_of (some p) = p

-- `local i = 0  while i < 2 do i = i + 1 end  if i == 2 then print(i) else i = 7 end`
abbrev counting : Stmts
counting = stmt (local_decl ("i" ∷ []) (Expr.integer 0 ∷ [])) (
    stmt
      (while_loop (binary_op less_than (Expr.identifier "i") (Expr.integer 2)) (
        stmt (assignment "i" (binary_op BinOp.add (Expr.identifier "i") (Expr.integer 1)))
          no_stmts))
      (stmt
        (if_else (binary_op BinOp.equal (Expr.identifier "i") (Expr.integer 2))
          (stmt (print (Expr.identifier "i" ∷ [])) no_stmts)
          (stmt (assignment "i" (Expr.integer 7)) no_stmts))
        no_stmts))

abbrev counting_lowered : Lowering
counting_lowered = lowering_of (lower_program no_facts counting)

lower_program-Closed_example : Closed counting_lowered.blocks
unfolding and_then new_block next_reg target_or_next change_block put_blocks push_instr emit
    set_terminator terminate scope_get scope_insert declare_in declare_var update_in put_scopes
    update_var find_var read_var has_var push_scope pop_scope or_panic elem_of str_lt name_insert
    names_extend contains find_mutated_vars as_ident get_base_identifier idents_from free_idents
    note_fill note_store stmt_mutates mutated_from stmt_fills collect_fill_stores layout_at
    lookup_layout_for deeper shallower is_ctor has_inline_tables is_table mode_bit flags_of
    record_birth store_entries make_table lower_index lower_identifier logic_arms lower_logic
    arithmetic is_comparison is_float result_type lower_unary lower_binary lower_expr lower_entries
    is_reg find_def all_instrs def_of set_insert push_args sources alias_loop weight total_weight
    alias_roots birth dominating free_birth free_births any_member extend free_carrier free_carriers
    insert_sorted sort dedup_after dedup emit_frees free_at_exit lower_bindings null_bindings
    declare_all lower_local free_if lower_assignment fills_name authorize take_fast store
    nested_bound bound_of reserve_if reserve_row lower_index_assign lower_printed join_phi_ty before
    insert_by_reg sort_by_reg read_present phi_order dense_names any_contained fills_of conversion
    put_all_scopes reserve_names reserve_ahead open_phis loop_condition read_regs reserve_spine
    reserve_spines reserve_nested push_ctx pop_ctx open_ctx lower_arm back_phi patch patch_block
    patch_phi close_phis rebind_phis lower_loop lower_while read_order join_phis lower_if
    new_lowerer halt_open finish lower_rest lower_program lower_stmt lower_block new_basic_block
    def_reg
lower_program-Closed_example =
    lower_program-Closed no_facts counting counting_lowered refl refl (omega arith)

-- `local n = sys_alloc_count()  print(n)` prints register 0, and the count is in register 1.
abbrev printed_count : Stmts
printed_count =
    stmt (local_decl ("n" ∷ []) (Expr.sys_alloc_count ∷ []))
      (stmt (print (Expr.identifier "n" ∷ [])) no_stmts)

abbrev count_lowered : Lowering
count_lowered = lowering_of (lower_program no_facts printed_count)

sys_alloc_count-unwritten_example :
    (d : Lowerer) × (lower_local no_facts ("n" ∷ []) (Expr.sys_alloc_count ∷ []) new_lowerer
      ≡ ok tt d)
    × (l : Local) × (find_var "n" d.scopes ≡ some l)
    × (writes l.reg count_lowered.blocks ≡ 0)
unfolding and_then new_block next_reg target_or_next change_block put_blocks push_instr emit
    set_terminator terminate scope_get scope_insert declare_in declare_var update_in put_scopes
    update_var find_var read_var has_var push_scope pop_scope or_panic elem_of str_lt name_insert
    names_extend contains find_mutated_vars as_ident get_base_identifier idents_from free_idents
    note_fill note_store stmt_mutates mutated_from stmt_fills collect_fill_stores layout_at
    lookup_layout_for deeper shallower is_ctor has_inline_tables is_table mode_bit flags_of
    record_birth store_entries make_table lower_index lower_identifier logic_arms lower_logic
    arithmetic is_comparison is_float result_type lower_unary lower_binary lower_expr lower_entries
    is_reg find_def all_instrs def_of set_insert push_args sources alias_loop weight total_weight
    alias_roots birth dominating free_birth free_births any_member extend free_carrier free_carriers
    insert_sorted sort dedup_after dedup emit_frees free_at_exit lower_bindings null_bindings
    declare_all lower_local free_if lower_assignment fills_name authorize take_fast store
    nested_bound bound_of reserve_if reserve_row lower_index_assign lower_printed join_phi_ty before
    insert_by_reg sort_by_reg read_present phi_order dense_names any_contained fills_of conversion
    put_all_scopes reserve_names reserve_ahead open_phis loop_condition read_regs reserve_spine
    reserve_spines reserve_nested push_ctx pop_ctx open_ctx lower_arm back_phi patch patch_block
    patch_phi close_phis rebind_phis lower_loop lower_while read_order join_phis lower_if
    new_lowerer halt_open finish lower_rest lower_program lower_stmt lower_block new_basic_block
    def_reg
sys_alloc_count-unwritten_example =
    sys_alloc_count-unwritten no_facts "n" (stmt (print (Expr.identifier "n" ∷ [])) no_stmts)
      count_lowered refl refl (omega arith)

-- Two moves of a table, and a phi of one of them and of itself.
abbrev aliases : List BasicBlock
aliases =
    record {
      id = 0;
      instrs =
          Instruction.table_new 0 StaticType.integer 0
          ∷ Instruction.move 1 0 StaticType.integer
          ∷ Instruction.phi 2 StaticType.integer ((0, 1) ∷ (0, 2) ∷ [])
          ∷ [];
      terminator = none;
    }
    ∷ []

alias_roots-Roots_example :
    (roots : List RegId) × (alias_roots aliases 2 ≡ some roots) × Roots (all_instrs aliases) 2 roots
alias_roots-Roots_example = alias_roots-Roots aliases 2

alias_roots_run : alias_roots aliases 2 ≡ some (0 ∷ [])
unfolding alias_roots alias_loop all_instrs total_weight weight find_def is_reg sources push_args
    set_insert def_reg
alias_roots_run = refl

abbrev leaving_t : Local
leaving_t = record { reg = 2; ty = StaticType.integer; layout = dense }

-- A block that ends with a table born in it and an alias of another one to free.
abbrev leaving : Lowerer
leaving = record {
  blocks =
      record {
        id = 0;
        instrs =
            Instruction.table_new 0 StaticType.integer 0
            ∷ Instruction.table_new 1 StaticType.integer 0
            ∷ Instruction.move 2 1 StaticType.integer
            ∷ [];
        terminator = none;
      }
      ∷ [];
  current_block = 0;
  free_reg = 3;
  scopes = (("t", record { reg = 2; ty = StaticType.integer; layout = dense }) ∷ []) ∷ [];
  loop_ctxs = [];
  site_regs = (0, (0, 0)) ∷ [];
  ctrl_depth = 0;
}

abbrev leaving_frees : List DoExitFree
leaving_frees = record { site = 1; carrier = "t" } ∷ record { site = 0; carrier = "t" } ∷ []

leaving_births : BirthsAreRoots leaving
unfolding birth dominating is_root find_def is_reg all_instrs def_reg
leaving_births site r h =
    elim (0 == site)
        as (λ b.
          dominating 0 (if b then some (0, 0) else none) ≡ some r
          → is_root (find_def r (all_instrs leaving.blocks)) ≡ true) [
            | true ↦ λ e.
                subst
                  (λ o.
                    is_root
                      (elim o [ none ↦ none | some q ↦ find_def q (all_instrs leaving.blocks) ])
                    ≡ true)
                  e refl
            | false ↦ λ e. cc
          ]
      h

free_at_exit-Frees_example :
    Gives (λ _ d. (rs : List RegId) × Frees leaving d rs) (free_at_exit leaving_frees leaving)
unfolding Declared find_var scope_get
free_at_exit-Frees_example =
    free_at_exit-Frees leaving_frees leaving (omega arith)
      (
        (record { reg = 2; ty = StaticType.integer; layout = dense }, refl),
        ((record { reg = 2; ty = StaticType.integer; layout = dense }, refl), tt),
      )
      leaving_births

free_target : (y : String) (l : Local) → find_var y leaving.scopes ≡ some l → (5 == l.reg) ≡ false
unfolding find_var scope_get
free_target y l h =
    elim (str_eq y "t")
        as (λ b.
          elim (if b then some leaving_t else none) as (λ _. Option Local) [
            | none ↦ none
            | some k ↦ some k
          ]
            ≡ some l
          → (5 == l.reg) ≡ false) [
            | true ↦ λ e.
                let same : 2 ≡ l.reg =
                  ap (λ (o : Option Local). elim o as (λ _. ℕ) [ none ↦ 2 | some k ↦ k.reg ]) e in
                ground arith
            | false ↦ λ e. cc
          ]
      h

lower_expr-target_example :
    Post
      (λ v d. (v.0 ≡ 5) × (1 ≤ writes 5 d.blocks))
      (lower_expr no_facts
        (binary_op BinOp.add (Expr.identifier "t") (Expr.integer 1))
        (some 5)
        leaving)
lower_expr-target_example =
    lower_expr-target no_facts (binary_op BinOp.add (Expr.identifier "t") (Expr.integer 1)) 5
      leaving (λ e. cc) free_target

abbrev updated : Local
updated = record { reg = 9; ty = StaticType.float; layout = dense }

update_var-read_var_example :
    ((find_var "t" leaving.scopes ≡ none)
      × (update_var "t" updated leaving ≡ err undeclared_variable leaving))
    ⊎ ((d : Lowerer) × (update_var "t" updated leaving ≡ ok tt d)
        × (read_var "t" d ≡ ok updated d)
        × ((y : String) → str_eq y "t" ≡ false → find_var y d.scopes ≡ find_var y leaving.scopes)
        × (length d.scopes ≡ length leaving.scopes))
update_var-read_var_example = update_var-read_var "t" updated leaving

-- `local t = {7}  local i = 0  while i < #t do t[i] = 0  t[i + 1] = 0  i = i + 1 end`, where `t` is dense.
abbrev fill_body : Stmts
fill_body = stmt (index_assign (Expr.identifier "t") (Expr.identifier "i") (Expr.integer 0)) (
    stmt
      (index_assign (Expr.identifier "t")
        (binary_op BinOp.add (Expr.identifier "i") (Expr.integer 1)) (Expr.integer 0))
      (stmt (assignment "i" (binary_op BinOp.add (Expr.identifier "i") (Expr.integer 1))) no_stmts))

abbrev fill_condition : Expr
fill_condition = binary_op less_than (Expr.identifier "i") (unary_op len (Expr.identifier "t"))

abbrev filling : Stmts
filling = stmt (local_decl ("t" ∷ []) (table_ctor 0 (entry 0 (Expr.integer 7) no_entries) ∷ [])) (
    stmt (local_decl ("i" ∷ []) (Expr.integer 0 ∷ []))
      (stmt (while_loop fill_condition fill_body) no_stmts))

abbrev dense_t : Facts
dense_t = record no_facts {
  elems = StaticType.integer ∷ [];
  layouts = dense ∷ [];
  name_dense = (("t", 1), true) ∷ [];
}

abbrev fill_lowered : Lowering
fill_lowered = lowering_of (lower_program dense_t filling)

-- The length is read in front of the loop, and the header compares with that register in every round.
length_is_hoisted :
    instrs_at 1 fill_lowered.blocks
    ≡ Instruction.phi 6 StaticType.integer ((0, 3) ∷ (2, 16) ∷ []) ∷ Instruction.less 7 6 4 ∷ []
unfolding and_then new_block next_reg target_or_next change_block put_blocks push_instr emit
    set_terminator terminate scope_get scope_insert declare_in declare_var update_in put_scopes
    update_var find_var read_var has_var push_scope pop_scope or_panic elem_of str_lt name_insert
    names_extend contains find_mutated_vars as_ident get_base_identifier idents_from free_idents
    note_fill note_store stmt_mutates mutated_from stmt_fills collect_fill_stores layout_at
    lookup_layout_for deeper shallower is_ctor has_inline_tables is_table mode_bit flags_of
    record_birth store_entries make_table lower_index lower_identifier logic_arms lower_logic
    arithmetic is_comparison is_float result_type lower_unary lower_binary lower_expr lower_entries
    is_reg find_def all_instrs def_of set_insert push_args sources alias_loop weight total_weight
    alias_roots birth dominating free_birth free_births any_member extend free_carrier free_carriers
    insert_sorted sort dedup_after dedup emit_frees free_at_exit lower_bindings null_bindings
    declare_all lower_local free_if lower_assignment fills_name authorize take_fast store
    nested_bound bound_of reserve_if reserve_row lower_index_assign lower_printed join_phi_ty before
    insert_by_reg sort_by_reg read_present phi_order dense_names any_contained fills_of conversion
    put_all_scopes reserve_names reserve_ahead open_phis loop_condition read_regs reserve_spine
    reserve_spines reserve_nested push_ctx pop_ctx open_ctx lower_arm back_phi patch patch_block
    patch_phi close_phis rebind_phis lower_loop lower_while read_order join_phis lower_if
    new_lowerer halt_open finish lower_rest lower_program lower_stmt lower_block new_basic_block
    def_reg instrs_at is_dense_at_depth dense_entry elem_at resolve_elem_type type_eq
length_is_hoisted = refl

abbrev fill_scopes : List Scope
fill_scopes = (("t", updated) ∷ ("i", updated) ∷ []) ∷ []

conversion-Converts_example : Converts dense_t fill_scopes fill_condition fill_body (record {
  guard = "i";
  bound = unary_op len (Expr.identifier "t");
  names = "t" ∷ [];
  nested = [];
})
unfolding and_then new_block next_reg target_or_next change_block put_blocks push_instr emit
    set_terminator terminate scope_get scope_insert declare_in declare_var update_in put_scopes
    update_var find_var read_var has_var push_scope pop_scope or_panic elem_of str_lt name_insert
    names_extend contains find_mutated_vars as_ident get_base_identifier idents_from free_idents
    note_fill note_store stmt_mutates mutated_from stmt_fills collect_fill_stores layout_at
    lookup_layout_for deeper shallower is_ctor has_inline_tables is_table mode_bit flags_of
    record_birth store_entries make_table lower_index lower_identifier logic_arms lower_logic
    arithmetic is_comparison is_float result_type lower_unary lower_binary lower_expr lower_entries
    is_reg find_def all_instrs def_of set_insert push_args sources alias_loop weight total_weight
    alias_roots birth dominating free_birth free_births any_member extend free_carrier free_carriers
    insert_sorted sort dedup_after dedup emit_frees free_at_exit lower_bindings null_bindings
    declare_all lower_local free_if lower_assignment fills_name authorize take_fast store
    nested_bound bound_of reserve_if reserve_row lower_index_assign lower_printed join_phi_ty before
    insert_by_reg sort_by_reg read_present phi_order dense_names any_contained fills_of conversion
    put_all_scopes reserve_names reserve_ahead open_phis loop_condition read_regs reserve_spine
    reserve_spines reserve_nested push_ctx pop_ctx open_ctx lower_arm back_phi patch patch_block
    patch_phi close_phis rebind_phis lower_loop lower_while read_order join_phis lower_if
    new_lowerer halt_open finish lower_rest lower_program lower_stmt lower_block new_basic_block
    def_reg is_dense_at_depth dense_entry
conversion-Converts_example =
    conversion-Converts dense_t fill_scopes fill_condition fill_body
      (record {
        guard = "i";
        bound = unary_op len (Expr.identifier "t");
        names = "t" ∷ [];
        nested = [];
      })
      refl
