-- ===== src/Lowerer/Stmt.antt =====
-- src/lowerer.rs: `if`, `lower_stmt` and `lower_program`.
use Prim.Native.String.{String}
use glm.Prelude.{ℕ, suc, zero, Bool, true, false, Option, none, some, List, [], ◌∷◌}
use glm.Syntax.{
  Expr, Stmt, Stmts, no_stmts, stmt, local_decl, assignment, index_assign, while_loop, do_block,
  if_else, print,
}
use glm.Ir.{BlockId, jump, branch, halt, Instruction, phi, BasicBlock, new_basic_block}
use glm.Lowerer.Facts.{frees_at}
use glm.Lowerer.State.{
  Place, Facts, Local, Lowerer, LowerError, Lowered, ok, err, panicked, Lower, pure, ◌>>=◌, ◌>>◌,
  get, enter_block, new_block, next_reg, emit, terminate, update_var, read_var, push_scope,
  pop_scope,
}
use glm.Lowerer.Names.{names_extend, find_mutated_vars}
use glm.Lowerer.Expr.{lower_expr}
use glm.Lowerer.Frees.{free_at_exit}
use glm.Lowerer.Assign.{lower_local, lower_assignment, lower_index_assign, lower_printed}
use glm.Lowerer.Order.{join_phi_ty, phi_order}
use glm.Lowerer.Loop.{put_all_scopes, lower_arm, lower_while}

-- The state of the variables at the end of an arm.
unfoldable pub read_order : List (String × Local) → Lower (List Local)
read_order [] = pure []
read_order ((x, _) ∷ vs) = do l ← read_var x; ls ← read_order vs; pure (l ∷ ls)

unfoldable pub join_phis :
    BlockId → BlockId → List (String × Local) → List Local → List Local → Lower (Unit {0})
join_phis then_end else_end ((x, _) ∷ vs) (a ∷ rest) (b ∷ bs) = do
  r ← next_reg
  l ← read_var x
  let t = join_phi_ty a.ty b.ty
  emit (phi r t ((then_end, a.reg) ∷ (else_end, b.reg) ∷ []))
  update_var x (record { reg = r; ty = t; layout = l.layout })
  join_phis then_end else_end vs rest bs
join_phis then_end else_end _ _ _ = pure tt

unfoldable pub lower_if :
    Facts → Expr → Stmts → Stmts → Lower (Unit {0}) → Lower (Unit {0}) → Lower (Unit {0})
lower_if facts e then_stmts else_stmts then_body else_body = do
  c ← lower_expr facts e none
  then_block ← new_block
  else_block ← new_block
  join_block ← new_block
  terminate (branch c.0 then_block else_block)
  order ← phi_order (names_extend (find_mutated_vars then_stmts) (find_mutated_vars else_stmts))
  snapshot ← get
  lower_arm then_block then_body
  t ← get
  then_regs ← read_order order
  terminate (jump join_block)
  put_all_scopes snapshot.scopes
  lower_arm else_block else_body
  u ← get
  else_regs ← read_order order
  terminate (jump join_block)
  enter_block join_block
  join_phis t.current_block u.current_block order then_regs else_regs

unfoldable mutual
  pub lower_stmt : Facts → Place → Stmt → Lower (Unit {0})
  lower_stmt facts place (local_decl names exprs) = lower_local facts names exprs
  lower_stmt facts place (assignment x e) = lower_assignment facts place x e
  lower_stmt facts place (index_assign obj key value) = lower_index_assign facts obj key value
  lower_stmt facts place (while_loop e body) =
      lower_while facts e body (lower_block facts (0 ∷ place) 0 body)
  lower_stmt facts place (do_block body) = do
    push_scope
    lower_block facts (0 ∷ place) 0 body
    free_at_exit (frees_at place facts.do_exit_frees)
    pop_scope
  lower_stmt facts place (if_else e then_body else_body) =
      lower_if facts e then_body else_body (lower_block facts (0 ∷ place) 0 then_body)
        (lower_block facts (1 ∷ place) 0 else_body)
  lower_stmt facts place (print exprs) = do
    vs ← lower_printed facts exprs
    emit (Instruction.print vs)

  -- The statements of a body from the index on.
  pub lower_block : Facts → Place → ℕ → Stmts → Lower (Unit {0})
  lower_block facts place k no_stmts = pure tt
  lower_block facts place k (stmt s ss) = do
    lower_stmt facts (k ∷ place) s
    lower_block facts place (suc k) ss

-- `IrLowerer::new`
unfoldable pub new_lowerer : Lowerer
new_lowerer = record {
  blocks = new_basic_block 0 ∷ [];
  current_block = 0;
  free_reg = 0;
  scopes = [] ∷ [];
  loop_ctxs = [];
  site_regs = [];
  ctrl_depth = 0;
}

-- `IrProgram` with the number of registers given out and the diagnostics of the lowerer.
pub record Lowering : Type 0 where
  pub blocks : List BasicBlock
  pub registers : ℕ
  pub diagnostics : List LowerError

abbrev pub is_open : ℕ → List BasicBlock → Option Bool
is_open i [] = none
is_open zero (b ∷ bs) = some (elim b.terminator [ none ↦ true | some _ ↦ false ])
is_open (suc i) (b ∷ bs) = is_open i bs

unfoldable pub halt_open : Option Bool → Lower (Unit {0})
halt_open none = λ s. panicked
halt_open (some true) = terminate halt
halt_open (some false) = pure tt

unfoldable pub finish : List LowerError → Lowered (Unit {0}) → Option Lowering
finish ds (ok _ s) = some (record { blocks = s.blocks; registers = s.free_reg; diagnostics = ds })
finish ds _ = none

unfoldable pub lower_rest : Lowered (Unit {0}) → Option Lowering
lower_rest (ok _ s) = finish [] (halt_open (is_open s.current_block s.blocks) s)
lower_rest (err e s) = finish (e ∷ []) (halt_open (is_open s.current_block s.blocks) s)
lower_rest panicked = none

unfoldable pub lower_program : Facts → Stmts → Option Lowering
lower_program facts ss = lower_rest (lower_block facts [] 0 ss new_lowerer)
