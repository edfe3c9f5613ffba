-- ===== src/Lowerer/Unwritten.antt =====
-- `local x = sys_alloc_count()` in src/lowerer.rs: the name is bound to a register that is never written.
use Prim.Native.String.{String}
use text.Mathlib.TextPositions.{eq_refl}
use glm.Prelude.{
  ◌^◌, ◌≤◌, ◌≡◌, refl, ap, sym, ◌∙◌, arith, Option, none, some, [], ◌∷◌, if◌then◌else◌,
}
use glm.Syntax.{StaticType, Expr, Stmts, stmt, local_decl}
use glm.Shape.Core.{dense}
use glm.Ir.{Instruction, new_basic_block}
use glm.Lowerer.State.{
  Facts, Local, Lowerer, ok, and_then, next_reg, target_or_next, emit, change_block, put_blocks,
  push_instr, declare_var, declare_in, scope_insert, find_var, scope_get,
}
use glm.Lowerer.Expr.{lookup_layout_for, lower_expr}
use glm.Lowerer.Assign.{lower_bindings, null_bindings, declare_all, lower_local}
use glm.Lowerer.Stmt.{lower_stmt, lower_block, new_lowerer, Lowering, lower_rest, lower_program}
use glm.Lowerer.Blocks.{target_of, hits, writes_in, writes, unterminated, open_at}
use glm.Lowerer.Steps.{Post-map, fresh}
use glm.Lowerer.Program.{lower_block-Spec}
use glm.Lowerer.Whole.{rest-Post, halt-writes}

abbrev counted : Local
counted = record { reg = 0; ty = StaticType.integer; layout = dense }

-- The state after the declaration.
abbrev after : String → Lowerer
after x = record {
  blocks = record { id = 0; instrs = Instruction.sys_alloc_count 1 ∷ []; terminator = none } ∷ [];
  current_block = 0;
  free_reg = 2;
  scopes = ((x, counted) ∷ []) ∷ [];
  loop_ctxs = [];
  site_regs = [];
  ctrl_depth = 0;
}

declared :
    (facts : Facts) (x : String)
    → lower_local facts (x ∷ []) (Expr.sys_alloc_count ∷ []) new_lowerer ≡ ok tt (after x)
unfolding lower_local lower_bindings null_bindings declare_all lower_expr next_reg target_or_next
    and_then emit put_blocks change_block push_instr new_lowerer new_basic_block lookup_layout_for
    declare_var declare_in scope_insert
declared facts x = refl

found : (x : String) → find_var x (after x).scopes ≡ some counted
unfolding find_var scope_get
found x =
    ap
      (λ b. elim (if b then some counted else none) as (λ _. Option Local) [
        | none ↦ none
        | some l ↦ some l
      ])
      (eq_refl x)

-- A program that begins with `local x = sys_alloc_count()` and is lowered without an error and with at
-- most 2 ^ 32 registers: the declaration binds `x` to a register that no instruction of the whole program
-- writes.
pub sys_alloc_count-unwritten :
    (facts : Facts) (x : String) (ss : Stmts) (p : Lowering)
    → lower_program facts (stmt (local_decl (x ∷ []) (Expr.sys_alloc_count ∷ [])) ss) ≡ some p
    → p.diagnostics ≡ []
    → p.registers ≤ 2 ^ 32
    → (d : Lowerer) × (lower_local facts (x ∷ []) (Expr.sys_alloc_count ∷ []) new_lowerer ≡ ok tt d)
      × (l : Local) × (find_var x d.scopes ≡ some l)
      × (writes l.reg p.blocks ≡ 0)
unfolding lower_program lower_block lower_stmt and_then writes writes_in hits target_of fresh
    open_at unterminated
sys_alloc_count-unwritten facts x ss p h clean lim = (
  after x,
  declared facts x,
  counted,
  found x,
  let none_written : writes 0 p.blocks ≤ 0 =
        rest-Post (λ n bs. n ≤ 2 ^ 32 → writes 0 bs ≤ 0) (after x) p
          (lower_block facts [] 1 ss (after x))
          (λ d s.
            let g = s.grows.regs in
            Post-map
              (λ _ e (up, k) limit.
                let c = s.grows.counts (omega arith) 0 in let w = k limit in ground arith)
              (halt-writes d 0 (omega arith)))
          (lower_block-Spec facts [] 1 ss (after x) refl)
          (sym (
              ap (λ o. lower_rest (and_then o (λ _. lower_block facts [] 1 ss))) (declared facts x))
            ∙ h)
          clean lim in
      omega arith,
)
