-- ===== src/Lowerer/Loop.antt =====
-- src/lowerer.rs: `while`.
use Prim.Native.String.{String}
use glm.Prelude.{Bool, true, false, Option, none, some, List, [], ◌∷◌, ◌++◌, ◌==◌, if◌then◌else◌}
use glm.Syntax.{StaticType, table, Expr, Stmts}
use glm.Ir.{BlockId, RegId, jump, branch, Instruction, phi, BasicBlock}
use glm.Lowerer.State.{
  Facts, Local, LoopCtx, Scope, ok, Lower, pure, ◌>>=◌, ◌>>◌, get, enter_block, new_block, next_reg,
  emit, terminate, change_block, put_blocks, update_var, read_var, has_var, push_scope, pop_scope,
  or_panic,
}
use glm.Lowerer.Names.{find_mutated_vars}
use glm.Lowerer.Expr.{deeper, shallower, lower_expr}
use glm.Lowerer.Order.{join_phi_ty, phi_order, Conversion, conversion}

unfoldable pub put_all_scopes : List Scope → Lower (Unit {0})
put_all_scopes cs s = ok tt (record s { scopes = cs })

unfoldable pub reserve_names : List String → RegId → Lower (Unit {0})
reserve_names [] b = pure tt
reserve_names (x ∷ xs) b = do
  l ← read_var x
  emit (Instruction.table_reserve l.reg b)
  reserve_names xs b

-- The bound in front of the loop, and the tables that are filled up to it.
unfoldable pub reserve_ahead : Facts → Option Conversion → Lower (Option RegId)
reserve_ahead facts none = pure none
reserve_ahead facts (some c) = do
  s ← get
  b ← lower_expr facts c.bound none
  put_all_scopes s.scopes
  reserve_names c.names b.0
  pure (some b.0)

-- A phi for each variable that the body writes, with the value that enters the loop.
unfoldable pub open_phis : BlockId → List (String × Local) → Lower (List (String × RegId))
open_phis from [] = pure []
open_phis from ((x, l) ∷ ls) = do
  r ← next_reg
  emit (phi r l.ty ((from, l.reg) ∷ []))
  update_var x (record { reg = r; ty = l.ty; layout = l.layout })
  rest ← open_phis from ls
  pure ((x, r) ∷ rest)

unfoldable pub loop_condition : Facts → Expr → Option Conversion → Option RegId → Lower RegId
loop_condition facts e (some c) (some b) = do
  g ← read_var c.guard
  r ← next_reg
  emit (Instruction.less r g.reg b)
  pure r
loop_condition facts e _ _ = do v ← lower_expr facts e none; pure v.0

unfoldable pub read_regs : List String → Lower (List RegId)
read_regs [] = pure []
read_regs (x ∷ xs) = do l ← read_var x; rs ← read_regs xs; pure (l.reg ∷ rs)

abbrev pub is_matrix : StaticType → Bool
is_matrix (table (table _)) = true
is_matrix _ = false

unfoldable pub reserve_spine : String → Option RegId → Local → Lower (List (String × RegId))
reserve_spine x bound l =
    if is_matrix l.ty
    then (do b ← or_panic bound; emit (Instruction.table_reserve l.reg b); pure ((x, b) ∷ []))
    else pure []

unfoldable pub reserve_spines : Option RegId → List String → Lower (List (String × RegId))
reserve_spines bound [] = pure []
reserve_spines bound (x ∷ xs) = do
  l ← read_var x
  r ← reserve_spine x bound l
  rs ← reserve_spines bound xs
  pure (r ++ rs)

unfoldable pub reserve_nested : Option RegId → List String → Lower (List (String × RegId))
reserve_nested bound [] = pure []
reserve_nested bound (x ∷ xs) = do
  s ← get
  r ← if has_var x s.scopes then (do l ← read_var x; reserve_spine x bound l) else pure []
  rs ← reserve_nested bound xs
  pure (r ++ rs)

unfoldable pub push_ctx : LoopCtx → Lower (Unit {0})
push_ctx c s = ok tt (record s { loop_ctxs = c ∷ s.loop_ctxs })

unfoldable pub pop_ctx : Option Conversion → Lower (Unit {0})
pop_ctx none = pure tt
pop_ctx (some _) = λ s. ok tt (record s { loop_ctxs = elim s.loop_ctxs [ [] ↦ [] | _ ∷ cs ↦ cs ] })

unfoldable pub open_ctx : Option Conversion → Option RegId → Lower (Unit {0})
open_ctx none bound = pure tt
open_ctx (some c) bound = do
  g ← read_var c.guard
  reserved ← read_regs c.names
  outer ← reserve_spines bound c.names
  inner ← reserve_nested bound c.nested
  push_ctx (record { guard_reg = g.reg; reserved = reserved; nested_fills = outer ++ inner })

-- A body in a scope of its own, one level deeper.
unfoldable pub lower_arm : BlockId → Lower (Unit {0}) → Lower (Unit {0})
lower_arm b body = do enter_block b; push_scope; deeper; body; shallower; pop_scope

-- The value that comes back from the end of the body.
unfoldable pub back_phi : RegId → BlockId → Local → Instruction → Instruction
back_phi r from l (phi q t args) =
    if q == r then phi q (join_phi_ty t l.ty) (args ++ ((from, l.reg) ∷ [])) else phi q t args
back_phi r from l i = i

abbrev pub is_phi_of : RegId → Instruction → Bool
is_phi_of r (phi q t args) = q == r
is_phi_of r _ = false

-- The first phi of the register.
unfoldable pub patch : RegId → BlockId → Local → List Instruction → List Instruction
patch r from l [] = []
patch r from l (i ∷ is) = if is_phi_of r i then back_phi r from l i ∷ is else i ∷ patch r from l is

unfoldable pub patch_block : RegId → BlockId → Local → BasicBlock → BasicBlock
patch_block r from l b = record b { instrs = patch r from l b.instrs }

unfoldable pub patch_phi : BlockId → RegId → BlockId → Local → Lower (Unit {0})
patch_phi header r from l s = put_blocks s (change_block (patch_block r from l) header s.blocks)

unfoldable pub close_phis : BlockId → BlockId → List (String × RegId) → Lower (Unit {0})
close_phis header from [] = pure tt
close_phis header from ((x, r) ∷ ps) = do
  l ← read_var x
  patch_phi header r from l
  close_phis header from ps

unfoldable pub rebind_phis : List (String × RegId) → Lower (Unit {0})
rebind_phis [] = pure tt
rebind_phis ((x, r) ∷ ps) = do
  l ← read_var x
  update_var x (record { reg = r; ty = l.ty; layout = l.layout })
  rebind_phis ps

-- The loop from its pre-header on, where the order of its phis and its conversion are known.
unfoldable pub lower_loop :
    Facts
    → Expr
    → BlockId
    → BlockId
    → BlockId
    → BlockId
    → List (String × Local)
    → Option Conversion
    → Lower (Unit {0})
    → Lower (Unit {0})
lower_loop facts e pre_header header body_block exit order conv body = do
  bound ← reserve_ahead facts conv
  terminate (jump header)
  enter_block header
  phis ← open_phis pre_header order
  c ← loop_condition facts e conv bound
  terminate (branch c body_block exit)
  open_ctx conv bound
  lower_arm body_block body
  pop_ctx conv
  s ← get
  let end_of_body = s.current_block
  terminate (jump header)
  close_phis header end_of_body phis
  rebind_phis phis
  enter_block exit

unfoldable pub lower_while : Facts → Expr → Stmts → Lower (Unit {0}) → Lower (Unit {0})
lower_while facts e stmts body = do
  s ← get
  header ← new_block
  body_block ← new_block
  exit ← new_block
  let mutated = find_mutated_vars stmts
  order ← phi_order mutated
  lower_loop facts e s.current_block header body_block exit order
      (conversion facts s.scopes e mutated stmts) body
