-- ===== src/Lowerer/Expr.antt =====
-- src/lowerer.rs: `lower_expr` and what it calls.
use glm.Prelude.{
  ℕ, suc, zero, ◌+◌, ◌-◌, Bool, true, false, not, ◌&&◌, ◌||◌, Option, none, some, List, [], ◌∷◌,
  ◌==◌, if◌then◌else◌,
}
use glm.Syntax.{
  StaticType, boolean, table, BinOp, less_than, less_eq, greater_than, greater_eq, not_equal,
  and_op, or_op, UnOp, len, Expr, Entries, no_entries, entry, nil, table_ctor, index, binary_op,
  unary_op,
}
use glm.Shape.Core.{LayoutVerdict, dense, sparse}
use glm.Ir.{BlockId, RegId, jump, branch, Instruction}
use glm.Lowerer.Facts.{is_stored_parent}
use glm.Lowerer.State.{
  Facts, Local, ok, Lower, pure, panic, ◌>>=◌, ◌>>◌, get, enter_block, new_block, next_reg,
  target_or_next, emit, terminate, read_var, or_panic, elem_of,
}

abbrev pub Value : Type 0
Value = RegId × StaticType

unfoldable pub layout_at : List LayoutVerdict → ℕ → Option LayoutVerdict
layout_at [] n = none
layout_at (l ∷ ls) zero = some l
layout_at (l ∷ ls) (suc n) = layout_at ls n

unfoldable pub lookup_layout_for : Facts → Expr → Lower LayoutVerdict
lookup_layout_for facts (table_ctor site _) = or_panic (layout_at facts.layouts site)
lookup_layout_for facts (Expr.identifier x) = do l ← read_var x; pure l.layout
lookup_layout_for facts (index obj key) = lookup_layout_for facts obj
lookup_layout_for facts _ = pure dense

unfoldable pub deeper : Lower (Unit {0})
deeper s = ok tt (record s { ctrl_depth = s.ctrl_depth + 1 })

unfoldable pub shallower : Lower (Unit {0})
shallower s = ok tt (record s { ctrl_depth = s.ctrl_depth - 1 })

unfoldable pub is_ctor : Expr → Bool
is_ctor (table_ctor _ _) = true
is_ctor _ = false

unfoldable pub has_inline_tables : Entries → Bool
has_inline_tables no_entries = false
has_inline_tables (entry slot e more) = is_ctor e || has_inline_tables more

unfoldable pub is_table : StaticType → Bool
is_table (table _) = true
is_table _ = false

unfoldable pub mode_bit : LayoutVerdict → ℕ
mode_bit sparse = 1
mode_bit _ = 0

-- Bit 0 is the mode and bit 7 the ownership of the tables in it.
unfoldable pub flags_of : Facts → ℕ → Entries → StaticType → LayoutVerdict → ℕ
flags_of facts site entries elem layout =
    mode_bit layout
    + (if is_table elem
          && (has_inline_tables entries || is_stored_parent site facts.stored_ctor_parents)
        then 128
        else 0)

unfoldable pub record_birth : ℕ → RegId → Lower (Unit {0})
record_birth site r s = ok tt (record s { site_regs = (site, (r, s.ctrl_depth)) ∷ s.site_regs })

-- One `TableSet` for each entry.
unfoldable pub store_entries : RegId → Entries → List RegId → Lower (Unit {0})
store_entries t (entry slot e more) (v ∷ vs) = do
  i ← next_reg
  emit (Instruction.load_int i slot)
  emit (Instruction.table_set t i v)
  store_entries t more vs
store_entries t _ _ = pure tt

-- The constructor, after its element type and the registers of its entries.
unfoldable pub make_table : Facts → RegId → ℕ → Entries → StaticType → List RegId → Lower Value
make_table facts r site entries elem regs = do
  layout ← or_panic (layout_at facts.layouts site)
  emit (Instruction.table_new r elem (flags_of facts site entries elem layout))
  record_birth site r
  store_entries r entries regs
  pure (r, table elem)

unfoldable pub lower_index : RegId → Value → Value → Lower Value
lower_index r (t, table elem) (i, _) = do emit (Instruction.table_get r t i elem); pure (r, elem)
lower_index r _ _ = panic

-- `is_some` and a register other than the variable's: the value is moved.
unfoldable pub lower_identifier : Option RegId → RegId → Local → Lower Value
lower_identifier none r l = pure (l.reg, l.ty)
lower_identifier (some _) r l =
    if r == l.reg
    then pure (l.reg, l.ty)
    else (do emit (Instruction.move r l.reg l.ty); pure (r, l.ty))

-- The two arms of `and` and `or`, and the phi that joins them: the right operand is evaluated in its own
-- block, and the other block loads the constant.
unfoldable pub logic_arms : RegId → Bool → BlockId → BlockId → BlockId → Lower Value → Lower Value
logic_arms r is_and value_block const_block join_block right = do
  enter_block value_block
  deeper
  v ← right
  shallower
  s ← get
  terminate (jump join_block)
  enter_block const_block
  c ← next_reg
  emit (Instruction.load_bool c (not is_and))
  terminate (jump join_block)
  enter_block join_block
  emit (
      Instruction.phi r boolean (
        if is_and
        then (s.current_block, v.0) ∷ (const_block, c) ∷ []
        else (const_block, c) ∷ (s.current_block, v.0) ∷ []))
  pure (r, boolean)

unfoldable pub lower_logic : RegId → Bool → RegId → Lower Value → Lower Value
lower_logic r is_and l right = do
  then_block ← new_block
  else_block ← new_block
  join_block ← new_block
  terminate (branch l then_block else_block)
  if is_and
      then logic_arms r true then_block else_block join_block right
      else logic_arms r false else_block then_block join_block right

unfoldable pub arithmetic : RegId → RegId → RegId → BinOp → Lower (Unit {0})
arithmetic r a b BinOp.add = emit (Instruction.add r a b)
arithmetic r a b BinOp.sub = emit (Instruction.sub r a b)
arithmetic r a b BinOp.mul = emit (Instruction.mul r a b)
arithmetic r a b BinOp.div = emit (Instruction.div r a b)
arithmetic r a b BinOp.int_div = emit (Instruction.int_div r a b)
arithmetic r a b BinOp.mod_op = emit (Instruction.mod_op r a b)
arithmetic r a b less_than = emit (Instruction.less r a b)
arithmetic r a b greater_than = emit (Instruction.less r b a)
arithmetic r a b less_eq = emit (Instruction.leq r a b)
arithmetic r a b greater_eq = emit (Instruction.geq r a b)
arithmetic r a b BinOp.equal = emit (Instruction.equal r a b)
arithmetic r a b not_equal = do
  e ← next_reg
  emit (Instruction.equal e a b)
  emit (Instruction.not_op r e)
arithmetic r a b _ = panic

unfoldable pub is_comparison : BinOp → Bool
is_comparison less_than = true
is_comparison greater_than = true
is_comparison less_eq = true
is_comparison greater_eq = true
is_comparison BinOp.equal = true
is_comparison not_equal = true
is_comparison _ = false

unfoldable pub is_float : StaticType → Bool
is_float StaticType.float = true
is_float _ = false

unfoldable pub result_type : BinOp → StaticType → StaticType → StaticType
result_type op l r =
    if is_comparison op
    then boolean
    else if is_float l || is_float r
    then StaticType.float
    else StaticType.integer

unfoldable pub lower_unary : RegId → UnOp → Value → Lower Value
lower_unary r UnOp.neg (x, t) = do emit (Instruction.neg r x); pure (r, t)
lower_unary r UnOp.not_op (x, t) = do emit (Instruction.not_op r x); pure (r, boolean)
lower_unary r len (x, t) = do emit (Instruction.table_len r x); pure (r, StaticType.integer)

-- The operands first, then the operator.
unfoldable pub lower_binary : RegId → BinOp → Lower Value → Lower Value → Lower Value
lower_binary r and_op left right = do l ← left; lower_logic r true l.0 right
lower_binary r or_op left right = do l ← left; lower_logic r false l.0 right
lower_binary r op left right = do
  a ← left
  b ← right
  arithmetic r a.0 b.0 op
  pure (r, result_type op a.1 b.1)

unfoldable mutual
  pub lower_expr : Facts → Expr → Option RegId → Lower Value
  lower_expr facts (Expr.integer n) target = do
    r ← target_or_next target
    emit (Instruction.load_int r n)
    pure (r, StaticType.integer)
  lower_expr facts (Expr.float x) target = do
    r ← target_or_next target
    emit (Instruction.load_float r x)
    pure (r, StaticType.float)
  lower_expr facts (Expr.boolean b) target = do
    r ← target_or_next target
    emit (Instruction.load_bool r b)
    pure (r, boolean)
  lower_expr facts (Expr.string x) target = do
    r ← target_or_next target
    emit (Instruction.load_string r x)
    pure (r, StaticType.string)
  lower_expr facts nil target = panic
  lower_expr facts Expr.sys_alloc_count target = do
    _ ← target_or_next target
    r ← next_reg
    emit (Instruction.sys_alloc_count r)
    pure (r, StaticType.integer)
  lower_expr facts (table_ctor site entries) target = do
    r ← target_or_next target
    elem ← elem_of facts site
    regs ← lower_entries facts entries
    make_table facts r site entries elem regs
  lower_expr facts (index obj key) target = do
    r ← target_or_next target
    t ← lower_expr facts obj none
    i ← lower_expr facts key none
    lower_index r t i
  lower_expr facts (Expr.identifier x) target = do
    r ← target_or_next target
    l ← read_var x
    lower_identifier target r l
  lower_expr facts (binary_op op left right) target = do
    r ← target_or_next target
    lower_binary r op (lower_expr facts left none) (lower_expr facts right none)
  lower_expr facts (unary_op op e) target = do
    r ← target_or_next target
    x ← lower_expr facts e none
    lower_unary r op x

  pub lower_entries : Facts → Entries → Lower (List RegId)
  lower_entries facts no_entries = pure []
  lower_entries facts (entry slot e more) = do
    v ← lower_expr facts e none
    vs ← lower_entries facts more
    pure (v.0 ∷ vs)
