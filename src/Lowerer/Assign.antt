-- ===== src/Lowerer/Assign.antt =====
-- src/lowerer.rs: the statements `local`, assignment, store and `print`.
use Prim.Native.String.{String}
use text.Mathlib.Text.{◌==◌ as str_eq}
use glm.Prelude.{
  Bool, true, false, not, Option, none, some, List, [], ◌∷◌, ◌++◌, ◌==◌, if◌then◌else◌,
}
use glm.Syntax.{StaticType, Expr, nil}
use glm.Shape.Core.{dense}
use glm.Ir.{RegId, Instruction}
use glm.Lowerer.Facts.{is_free}
use glm.Lowerer.State.{
  Place, Facts, Local, LoopCtx, ok, Lower, pure, ◌>>=◌, ◌>>◌, get, next_reg, emit, declare_var,
  update_var, read_var,
}
use glm.Lowerer.Names.{get_base_identifier}
use glm.Lowerer.Expr.{Value, lookup_layout_for, is_ctor, lower_expr}
use glm.Lowerer.Frees.{member}

-- The initializers, each in a register of its own.
unfoldable pub lower_bindings : Facts → List Expr → Lower (List Local)
lower_bindings facts [] = pure []
lower_bindings facts (e ∷ es) = do
  r ← next_reg
  v ← lower_expr facts e (some r)
  layout ← lookup_layout_for facts e
  bs ← lower_bindings facts es
  pure (record { reg = r; ty = v.1; layout = layout } ∷ bs)

-- A name without initializer is bound to a null register.
unfoldable pub null_bindings : List String → List Local → Lower (List Local)
null_bindings (x ∷ xs) (b ∷ bs) = do rest ← null_bindings xs bs; pure (b ∷ rest)
null_bindings (x ∷ xs) [] = do
  r ← next_reg
  emit (Instruction.load_null r)
  rest ← null_bindings xs []
  pure (record { reg = r; ty = StaticType.integer; layout = dense } ∷ rest)
null_bindings [] bs = pure bs

unfoldable pub declare_all : List String → List Local → Lower (Unit {0})
declare_all (x ∷ xs) (b ∷ bs) = do declare_var x b; declare_all xs bs
declare_all _ _ = pure tt

unfoldable pub lower_local : Facts → List String → List Expr → Lower (Unit {0})
lower_local facts names exprs = do
  bs ← lower_bindings facts exprs
  all ← null_bindings names bs
  declare_all names all

unfoldable pub free_if : Bool → RegId → Lower (Unit {0})
free_if true r = emit (Instruction.table_free r)
free_if false r = pure tt

unfoldable pub lower_assignment : Facts → Place → String → Expr → Lower (Unit {0})
lower_assignment facts place x nil = do
  l ← read_var x
  free_if (is_free facts place) l.reg
  r ← next_reg
  emit (Instruction.load_null r)
  update_var x (record { reg = r; ty = l.ty; layout = l.layout })
lower_assignment facts place x e = do
  r ← next_reg
  v ← lower_expr facts e (some r)
  layout ← lookup_layout_for facts e
  update_var x (record { reg = v.0; ty = v.1; layout = layout })

abbrev pub named : String → List (String × RegId) → Option RegId
named x [] = none
named x ((y, r) ∷ ns) = if str_eq y x then some r else named x ns

unfoldable pub fills_name : Option String → List (String × RegId) → Bool
fills_name none ns = false
fills_name (some x) ns = elim (named x ns) [ none ↦ false | some _ ↦ true ]

-- Whether a store at the register `i` into the table at `t` is within a bound that was reserved; a row of
-- a nested fill is added to the reserved registers.
unfoldable pub authorize : RegId → RegId → Option String → List LoopCtx → List LoopCtx × Bool
authorize i t base [] = ([], false)
authorize i t base (c ∷ cs) =
    let (ds, fast) = authorize i t base cs in
    if not (c.guard_reg == i)
    then (c ∷ ds, fast)
    else if member t c.reserved
    then (c ∷ cs, true)
    else if fills_name base c.nested_fills
    then (record c { reserved = c.reserved ++ (t ∷ []) } ∷ cs, true)
    else (c ∷ ds, fast)

unfoldable pub take_fast : RegId → RegId → Option String → Lower Bool
take_fast i t base s =
    let (cs, fast) = authorize i t base s.loop_ctxs in ok fast (record s { loop_ctxs = cs })

unfoldable pub store : Facts → Expr → Bool → RegId → RegId → RegId → Lower (Unit {0})
store facts obj true t i v = do
  layout ← lookup_layout_for facts obj
  emit (Instruction.table_set_fast t i v layout)
store facts obj false t i v = emit (Instruction.table_set t i v)

unfoldable pub nested_bound : String → List LoopCtx → Option RegId
nested_bound x [] = none
nested_bound x (c ∷ cs) = elim (named x c.nested_fills) [
  | none ↦ nested_bound x cs
  | some r ↦ some r
]

unfoldable pub bound_of : Option String → List LoopCtx → Option RegId
bound_of none cs = none
bound_of (some x) cs = nested_bound x cs

unfoldable pub reserve_if : RegId → Option RegId → Lower (Unit {0})
reserve_if t none = pure tt
reserve_if t (some b) = emit (Instruction.table_reserve t b)

-- A row that is stored inline into a table with a nested fill is reserved.
unfoldable pub reserve_row : Bool → Option String → RegId → Lower (Unit {0})
reserve_row false base v = pure tt
reserve_row true base v = do s ← get; reserve_if v (bound_of base s.loop_ctxs)

unfoldable pub lower_index_assign : Facts → Expr → Expr → Expr → Lower (Unit {0})
lower_index_assign facts obj key value = do
  t ← lower_expr facts obj none
  i ← lower_expr facts key none
  fast ← take_fast i.0 t.0 (get_base_identifier obj)
  v ← lower_expr facts value none
  store facts obj fast t.0 i.0 v.0
  reserve_row (is_ctor value) (get_base_identifier obj) v.0

unfoldable pub lower_printed : Facts → List Expr → Lower (List Value)
lower_printed facts [] = pure []
lower_printed facts (e ∷ es) = do
  v ← lower_expr facts e none
  vs ← lower_printed facts es
  pure (v ∷ vs)
