-- ===== src/Lowerer/Target.antt =====
-- The register in which `lower_expr` of src/lowerer.rs leaves its value.
use Prim.Native.String.{String}
use glm.Prelude.{
  ℕ, ◌≡◌, ◌≢◌, ◌≤◌, ◌+◌, refl, ap, arith, Bool, true, false, none, some, List, [], ◌∷◌, ◌==◌,
}
use glm.Syntax.{
  StaticType, boolean, table, BinOp, and_op, or_op, less_than, greater_than, less_eq, greater_eq,
  not_equal, no_entries, entry, UnOp, len, Expr, Entries, nil, table_ctor, index, binary_op,
  unary_op,
}
use glm.Ir.{BlockId, RegId, Instruction, def_reg}
use glm.Lowerer.State.{
  Facts, Local, Lowerer, Lowered, ok, err, panicked, Lower, pure, ◌>>=◌, and_then, emit,
  change_block, push_instr, next_reg, find_var, read_var, undeclared_variable, target_or_next,
}
use glm.Lowerer.Expr.{
  Value, make_table, record_birth, store_entries, arithmetic, lower_index, lower_identifier,
  logic_arms, lower_logic, lower_unary, lower_binary, lower_expr,
}
use glm.Lowerer.Blocks.{
  target_of, hits, writes, writes_in-append, change_block-Changed, writes-Changed,
}
use glm.Lowerer.Steps.{Post, gives, fails, panics, Post-and_then, Post-map}
use glm.Lowerer.Flow.{put-Post}

-- An instruction of the blocks writes the register.
abbrev Written : RegId → Lowerer → Type 0
Written r s = 1 ≤ writes r s.blocks

-- The action gives its value in the register, and an instruction writes it.
abbrev LeftIn : RegId → Lower Value → Type 0
LeftIn r m = (s : Lowerer) → Post (λ v d. (v.0 ≡ r) × Written r d) (m s)

-- The action leaves the register written.
abbrev Writes : {A : Type 0} → RegId → Lower A → Type 0
Writes r m = (s : Lowerer) → Post (λ _ d. Written r d) (m s)

LeftIn-bind :
    {A : Type 0} (r : RegId) (m : Lower A) (k : A → Lower Value)
    → ((a : A) → LeftIn r (k a))
    → LeftIn r (m >>= k)
unfolding and_then
LeftIn-bind r m k h s = after (m s)
  where
    after : (l : Lowered _) → Post (λ v d. (v.0 ≡ r) × Written r d) (and_then l k)
    after (ok a d) = h a d
    after (err e d) = fails
    after panicked = panics

LeftIn-next :
    (r : RegId) (k : RegId → Lower Value)
    → LeftIn r (k r)
    → LeftIn r (target_or_next (some r) >>= k)
unfolding target_or_next and_then
LeftIn-next r k h s = h s

-- What is written last is the value.
LeftIn-last :
    (r : RegId) (m : Lower (Unit {0})) (t : StaticType)
    → Writes r m
    → LeftIn r (m >>= λ _. pure (r, t))
LeftIn-last r m t h s = Post-and_then (m s) _ (h s) (λ _ d w. gives (refl, w))

-- An instruction adds its target to the registers that are written.
emit_adds :
    (r : RegId) (i : Instruction) (s : Lowerer)
    → Post (λ _ d. writes r d.blocks ≡ hits r (target_of i) + writes r s.blocks) (emit i s)
unfolding emit push_instr
emit_adds r i s = put-Post _ s (change_block (push_instr i) s.current_block s.blocks) λ bs h.
    writes-Changed (push_instr i) r (hits r (target_of i)) (λ b. writes_in-append r b.instrs i)
      (change_block-Changed (push_instr i) s.current_block s.blocks bs h)

emit-Writes : (r : RegId) (i : Instruction) → target_of i ≡ some r → Writes r (emit i)
unfolding hits
emit-Writes r i e s = Post-map (λ _ d a. let t = ap (hits r) e in ground arith) (emit_adds r i s)

emit-Written :
    (r : RegId) (i : Instruction) (s : Lowerer) → Written r s → Post (λ _ d. Written r d) (emit i s)
emit-Written r i s w = Post-map (λ _ d a. omega arith) (emit_adds r i s)

Writes-after :
    {A : Type 0} (r : RegId) (m : Lower A) (k : A → Lower (Unit {0}))
    → ((a : A) → Writes r (k a))
    → Writes r (m >>= k)
unfolding and_then
Writes-after r m k h s = after (m s)
  where
    after : (l : Lowered _) → Post (λ _ d. Written r d) (and_then l k)
    after (ok a d) = h a d
    after (err e d) = fails
    after panicked = panics

LeftIn-emit :
    (r : RegId) (i : Instruction) (t : StaticType)
    → target_of i ≡ some r
    → LeftIn r (emit i >>= λ _. pure (r, t))
LeftIn-emit r i t e = LeftIn-last r (emit i) t (emit-Writes r i e)

lower_index-LeftIn : (r : RegId) (t i : Value) → LeftIn r (lower_index r t i)
unfolding lower_index target_of def_reg
lower_index-LeftIn r (t, table elem) (i, _) =
    LeftIn-emit r (Instruction.table_get r t i elem) elem refl
lower_index-LeftIn r (t, _) i = λ s. panics

-- A move, as the variable is in another register.
lower_identifier-LeftIn :
    (r : RegId) (l : Local) → (r == l.reg) ≡ false → LeftIn r (lower_identifier (some r) r l)
unfolding lower_identifier target_of def_reg
lower_identifier-LeftIn r l other =
    rw other (LeftIn-emit r (Instruction.move r l.reg l.ty) l.ty refl)

logic_arms-LeftIn :
    (r : RegId) (b : Bool) (x y z : BlockId) (right : Lower Value)
    → LeftIn r (logic_arms r b x y z right)
unfolding logic_arms target_of def_reg
logic_arms-LeftIn r b x y z right = LeftIn-bind r _ _ λ _. LeftIn-bind r _ _ λ _.
    LeftIn-bind r _ _ λ v. LeftIn-bind r _ _ λ _. LeftIn-bind r _ _ λ s. LeftIn-bind r _ _ λ _.
      LeftIn-bind r _ _ λ _. LeftIn-bind r _ _ λ c.
        LeftIn-bind r _ _
          λ _. LeftIn-bind r _ _ λ _. LeftIn-bind r _ _ λ _. LeftIn-emit r _ boolean refl

lower_logic-LeftIn :
    (r : RegId) (b : Bool) (l : RegId) (right : Lower Value) → LeftIn r (lower_logic r b l right)
unfolding lower_logic
lower_logic-LeftIn r true l right = LeftIn-bind r _ _ λ x.
    LeftIn-bind r _ _
      λ y. LeftIn-bind r _ _ λ z. LeftIn-bind r _ _ λ _. logic_arms-LeftIn r true x y z right
lower_logic-LeftIn r false l right = LeftIn-bind r _ _ λ x.
    LeftIn-bind r _ _
      λ y. LeftIn-bind r _ _ λ z. LeftIn-bind r _ _ λ _. logic_arms-LeftIn r false y x z right

arithmetic-Writes : (r a b : RegId) (op : BinOp) → Writes r (arithmetic r a b op)
unfolding arithmetic target_of def_reg
arithmetic-Writes r a b BinOp.add = emit-Writes r (Instruction.add r a b) refl
arithmetic-Writes r a b BinOp.sub = emit-Writes r (Instruction.sub r a b) refl
arithmetic-Writes r a b BinOp.mul = emit-Writes r (Instruction.mul r a b) refl
arithmetic-Writes r a b BinOp.div = emit-Writes r (Instruction.div r a b) refl
arithmetic-Writes r a b BinOp.int_div = emit-Writes r (Instruction.int_div r a b) refl
arithmetic-Writes r a b BinOp.mod_op = emit-Writes r (Instruction.mod_op r a b) refl
arithmetic-Writes r a b less_than = emit-Writes r (Instruction.less r a b) refl
arithmetic-Writes r a b greater_than = emit-Writes r (Instruction.less r b a) refl
arithmetic-Writes r a b less_eq = emit-Writes r (Instruction.leq r a b) refl
arithmetic-Writes r a b greater_eq = emit-Writes r (Instruction.geq r a b) refl
arithmetic-Writes r a b BinOp.equal = emit-Writes r (Instruction.equal r a b) refl
arithmetic-Writes r a b not_equal =
    Writes-after r _ _ λ e. Writes-after r _ _ λ _. emit-Writes r (Instruction.not_op r e) refl
arithmetic-Writes r a b op = λ s. panics

lower_binary-LeftIn :
    (r : RegId) (op : BinOp) (left right : Lower Value) → LeftIn r (lower_binary r op left right)
unfolding lower_binary
lower_binary-LeftIn r and_op left right =
    LeftIn-bind r _ _ (λ l. lower_logic-LeftIn r true l.0 right)
lower_binary-LeftIn r or_op left right =
    LeftIn-bind r _ _ (λ l. lower_logic-LeftIn r false l.0 right)
lower_binary-LeftIn r op left right =
    LeftIn-bind r _ _ λ a. LeftIn-bind r _ _ λ b. LeftIn-last r _ _ (arithmetic-Writes r a.0 b.0 op)

lower_unary-LeftIn : (r : RegId) (op : UnOp) (v : Value) → LeftIn r (lower_unary r op v)
unfolding lower_unary target_of def_reg
lower_unary-LeftIn r UnOp.neg v = LeftIn-emit r (Instruction.neg r v.0) v.1 refl
lower_unary-LeftIn r UnOp.not_op v = LeftIn-emit r (Instruction.not_op r v.0) boolean refl
lower_unary-LeftIn r len v = LeftIn-emit r (Instruction.table_len r v.0) StaticType.integer refl

-- The stores of the entries keep the register of the table written.
store_entries-Written :
    (r t : RegId) (slots : Entries) (vs : List RegId) (s : Lowerer)
    → Written r s
    → Post (λ _ d. Written r d) (store_entries t slots vs s)
unfolding store_entries next_reg and_then
store_entries-Written r t (entry slot e more) (v ∷ vs) s w =
    Post-and_then (emit _ (record s { free_reg = s.free_reg + 1 })) _ (emit-Written r _ _ w)
      λ _ d wd.
        Post-and_then (emit _ d) _ (emit-Written r _ d wd)
          λ _ x wx. store_entries-Written r t more vs x wx
store_entries-Written r t no_entries vs s w = gives w
store_entries-Written r t (entry slot e more) [] s w = gives w

make_table-LeftIn :
    (facts : Facts) (r : RegId) (site : ℕ) (slots : Entries) (elem : StaticType) (regs : List RegId)
    → LeftIn r (make_table facts r site slots elem regs)
unfolding make_table record_birth target_of def_reg
make_table-LeftIn facts r site slots elem regs = LeftIn-bind r _ _ λ layout s.
    Post-and_then (emit _ s) _ (emit-Writes r _ refl s) λ _ d w.
      Post-and_then (record_birth site r d) _ (gives w) λ _ x wx.
        Post-and_then (store_entries r slots regs x) _ (store_entries-Written r r slots regs x wx)
          λ _ y wy. gives (refl, wy)

variable-LeftIn :
    (facts : Facts) (r : RegId) (x : String) (s : Lowerer)
    → ((y : String) (l : Local) → find_var y s.scopes ≡ some l → (r == l.reg) ≡ false)
    → Post (λ v d. (v.0 ≡ r) × Written r d) (lower_expr facts (Expr.identifier x) (some r) s)
unfolding lower_expr target_or_next read_var and_then
variable-LeftIn facts r x s apart =
    elim (find_var x s.scopes)
        as (λ o.
          find_var x s.scopes ≡ o
          → Post (λ v d. (v.0 ≡ r) × Written r d)
              (and_then (elim o [ none ↦ err undeclared_variable s | some l ↦ ok l s ])
                (λ l. lower_identifier (some r) r l))) [
                  | none ↦ λ _. fails
                  | some l ↦ λ e. lower_identifier-LeftIn r l (apart x l e) s
                ]
      refl

-- An expression that is no call of `sys_alloc_count`, lowered into a target that no variable in scope
-- has for its register: the register of the value is the target, and the blocks have an instruction that
-- writes it.
pub lower_expr-target :
    (facts : Facts) (e : Expr) (r : RegId) (s : Lowerer)
    → e ≢ Expr.sys_alloc_count
    → ((y : String) (l : Local) → find_var y s.scopes ≡ some l → (r == l.reg) ≡ false)
    → Post (λ v d. (v.0 ≡ r) × (1 ≤ writes r d.blocks)) (lower_expr facts e (some r) s)
unfolding lower_expr target_of def_reg
lower_expr-target facts (Expr.integer n) r s h apart =
    LeftIn-next r _ (LeftIn-emit r (Instruction.load_int r n) StaticType.integer refl) s
lower_expr-target facts (Expr.float x) r s h apart =
    LeftIn-next r _ (LeftIn-emit r (Instruction.load_float r x) StaticType.float refl) s
lower_expr-target facts (Expr.boolean b) r s h apart =
    LeftIn-next r _ (LeftIn-emit r (Instruction.load_bool r b) boolean refl) s
lower_expr-target facts (Expr.string x) r s h apart =
    LeftIn-next r _ (LeftIn-emit r (Instruction.load_string r x) StaticType.string refl) s
lower_expr-target facts nil r s h apart = panics
lower_expr-target facts Expr.sys_alloc_count r s h apart = absurd (h refl)
lower_expr-target facts (table_ctor site slots) r s h apart =
    LeftIn-next r _
      (LeftIn-bind r _ _
        λ elem. LeftIn-bind r _ _ λ regs. make_table-LeftIn facts r site slots elem regs)
      s
lower_expr-target facts (index obj key) r s h apart =
    LeftIn-next r _ (LeftIn-bind r _ _ λ t. LeftIn-bind r _ _ λ i. lower_index-LeftIn r t i) s
lower_expr-target facts (Expr.identifier x) r s h apart = variable-LeftIn facts r x s apart
lower_expr-target facts (binary_op op left right) r s h apart =
    LeftIn-next r _ (lower_binary-LeftIn r op _ _) s
lower_expr-target facts (unary_op op e) r s h apart =
    LeftIn-next r _ (LeftIn-bind r _ _ λ v. lower_unary-LeftIn r op v) s
