-- ===== src/Lowerer/Exprs.antt =====
-- `lower_expr` of src/lowerer.rs is a whole step that writes its target.
use glm.Prelude.{
  ◌%◌, ◌^◌, ℕ, suc, ◌≡◌, refl, subst, arith, Bool, true, false, not, ◌&&◌, ◌||◌, Option, none, some,
  List, [], ◌∷◌, ◌==◌, if◌then◌else◌,
}
use glm.Syntax.{
  StaticType, boolean, table, BinOp, less_than, less_eq, greater_than, greater_eq, not_equal,
  and_op, or_op, UnOp, len, Expr, Entries, no_entries, entry, nil, table_ctor, index, binary_op,
  unary_op,
}
use glm.Shape.Core.{dense}
use glm.Ir.{BlockId, RegId, jump, branch, Instruction, def_reg}
use glm.Lowerer.State.{
  Facts, Local, Lowerer, Lower, pure, ◌>>◌, and_then, next_reg, emit, terminate,
}
use glm.Lowerer.Expr.{
  Value, layout_at, lookup_layout_for, deeper, shallower, record_birth, store_entries, make_table,
  lower_index, lower_identifier, logic_arms, lower_logic, arithmetic, lower_unary, lower_binary,
  lower_expr, lower_entries, flags_of,
}
use glm.Lowerer.Blocks.{target_of, open_at, GoesBelow}
use glm.Lowerer.Steps.{Post, gives, Post-and_then}
use glm.Lowerer.Flow.{Mid, Step, Spec, step-Mid, terminate-Mid, emit-Mid-next}
use glm.Lowerer.Rules.{
  Step-same, Spec-pure, Spec-panic, Spec-or_panic, Spec-weaken, Spec-if, Spec-bind, Spec-before,
  Spec-next, Spec-target, Spec-emit, Spec-read_var, Spec-elem_of,
}
use glm.Lowerer.Arms.{
  Mid-ext, Mid-start, Mid-enter, Mid-same, closed_arm, three, New-apart, distinct, blocks-Mid,
  third-Step, Spec-tail, Spec-emit_next,
}

pub lookup_layout_for-Spec : (facts : Facts) (e : Expr) → Spec none (lookup_layout_for facts e)
unfolding lookup_layout_for
lookup_layout_for-Spec facts (table_ctor site _) = Spec-or_panic _
lookup_layout_for-Spec facts (Expr.identifier x) =
    Spec-bind none _ _ (Spec-read_var x) (λ l. Spec-pure _)
lookup_layout_for-Spec facts (index obj key) = lookup_layout_for-Spec facts obj
lookup_layout_for-Spec facts e = Spec-pure dense

-- An instruction that writes `r`.
pub emits : (r : RegId) (i : Instruction) → target_of i ≡ some r → Spec (some r) (emit i)
emits r i e = subst (λ t. Spec t (emit i)) e (Spec-emit i)

-- The instruction and then a value.
pub emits_value :
    {A : Type 0} (r : RegId) (i : Instruction) (a : A)
    → target_of i ≡ some r
    → Spec (some r) (emit i >> pure a)
emits_value r i a e = Spec-before (some r) _ _ (emits r i e) (λ _. Spec-pure a)

record_birth-Spec : (site : ℕ) (r : RegId) → Spec none (record_birth site r)
unfolding record_birth
record_birth-Spec site r s ready = gives (Step-same s _ ready refl refl refl)

store_entries-Spec :
    (t : RegId) (es : Entries) (vs : List RegId) → Spec none (store_entries t es vs)
unfolding store_entries target_of def_reg
store_entries-Spec t (entry slot e more) (v ∷ vs) = Spec-next _ λ i.
    Spec-before (some i) _ _ (emits i (Instruction.load_int i slot) refl) λ _.
      Spec-bind none _ _ (Spec-emit (Instruction.table_set t i v))
        (λ _. store_entries-Spec t more vs)
store_entries-Spec t no_entries vs = Spec-pure tt
store_entries-Spec t (entry slot e more) [] = Spec-pure tt

make_table-Spec :
    (facts : Facts) (r site : ℕ) (es : Entries) (elem : StaticType) (regs : List RegId)
    → Spec (some r) (make_table facts r site es elem regs)
unfolding make_table target_of def_reg
make_table-Spec facts r site es elem regs =
    Spec-bind (some r) _ _ (Spec-or_panic (layout_at facts.layouts site)) λ layout.
      Spec-before (some r) _ _
        (emits r (Instruction.table_new r elem (flags_of facts site es elem layout)) refl)
        λ _.
          Spec-bind none _ _ (record_birth-Spec site r)
            λ _. Spec-bind none _ _ (store_entries-Spec r es regs) (λ _. Spec-pure (r, table elem))

lower_index-Spec : (r : RegId) (t i : Value) → Spec (some r) (lower_index r t i)
unfolding lower_index target_of def_reg
lower_index-Spec r (t, table elem) (i, _) = emits_value r _ _ refl
lower_index-Spec r (t, _) i = Spec-panic (some r)

lower_identifier-Spec :
    (t : Option RegId) (r : RegId) (l : Local) → Spec (some r) (lower_identifier t r l)
unfolding lower_identifier target_of def_reg
lower_identifier-Spec none r l = Spec-weaken (some r) _ (Spec-pure _)
lower_identifier-Spec (some _) r l =
    Spec-if (some r) (r == l.reg) _ _ (Spec-weaken (some r) _ (Spec-pure _))
      (emits_value r _ _ refl)

arithmetic-Spec : (r a b : RegId) (op : BinOp) → Spec (some r) (arithmetic r a b op)
unfolding arithmetic target_of def_reg
arithmetic-Spec r a b BinOp.add = emits r _ refl
arithmetic-Spec r a b BinOp.sub = emits r _ refl
arithmetic-Spec r a b BinOp.mul = emits r _ refl
arithmetic-Spec r a b BinOp.div = emits r _ refl
arithmetic-Spec r a b BinOp.int_div = emits r _ refl
arithmetic-Spec r a b BinOp.mod_op = emits r _ refl
arithmetic-Spec r a b less_than = emits r _ refl
arithmetic-Spec r a b greater_than = emits r _ refl
arithmetic-Spec r a b less_eq = emits r _ refl
arithmetic-Spec r a b greater_eq = emits r _ refl
arithmetic-Spec r a b BinOp.equal = emits r _ refl
arithmetic-Spec r a b not_equal =
    Spec-emit_next (some r) (λ e. Instruction.equal e a b) _ (λ e. refl)
      (λ e. emits r (Instruction.not_op r e) refl)
arithmetic-Spec r a b and_op = Spec-panic (some r)
arithmetic-Spec r a b or_op = Spec-panic (some r)

lower_unary-Spec : (r : RegId) (op : UnOp) (x : Value) → Spec (some r) (lower_unary r op x)
unfolding lower_unary target_of def_reg
lower_unary-Spec r UnOp.neg (x, t) = emits_value r _ _ refl
lower_unary-Spec r UnOp.not_op (x, t) = emits_value r _ _ refl
lower_unary-Spec r len (x, t) = emits_value r _ _ refl

module _ (r : RegId) (is_and : Bool) (v w k : BlockId) (right : Lower Value)
    (h : Spec none right) where
  -- The arms of `and` and `or`, from a state in which their blocks and the one after them are open.
  logic_arms-Post :
      (s : Lowerer) (c : BlockId) (f : BlockId → Bool) (d : Lowerer)
      → f v ≡ true
      → ((e : Lowerer) (x : BlockId)
          → Mid none s (suc k) x (λ j. (f j && not (j == v)) && not (j == w)) e
          → Step none s (record e { current_block = k }))
      → Mid none s (suc k) c f d
      → Post (λ _ e. Step (some r) s e) (logic_arms r is_and v w k right d)
  unfolding logic_arms deeper shallower and_then next_reg target_of def_reg GoesBelow
  logic_arms-Post s c f d ready last mid =
      Post-and_then (right _) _
        (step-Mid s (suc k) v f none right _ h
          (Mid-same none s (suc k) v f (record d { current_block = v }) _ refl refl refl
            (Mid-enter s (suc k) c v f d mid))
          ready)
        λ x e (y, after, moved).
          Post-and_then (terminate (jump k) _) _
            (terminate-Mid s (suc k) y (λ j. j == y || (f j && not (j == v))) (jump k) _
              (omega arith) (Mid-same none s (suc k) y _ e _ refl refl refl after))
            λ _ e₁ m₁.
              let closed =
                Mid-ext none s (suc k) y _ (λ j. f j && not (j == v)) e₁
                  (λ j. closed_arm f j v y moved) m₁ in
              Post-and_then (emit _ _) _
                (emit-Mid-next s (suc k) w (λ j. f j && not (j == v))
                  (Instruction.load_bool (e₁.free_reg % 2 ^ 32) (not is_and))
                  (record e₁ { current_block = w }) refl (Mid-enter s (suc k) y w _ e₁ closed))
                λ _ e₂ m₂.
                  Post-and_then (terminate (jump k) e₂) _
                    (terminate-Mid s (suc k) w (λ j. f j && not (j == v)) (jump k) e₂ (omega arith)
                      m₂)
                    λ _ e₃ m₃.
                      Spec-tail (some r) s (record e₃ { current_block = k }) _ (last e₃ w m₃)
                        (emits_value r _ (r, boolean) refl)

swap_closed :
    (x : Bool) (a b j : BlockId)
    → (x && not (j == b)) && not (j == a) ≡ (x && not (j == a)) && not (j == b)
swap_closed x a b j = ground arith

module _ (r : RegId) (is_and : Bool) (l : RegId) (right : Lower Value) (h : Spec none right) where
  lower_logic-Spec : Spec (some r) (lower_logic r is_and l right)
  unfolding lower_logic and_then GoesBelow
  lower_logic-Spec s ready =
      let o : BlockId → Bool = λ j. open_at j s.blocks in
      blocks-Mid s _ s.current_block o _ _ s (Mid-start s) λ a b k d new m.
        let c = s.current_block in
        let (free_b, free_k, k_a, k_b) = New-apart o a b k new in
        let free_a = new.first in
        let a_c = distinct o a c free_a ready in
        let b_c = distinct o b c free_b ready in
        Post-and_then (terminate (branch l a b) d) _
          (terminate-Mid s (suc k) c (three o a b k) (branch l a b) d new.below m)
          λ _ e m₁.
            let f : BlockId → Bool = λ j. three o a b k j && not (j == c) in
            elim is_and
              as (λ q.
                Post (λ _ x. Step (some r) s x)
                  ((if q then logic_arms r true a b k right else logic_arms r false b a k right)
                    e)) [
                      | true ↦
                          logic_arms-Post r true a b k right h s c f e (ground arith)
                            (λ x y m₂. third-Step s (suc k) y a b k a b x ready new (λ j. refl) m₂)
                            m₁
                      | false ↦
                          logic_arms-Post r false b a k right h s c f e (ground arith)
                            (λ x y m₂.
                              third-Step s (suc k) y a b k b a x ready new
                                (λ j. swap_closed (f j) a b j) m₂)
                            m₁
                    ]

lower_binary-Spec :
    (r : RegId) (op : BinOp) (left right : Lower Value)
    → Spec none left
    → Spec none right
    → Spec (some r) (lower_binary r op left right)
unfolding lower_binary
lower_binary-Spec r and_op left right hl hr =
    Spec-bind (some r) _ _ hl (λ l. lower_logic-Spec r true l.0 right hr)
lower_binary-Spec r or_op left right hl hr =
    Spec-bind (some r) _ _ hl (λ l. lower_logic-Spec r false l.0 right hr)
lower_binary-Spec r op left right hl hr = Spec-bind (some r) _ _ hl λ a.
    Spec-bind (some r) _ _ hr
      λ b. Spec-before (some r) _ _ (arithmetic-Spec r a.0 b.0 op) (λ _. Spec-pure _)

mutual
  unfolding lower_expr target_of def_reg

  -- An expression is a whole step that writes its target at most once.
  pub lower_expr-Spec :
      (facts : Facts) (e : Expr) (t : Option RegId) → Spec t (lower_expr facts e t)
  lower_expr-Spec facts (Expr.integer n) t = Spec-target t _ (λ r. emits_value r _ _ refl)
  lower_expr-Spec facts (Expr.float x) t = Spec-target t _ (λ r. emits_value r _ _ refl)
  lower_expr-Spec facts (Expr.boolean b) t = Spec-target t _ (λ r. emits_value r _ _ refl)
  lower_expr-Spec facts (Expr.string x) t = Spec-target t _ (λ r. emits_value r _ _ refl)
  lower_expr-Spec facts nil t = Spec-panic t
  lower_expr-Spec facts Expr.sys_alloc_count t =
      Spec-target t _ λ r. Spec-weaken (some r) _ (Spec-next _ (λ q. emits_value q _ _ refl))
  lower_expr-Spec facts (table_ctor site entries) t = Spec-target t _ λ r.
      Spec-bind (some r) _ _ (Spec-elem_of facts site) λ elem.
        Spec-bind (some r) _ _ (lower_entries-Spec facts entries)
          λ regs. make_table-Spec facts r site entries elem regs
  lower_expr-Spec facts (index obj key) t = Spec-target t _ λ r.
      Spec-bind (some r) _ _ (lower_expr-Spec facts obj none)
        λ a. Spec-bind (some r) _ _ (lower_expr-Spec facts key none) λ i. lower_index-Spec r a i
  lower_expr-Spec facts (Expr.identifier x) t =
      Spec-target t _
        λ r. Spec-bind (some r) _ _ (Spec-read_var x) (λ l. lower_identifier-Spec t r l)
  lower_expr-Spec facts (binary_op op left right) t = Spec-target t _ λ r.
      lower_binary-Spec r op _ _ (lower_expr-Spec facts left none)
        (lower_expr-Spec facts right none)
  lower_expr-Spec facts (unary_op op e) t =
      Spec-target t _
        λ r. Spec-bind (some r) _ _ (lower_expr-Spec facts e none) (λ x. lower_unary-Spec r op x)

  lower_entries-Spec : (facts : Facts) (es : Entries) → Spec none (lower_entries facts es)
  lower_entries-Spec facts no_entries = Spec-pure []
  lower_entries-Spec facts (entry slot e more) =
      Spec-bind none _ _ (lower_expr-Spec facts e none)
        λ v. Spec-bind none _ _ (lower_entries-Spec facts more) (λ vs. Spec-pure (v.0 ∷ vs))
