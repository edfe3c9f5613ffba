-- ===== src/Lowerer/Exit.antt =====
-- The end of a `do` block in src/lowerer.rs: which instructions `free_at_exit` adds.
use glm.Prelude.{
  suc, zero, ◌<◌, ◌≡◌, refl, ap, sym, subst, ◌∙◌, arith, Bool, true, false, none, some, List, [],
  ◌∷◌, ◌++◌, append_assoc, append-nil, ◌==◌, if◌then◌else◌, length,
}
use glm.Ir.{BlockId, RegId, Instruction, BasicBlock}
use glm.Lowerer.State.{
  Lowerer, Lowered, ok, Lower, and_then, emit, change_block, put_blocks, push_instr,
}
use glm.Lowerer.Frees.{emit_frees}
use glm.Lowerer.Blocks.{Changed, here, there, change_block-Changed, length-Changed}

-- An action that ends without an error.
pub data Gives {A : Type 0} (P : A → Lowerer → Type 0) : Lowered A → Type 0 where
  done : {a : A} {s : Lowerer} → P a s → Gives P (ok a s)

pub Gives-and_then :
    {A B : Type 0} {P : A → Lowerer → Type 0} {R : B → Lowerer → Type 0} (r : Lowered A)
    (k : A → Lower B)
    → Gives P r
    → ((a : A) (s : Lowerer) → P a s → Gives R (k a s))
    → Gives R (and_then r k)
unfolding and_then
Gives-and_then r k (done {a} {s} p) h = h a s p

pub Gives-map :
    {A : Type 0} {P R : A → Lowerer → Type 0} {r : Lowered A}
    → ((a : A) (s : Lowerer) → P a s → R a s)
    → Gives P r
    → Gives R r
Gives-map h (done p) = done (h _ _ p)

-- The instructions of a block.
unfoldable pub instrs_at : BlockId → List BasicBlock → List Instruction
instrs_at i [] = []
instrs_at zero (b ∷ bs) = b.instrs
instrs_at (suc i) (b ∷ bs) = instrs_at i bs

unfoldable pub frees_of : List RegId → List Instruction
frees_of [] = []
frees_of (r ∷ rs) = frees_of rs ++ (Instruction.table_free r ∷ [])

-- The current block has instructions added at its end, and the rest of the state is unchanged.
pub record Adds (is : List Instruction) (s d : Lowerer) : Type 0 where
  pub there : s.current_block < length s.blocks
  pub same : record d { blocks = s.blocks } ≡ s
  pub count : length d.blocks ≡ length s.blocks
  pub added :
      (j : BlockId)
      → instrs_at j d.blocks ≡ instrs_at j s.blocks ++ (if j == s.current_block then is else [])

others :
    (i : Instruction) (is : List Instruction) (b : Bool)
    → b ≡ false
    → is ++ [] ≡ is ++ (if b then i ∷ [] else [])
others i is true h = cc
others i is false h = refl

Changed-instrs_at :
    (i : Instruction) (k j : BlockId) (bs cs : List BasicBlock)
    → Changed (push_instr i) k bs cs
    → instrs_at j cs ≡ instrs_at j bs ++ (if j == k then i ∷ [] else [])
unfolding instrs_at push_instr
Changed-instrs_at i _ zero _ _ here = refl
Changed-instrs_at i _ (suc j) _ _ (here {b} {bs}) =
    sym (append-nil (instrs_at j bs)) ∙ others i (instrs_at j bs) (suc j == 0) (ground arith)
Changed-instrs_at i _ zero _ _ (there {i = k} b c) =
    sym (append-nil b.instrs) ∙ others i b.instrs (0 == suc k) (ground arith)
Changed-instrs_at i _ (suc j) _ _ (there {i = k} {bs} b c) =
    Changed-instrs_at i k j _ _ c
    ∙ ap (λ x. instrs_at j bs ++ (if x then i ∷ [] else [])) {x = j == k} {y = suc j == suc k}
        (ground arith)

change_block-gives :
    (f : BasicBlock → BasicBlock) (i : BlockId) (bs : List BasicBlock)
    → i < length bs
    → (cs : List BasicBlock) × (change_block f i bs ≡ some cs)
unfolding change_block
change_block-gives f i [] h = absurd (omega arith)
change_block-gives f zero (b ∷ bs) h = (f b ∷ bs, refl)
change_block-gives f (suc i) (b ∷ bs) h =
    let (cs, e) = change_block-gives f i bs (omega arith) in
    (b ∷ cs, ap (λ o. elim o [ none ↦ none | some ds ↦ some (b ∷ ds) ]) e)

emit-Adds :
    (i : Instruction) (s : Lowerer)
    → s.current_block < length s.blocks
    → Gives (λ _ d. Adds (i ∷ []) s d) (emit i s)
unfolding emit put_blocks
emit-Adds i s lt =
    let (cs, e) = change_block-gives (push_instr i) s.current_block s.blocks lt in
    let c = change_block-Changed (push_instr i) s.current_block s.blocks cs e in
    subst (λ o. Gives (λ _ d. Adds (i ∷ []) s d) (put_blocks s o)) (sym e)
      (done (record {
        there = lt;
        same = refl;
        count = length-Changed (push_instr i) c;
        added = λ j. Changed-instrs_at i s.current_block j s.blocks cs c;
      }))

Adds-then :
    (is js : List Instruction) (s d e : Lowerer) → Adds is s d → Adds js d e → Adds (is ++ js) s e
Adds-then is js s d e a b = record {
  there = a.there;
  same = ap {A = Lowerer} (λ x. record x { blocks = s.blocks }) b.same ∙ a.same;
  count = b.count ∙ a.count;
  added = λ j.
      b.added j
      ∙ ap (λ x. x ++ (if j == d.current_block then js else [])) (a.added j)
      ∙ append_assoc (instrs_at j s.blocks) (if j == s.current_block then is else [])
          (if j == d.current_block then js else [])
      ∙ ap
          (λ k.
            instrs_at j s.blocks
            ++ ((if j == s.current_block then is else []) ++ (if j == k then js else [])))
          (ap Lowerer.current_block a.same)
      ∙ ap (λ x. instrs_at j s.blocks ++ x) (both (j == s.current_block));
}
  where
    both :
        (b : Bool) → (if b then is else []) ++ (if b then js else []) ≡ (if b then is ++ js else [])
    both true = refl
    both false = refl

pub emit_frees-Adds :
    (rs : List RegId) (s : Lowerer)
    → s.current_block < length s.blocks
    → Gives (λ _ d. Adds (frees_of rs) s d) (emit_frees rs s)
unfolding emit_frees frees_of
emit_frees-Adds [] s lt = done (record {
  there = lt;
  same = refl;
  count = refl;
  added = λ j. nothing (instrs_at j s.blocks) (j == s.current_block);
})
  where
    nothing : (is : List Instruction) (b : Bool) → is ≡ is ++ (if b then [] else [])
    nothing is true = sym (append-nil is)
    nothing is false = sym (append-nil is)
emit_frees-Adds (r ∷ rs) s lt =
    Gives-and_then (emit_frees rs s) _ (emit_frees-Adds rs s lt) λ _ d a.
      Gives-map (λ _ e b. Adds-then (frees_of rs) (Instruction.table_free r ∷ []) s d e a b)
        (emit-Adds (Instruction.table_free r) d (
          let l = a.count in
          let k = ap Lowerer.current_block a.same in let lt = a.there in omega arith))
