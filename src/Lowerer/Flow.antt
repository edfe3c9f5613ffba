-- ===== src/Lowerer/Flow.antt =====
-- The blocks that are open while an action of src/lowerer.rs runs, and the steps that leave one open.
use glm.Prelude.{
  ◌%◌, ◌^◌, ℕ, suc, ◌+◌, ◌≤◌, ◌≡◌, refl, ap, sym, subst, ◌∙◌, arith, Bool, true, false, not, ◌&&◌,
  ◌||◌, Option, none, some, List, [], ◌∷◌, ◌==◌, length, length-append,
}
use glm.Ir.{BlockId, RegId, Terminator, Instruction, BasicBlock, new_basic_block}
use glm.Lowerer.State.{
  Lowerer, Lower, new_block, emit, terminate, change_block, put_blocks, push_instr, set_terminator,
}
use glm.Lowerer.Blocks.{
  target_of, hits, writes_in, writes, unterminated, open_at, GoesBelow, AllBelow, GoesBelow-mono,
  AllBelow-mono, writes_in-append, writes-append, AllBelow-append, open_at-new, open_at-end,
  Changed, change_block-Changed, length-Changed, writes-Changed, open_at-Changed, open_at-closed,
  AllBelow-Changed,
}
use glm.Lowerer.Steps.{Post, gives, panics, Post-map, Grows, Grows-then, Grows-next}

-- Since `s`: the program has at least `n` blocks, `c` is the current one, and `f` tells the open ones.
pub record Mid (t : Option RegId) (s : Lowerer) (n : ℕ) (c : BlockId) (f : BlockId → Bool)
    (d : Lowerer) : Type 0 where
  pub grows : Grows t s d
  pub room : n ≤ length d.blocks
  pub here : d.current_block ≡ c
  pub opens : (i : BlockId) → open_at i d.blocks ≡ f i

-- The current block is open.
abbrev pub Ready : Lowerer → Type 0
Ready s = open_at s.current_block s.blocks ≡ true

-- A whole step: of the blocks that were there only the current one is closed, unless it stays current, and
-- of the new ones only the new current block is open.
pub record Step (t : Option RegId) (s d : Lowerer) : Type 0 where
  pub grows : Grows t s d
  pub opens :
      (i : BlockId)
      → open_at i d.blocks
        ≡ i == d.current_block || (open_at i s.blocks && not (i == s.current_block))
  pub moved : d.current_block == s.current_block || not (open_at d.current_block s.blocks) ≡ true

abbrev pub Spec : {A : Type 0} → Option RegId → Lower A → Type 0
Spec t m = (s : Lowerer) → Ready s → Post (λ _ d. Step t s d) (m s)

pub Ready-Step : {t : Option RegId} (s d : Lowerer) → Step t s d → Ready d
Ready-Step s d x = x.opens d.current_block ∙ ground arith

pub put-Post :
    (P : Unit {0} → Lowerer → Type 0) (s : Lowerer) (o : Option (List BasicBlock))
    → ((bs : List BasicBlock) → o ≡ some bs → P tt (record s { blocks = bs }))
    → Post P (put_blocks s o)
unfolding put_blocks
put-Post P s none h = panics
put-Post P s (some bs) h = gives (h bs refl)

-- What pushing an instruction does to the registers and the blocks.
emit-Grows :
    (i : Instruction) (d : Lowerer) (bs : List BasicBlock)
    → Changed (push_instr i) d.current_block d.blocks bs
    → Grows (target_of i) d (record d { blocks = bs })
unfolding push_instr
emit-Grows i d bs c = record {
  regs = omega arith;
  counts = λ lim r.
      let e =
        writes-Changed (push_instr i) r (hits r (target_of i)) (λ b. writes_in-append r b.instrs i)
          c in
      omega arith;
  grown = let l = length-Changed (push_instr i) c in omega arith;
  sound = λ h.
      AllBelow-mono (length d.blocks) (length bs) bs
        (let l = length-Changed (push_instr i) c in omega arith)
        (AllBelow-Changed (push_instr i) (length d.blocks) (λ b x. x) c h);
}

module _ (s : Lowerer) (n : ℕ) (c : BlockId) (f : BlockId → Bool) where
  pub emit-Mid :
      (i : Instruction) (d : Lowerer)
      → Mid none s n c f d
      → Post (λ _ e. Mid (target_of i) s n c f e) (emit i d)
  unfolding emit push_instr
  emit-Mid i d m = put-Post _ d (change_block (push_instr i) d.current_block d.blocks) λ bs h.
      let ch = change_block-Changed (push_instr i) d.current_block d.blocks bs h in
      record {
        grows = Grows-then (target_of i) s d _ m.grows (emit-Grows i d bs ch);
        room = let l = length-Changed (push_instr i) ch in let r = m.room in omega arith;
        here = m.here;
        opens = λ j. open_at-Changed (push_instr i) (λ b. refl) j ch ∙ m.opens j;
      }

  -- An instruction that writes the register that was just given out.
  pub emit-Mid-next :
      (i : Instruction) (d : Lowerer)
      → target_of i ≡ some (d.free_reg % 2 ^ 32)
      → Mid none s n c f d
      → Post (λ _ e. Mid none s n c f e) (emit i (record d { free_reg = d.free_reg + 1 }))
  unfolding emit push_instr
  emit-Mid-next i d new m =
      put-Post _ (record d { free_reg = d.free_reg + 1 })
        (change_block (push_instr i) d.current_block d.blocks)
        λ bs h.
          let ch = change_block-Changed (push_instr i) d.current_block d.blocks bs h in
          record {
            grows = Grows-then none s d _ m.grows (
                Grows-next d (record d { free_reg = d.free_reg + 1 }) _ refl refl
                  (subst
                    (λ t.
                      Grows t (record d { free_reg = d.free_reg + 1 })
                        (record d { free_reg = d.free_reg + 1; blocks = bs }))
                    new (emit-Grows i (record d { free_reg = d.free_reg + 1 }) bs ch)));
            room = let l = length-Changed (push_instr i) ch in let r = m.room in omega arith;
            here = m.here;
            opens = λ j. open_at-Changed (push_instr i) (λ b. refl) j ch ∙ m.opens j;
          }

  pub terminate-Mid :
      (t : Terminator) (d : Lowerer)
      → GoesBelow n (some t)
      → Mid none s n c f d
      → Post (λ _ e. Mid none s n c (λ j. f j && not (j == c)) e) (terminate t d)
  unfolding terminate set_terminator unterminated
  terminate-Mid t d goes m =
      put-Post _ d (change_block (set_terminator t) d.current_block d.blocks) λ bs h.
        let ch = change_block-Changed (set_terminator t) d.current_block d.blocks bs h in
        let l = length-Changed (set_terminator t) ch in
        let r = m.room in
        record {
          grows = Grows-then none s d _ m.grows (record {
            regs = omega arith;
            counts = λ lim q.
                let e = writes-Changed (set_terminator t) q 0 (λ b. omega arith) ch in omega arith;
            grown = omega arith;
            sound = λ x. AllBelow-mono (length d.blocks) (length bs) bs (omega arith) (
                AllBelow-Changed (set_terminator t) (length d.blocks)
                  (λ b _. GoesBelow-mono n (length d.blocks) (some t) r goes) ch x);
          });
          room = omega arith;
          here = m.here;
          opens = λ j.
              open_at-closed (set_terminator t) (λ b. refl) j ch
              ∙ ap (λ b. b && not (j == d.current_block)) (m.opens j)
              ∙ ap (λ k. f j && not (j == k)) m.here;
        }

  -- A new block has the next number, which no open block has, and is open.
  pub new_block-Mid :
      (d : Lowerer)
      → Mid none s n c f d
      → Post
          (λ k e. Mid none s (suc k) c (λ j. f j || j == k) e × (n ≤ k) × (f k ≡ false))
          (new_block d)
  unfolding new_block new_basic_block writes writes_in AllBelow GoesBelow
  new_block-Mid d m =
      let more = length-append {0} d.blocks (new_basic_block (length d.blocks) ∷ []) in
      gives (
        record {
          grows = Grows-then none s d _ m.grows (record {
            regs = omega arith;
            counts = λ lim q.
                let e = writes-append q d.blocks (new_basic_block (length d.blocks) ∷ []) in
                omega arith;
            grown = omega arith;
            sound = λ x.
                AllBelow-append _ d.blocks (new_basic_block (length d.blocks) ∷ [])
                  (AllBelow-mono (length d.blocks) _ d.blocks (omega arith) x) (tt, tt);
          });
          room = omega arith;
          here = m.here;
          opens = λ j.
              open_at-new j (length d.blocks) d.blocks
              ∙ ap (λ b. b || j == length d.blocks) (m.opens j);
        },
        m.room,
        sym (m.opens (length d.blocks)) ∙ open_at-end d.blocks,
      )

  -- A step from an open current block.
  pub step-Mid :
      {A : Type 0} (t : Option RegId) (m : Lower A) (d : Lowerer)
      → Spec t m
      → Mid none s n c f d
      → f c ≡ true
      → Post
          (λ _ e.
            (k : BlockId) × Mid t s n k (λ j. j == k || (f j && not (j == c))) e
            × (k == c || not (f k) ≡ true))
          (m d)
  step-Mid t m d spec mid ready =
      Post-map
        (λ a e x. (
          e.current_block,
          record {
            grows = Grows-then t s d e mid.grows x.grows;
            room = let r = mid.room in let g = x.grows.grown in omega arith;
            here = refl;
            opens = λ j.
                x.opens j
                ∙ ap (λ b. j == e.current_block || (b && not (j == d.current_block))) (mid.opens j)
                ∙ ap (λ k. j == e.current_block || (f j && not (j == k))) mid.here;
          },
          ap (λ k. e.current_block == k || not (f e.current_block)) (sym mid.here)
              ∙ ap (λ b. e.current_block == d.current_block || not b)
                  (sym (mid.opens e.current_block))
              ∙ x.moved,
        ))
        (spec d (ap (λ k. open_at k d.blocks) mid.here ∙ mid.opens c ∙ ready))
