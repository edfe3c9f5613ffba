-- ===== src/Lowerer/Steps.antt =====
-- What an action of src/lowerer.rs does to registers and blocks, and how actions are put together.
use glm.Prelude.{
  ℕ, ◌%◌, ◌^◌, ◌+◌, ◌≤◌, ◌≡◌, ap, sym, subst, arith, ◌&&◌, Option, none, some, leb, ltb,
  if◌then◌else◌, length,
}
use glm.Ir.{RegId}
use glm.Lowerer.State.{Lowerer, LowerError, Lowered, ok, err, panicked, Lower, and_then}
use glm.Lowerer.Blocks.{hits, writes, AllBelow}

-- What holds of the value and the state that an action gives, if it does not fail.
pub data Post {A : Type 0} (P : A → Lowerer → Type 0) : Lowered A → Type 0 where
  gives : {a : A} {s : Lowerer} → P a s → Post P (ok a s)
  fails : {e : LowerError} {s : Lowerer} → Post P (err e s)
  panics : Post P panicked

pub Post-and_then :
    {A B : Type 0} {P : A → Lowerer → Type 0} {R : B → Lowerer → Type 0} (r : Lowered A)
    (k : A → Lower B)
    → Post P r
    → ((a : A) (s : Lowerer) → P a s → Post R (k a s))
    → Post R (and_then r k)
unfolding and_then
Post-and_then r k (gives {a} {s} p) h = h a s p
Post-and_then r k fails h = fails
Post-and_then r k panics h = panics

pub Post-map :
    {A : Type 0} {P R : A → Lowerer → Type 0} {r : Lowered A}
    → ((a : A) (s : Lowerer) → P a s → R a s)
    → Post P r
    → Post R r
Post-map h (gives p) = gives (h _ _ p)
Post-map h fails = fails
Post-map h panics = panics

-- One for a register that is given out between the two states.
unfoldable pub fresh : ℕ → ℕ → RegId → ℕ
fresh a b r = if leb a r && ltb r b then 1 else 0

-- Registers are given out upwards. Unless there are more than 32 bits count, each is written at most once
-- more where it is new or is the target `t`, and the others are not written. Blocks are added, and no terminator leaves the program.
pub record Grows (t : Option RegId) (s d : Lowerer) : Type 0 where
  pub regs : s.free_reg ≤ d.free_reg
  pub counts :
      d.free_reg ≤ 2 ^ 32
      → (r : RegId)
      → writes r d.blocks ≤ writes r s.blocks + fresh s.free_reg d.free_reg r + hits r t
  pub grown : length s.blocks ≤ length d.blocks
  pub sound : AllBelow (length s.blocks) s.blocks → AllBelow (length d.blocks) d.blocks

pub fresh-split : (a b c : ℕ) (r : RegId) → a ≤ b → b ≤ c → fresh a b r + fresh b c r ≡ fresh a c r
unfolding fresh
fresh-split a b c r p q = ground arith

pub Grows-refl : (s : Lowerer) → Grows none s s
Grows-refl s = record {
  regs = omega arith;
  counts = λ lim r. omega arith;
  grown = omega arith;
  sound = λ h. h;
}

pub Grows-weaken : (t : Option RegId) (s d : Lowerer) → Grows none s d → Grows t s d
unfolding hits
Grows-weaken t s d g = record {
  regs = g.regs;
  counts = λ lim r. let c = g.counts lim r in omega arith;
  grown = g.grown;
  sound = g.sound;
}

pub Grows-then : (t : Option RegId) (s d e : Lowerer) → Grows none s d → Grows t d e → Grows t s e
unfolding hits
Grows-then t s d e g h = record {
  regs = let a = g.regs in let b = h.regs in omega arith;
  counts = λ lim r.
      let above = h.regs in
      let a = g.counts (omega arith) r in
      let b = h.counts lim r in
      let c = fresh-split s.free_reg d.free_reg e.free_reg r g.regs h.regs in omega arith;
  grown = let a = g.grown in let b = h.grown in omega arith;
  sound = λ x. h.sound (g.sound x);
}

pub Grows-before : (t : Option RegId) (s d e : Lowerer) → Grows t s d → Grows none d e → Grows t s e
unfolding hits
Grows-before t s d e g h = record {
  regs = let a = g.regs in let b = h.regs in omega arith;
  counts = λ lim r.
      let above = h.regs in
      let a = g.counts (omega arith) r in
      let b = h.counts lim r in
      let c = fresh-split s.free_reg d.free_reg e.free_reg r g.regs h.regs in omega arith;
  grown = let a = g.grown in let b = h.grown in omega arith;
  sound = λ x. h.sound (g.sound x);
}

-- The register that is given out first may be written like a target.
pub Grows-next :
    (s d e : Lowerer)
    → d.free_reg ≡ s.free_reg + 1
    → d.blocks ≡ s.blocks
    → Grows (some (s.free_reg % 2 ^ 32)) d e
    → Grows none s e
unfolding hits fresh
Grows-next s d e next same g = record {
  regs = let a = g.regs in omega arith;
  counts = λ lim r.
      let a = g.regs in
      let c = g.counts lim r in
      let w = ap (writes r) same in
      let kept : s.free_reg % 2 ^ 32 ≡ s.free_reg = omega arith in
      let target = ap (λ k. hits r (some k)) kept in ground arith;
  grown = let a = g.grown in let l = ap length same in omega arith;
  sound = λ x. g.sound (subst (λ bs. AllBelow (length bs) bs) (sym same) x);
}
