-- ===== src/Lowerer/Blocks.antt =====
-- The blocks of src/lowerer.rs: how often a register is written, which blocks are open, where they go.
use glm.Prelude.{
  ℕ, suc, zero, ◌+◌, ◌≤◌, ◌<◌, ◌≡◌, refl, ap, subst, ◌∙◌, arith, Bool, true, false, not, ◌&&◌, ◌||◌,
  Option, none, some, List, [], ◌∷◌, ◌++◌, ◌==◌, if◌then◌else◌, length,
}
use glm.Ir.{
  BlockId, RegId, Terminator, jump, branch, halt, Instruction, phi, sys_alloc_count, BasicBlock,
  new_basic_block, def_reg,
}
use glm.Lowerer.State.{Local, change_block}
use glm.Lowerer.Loop.{back_phi, is_phi_of, patch}

-- The register that an instruction writes.
unfoldable pub target_of : Instruction → Option RegId
target_of (sys_alloc_count r) = some r
target_of i = def_reg i

unfoldable pub hits : RegId → Option RegId → ℕ
hits r none = 0
hits r (some q) = if q == r then 1 else 0

unfoldable pub writes_in : RegId → List Instruction → ℕ
writes_in r [] = 0
writes_in r (i ∷ is) = hits r (target_of i) + writes_in r is

-- How many instructions write the register.
unfoldable pub writes : RegId → List BasicBlock → ℕ
writes r [] = 0
writes r (b ∷ bs) = writes_in r b.instrs + writes r bs

unfoldable pub unterminated : Option Terminator → Bool
unterminated none = true
unterminated (some _) = false

-- A block of that number without a terminator.
unfoldable pub open_at : BlockId → List BasicBlock → Bool
open_at i [] = false
open_at zero (b ∷ bs) = unterminated b.terminator
open_at (suc i) (b ∷ bs) = open_at i bs

-- The terminator goes to blocks below `n`.
unfoldable pub GoesBelow : ℕ → Option Terminator → Type 0
GoesBelow n none = Unit
GoesBelow n (some (jump b)) = b < n
GoesBelow n (some (branch r b c)) = (b < n) × (c < n)
GoesBelow n (some halt) = Unit

unfoldable pub AllBelow : ℕ → List BasicBlock → Type 0
AllBelow n [] = Unit
AllBelow n (b ∷ bs) = GoesBelow n b.terminator × AllBelow n bs

pub GoesBelow-mono : (m n : ℕ) (t : Option Terminator) → m ≤ n → GoesBelow m t → GoesBelow n t
unfolding GoesBelow
GoesBelow-mono m n none le h = tt
GoesBelow-mono m n (some (jump b)) le h = omega arith
GoesBelow-mono m n (some (branch r b c)) le h = (omega arith, omega arith)
GoesBelow-mono m n (some halt) le h = tt

pub AllBelow-mono : (m n : ℕ) (bs : List BasicBlock) → m ≤ n → AllBelow m bs → AllBelow n bs
unfolding AllBelow
AllBelow-mono m n [] le h = tt
AllBelow-mono m n (b ∷ bs) le h =
    (GoesBelow-mono m n b.terminator le h.0, AllBelow-mono m n bs le h.1)

pub writes_in-append :
    (r : RegId) (is : List Instruction) (i : Instruction)
    → writes_in r (is ++ (i ∷ [])) ≡ hits r (target_of i) + writes_in r is
unfolding writes_in
writes_in-append r [] i = omega arith
writes_in-append r (j ∷ is) i = let ih = writes_in-append r is i in omega arith

pub writes-append :
    (r : RegId) (bs cs : List BasicBlock) → writes r (bs ++ cs) ≡ writes r bs + writes r cs
unfolding writes
writes-append r [] cs = omega arith
writes-append r (b ∷ bs) cs = let ih = writes-append r bs cs in omega arith

pub AllBelow-append :
    (n : ℕ) (bs cs : List BasicBlock) → AllBelow n bs → AllBelow n cs → AllBelow n (bs ++ cs)
unfolding AllBelow
AllBelow-append n [] cs h k = k
AllBelow-append n (b ∷ bs) cs h k = (h.0, AllBelow-append n bs cs h.1 k)

-- A new block is open, the others are as they were.
pub open_at-new :
    (i k : BlockId) (bs : List BasicBlock)
    → open_at i (bs ++ (new_basic_block k ∷ [])) ≡ open_at i bs || i == length bs
unfolding open_at unterminated new_basic_block
open_at-new zero k [] = ground arith
open_at-new (suc i) k [] = ground arith
open_at-new zero k (b ∷ bs) = ground arith
open_at-new (suc i) k (b ∷ bs) = open_at-new i k bs ∙ ground arith

pub open_at-lt : (i : BlockId) (bs : List BasicBlock) → open_at i bs ≡ true → i < length bs
unfolding open_at
open_at-lt i [] h = cc
open_at-lt zero (b ∷ bs) h = omega arith
open_at-lt (suc i) (b ∷ bs) h = let lt = open_at-lt i bs h in omega arith

pub open_at-end : (bs : List BasicBlock) → open_at (length bs) bs ≡ false
unfolding open_at
open_at-end [] = refl
open_at-end (b ∷ bs) = open_at-end bs

-- A block that is changed in place.
pub data Changed (f : BasicBlock → BasicBlock)
    : BlockId → List BasicBlock → List BasicBlock → Type 0 where
  here : {b : BasicBlock} {bs : List BasicBlock} → Changed f zero (b ∷ bs) (f b ∷ bs)
  there :
      {i : BlockId} {bs cs : List BasicBlock} (b : BasicBlock)
      → Changed f i bs cs
      → Changed f (suc i) (b ∷ bs) (b ∷ cs)

module _ (f : BasicBlock → BasicBlock) where
  pub change_block-Changed :
      (i : BlockId) (bs cs : List BasicBlock) → change_block f i bs ≡ some cs → Changed f i bs cs
  unfolding change_block
  change_block-Changed i [] cs h = cc
  change_block-Changed zero (b ∷ bs) cs h = subst (Changed f zero (b ∷ bs)) (same h) here
    where
      same : {xs ys : List BasicBlock} → some xs ≡ some ys → xs ≡ ys
      same h = cc
  change_block-Changed (suc i) (b ∷ bs) cs h =
      later (change_block f i bs) (change_block-Changed i bs) h
    where
      same : {xs ys : List BasicBlock} → some xs ≡ some ys → xs ≡ ys
      same h = cc

      later :
          (o : Option (List BasicBlock))
          → ((ds : List BasicBlock) → o ≡ some ds → Changed f i bs ds)
          → elim o [ none ↦ none | some ds ↦ some (b ∷ ds) ] ≡ some cs
          → Changed f (suc i) (b ∷ bs) cs
      later none ih h = cc
      later (some ds) ih h = subst (Changed f (suc i) (b ∷ bs)) (same h) (there b (ih ds refl))

  pub length-Changed :
      {i : BlockId} {bs cs : List BasicBlock} → Changed f i bs cs → length cs ≡ length bs
  length-Changed here = refl
  length-Changed (there b c) = ap suc (length-Changed c)

  pub writes-Changed :
      (r : RegId) (k : ℕ)
      → ((b : BasicBlock) → writes_in r (f b).instrs ≡ k + writes_in r b.instrs)
      → {i : BlockId} {bs cs : List BasicBlock} → Changed f i bs cs
      → writes r cs ≡ k + writes r bs
  unfolding writes
  writes-Changed r k h (here {b}) = let e = h b in omega arith
  writes-Changed r k h (there b c) = let e = writes-Changed r k h c in omega arith

  pub open_at-Changed :
      ((b : BasicBlock) → unterminated (f b).terminator ≡ unterminated b.terminator)
      → {i : BlockId} {bs cs : List BasicBlock} (j : BlockId) → Changed f i bs cs
      → open_at j cs ≡ open_at j bs
  unfolding open_at
  open_at-Changed h zero (here {b}) = h b
  open_at-Changed h (suc j) here = refl
  open_at-Changed h zero (there b c) = refl
  open_at-Changed h (suc j) (there b c) = open_at-Changed h j c

  pub open_at-closed :
      ((b : BasicBlock) → unterminated (f b).terminator ≡ false)
      → {i : BlockId} {bs cs : List BasicBlock} (j : BlockId) → Changed f i bs cs
      → open_at j cs ≡ open_at j bs && not (j == i)
  unfolding open_at
  open_at-closed h zero (here {b}) = h b ∙ ground arith
  open_at-closed h (suc j) here = ground arith
  open_at-closed h zero (there b c) = ground arith
  open_at-closed h (suc j) (there b c) = open_at-closed h j c ∙ ground arith

  pub AllBelow-Changed :
      (n : ℕ)
      → ((b : BasicBlock) → GoesBelow n b.terminator → GoesBelow n (f b).terminator)
      → {i : BlockId} {bs cs : List BasicBlock} → Changed f i bs cs
      → AllBelow n bs
      → AllBelow n cs
  unfolding AllBelow
  AllBelow-Changed n h (here {b}) all = (h b all.0, all.1)
  AllBelow-Changed n h (there b c) all = (all.0, AllBelow-Changed n h c all.1)

target_of-back_phi :
    (r : RegId) (from : BlockId) (l : Local) (i : Instruction)
    → target_of (back_phi r from l i) ≡ target_of i
unfolding target_of back_phi def_reg
target_of-back_phi r from l (phi q t args) = ground arith
target_of-back_phi r from l i = refl

-- A phi that is patched writes the register that it wrote.
pub writes_in-patch :
    (q r : RegId) (from : BlockId) (l : Local) (is : List Instruction)
    → writes_in q (patch r from l is) ≡ writes_in q is
unfolding writes_in patch
writes_in-patch q r from l [] = refl
writes_in-patch q r from l (i ∷ is) =
    let ih = writes_in-patch q r from l is in
    let same = target_of-back_phi r from l i in
    elim (is_phi_of r i)
      as (λ b.
        writes_in q (if b then back_phi r from l i ∷ is else i ∷ patch r from l is)
        ≡ hits q (target_of i) + writes_in q is) [
          | true ↦ ap (λ t. hits q t + writes_in q is) same
          | false ↦ ap (λ n. hits q (target_of i) + n) ih
        ]
