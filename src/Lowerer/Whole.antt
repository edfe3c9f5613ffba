-- ===== src/Lowerer/Whole.antt =====
-- `lower_program` of src/lowerer.rs: what holds of the blocks that a program gives.
use glm.Prelude.{
  ℕ, ◌^◌, suc, zero, ◌≤◌, ◌<◌, ◌≡◌, refl, ap, sym, subst, ◌∙◌, arith, true, false, not, ◌&&◌, none,
  some, List, [], ◌∷◌, ◌==◌, length,
}
use glm.Syntax.{Stmts}
use glm.Ir.{BlockId, RegId, halt, BasicBlock, new_basic_block}
use glm.Lowerer.State.{Facts, Lowerer, LowerError, Lowered, ok, err, panicked, terminate}
use glm.Lowerer.Stmt.{new_lowerer, Lowering, is_open, halt_open, finish, lower_rest, lower_program}
use glm.Lowerer.Blocks.{hits, writes, writes_in, unterminated, open_at, GoesBelow, AllBelow}
use glm.Lowerer.Steps.{Post, gives, Post-map, fresh, Grows-refl}
use glm.Lowerer.Flow.{Ready, Step, Ready-Step, terminate-Mid}
use glm.Lowerer.Program.{lower_block-Spec}

-- Every block has a terminator, every terminator goes to a block, and no register is written twice.
pub record Closed (bs : List BasicBlock) : Type 0 where
  pub ended : (i : BlockId) → open_at i bs ≡ false
  pub inside : AllBelow (length bs) bs
  pub once : (r : RegId) → writes r bs ≤ 1

open_at-is_open :
    (i : BlockId) (bs : List BasicBlock) → open_at i bs ≡ true → is_open i bs ≡ some true
unfolding open_at unterminated
open_at-is_open i [] h = cc
open_at-is_open zero (b ∷ bs) h = ap some h
open_at-is_open (suc i) (b ∷ bs) h = open_at-is_open i bs h

new_lowerer-Ready : Ready new_lowerer
unfolding new_lowerer new_basic_block open_at unterminated
new_lowerer-Ready = refl

only_entry :
    (i : BlockId) → open_at i new_lowerer.blocks && not (i == new_lowerer.current_block) ≡ false
unfolding new_lowerer new_basic_block open_at unterminated
only_entry zero = refl
only_entry (suc i) = refl

-- The last block of the program is ended by a halt.
halt-Closed :
    (s : Lowerer)
    → Step none new_lowerer s
    → Post (λ _ d. d.free_reg ≤ 2 ^ 32 → Closed d.blocks) (terminate halt s)
unfolding new_lowerer new_basic_block writes writes_in hits fresh AllBelow GoesBelow
halt-Closed s x =
    Post-map
      (λ _ d m lim. record {
        ended = λ i. let a = x.opens i in let b = only_entry i in m.opens i ∙ ground arith;
        inside = m.grows.sound (tt, tt);
        once = λ r. let c = m.grows.counts lim r in ground arith;
      })
      (terminate-Mid new_lowerer 0 s.current_block (λ j. open_at j s.blocks) halt s tt
        (record { grows = x.grows; room = omega arith; here = refl; opens = λ j. refl }))

same_lowering : {a b : Lowering} → some a ≡ some b → a ≡ b
same_lowering h = cc

finish-diagnostics :
    (ds : List LowerError) (p : Lowering) (r : Lowered (Unit {0}))
    → finish ds r ≡ some p
    → ds ≡ p.diagnostics
unfolding finish
finish-diagnostics ds p (ok a d) h = ap Lowering.diagnostics (same_lowering h)
finish-diagnostics ds p (err e d) h = cc
finish-diagnostics ds p panicked h = cc

-- What holds of the blocks however the halt leaves them, where the program is lowered without an error.
module _ (P : ℕ → List BasicBlock → Type 0) where
  finish-Post :
      (p : Lowering) (r : Lowered (Unit {0}))
      → Post (λ _ d. P d.free_reg d.blocks) r
      → finish [] r ≡ some p
      → P p.registers p.blocks
  unfolding finish
  finish-Post p (ok a d) (gives c) h = subst (λ q. P (q.registers) (q.blocks)) (same_lowering h) c
  finish-Post p (err e d) c h = cc
  finish-Post p panicked c h = cc

  pub rest-Post :
      (s : Lowerer) (p : Lowering) (r : Lowered (Unit {0}))
      → ((d : Lowerer) → Step none s d → Post (λ _ e. P e.free_reg e.blocks) (terminate halt d))
      → Post (λ _ d. Step none s d) r
      → lower_rest r ≡ some p
      → p.diagnostics ≡ []
      → P p.registers p.blocks
  unfolding lower_rest halt_open
  rest-Post s p (ok a d) halts (gives x) h clean = finish-Post p (terminate halt d) (halts d x) (
      sym (
        ap (λ o. finish [] (halt_open o d))
          (open_at-is_open d.current_block d.blocks (Ready-Step s d x)))
      ∙ h)
  rest-Post s p (err e d) halts _ h clean =
      let same = finish-diagnostics (e ∷ []) p (halt_open (is_open d.current_block d.blocks) d) h in
      cc
  rest-Post s p panicked halts _ h clean = cc

-- A program that is lowered without an error and with at most 2 ^ 32 registers: every block has a
-- terminator, every terminator goes to blocks of the program, and no register is the target of two
-- instructions.
pub lower_program-Closed :
    (facts : Facts) (ss : Stmts) (p : Lowering)
    → lower_program facts ss ≡ some p
    → p.diagnostics ≡ []
    → p.registers ≤ 2 ^ 32
    → Closed p.blocks
unfolding lower_program
lower_program-Closed facts ss p h clean lim =
    rest-Post (λ n bs. n ≤ 2 ^ 32 → Closed bs) new_lowerer p _ halt-Closed
      (lower_block-Spec facts [] 0 ss new_lowerer new_lowerer-Ready) h clean lim

-- A halt writes no register that was given out.
pub halt-writes :
    (s : Lowerer) (r : RegId)
    → r < s.free_reg
    → Post
        (λ _ d.
          (s.free_reg ≤ d.free_reg) × (d.free_reg ≤ 2 ^ 32 → writes r d.blocks ≤ writes r s.blocks))
        (terminate halt s)
unfolding hits fresh GoesBelow
halt-writes s r lt =
    Post-map (λ _ d m. (m.grows.regs, λ lim. let c = m.grows.counts lim r in ground arith))
      (terminate-Mid s 0 s.current_block (λ j. open_at j s.blocks) halt s tt
        (record { grows = Grows-refl s; room = omega arith; here = refl; opens = λ j. refl }))
