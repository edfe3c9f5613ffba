-- ===== src/Lowerer/Control.antt =====
-- `if` and `while` of src/lowerer.rs are whole steps where their bodies are.
use Prim.Native.String.{String}
use glm.Prelude.{ℕ, suc, refl, arith, Bool, not, ◌&&◌, Option, none, some, List, ◌==◌}
use glm.Syntax.{Expr, Stmts}
use glm.Ir.{BlockId, Terminator, jump, branch}
use glm.Lowerer.State.{Facts, Local, Lowerer, Lower, ◌>>◌, and_then, terminate}
use glm.Lowerer.Names.{find_mutated_vars}
use glm.Lowerer.Order.{phi_order, Conversion, conversion}
use glm.Lowerer.Loop.{
  put_all_scopes, reserve_ahead, open_phis, loop_condition, pop_ctx, open_ctx, lower_arm,
  close_phis, rebind_phis, lower_loop, lower_while,
}
use glm.Lowerer.Stmt.{read_order, lower_if}
use glm.Lowerer.Blocks.{open_at, GoesBelow}
use glm.Lowerer.Steps.{Post, gives, Post-and_then}
use glm.Lowerer.Flow.{Mid, Ready, Step, Spec}
use glm.Lowerer.Rules.{Spec-bind}
use glm.Lowerer.Arms.{
  Mid-start, Mid-enter, Mid-same, three, New, New-apart, distinct, blocks-Mid, third-Step,
  Spec-tail,
}
use glm.Lowerer.Exprs.{lower_expr-Spec}
use glm.Lowerer.Runs.{Run, Run-start, Run-step, Run-terminate, Run-arm, Spec-Steady, Mid-Steady}
use glm.Lowerer.Branches.{
  phi_order-Steady, reserve_ahead-Spec, open_phis-Spec, loop_condition-Spec, open_ctx-Steady,
  pop_ctx-Steady, close_phis-Steady, rebind_phis-Steady, read_order-Steady, join_phis-Spec,
}

-- The terminator that ends a run, and what follows.
terminate-Run :
    {A : Type 0} (s : Lowerer) (n : ℕ) (v : BlockId) (f : BlockId → Bool) (t : Terminator)
    (k : Lower A) (P : A → Lowerer → Type 0) (d : Lowerer)
    → GoesBelow n (some t)
    → Run s n v f d
    → ((x : BlockId) (e : Lowerer) → Mid none s n x (λ j. f j && not (j == v)) e → Post P (k e))
    → Post P ((terminate t >> k) d)
terminate-Run s n v f t k P d goes run h =
    Post-and_then (terminate t d) _ (Run-terminate s n v f t d goes run) (λ _ e (x, m). h x e m)

module _ (facts : Facts) (e : Expr) (h b k : BlockId) (order : List (String × Local))
    (conv : Option Conversion) (body : Lower (Unit {0})) (spec : Spec none body) where
  -- The loop, where its header, its body and what follows it are new blocks.
  lower_loop-Post :
      (s d : Lowerer)
      → Ready s
      → New (λ j. open_at j s.blocks) h b k
      → (p : BlockId) → Run s (suc k) s.current_block (three (λ j. open_at j s.blocks) h b k) d
      → Post (λ _ x. Step none s x) (lower_loop facts e p h b k order conv body d)
  unfolding lower_loop and_then GoesBelow
  lower_loop-Post s d ready new p run =
      let o : BlockId → Bool = λ j. open_at j s.blocks in
      let c = s.current_block in
      let f : BlockId → Bool = λ j. three o h b k j && not (j == c) in
      let g : BlockId → Bool = λ j. f j && not (j == h) in
      let (free_b, free_k, k_h, k_b) = New-apart o h b k new in
      let free_h = new.first in
      let h_c = distinct o h c free_h ready in
      let b_c = distinct o b c free_b ready in
      let second = new.second in
      Post-and_then (reserve_ahead facts conv d) _
        (Run-step s (suc k) c (three o h b k) _ d (reserve_ahead-Spec facts conv) run)
        λ bound d₁ r₁.
          terminate-Run s (suc k) c (three o h b k) (jump h) _ _ d₁ new.below.0 r₁ λ x d₂ m₂.
            Post-and_then (open_phis p order (record d₂ { current_block = h })) _
              (Run-step s (suc k) h f _ _ (open_phis-Spec p order)
                (Run-start s (suc k) h f _ (ground arith) (Mid-enter s (suc k) x h f d₂ m₂)))
              λ phis d₃ r₃.
                Post-and_then (loop_condition facts e conv bound d₃) _
                  (Run-step s (suc k) h f _ d₃ (loop_condition-Spec facts e conv bound) r₃)
                  λ q d₄ r₄.
                    terminate-Run s (suc k) h f (branch q b k) _ _ d₄ (new.below.1, omega arith) r₄
                      λ y d₅ m₅.
                        Post-and_then (open_ctx conv bound d₅) _
                          (Mid-Steady s (suc k) y g _ d₅ (open_ctx-Steady conv bound) m₅)
                          λ _ d₆ m₆.
                            Post-and_then (lower_arm b body d₆) _
                              (Run-arm s (suc k) b g y body d₆ spec (ground arith) m₆)
                              λ _ d₇ r₇.
                                Post-and_then (pop_ctx conv d₇) _
                                  (Run-step s (suc k) b g _ d₇ (Spec-Steady _ (pop_ctx-Steady conv))
                                    r₇)
                                  λ _ d₈ r₈.
                                    terminate-Run s (suc k) b g (jump h) _ _ d₈ new.below.0 r₈
                                      λ z d₉ m₉.
                                        Post-and_then (close_phis h d₈.current_block phis d₉) _
                                          (Mid-Steady s (suc k) z (λ j. g j && not (j == b)) _ d₉
                                            (close_phis-Steady h d₈.current_block phis) m₉)
                                          λ _ d₁₀ m₁₀.
                                            Post-and_then (rebind_phis phis d₁₀) _
                                              (Mid-Steady s (suc k) z (λ j. g j && not (j == b)) _
                                                d₁₀ (rebind_phis-Steady phis) m₁₀)
                                              λ _ d₁₁ m₁₁. gives (
                                                third-Step s (suc k) z h b k h b d₁₁ ready new
                                                  (λ j. refl) m₁₁)

pub lower_while-Spec :
    (facts : Facts) (e : Expr) (ss : Stmts) (body : Lower (Unit {0}))
    → Spec none body
    → Spec none (lower_while facts e ss body)
unfolding lower_while and_then
lower_while-Spec facts e ss body spec s ready =
    blocks-Mid s _ s.current_block (λ j. open_at j s.blocks) _ _ s (Mid-start s)
      λ h b k d new m.
        Post-and_then (phi_order (find_mutated_vars ss) d) _
          (Mid-Steady s (suc k) s.current_block (three (λ j. open_at j s.blocks) h b k) _ d
            (phi_order-Steady (find_mutated_vars ss)) m)
          λ order d' m'.
            lower_loop-Post facts e h b k order
              (conversion facts s.scopes e (find_mutated_vars ss) ss) body spec s d' ready new
              s.current_block
              (Run-start s (suc k) s.current_block (three (λ j. open_at j s.blocks) h b k) d'
                (ground arith) m')

module _ (facts : Facts) (e : Expr) (then_stmts else_stmts : Stmts)
    (then_body else_body : Lower (Unit {0})) (then_spec : Spec none then_body)
    (else_spec : Spec none else_body) where
  pub lower_if-Spec : Spec none (lower_if facts e then_stmts else_stmts then_body else_body)
  unfolding lower_if and_then GoesBelow put_all_scopes
  lower_if-Spec = Spec-bind none _ _ (lower_expr-Spec facts e none) λ q s ready.
      let o : BlockId → Bool = λ j. open_at j s.blocks in
      let c = s.current_block in
      blocks-Mid s _ c o _ _ s (Mid-start s) λ a b k d new m.
        let f : BlockId → Bool = λ j. three o a b k j && not (j == c) in
        let g : BlockId → Bool = λ j. f j && not (j == a) in
        let (free_b, free_k, k_a, k_b) = New-apart o a b k new in
        let free_a = new.first in
        let a_c = distinct o a c free_a ready in
        let b_c = distinct o b c free_b ready in
        let second = new.second in
        terminate-Run s (suc k) c (three o a b k) (branch q.0 a b) _ _ d new.below
          (Run-start s (suc k) c (three o a b k) d (ground arith) m)
          λ x d₁ m₁.
            Post-and_then (phi_order _ d₁) _ (Mid-Steady s (suc k) x f _ d₁ (phi_order-Steady _) m₁)
              λ order d₂ m₂.
                Post-and_then (lower_arm a then_body d₂) _
                  (Run-arm s (suc k) a f x then_body d₂ then_spec (ground arith) m₂)
                  λ _ d₃ r₃.
                    Post-and_then (read_order order d₃) _
                      (Run-step s (suc k) a f _ d₃ (Spec-Steady _ (read_order-Steady order)) r₃)
                      λ ts d₄ r₄.
                        terminate-Run s (suc k) a f (jump k) _ _ d₄ (omega arith) r₄ λ y d₅ m₅.
                          Post-and_then (lower_arm b else_body _) _
                            (Run-arm s (suc k) b g y else_body _ else_spec (ground arith)
                              (Mid-same none s (suc k) y g d₅ _ refl refl refl m₅))
                            λ _ d₆ r₆.
                              Post-and_then (read_order order d₆) _
                                (Run-step s (suc k) b g _ d₆
                                  (Spec-Steady _ (read_order-Steady order)) r₆)
                                λ es d₇ r₇.
                                  terminate-Run s (suc k) b g (jump k) _ _ d₇ (omega arith) r₇
                                    λ z d₈ m₈.
                                      Spec-tail none s (record d₈ { current_block = k }) _
                                        (third-Step s (suc k) z a b k a b d₈ ready new (λ j. refl)
                                          m₈)
                                        (join_phis-Spec d₃.current_block d₆.current_block order ts
                                          es)
