-- ===== src/Lowerer/Branches.antt =====
-- `if` and `while` of src/lowerer.rs are whole steps where their bodies are.
use Prim.Native.String.{String}
use glm.Prelude.{refl, ◌∙◌, arith, Option, none, some, List, [], ◌∷◌, length}
use glm.Syntax.{Expr}
use glm.Ir.{BlockId, RegId, Instruction, phi, def_reg}
use glm.Lowerer.State.{Facts, Local, LoopCtx, Scope, and_then, change_block, has_var}
use glm.Lowerer.Order.{read_present, phi_order, Conversion, join_phi_ty}
use glm.Lowerer.Loop.{
  put_all_scopes, reserve_names, reserve_ahead, open_phis, loop_condition, read_regs, is_matrix,
  reserve_spine, reserve_spines, reserve_nested, push_ctx, pop_ctx, open_ctx, patch_block,
  patch_phi, close_phis, rebind_phis,
}
use glm.Lowerer.Stmt.{read_order, join_phis}
use glm.Lowerer.Blocks.{
  target_of, hits, writes_in-patch, change_block-Changed, length-Changed, writes-Changed,
  open_at-Changed, AllBelow-Changed, AllBelow-mono,
}
use glm.Lowerer.Steps.{gives}
use glm.Lowerer.Flow.{Spec, put-Post}
use glm.Lowerer.Rules.{Spec-pure, Spec-bind, Spec-before, Spec-next, Spec-read_var}
use glm.Lowerer.Exprs.{lower_expr-Spec, emits, emits_value}
use glm.Lowerer.Runs.{
  Still-same, Steady, Steady-pure, Steady-bind, Steady-get, Steady-if, Steady-or_panic, Spec-Steady,
  Steady-emit, Steady-read_var, Steady-update_var,
}

read_present-Steady : (xs : List String) → Steady (read_present xs)
unfolding read_present
read_present-Steady [] = Steady-pure []
read_present-Steady (x ∷ xs) = Steady-get _ λ s.
    Steady-if (has_var x s.scopes) _ _
      (Steady-bind _ _ (Steady-read_var x)
        λ l. Steady-bind _ _ (read_present-Steady xs) (λ ls. Steady-pure _))
      (read_present-Steady xs)

pub phi_order-Steady : (xs : List String) → Steady (phi_order xs)
unfolding phi_order
phi_order-Steady xs = Steady-bind _ _ (read_present-Steady xs) (λ ls. Steady-pure _)

pub put_all_scopes-Steady : (cs : List Scope) → Steady (put_all_scopes cs)
unfolding put_all_scopes
put_all_scopes-Steady cs s = gives (Still-same s _ refl refl refl)

reserve_names-Steady : (xs : List String) (b : RegId) → Steady (reserve_names xs b)
unfolding reserve_names target_of def_reg
reserve_names-Steady [] b = Steady-pure tt
reserve_names-Steady (x ∷ xs) b = Steady-bind _ _ (Steady-read_var x) λ l.
    Steady-bind _ _ (Steady-emit (Instruction.table_reserve l.reg b) refl)
      (λ _. reserve_names-Steady xs b)

pub reserve_ahead-Spec : (facts : Facts) (c : Option Conversion) → Spec none (reserve_ahead facts c)
unfolding reserve_ahead and_then
reserve_ahead-Spec facts none = Spec-pure none
reserve_ahead-Spec facts (some c) = λ s ready.
    Spec-bind none _ _ (lower_expr-Spec facts c.bound none)
      (λ b. Spec-bind none _ _ (Spec-Steady _ (put_all_scopes-Steady s.scopes)) λ _.
        Spec-bind none _ _ (Spec-Steady _ (reserve_names-Steady c.names b.0)) (λ _. Spec-pure _))
      s ready

pub open_phis-Spec : (from : BlockId) (ls : List (String × Local)) → Spec none (open_phis from ls)
unfolding open_phis target_of def_reg
open_phis-Spec from [] = Spec-pure []
open_phis-Spec from ((x, l) ∷ ls) = Spec-next _ λ r.
    Spec-before (some r) _ _ (emits r (phi r l.ty ((from, l.reg) ∷ [])) refl) λ _.
      Spec-bind none _ _ (Spec-Steady _ (Steady-update_var x _))
        λ _. Spec-bind none _ _ (open_phis-Spec from ls) (λ rest. Spec-pure _)

pub loop_condition-Spec :
    (facts : Facts) (e : Expr) (c : Option Conversion) (b : Option RegId)
    → Spec none (loop_condition facts e c b)
unfolding loop_condition target_of def_reg
loop_condition-Spec facts e (some c) (some b) =
    Spec-bind none _ _ (Spec-read_var c.guard) (λ g. Spec-next _ (λ r. emits_value r _ _ refl))
loop_condition-Spec facts e (some c) none =
    Spec-bind none _ _ (lower_expr-Spec facts e none) (λ v. Spec-pure _)
loop_condition-Spec facts e none b =
    Spec-bind none _ _ (lower_expr-Spec facts e none) (λ v. Spec-pure _)

read_regs-Steady : (xs : List String) → Steady (read_regs xs)
unfolding read_regs
read_regs-Steady [] = Steady-pure []
read_regs-Steady (x ∷ xs) =
    Steady-bind _ _ (Steady-read_var x)
      λ l. Steady-bind _ _ (read_regs-Steady xs) (λ rs. Steady-pure _)

reserve_spine-Steady : (x : String) (b : Option RegId) (l : Local) → Steady (reserve_spine x b l)
unfolding reserve_spine target_of def_reg
reserve_spine-Steady x b l =
    Steady-if (is_matrix l.ty) _ _
      (Steady-bind _ _ (Steady-or_panic b) λ r.
        Steady-bind _ _ (Steady-emit (Instruction.table_reserve l.reg r) refl) (λ _. Steady-pure _))
      (Steady-pure [])

reserve_spines-Steady : (b : Option RegId) (xs : List String) → Steady (reserve_spines b xs)
unfolding reserve_spines
reserve_spines-Steady b [] = Steady-pure []
reserve_spines-Steady b (x ∷ xs) = Steady-bind _ _ (Steady-read_var x) λ l.
    Steady-bind _ _ (reserve_spine-Steady x b l)
      λ r. Steady-bind _ _ (reserve_spines-Steady b xs) (λ rs. Steady-pure _)

reserve_nested-Steady : (b : Option RegId) (xs : List String) → Steady (reserve_nested b xs)
unfolding reserve_nested
reserve_nested-Steady b [] = Steady-pure []
reserve_nested-Steady b (x ∷ xs) = Steady-get _ λ s.
    Steady-bind _ _
      (Steady-if (has_var x s.scopes) _ _
        (Steady-bind _ _ (Steady-read_var x) (λ l. reserve_spine-Steady x b l)) (Steady-pure []))
      λ r. Steady-bind _ _ (reserve_nested-Steady b xs) (λ rs. Steady-pure _)

push_ctx-Steady : (c : LoopCtx) → Steady (push_ctx c)
unfolding push_ctx
push_ctx-Steady c s = gives (Still-same s _ refl refl refl)

pub pop_ctx-Steady : (c : Option Conversion) → Steady (pop_ctx c)
unfolding pop_ctx
pop_ctx-Steady none = Steady-pure tt
pop_ctx-Steady (some c) = λ s. gives (Still-same s _ refl refl refl)

pub open_ctx-Steady : (c : Option Conversion) (b : Option RegId) → Steady (open_ctx c b)
unfolding open_ctx
open_ctx-Steady none b = Steady-pure tt
open_ctx-Steady (some c) b = Steady-bind _ _ (Steady-read_var c.guard) λ g.
    Steady-bind _ _ (read_regs-Steady c.names) λ reserved.
      Steady-bind _ _ (reserve_spines-Steady b c.names)
        λ outer. Steady-bind _ _ (reserve_nested-Steady b c.nested) (λ inner. push_ctx-Steady _)

patch_phi-Steady :
    (header : BlockId) (r : RegId) (from : BlockId) (l : Local) → Steady (patch_phi header r from l)
unfolding patch_phi patch_block hits
patch_phi-Steady header r from l s =
    put-Post _ s (change_block (patch_block r from l) header s.blocks) λ bs h.
      let c = change_block-Changed (patch_block r from l) header s.blocks bs h in
      let same = length-Changed (patch_block r from l) c in
      record {
        grows = record {
          regs = omega arith;
          counts = λ lim q.
              let e =
                writes-Changed (patch_block r from l) q 0
                  (λ b. writes_in-patch q r from l b.instrs ∙ omega arith) c in
              omega arith;
          grown = omega arith;
          sound = λ x.
              AllBelow-mono (length s.blocks) (length bs) bs (omega arith)
                (AllBelow-Changed (patch_block r from l) (length s.blocks) (λ b y. y) c x);
        };
        here = refl;
        same = λ j. open_at-Changed (patch_block r from l) (λ b. refl) j c;
      }

pub close_phis-Steady :
    (header from : BlockId) (ps : List (String × RegId)) → Steady (close_phis header from ps)
unfolding close_phis
close_phis-Steady header from [] = Steady-pure tt
close_phis-Steady header from ((x, r) ∷ ps) =
    Steady-bind _ _ (Steady-read_var x) λ l.
      Steady-bind _ _ (patch_phi-Steady header r from l) (λ _. close_phis-Steady header from ps)

pub rebind_phis-Steady : (ps : List (String × RegId)) → Steady (rebind_phis ps)
unfolding rebind_phis
rebind_phis-Steady [] = Steady-pure tt
rebind_phis-Steady ((x, r) ∷ ps) =
    Steady-bind _ _ (Steady-read_var x)
      λ l. Steady-bind _ _ (Steady-update_var x _) (λ _. rebind_phis-Steady ps)

pub read_order-Steady : (vs : List (String × Local)) → Steady (read_order vs)
unfolding read_order
read_order-Steady [] = Steady-pure []
read_order-Steady ((x, _) ∷ vs) =
    Steady-bind _ _ (Steady-read_var x)
      λ l. Steady-bind _ _ (read_order-Steady vs) (λ ls. Steady-pure _)

pub join_phis-Spec :
    (a b : BlockId) (vs : List (String × Local)) (ls ms : List Local)
    → Spec none (join_phis a b vs ls ms)
unfolding join_phis target_of def_reg
join_phis-Spec a b ((x, _) ∷ vs) (l ∷ ls) (m ∷ ms) = Spec-next _ λ r.
    Spec-bind (some r) _ _ (Spec-read_var x) λ old.
      Spec-before (some r) _ _
        (emits r (phi r (join_phi_ty l.ty m.ty) ((a, l.reg) ∷ (b, m.reg) ∷ [])) refl)
        λ _.
          Spec-bind none _ _ (Spec-Steady _ (Steady-update_var x _))
            (λ _. join_phis-Spec a b vs ls ms)
join_phis-Spec a b [] ls ms = Spec-pure tt
join_phis-Spec a b (v ∷ vs) [] ms = Spec-pure tt
join_phis-Spec a b (v ∷ vs) (l ∷ ls) [] = Spec-pure tt
