-- ===== src/Lowerer/DoExit.antt =====
-- The end of a `do` block in src/lowerer.rs: the frees that `free_at_exit` adds, by the roots of their registers.
use glm.Prelude.{
  ℕ, ◌<◌, ◌≡◌, refl, ap, sym, subst, ◌∙◌, true, Option, none, some, List, [], ◌∷◌, length,
}
use glm.Ir.{RegId}
use glm.Lowerer.State.{
  DoExitFree, Local, Lowerer, Lowered, undeclared_variable, ok, err, Lower, ◌>>=◌, and_then,
  read_var, find_var, get, or_panic,
}
use glm.Lowerer.Frees.{
  find_def, all_instrs, member, alias_roots, Chosen, birth, dominating, free_carrier, free_carriers,
  sort, dedup, emit_frees, free_at_exit,
}
use glm.Lowerer.Alias.{is_root, LeadsBack}
use glm.Lowerer.Roots.{alias_roots-Roots}
use glm.Lowerer.Exit.{Gives, done, Gives-and_then, Gives-map, frees_of, Adds, emit_frees-Adds}
use glm.Lowerer.Sorting.{Increasing, sort-Sorted, dedup-Increasing, member-sort, member-dedup}
use glm.Lowerer.Chosen.{Separate, free_carrier-Separate, Births-Separate, free_births-Births}

-- Every carrier is declared.
unfoldable pub Declared : List DoExitFree → Lowerer → Type 0
Declared [] s = Unit
Declared (f ∷ fs) s = ((l : Local) × (find_var f.carrier s.scopes ≡ some l)) × Declared fs s

free_carriers-Separate :
    (own : ℕ → Option RegId) (fs : List DoExitFree) (c : Chosen) (s : Lowerer)
    → Declared fs s
    → Separate (all_instrs s.blocks) c
    → Gives (λ e d. (d ≡ s) × Separate (all_instrs s.blocks) e) (free_carriers own fs c s)
unfolding free_carriers Declared read_var and_then or_panic
free_carriers-Separate own [] c s h sep = done (refl, sep)
free_carriers-Separate own (f ∷ fs) c s h sep =
    elim (own f.site)
      as (λ o.
        Gives (λ e d. (d ≡ s) × Separate (all_instrs s.blocks) e)
          ((elim o as (λ _. Lower Chosen) [
            | some _ ↦ free_carriers own fs c
            | none ↦ (do
              l ← read_var f.carrier
              t ← get
              roots ← or_panic (alias_roots t.blocks l.reg)
              free_carriers own fs (free_carrier l.reg roots c))
          ])
            s)) [
              | some _ ↦ free_carriers-Separate own fs c s h.1 sep
              | none ↦
                  let (roots, e, rs) = alias_roots-Roots s.blocks h.0.0.reg in
                  let next =
                    free_carriers-Separate own fs (free_carrier h.0.0.reg roots c) s h.1
                      (free_carrier-Separate (all_instrs s.blocks) h.0.0.reg roots c rs sep) in
                  subst (Gives (λ e d. (d ≡ s) × Separate (all_instrs s.blocks) e))
                    (sym (reads h.0.0 roots h.0.1 e)) next
            ]
  where
    reads :
        (l : Local) (roots : List RegId)
        → find_var f.carrier s.scopes ≡ some l
        → alias_roots s.blocks l.reg ≡ some roots
        → (do
          l ← read_var f.carrier
          t ← get
          roots ← or_panic (alias_roots t.blocks l.reg)
          free_carriers own fs (free_carrier l.reg roots c))
            s
          ≡ free_carriers own fs (free_carrier l.reg roots c) s
    reads l roots h e =
        ap
          (λ o.
            and_then
              (elim o as (λ _. Lowered Local) [
                | none ↦ err undeclared_variable s
                | some l ↦ ok l s
              ])
              (λ l. get >>= λ t. or_panic (alias_roots t.blocks l.reg) >>= λ roots.
                free_carriers own fs (free_carrier l.reg roots c)))
          h
        ∙ ap
            (λ o.
              and_then (or_panic o s) (λ roots. free_carriers own fs (free_carrier l.reg roots c)))
            e

-- The registers that are freed: each once, in decreasing order, and no two of them lead back to one root.
pub record Frees (s d : Lowerer) (rs : List RegId) : Type 0 where
  pub increasing : Increasing rs
  pub emitted : Adds (frees_of rs) s d
  pub apart :
      (p r q : RegId)
      → member p rs ≡ true
      → member r rs ≡ true
      → is_root (find_def q (all_instrs s.blocks)) ≡ true
      → LeadsBack (all_instrs s.blocks) p q
      → LeadsBack (all_instrs s.blocks) r q
      → p ≡ r

-- A birth register is no move and no phi.
abbrev pub BirthsAreRoots : Lowerer → Type 0
BirthsAreRoots s =
    (site : ℕ) (r : RegId)
    → dominating s.ctrl_depth (birth site s.site_regs) ≡ some r
    → is_root (find_def r (all_instrs s.blocks)) ≡ true

-- The end of a `do` block, where the current block exists, the carriers are declared and the birth
-- registers are no moves and no phis: it ends without an error, adds only frees to the current block, each
-- register once, and no two of the registers lead back to one root.
pub free_at_exit-Frees :
    (fs : List DoExitFree) (s : Lowerer)
    → s.current_block < length s.blocks
    → Declared fs s
    → BirthsAreRoots s
    → Gives (λ _ d. (rs : List RegId) × Frees s d rs) (free_at_exit fs s)
unfolding free_at_exit and_then
free_at_exit-Frees fs s lt h roots =
    Gives-and_then _ _
      (free_carriers-Separate _ fs _ s h (
        Births-Separate (all_instrs s.blocks) _ (
          free_births-Births (all_instrs s.blocks) _ fs
            (record { freed_roots = []; free_regs = [] }) roots
            (record { roots = λ p m. cc; recorded = λ p m. cc }))))
      λ c d (same, sep).
        let rs = dedup (sort c.free_regs) in
        let chosen : (p : RegId) → member p rs ≡ true → member p c.free_regs ≡ true = λ p m.
          let a = member-dedup p (sort c.free_regs) in let b = member-sort p c.free_regs in cc in
        subst (λ x. Gives (λ _ e. (qs : List RegId) × Frees s e qs) (emit_frees rs x)) (sym same)
          (Gives-map
            (λ _ e adds. (
              rs,
              record {
                increasing = dedup-Increasing (sort c.free_regs) (sort-Sorted c.free_regs);
                emitted = adds;
                apart = λ p r q m n k. sep.apart p r q (chosen p m) (chosen r n) k;
              },
            ))
            (emit_frees-Adds rs s lt))
