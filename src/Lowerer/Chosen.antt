-- ===== src/Lowerer/Chosen.antt =====
-- The registers that src/lowerer.rs chooses to free where a `do` block ends: no two lead back to one root.
use glm.Prelude.{
  ℕ, ◌≡◌, refl, ap, sym, subst, ◌∙◌, arith, true, false, ◌||◌, Option, none, some, List, [], ◌∷◌,
  ◌++◌, ◌==◌, if◌then◌else◌, Bool-cases, inl, inr,
}
use glm.Ir.{RegId, Instruction}
use glm.Lowerer.State.{DoExitFree}
use glm.Lowerer.Frees.{
  find_def, member, set_insert, Chosen, free_birth, free_births, any_member, extend, free_carrier,
}
use glm.Lowerer.Alias.{fed, is_root, LeadsBack, start, via}
use glm.Lowerer.Roots.{Roots, member-cons, fed-is_root, member-set_insert}

member-append : (q : RegId) (rs qs : List RegId) → member q (rs ++ qs) ≡ member q rs || member q qs
member-append q [] qs = refl
member-append q (r ∷ rs) qs = let ih = member-append q rs qs in ground arith

member-extend :
    (q : RegId) (freed rs : List RegId) → member q (extend freed rs) ≡ member q freed || member q rs
unfolding extend
member-extend q freed [] = ground arith
member-extend q freed (r ∷ rs) =
    let ih = member-extend q (set_insert r freed) rs in
    let m = member-set_insert q r freed in ground arith

any_member-false :
    (q : RegId) (rs freed : List RegId)
    → any_member rs freed ≡ false
    → member q rs ≡ true
    → member q freed ≡ false
unfolding any_member
any_member-false q [] freed h k = cc
any_member-false q (r ∷ rs) freed h k =
    member-cons (λ x. member x freed ≡ false) q r rs k (ground arith)
      (λ m. any_member-false q rs freed (ground arith) m)

-- Two registers to free share a root only where they are the same register, and the roots are recorded.
pub record Separate (is : List Instruction) (c : Chosen) : Type 0 where
  pub covered :
      (p q : RegId)
      → member p c.free_regs ≡ true
      → LeadsBack is p q
      → is_root (find_def q is) ≡ true
      → member q c.freed_roots ≡ true
  pub apart :
      (p r q : RegId)
      → member p c.free_regs ≡ true
      → member r c.free_regs ≡ true
      → is_root (find_def q is) ≡ true
      → LeadsBack is p q
      → LeadsBack is r q
      → p ≡ r

-- What the first pass keeps: the registers to free are roots, and are recorded.
pub record Births (is : List Instruction) (c : Chosen) : Type 0 where
  pub roots : (p : RegId) → member p c.free_regs ≡ true → is_root (find_def p is) ≡ true
  pub recorded : (p : RegId) → member p c.free_regs ≡ true → member p c.freed_roots ≡ true

module _ (is : List Instruction) where
  root-LeadsBack : (p q : RegId) → is_root (find_def p is) ≡ true → LeadsBack is p q → p ≡ q
  root-LeadsBack p _ h start = refl
  root-LeadsBack p _ h (via r q back k) =
      let same = root-LeadsBack p r h back in
      let none_fed = fed-is_root q (find_def p is) h in
      let fed_same = ap (λ x. member q (fed (find_def x is))) same in cc

  pub Births-Separate : (c : Chosen) → Births is c → Separate is c
  Births-Separate c b = record {
    covered = λ p q m back h.
        subst (λ x. member x c.freed_roots ≡ true) (root-LeadsBack p q (b.roots p m) back)
          (b.recorded p m);
    apart = λ p r q m n h back also.
        root-LeadsBack p q (b.roots p m) back ∙ sym (root-LeadsBack r q (b.roots r n) also);
  }

  free_birth-Births :
      (o : Option RegId) (c : Chosen)
      → ((r : RegId) → o ≡ some r → is_root (find_def r is) ≡ true)
      → Births is c
      → Births is (free_birth o c)
  unfolding free_birth
  free_birth-Births none c h b = b
  free_birth-Births (some r) c h b = record {
    roots = λ p m.
        let a = member-append p c.free_regs (r ∷ []) in
        elim (Bool-cases (r == p)) [
          | inl e ↦ subst (λ x. is_root (find_def x is) ≡ true) (ground arith) (h r refl)
          | inr e ↦ b.roots p (ground arith)
        ];
    recorded = λ p m.
        let a = member-append p c.free_regs (r ∷ []) in
        let i = member-set_insert p r c.freed_roots in
        elim (Bool-cases (r == p)) [
          | inl e ↦ ground arith
          | inr e ↦ let k = b.recorded p (ground arith) in ground arith
        ];
  }

  pub free_births-Births :
      (own : ℕ → Option RegId) (fs : List DoExitFree) (c : Chosen)
      → ((site : ℕ) (r : RegId) → own site ≡ some r → is_root (find_def r is) ≡ true)
      → Births is c
      → Births is (free_births own fs c)
  unfolding free_births
  free_births-Births own [] c h b = b
  free_births-Births own (f ∷ fs) c h b =
      free_births-Births own fs (free_birth (own f.site) c) h
        (free_birth-Births (own f.site) c (h f.site) b)

  pub free_carrier-Separate :
      (r : RegId) (roots : List RegId) (c : Chosen)
      → Roots is r roots
      → Separate is c
      → Separate is (free_carrier r roots c)
  unfolding free_carrier
  free_carrier-Separate r roots c rs s =
      elim (any_member roots c.freed_roots)
          as (λ b.
            any_member roots c.freed_roots ≡ b
            → Separate is (
                if b then c else record {
                  freed_roots = extend c.freed_roots roots;
                  free_regs = c.free_regs ++ (r ∷ []);
                })) [
                  | true ↦ λ _. s
                  | false ↦ λ clear. record {
                    covered = λ p q m back h.
                        let e = member-extend q c.freed_roots roots in
                        added p m
                          (λ x. LeadsBack is x q → member q (extend c.freed_roots roots) ≡ true)
                          (λ also. let k = rs.complete q also h in ground arith)
                          (λ old also. let k = s.covered p q old also h in ground arith) back;
                    apart = λ p x q m n h back also.
                        added p m (λ y. LeadsBack is y q → y ≡ x)
                          (λ of_r.
                            added x n (λ y. LeadsBack is y q → r ≡ y) (λ _. refl)
                              (λ old of_x.
                                absurd (
                                  shared q clear (rs.complete q of_r h) (s.covered x q old of_x h)))
                              also)
                          (λ old of_p.
                            added x n (λ y. LeadsBack is y q → p ≡ y)
                              (λ of_r.
                                absurd (
                                  shared q clear (rs.complete q of_r h) (s.covered p q old of_p h)))
                              (λ old_x of_x. s.apart p x q old old_x h of_p of_x) also)
                          back;
                  }
                ]
        refl
    where
      shared :
          (q : RegId)
          → any_member roots c.freed_roots ≡ false
          → member q roots ≡ true
          → member q c.freed_roots ≡ true
          → ⊥
      shared q clear k old = let no = any_member-false q roots c.freed_roots clear k in cc

      added :
          (p : RegId)
          → member p (c.free_regs ++ (r ∷ [])) ≡ true
          → (P : RegId → Type 0) → P r
          → (member p c.free_regs ≡ true → P p)
          → P p
      added p m P here old =
          let a = member-append p c.free_regs (r ∷ []) in
          elim (Bool-cases (r == p)) [
            | inl e ↦ subst P (ground arith) here
            | inr e ↦ old (ground arith)
          ]
