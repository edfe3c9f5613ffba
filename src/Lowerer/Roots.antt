-- ===== src/Lowerer/Roots.antt =====
-- The loop of `alias_roots` in src/lowerer.rs: it ends, and the roots are those that are led back to.
use glm.Prelude.{
  ℕ, suc, zero, ◌+◌, ◌≤◌, ◌≡◌, refl, ap, subst, ◌∙◌, arith, Bool, true, false, ◌||◌, Option, none,
  some, List, [], ◌∷◌, ◌==◌, if◌then◌else◌, length, Bool-cases, inl, inr,
}
use glm.Ir.{RegId, Instruction, phi, move, BasicBlock}
use glm.Lowerer.Frees.{
  find_def, all_instrs, member, set_insert, sources, alias_loop, total_weight, alias_roots,
}
use glm.Lowerer.Alias.{
  fed, is_root, LeadsBack, start, via, remaining, remaining_le, weight_of, remaining-visit, Visit,
  root, pushed, sources-Visit,
}

-- What holds of a pass of the loop that started at `r`.
record Search (is : List Instruction) (r : RegId) (visited stack roots : List RegId) : Type 0 where
  reached : (q : RegId) → member q stack ≡ true → LeadsBack is r q
  sound : (q : RegId) → member q roots ≡ true → LeadsBack is r q × (is_root (find_def q is) ≡ true)
  followed :
      (v q : RegId)
      → member v visited ≡ true
      → member q (fed (find_def v is)) ≡ true
      → member q visited || member q stack ≡ true
  rooted :
      (v : RegId) → member v visited ≡ true → is_root (find_def v is) ≡ true → member v roots ≡ true
  begun : member r visited || member r stack ≡ true

-- The roots of a register: the registers that it leads back to and that are no move and no phi.
pub record Roots (is : List Instruction) (r : RegId) (roots : List RegId) : Type 0 where
  pub sound :
      (q : RegId) → member q roots ≡ true → LeadsBack is r q × (is_root (find_def q is) ≡ true)
  pub complete :
      (q : RegId) → LeadsBack is r q → is_root (find_def q is) ≡ true → member q roots ≡ true

pub member-cons :
    (P : RegId → Type 0) (v p : RegId) (vs : List RegId)
    → member v (p ∷ vs) ≡ true
    → P p
    → (member v vs ≡ true → P v)
    → P v
member-cons P v p vs h here there = elim (Bool-cases (p == v)) [
  | inl e ↦ subst P (ground arith) here
  | inr e ↦ there (ground arith)
]

pub fed-is_root : (q : RegId) (o : Option Instruction) → is_root o ≡ true → member q (fed o) ≡ false
unfolding fed is_root
fed-is_root q (some (move t r ty)) h = cc
fed-is_root q (some (phi t ty args)) h = cc
fed-is_root q (some i) h = refl
fed-is_root q none h = refl

pub member-set_insert :
    (q p : RegId) (qs : List RegId) → member q (set_insert p qs) ≡ p == q || member q qs
unfolding set_insert
member-set_insert q p qs = elim (Bool-cases (p == q)) [
  | inl e ↦
      let same = ap (λ k. member k qs) {x = p} {y = q} (ground arith) in
      if_member (member p qs) ∙ ground arith
  | inr e ↦ if_member (member p qs) ∙ ground arith
]
  where
    if_member :
        (b : Bool)
        → member q (if b then qs else p ∷ qs) ≡ (if b then member q qs else p == q || member q qs)
    if_member true = refl
    if_member false = refl

module _ (is : List Instruction) (r : RegId) where
  Search-start : Search is r [] (r ∷ []) []
  Search-start = record {
    reached = λ q h. member-cons (λ k. LeadsBack is r k) q r [] h start (λ k. cc);
    sound = λ q h. cc;
    followed = λ v q h k. cc;
    rooted = λ v h k. cc;
    begun = ground arith;
  }

  Search-end : (visited roots : List RegId) → Search is r visited [] roots → Roots is r roots
  Search-end visited roots s = record {
    sound = s.sound;
    complete = λ q back h. s.rooted q (visits q back) h;
  }
    where
      visits : (q : RegId) → LeadsBack is r q → member q visited ≡ true
      visits _ start = let b = s.begun in ground arith
      visits _ (via p q back h) = let f = s.followed p q (visits p back) h in ground arith

  module _ (p : RegId) (visited stack roots : List RegId)
      (s : Search is r visited (p ∷ stack) roots) where
    -- A register that was visited leaves the stack.
    Search-skip : member p visited ≡ true → Search is r visited stack roots
    Search-skip seen = record {
      reached = λ q h. s.reached q (ground arith);
      sound = s.sound;
      followed = λ v q h k. drops q (s.followed v q h k);
      rooted = s.rooted;
      begun = drops r s.begun;
    }
      where
        drops :
            (q : RegId)
            → member q visited || member q (p ∷ stack) ≡ true
            → member q visited || member q stack ≡ true
        drops q h = elim (Bool-cases (p == q)) [
          | inl e ↦
              let same = ap (λ k. member k visited) {x = p} {y = q} (ground arith) in ground arith
          | inr e ↦ ground arith
        ]

    Search-root :
        is_root (find_def p is) ≡ true → Search is r (p ∷ visited) stack (set_insert p roots)
    Search-root h = record {
      reached = λ q k. s.reached q (ground arith);
      sound = λ q k.
          member-cons (λ x. LeadsBack is r x × (is_root (find_def x is) ≡ true)) q p roots
            (let m = member-set_insert q p roots in ground arith) (s.reached p (ground arith), h)
            (s.sound q);
      followed = λ v q a b.
          member-cons
            (λ x.
              member q (fed (find_def x is)) ≡ true
              → member q (p ∷ visited) || member q stack ≡ true)
            v p visited a (λ k. let none_fed = fed-is_root q (find_def p is) h in cc)
            (λ seen k. let f = s.followed v q seen k in ground arith) b;
      rooted = λ v a b.
          let m = member-set_insert v p roots in
          member-cons (λ x. member x (set_insert p roots) ≡ true) v p visited a
            (let n = member-set_insert p p roots in ground arith)
            (λ seen. let f = s.rooted v seen b in ground arith);
      begun = let b = s.begun in ground arith;
    }

    Search-push :
        (next : List RegId)
        → is_root (find_def p is) ≡ false
        → ((q : RegId) → member q next ≡ member q (fed (find_def p is)) || member q stack)
        → Search is r (p ∷ visited) next roots
    Search-push next h same = record {
      reached = λ q k.
          let m = same q in
          elim (Bool-cases (member q stack)) [
            | inl e ↦ s.reached q (ground arith)
            | inr e ↦ via p q (s.reached p (ground arith)) (ground arith)
          ];
      sound = s.sound;
      followed = λ v q a b.
          let m = same q in
          member-cons
            (λ x.
              member q (fed (find_def x is)) ≡ true
              → member q (p ∷ visited) || member q next ≡ true)
            v p visited a (λ k. ground arith)
            (λ seen k. let f = s.followed v q seen k in ground arith) b;
      rooted = λ v a b.
          member-cons (λ x. is_root (find_def x is) ≡ true → member x roots ≡ true) v p visited a
            (λ k. cc) (λ seen k. s.rooted v seen k) b;
      begun = let b = s.begun in let m = same r in ground arith;
    }

  -- A visit costs a step of the loop and takes its definition's weight away.
  alias_loop-Roots :
      (fuel : ℕ) (stack visited roots : List RegId)
      → length stack + remaining visited is ≤ fuel
      → Search is r visited stack roots
      → (rs : List RegId) × (alias_loop fuel is stack visited roots ≡ some rs) × Roots is r rs
  unfolding alias_loop
  alias_loop-Roots zero [] visited roots le s = (roots, refl, Search-end visited roots s)
  alias_loop-Roots (suc fuel) [] visited roots le s = (roots, refl, Search-end visited roots s)
  alias_loop-Roots zero (p ∷ stack) visited roots le s = absurd (omega arith)
  alias_loop-Roots (suc fuel) (p ∷ stack) visited roots le s =
      elim (member p visited)
          as (λ b.
            member p visited ≡ b
            → (rs : List RegId) × ((if b
                  then alias_loop fuel is stack visited roots
                  else elim (sources (find_def p is) stack) [
                    | some next ↦ alias_loop fuel is next (p ∷ visited) roots
                    | none ↦ alias_loop fuel is stack (p ∷ visited) (set_insert p roots)
                  ])
                ≡ some rs)
              × Roots is r rs) [
                | true ↦ λ seen.
                    alias_loop-Roots fuel stack visited roots (omega arith)
                      (Search-skip p visited stack roots s seen)
                | false ↦ λ unseen.
                    let less = remaining-visit p visited is unseen in
                    visit (alias_loop-Roots fuel) (sources (find_def p is) stack)
                      (sources-Visit (find_def p is) stack) less
              ]
        refl
    where
      visit :
          ((st vs qs : List RegId)
            → length st + remaining vs is ≤ fuel
            → Search is r vs st qs
            → (rs : List RegId) × (alias_loop fuel is st vs qs ≡ some rs) × Roots is r rs)
          → (o : Option (List RegId)) → Visit (find_def p is) stack o
          → weight_of (find_def p is) + remaining (p ∷ visited) is ≤ remaining visited is
          → (rs : List RegId) × (elim o [
            | some next ↦ alias_loop fuel is next (p ∷ visited) roots
            | none ↦ alias_loop fuel is stack (p ∷ visited) (set_insert p roots)
          ]
              ≡ some rs)
            × Roots is r rs
      visit ih _ (root h) less =
          ih stack (p ∷ visited) (set_insert p roots) (omega arith)
            (Search-root p visited stack roots s h)
      visit ih _ (pushed next h len same) less =
          ih next (p ∷ visited) roots (omega arith)
            (Search-push p visited stack roots s next h same)

-- The loop of `alias_roots` ends, and its result is exactly the set of the registers that the moves and
-- the phis lead the register back to and that are defined by neither.
pub alias_roots-Roots :
    (bs : List BasicBlock) (r : RegId)
    → (roots : List RegId) × (alias_roots bs r ≡ some roots) × Roots (all_instrs bs) r roots
unfolding alias_roots
alias_roots-Roots bs r =
    let is = all_instrs bs in
    let le = remaining_le is in
    alias_loop-Roots is r (total_weight is + 1) (r ∷ []) [] [] (omega arith) (Search-start is r)
