-- ===== src/Lowerer/Alias.antt =====
-- `alias_roots` of src/lowerer.rs: it ends, and gives the registers that the moves and the phis lead back to.
use glm.Prelude.{
  ℕ, ◌+◌, ◌≤◌, ◌≡◌, refl, ap, ◌∙◌, arith, Bool, true, false, ◌||◌, Option, none, some, List, [],
  ◌∷◌, ◌==◌, if◌then◌else◌, length, Bool-cases, inl, inr,
}
use glm.Ir.{BlockId, RegId, Instruction, phi, move, def_reg}
use glm.Lowerer.Frees.{is_reg, find_def, member, push_args, sources, weight, total_weight}

unfoldable pub arg_regs : List (BlockId × RegId) → List RegId
arg_regs [] = []
arg_regs ((b, r) ∷ args) = r ∷ arg_regs args

-- The registers that a move or a phi reads.
unfoldable pub fed : Option Instruction → List RegId
fed (some (move _ r _)) = r ∷ []
fed (some (phi _ _ args)) = arg_regs args
fed _ = []

-- Neither a move nor a phi, or not defined at all.
unfoldable pub is_root : Option Instruction → Bool
is_root (some (move _ _ _)) = false
is_root (some (phi _ _ _)) = false
is_root _ = true

-- Moves and phis lead back from the first register to the second.
pub data LeadsBack (is : List Instruction) (r : RegId) : RegId → Type 0 where
  start : LeadsBack is r r
  via : (p q : RegId) → LeadsBack is r p → member q (fed (find_def p is)) ≡ true → LeadsBack is r q

-- The registers without a visit that an instruction defines.
unfoldable pub remaining : List RegId → List Instruction → ℕ
remaining visited [] = 0
remaining visited (i ∷ is) =
    (elim (def_reg i) [ none ↦ weight i | some q ↦ if member q visited then 0 else weight i ])
    + remaining visited is

pub remaining_le : (is : List Instruction) → remaining [] is ≤ total_weight is
unfolding remaining total_weight
remaining_le [] = omega arith
remaining_le (i ∷ is) =
    let ih = remaining_le is in
    elim (def_reg i)
      as (λ o.
        (elim o [ none ↦ weight i | some q ↦ if member q [] then 0 else weight i ])
          + remaining [] is
        ≤ weight i + total_weight is) [ none ↦ omega arith | some q ↦ omega arith ]

pub weight_of : Option Instruction → ℕ
weight_of none = 0
weight_of (some i) = weight i

remaining_mono :
    (r : RegId) (visited : List RegId) (is : List Instruction)
    → remaining (r ∷ visited) is ≤ remaining visited is
unfolding remaining
remaining_mono r visited [] = omega arith
remaining_mono r visited (i ∷ is) =
    let ih = remaining_mono r visited is in
    elim (def_reg i)
      as (λ o.
        (elim o [ none ↦ weight i | some q ↦ if member q (r ∷ visited) then 0 else weight i ])
          + remaining (r ∷ visited) is
        ≤ (elim o [ none ↦ weight i | some q ↦ if member q visited then 0 else weight i ])
          + remaining visited is) [ none ↦ omega arith | some q ↦ ground arith ]

-- A visit takes the weight of the definition away.
pub remaining-visit :
    (r : RegId) (visited : List RegId) (is : List Instruction)
    → member r visited ≡ false
    → weight_of (find_def r is) + remaining (r ∷ visited) is ≤ remaining visited is
unfolding remaining weight_of find_def is_reg
remaining-visit r visited [] h = omega arith
remaining-visit r visited (i ∷ is) h =
    let ih = remaining-visit r visited is h in
    let mono = remaining_mono r visited is in
    elim (def_reg i)
      as (λ o.
        weight_of (if is_reg r o then some i else find_def r is)
          + ((elim o [ none ↦ weight i | some q ↦ if member q (r ∷ visited) then 0 else weight i ])
              + remaining (r ∷ visited) is)
        ≤ (elim o [ none ↦ weight i | some q ↦ if member q visited then 0 else weight i ])
          + remaining visited is) [ none ↦ omega arith | some q ↦ defined q ih mono ]
  where
    defined :
        (q : RegId)
        → weight_of (find_def r is) + remaining (r ∷ visited) is ≤ remaining visited is
        → remaining (r ∷ visited) is ≤ remaining visited is
        → weight_of (if q == r then some i else find_def r is)
            + ((if member q (r ∷ visited) then 0 else weight i) + remaining (r ∷ visited) is)
          ≤ (if member q visited then 0 else weight i) + remaining visited is
    defined q ih mono = elim (Bool-cases (q == r)) [
      | inl e ↦
          let w = weight_if (q == r) (find_def r is) in
          let same = ap (λ k. member k visited) {x = q} {y = r} (ground arith) in ground arith
      | inr e ↦ let w = weight_if (q == r) (find_def r is) in ground arith
    ]
      where
        weight_if :
            (b : Bool) (o : Option Instruction)
            → weight_of (if b then some i else o) ≡ (if b then weight i else weight_of o)
        weight_if true o = refl
        weight_if false o = refl

length-push_args :
    (args : List (BlockId × RegId)) (stack : List RegId)
    → length (push_args args stack) ≡ length args + length stack
unfolding push_args
length-push_args [] stack = omega arith
length-push_args ((b, r) ∷ args) stack = let ih = length-push_args args (r ∷ stack) in omega arith

member-push_args :
    (q : RegId) (args : List (BlockId × RegId)) (stack : List RegId)
    → member q (push_args args stack) ≡ member q (arg_regs args) || member q stack
unfolding push_args arg_regs
member-push_args q [] stack = refl
member-push_args q ((b, r) ∷ args) stack = member-push_args q args (r ∷ stack) ∙ ground arith

-- What a visit does to the stack.
pub data Visit (o : Option Instruction) (stack : List RegId) : Option (List RegId) → Type 0 where
  root : is_root o ≡ true → Visit o stack none
  pushed :
      (next : List RegId)
      → is_root o ≡ false
      → length next ≡ weight_of o + length stack
      → ((q : RegId) → member q next ≡ member q (fed o) || member q stack)
      → Visit o stack (some next)

pub sources-Visit : (o : Option Instruction) (stack : List RegId) → Visit o stack (sources o stack)
unfolding sources is_root fed weight_of weight
sources-Visit (some (move t r ty)) stack = pushed (r ∷ stack) refl (omega arith) (λ q. ground arith)
sources-Visit (some (phi t ty args)) stack =
    pushed (push_args args stack) refl (length-push_args args stack)
      (λ q. member-push_args q args stack)
sources-Visit (some i) stack = root refl
sources-Visit none stack = root refl
