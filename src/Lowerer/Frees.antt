-- ===== src/Lowerer/Frees.antt =====
-- src/lowerer.rs: the tables that are freed where a `do` block ends.
use glm.Prelude.{
  ℕ, suc, zero, ◌+◌, Bool, false, ◌||◌, Option, none, some, List, [], ◌∷◌, ◌++◌, ◌==◌, leb,
  if◌then◌else◌, length,
}
use glm.Ir.{BlockId, RegId, Instruction, phi, move, BasicBlock, def_reg}
use glm.Lowerer.State.{DoExitFree, Lower, pure, ◌>>=◌, ◌>>◌, get, emit, read_var, or_panic}

unfoldable pub is_reg : RegId → Option RegId → Bool
is_reg r none = false
is_reg r (some q) = q == r

unfoldable pub find_def : RegId → List Instruction → Option Instruction
find_def r [] = none
find_def r (i ∷ is) = if is_reg r (def_reg i) then some i else find_def r is

unfoldable pub all_instrs : List BasicBlock → List Instruction
all_instrs [] = []
all_instrs (b ∷ bs) = b.instrs ++ all_instrs bs

-- The first instruction that defines the register, in the order of the blocks.
unfoldable pub def_of : List BasicBlock → RegId → Option Instruction
def_of bs r = find_def r (all_instrs bs)

abbrev pub member : RegId → List RegId → Bool
member r [] = false
member r (q ∷ qs) = q == r || member r qs

unfoldable pub set_insert : RegId → List RegId → List RegId
set_insert r qs = if member r qs then qs else r ∷ qs

-- The sources of a phi go on the stack in their order, the last on top.
unfoldable pub push_args : List (BlockId × RegId) → List RegId → List RegId
push_args [] stack = stack
push_args ((b, r) ∷ args) stack = push_args args (r ∷ stack)

-- What a register that is visited adds to the stack; none is a root.
unfoldable pub sources : Option Instruction → List RegId → Option (List RegId)
sources (some (move _ r _)) stack = some (r ∷ stack)
sources (some (phi _ _ args)) stack = some (push_args args stack)
sources _ stack = none

-- The loop of `alias_roots`; the head of the list is the top of the stack.
unfoldable pub alias_loop :
    ℕ → List Instruction → List RegId → List RegId → List RegId → Option (List RegId)
alias_loop fuel is [] visited roots = some roots
alias_loop zero is (r ∷ stack) visited roots = none
alias_loop (suc fuel) is (r ∷ stack) visited roots =
    if member r visited
    then alias_loop fuel is stack visited roots
    else elim (sources (find_def r is) stack) [
      | some next ↦ alias_loop fuel is next (r ∷ visited) roots
      | none ↦ alias_loop fuel is stack (r ∷ visited) (set_insert r roots)
    ]

-- What an instruction can put on the stack.
unfoldable pub weight : Instruction → ℕ
weight (move _ _ _) = 1
weight (phi _ _ args) = length args
weight _ = 0

unfoldable pub total_weight : List Instruction → ℕ
total_weight [] = 0
total_weight (i ∷ is) = weight i + total_weight is

unfoldable pub alias_roots : List BasicBlock → RegId → Option (List RegId)
alias_roots bs r = let is = all_instrs bs in alias_loop (total_weight is + 1) is (r ∷ []) [] []

-- What the two passes have chosen so far: the roots that are freed, and the registers to free.
pub record Chosen : Type 0 where
  pub freed_roots : List RegId
  pub free_regs : List RegId

unfoldable pub birth : ℕ → List (ℕ × (RegId × ℕ)) → Option (RegId × ℕ)
birth site [] = none
birth site ((k, b) ∷ bs) = if k == site then some b else birth site bs

-- The birth register of a site whose constructor dominates the exit.
unfoldable pub dominating : ℕ → Option (RegId × ℕ) → Option RegId
dominating depth none = none
dominating depth (some (r, d)) = if d == depth then some r else none

unfoldable pub free_birth : Option RegId → Chosen → Chosen
free_birth none c = c
free_birth (some r) c = record {
  freed_roots = set_insert r c.freed_roots;
  free_regs = c.free_regs ++ (r ∷ []);
}

unfoldable pub free_births : (ℕ → Option RegId) → List DoExitFree → Chosen → Chosen
free_births own [] c = c
free_births own (f ∷ fs) c = free_births own fs (free_birth (own f.site) c)

unfoldable pub any_member : List RegId → List RegId → Bool
any_member [] freed = false
any_member (r ∷ rs) freed = member r freed || any_member rs freed

unfoldable pub extend : List RegId → List RegId → List RegId
extend freed [] = freed
extend freed (r ∷ rs) = extend (set_insert r freed) rs

-- A carrier whose roots meet what is freed already is left alone.
unfoldable pub free_carrier : RegId → List RegId → Chosen → Chosen
free_carrier r roots c =
    if any_member roots c.freed_roots
    then c
    else record { freed_roots = extend c.freed_roots roots; free_regs = c.free_regs ++ (r ∷ []) }

unfoldable pub free_carriers : (ℕ → Option RegId) → List DoExitFree → Chosen → Lower Chosen
free_carriers own [] c = pure c
free_carriers own (f ∷ fs) c = elim (own f.site) [
  | some _ ↦ free_carriers own fs c
  | none ↦ do
    l ← read_var f.carrier
    s ← get
    roots ← or_panic (alias_roots s.blocks l.reg)
    free_carriers own fs (free_carrier l.reg roots c)
]

-- `sort_unstable` on register numbers.
unfoldable pub insert_sorted : RegId → List RegId → List RegId
insert_sorted r [] = r ∷ []
insert_sorted r (q ∷ qs) = if leb r q then r ∷ q ∷ qs else q ∷ insert_sorted r qs

unfoldable pub sort : List RegId → List RegId
sort [] = []
sort (r ∷ rs) = insert_sorted r (sort rs)

-- `dedup` drops what repeats its predecessor.
unfoldable pub dedup_after : RegId → List RegId → List RegId
dedup_after p [] = []
dedup_after p (r ∷ rs) = if r == p then dedup_after p rs else r ∷ dedup_after r rs

unfoldable pub dedup : List RegId → List RegId
dedup [] = []
dedup (r ∷ rs) = r ∷ dedup_after r rs

-- The last register first.
unfoldable pub emit_frees : List RegId → Lower (Unit {0})
emit_frees [] = pure tt
emit_frees (r ∷ rs) = do emit_frees rs; emit (Instruction.table_free r)

unfoldable pub free_at_exit : List DoExitFree → Lower (Unit {0})
free_at_exit frees = do
  s ← get
  let own : ℕ → Option RegId = λ site. dominating s.ctrl_depth (birth site s.site_regs)
  let births = free_births own frees (record { freed_roots = []; free_regs = [] })
  c ← free_carriers own frees births
  emit_frees (dedup (sort c.free_regs))
