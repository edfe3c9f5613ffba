-- ===== src/Lowerer/State.antt =====
-- src/lowerer.rs: the state of the lowerer, its blocks and scopes, and how a step of it ends.
use Prim.Native.String.{String}
use text.Mathlib.Text.{◌==◌ as str_eq}
use glm.Prelude.{
  ℕ, suc, zero, ◌+◌, ◌%◌, ◌^◌, Bool, true, false, Option, none, some, List, [], ◌∷◌, ◌++◌,
  if◌then◌else◌, length,
}
use glm.Syntax.{StaticType}
use glm.Shape.Core.{LayoutVerdict}
use glm.Checker.State.{elem_at, resolve_elem_type}
pub use glm.Lowerer.Facts.{Place, DoExitFree, Facts}
use glm.Ir.{BlockId, RegId, Terminator, Instruction, BasicBlock, new_basic_block}

pub record Local : Type 0 where
  pub reg : RegId
  pub ty : StaticType
  pub layout : LayoutVerdict

pub record LoopCtx : Type 0 where
  pub guard_reg : RegId
  pub reserved : List RegId
  pub nested_fills : List (String × RegId)

abbrev pub Scope : Type 0
Scope = List (String × Local)

-- `IrLowerer`; `free_reg` here is the number of registers given out, of which the counter of the source has
-- the low 32 bits. The head of `scopes` and of `loop_ctxs` is the innermost.
pub record Lowerer : Type 0 where
  pub blocks : List BasicBlock
  pub current_block : BlockId
  pub free_reg : RegId
  pub scopes : List Scope
  pub loop_ctxs : List LoopCtx
  pub site_regs : List (ℕ × (RegId × ℕ))
  pub ctrl_depth : ℕ

-- The one `LowerError`.
pub data LowerError : Type 0 where
  undeclared_variable : LowerError

-- A panic is an index out of range or an `unreachable!` that is reached.
pub data Lowered {ℓ} (A : Type ℓ) : Type ℓ where
  ok : A → Lowerer → Lowered A
  err : LowerError → Lowerer → Lowered A
  panicked : Lowered A

abbrev pub Lower {ℓ} : Type ℓ → Type ℓ
Lower A = Lowerer → Lowered A

abbrev pub pure {ℓ} : {A : Type ℓ} → A → Lower A
pure a s = ok a s

abbrev pub panic {ℓ} : {A : Type ℓ} → Lower A
panic s = panicked

unfoldable pub and_then {ℓ κ} : {A : Type ℓ} {B : Type κ} → Lowered A → (A → Lower B) → Lowered B
and_then (ok a s) k = k a s
and_then (err e s) k = err e s
and_then panicked k = panicked

infixl 1 ◌>>=◌ ◌>>◌
abbrev pub ◌>>=◌ {ℓ κ} : {A : Type ℓ} {B : Type κ} → Lower A → (A → Lower B) → Lower B
(m >>= k) s = and_then (m s) k

abbrev pub ◌>>◌ {ℓ κ} : {A : Type ℓ} {B : Type κ} → Lower A → Lower B → Lower B
(m >> n) s = and_then (m s) (λ _. n)

-- The state, and a part of it that is set.
abbrev pub get : Lower Lowerer
get s = ok s s

abbrev pub enter_block : BlockId → Lower (Unit {0})
enter_block b s = ok tt (record s { current_block = b })

unfoldable pub new_block : Lower BlockId
new_block s =
    ok (length s.blocks)
      (record s { blocks = s.blocks ++ (new_basic_block (length s.blocks) ∷ []) })

-- The register is a `u32`, and the increment wraps in the release build.
unfoldable pub next_reg : Lower RegId
next_reg s = ok (s.free_reg % 2 ^ 32) (record s { free_reg = s.free_reg + 1 })

-- `target.unwrap_or_else(|| self.next_reg())`
unfoldable pub target_or_next : Option RegId → Lower RegId
target_or_next none = next_reg
target_or_next (some r) = pure r

-- A block changed in place; an index out of range gives none.
unfoldable pub change_block :
    (BasicBlock → BasicBlock) → BlockId → List BasicBlock → Option (List BasicBlock)
change_block f i [] = none
change_block f zero (b ∷ bs) = some (f b ∷ bs)
change_block f (suc i) (b ∷ bs) = elim (change_block f i bs) [
  | none ↦ none
  | some cs ↦ some (b ∷ cs)
]

unfoldable pub put_blocks : Lowerer → Option (List BasicBlock) → Lowered (Unit {0})
put_blocks s none = panicked
put_blocks s (some bs) = ok tt (record s { blocks = bs })

unfoldable pub push_instr : Instruction → BasicBlock → BasicBlock
push_instr i b = record b { instrs = b.instrs ++ (i ∷ []) }

unfoldable pub emit : Instruction → Lower (Unit {0})
emit i s = put_blocks s (change_block (push_instr i) s.current_block s.blocks)

unfoldable pub set_terminator : Terminator → BasicBlock → BasicBlock
set_terminator t b = record b { terminator = some t }

unfoldable pub terminate : Terminator → Lower (Unit {0})
terminate t s = put_blocks s (change_block (set_terminator t) s.current_block s.blocks)

unfoldable pub scope_get : String → Scope → Option Local
scope_get x [] = none
scope_get x ((y, l) ∷ s) = if str_eq x y then some l else scope_get x s

unfoldable pub scope_insert : String → Local → Scope → Scope
scope_insert x l [] = (x, l) ∷ []
scope_insert x l ((y, m) ∷ s) = if str_eq x y then (y, l) ∷ s else (y, m) ∷ scope_insert x l s

unfoldable pub declare_in : String → Local → Lowerer → List Scope → Lowered (Unit {0})
declare_in x l s [] = panicked
declare_in x l s (c ∷ cs) = ok tt (record s { scopes = scope_insert x l c ∷ cs })

unfoldable pub declare_var : String → Local → Lower (Unit {0})
declare_var x l s = declare_in x l s s.scopes

unfoldable pub update_in : String → Local → List Scope → Option (List Scope)
update_in x l [] = none
update_in x l (c ∷ cs) = elim (scope_get x c) [
  | some _ ↦ some (scope_insert x l c ∷ cs)
  | none ↦ elim (update_in x l cs) [ none ↦ none | some ds ↦ some (c ∷ ds) ]
]

unfoldable pub put_scopes : Lowerer → Option (List Scope) → Lowered (Unit {0})
put_scopes s none = err undeclared_variable s
put_scopes s (some cs) = ok tt (record s { scopes = cs })

unfoldable pub update_var : String → Local → Lower (Unit {0})
update_var x l s = put_scopes s (update_in x l s.scopes)

unfoldable pub find_var : String → List Scope → Option Local
find_var x [] = none
find_var x (c ∷ cs) = elim (scope_get x c) [ none ↦ find_var x cs | some l ↦ some l ]

unfoldable pub read_var : String → Lower Local
read_var x s = elim (find_var x s.scopes) [ none ↦ err undeclared_variable s | some l ↦ ok l s ]

unfoldable pub has_var : String → List Scope → Bool
has_var x cs = elim (find_var x cs) [ none ↦ false | some _ ↦ true ]

unfoldable pub push_scope : Lower (Unit {0})
push_scope s = ok tt (record s { scopes = [] ∷ s.scopes })

-- The result of the pop is dropped, so an empty stack stays.
unfoldable pub pop_scope : Lower (Unit {0})
pop_scope s = ok tt (record s { scopes = elim s.scopes [ [] ↦ [] | _ ∷ cs ↦ cs ] })

unfoldable pub or_panic : {A : Type 0} → Option A → Lower A
or_panic none s = panicked
or_panic (some a) s = ok a s

-- `ShapeFacts::elem_of`, on the number of the site.
unfoldable pub elem_of : Facts → ℕ → Lower StaticType
elem_of facts site = do
  t ← or_panic (elem_at facts.elems site)
  pure (resolve_elem_type facts.substitutions t)
