-- ===== src/Ir.antt =====
-- src/ir.rs: the instructions that the lowerer emits and the backend prints.
use Prim.Native.String.{String}
use glm.Prelude.{ℕ, Bool, Option, none, some, List, []}
use glm.Syntax.{StaticType}
use glm.Shape.Core.{LayoutVerdict}

abbrev pub BlockId : Type 0
BlockId = ℕ

abbrev pub RegId : Type 0
RegId = ℕ

pub data Terminator : Type 0 where
  jump : BlockId → Terminator
  branch : RegId → BlockId → BlockId → Terminator
  halt : Terminator

-- The first register is the `target` where there is one; the others stand in the order of the fields.
pub data Instruction : Type 0 where
  load_int : RegId → ℕ → Instruction
  load_float : RegId → String → Instruction
  load_bool : RegId → Bool → Instruction
  load_string : RegId → String → Instruction
  load_null : RegId → Instruction
  move : RegId → RegId → StaticType → Instruction
  table_new : RegId → StaticType → ℕ → Instruction
  table_get : RegId → RegId → RegId → StaticType → Instruction
  table_reserve : RegId → RegId → Instruction
  table_set_fast : RegId → RegId → RegId → LayoutVerdict → Instruction
  table_set : RegId → RegId → RegId → Instruction
  table_len : RegId → RegId → Instruction
  table_free : RegId → Instruction
  sys_alloc_count : RegId → Instruction
  add sub mul div int_div mod_op : RegId → RegId → RegId → Instruction
  neg : RegId → RegId → Instruction
  less leq geq equal : RegId → RegId → RegId → Instruction
  not_op : RegId → RegId → Instruction
  phi : RegId → StaticType → List (BlockId × RegId) → Instruction
  print : List (RegId × StaticType) → Instruction

-- `SysAllocCount` has a target, but no defining register here.
unfoldable pub def_reg : Instruction → Option RegId
def_reg (load_int r _) = some r
def_reg (load_float r _) = some r
def_reg (load_bool r _) = some r
def_reg (load_string r _) = some r
def_reg (load_null r) = some r
def_reg (move r _ _) = some r
def_reg (table_new r _ _) = some r
def_reg (table_get r _ _ _) = some r
def_reg (table_len r _) = some r
def_reg (add r _ _) = some r
def_reg (sub r _ _) = some r
def_reg (mul r _ _) = some r
def_reg (div r _ _) = some r
def_reg (int_div r _ _) = some r
def_reg (mod_op r _ _) = some r
def_reg (neg r _) = some r
def_reg (less r _ _) = some r
def_reg (leq r _ _) = some r
def_reg (geq r _ _) = some r
def_reg (equal r _ _) = some r
def_reg (not_op r _) = some r
def_reg (phi r _ _) = some r
def_reg _ = none

unfoldable pub def_type : Instruction → Option StaticType
def_type (load_int _ _) = some StaticType.integer
def_type (add _ _ _) = some StaticType.integer
def_type (sub _ _ _) = some StaticType.integer
def_type (mul _ _ _) = some StaticType.integer
def_type (div _ _ _) = some StaticType.integer
def_type (int_div _ _ _) = some StaticType.integer
def_type (mod_op _ _ _) = some StaticType.integer
def_type (neg _ _) = some StaticType.integer
def_type (table_len _ _) = some StaticType.integer
def_type (load_float _ _) = some StaticType.float
def_type (load_string _ _) = some StaticType.string
def_type (less _ _ _) = some StaticType.boolean
def_type (leq _ _ _) = some StaticType.boolean
def_type (geq _ _ _) = some StaticType.boolean
def_type (equal _ _ _) = some StaticType.boolean
def_type (not_op _ _) = some StaticType.boolean
def_type (load_bool _ _) = some StaticType.boolean
def_type (table_new _ elem _) = some (StaticType.table elem)
def_type (move _ _ t) = some t
def_type (phi _ t _) = some t
def_type (table_get _ _ _ t) = some t
def_type _ = none

-- `BasicBlock`, whose `id` is its index in the program.
pub record BasicBlock : Type 0 where
  pub id : BlockId
  pub instrs : List Instruction
  pub terminator : Option Terminator

unfoldable pub new_basic_block : BlockId → BasicBlock
new_basic_block i = record { id = i; instrs = []; terminator = none }
