-- ===== src/Runtime/Table.antt =====
-- src/rt.rs: `TableMode`, `GlmTable`, the constants of the table memory and the cells of a buffer.
use glm.Prelude.{
  ℕ, ◌+◌, ◌-◌, ◌*◌, ◌/◌, ◌%◌, ◌^◌, ◌≡◌, refl, ◌⊎◌, inl, inr, Bool, Option, none, some, List, ◌++◌,
  ltb, leb, ◌==◌, if◌then◌else◌, length, replicate,
}
use glm.Runtime.Outcome.{Outcome, ok, aborted}

pub data TableMode : Type 0 where
  dense sparse : TableMode

pub TableMode-cases : (m : TableMode) → (m ≡ dense) ⊎ (m ≡ sparse)
TableMode-cases dense = inl refl
TableMode-cases sparse = inr refl

-- `HashMap<i64, u64>`. Only indices that passed a sign test are inserted, so a key is a number.
abbrev pub SparseMap : Type 0
SparseMap = List (ℕ × ℕ)

-- `data` is the buffer as its `len` cells, `none` where the pointer is null; likewise `sparse_map`.
-- `len` is an `i64` that is only ever set to 0 or to a length of at least 8.
pub record GlmTable : Type 0 where
  pub buffer : Option (List ℕ)
  pub len : ℕ
  pub reserve : ℕ
  pub esize : ℕ
  pub mode : TableMode
  pub contains_tables : Bool
  pub sparse_map : Option SparseMap

abbrev pub sparse_threshold : ℕ
sparse_threshold = 100_000

-- 1 MiB
abbrev pub graduate_at : ℕ
graduate_at = 1_048_576

-- 64 MiB
abbrev pub reserve_floor : ℕ
reserve_floor = 67_108_864

abbrev pub page : ℕ
page = 4096

-- `Layout::from_size_align(bytes, 8)` refuses a size that rounds up to more than `isize::MAX`.
unfoldable pub elem_layout : ℕ → ℕ → Outcome ℕ
elem_layout len esize =
    if leb (2 ^ 64) (len * esize)
    then aborted
    else if ltb (2 ^ 63 - 8) (len * esize)
    then aborted
    else ok (len * esize)

-- `checked_next_power_of_two`: the first of `p`, `2 * p`, … that is not below `n`, in 64 bits.
unfoldable pub next_power_of_two : ℕ → ℕ → ℕ → Option ℕ
next_power_of_two ℕ.zero p n = none
next_power_of_two (ℕ.suc k) p n =
    let more = next_power_of_two k (p * 2) n in if leb n p then some p else more

abbrev pub or_abort {ℓ} : {A : Type ℓ} → Option A → Outcome A
or_abort none = aborted
or_abort (some a) = ok a

unfoldable pub reserve_for : ℕ → Outcome ℕ
reserve_for bytes =
    or_abort (next_power_of_two 64 1 (if ltb bytes reserve_floor then reserve_floor else bytes))

-- `(n + PAGE - 1) & !(PAGE - 1)` on `usize`
unfoldable pub round_up_page : ℕ → ℕ
round_up_page n = (n + page - 1) % 2 ^ 64 / page * page

-- What a cell of `esize` bytes holds of the word at `val`: all of it, or its first byte.
unfoldable pub cell_of : ℕ → ℕ → ℕ
cell_of esize val = if esize == 8 then val else val % 256

-- A buffer that grows keeps its cells, and the new ones are zero.
unfoldable pub grow_cells : List ℕ → ℕ → List ℕ
grow_cells cells new_len = cells ++ replicate (new_len - length cells) 0
