-- ===== src/Runtime/Grow.antt =====
-- src/rt.rs: growing the span of a dense table, in the heap and in a reserved mapping.
use glm.Prelude.{
  ℕ, ◌+◌, ◌*◌, ◌%◌, ◌^◌, max, ◌&&◌, not, Option, none, some, List, ltb, leb, ◌==◌, if◌then◌else◌,
  replicate, ℤ, pos, negsuc, pos_part, to_i64, i64_max,
}
use glm.Runtime.Outcome.{Outcome, ok, aborted, panicked, ◌>>=◌, Os}
use glm.Runtime.Table.{
  GlmTable, dense, sparse, graduate_at, elem_layout, reserve_for, round_up_page, grow_cells,
}

-- The table with its buffer, its length and its reservation given anew.
abbrev pub with_buffer : GlmTable → Option (List ℕ) → ℕ → ℕ → GlmTable
with_buffer t cells len reserve = record t { buffer = cells; len = len; reserve = reserve }

-- The cells of a buffer after it grew to `new_len`, which a null pointer stands for none of.
unfoldable pub grown : Option (List ℕ) → ℕ → List ℕ
unfolding grow_cells
grown none new_len = replicate new_len 0
grown (some cells) new_len = grow_cells cells new_len

-- `graduate`: the buffer moves into a reserved mapping, whose pages read as zero.
unfoldable pub graduate : Os → GlmTable → ℕ → ℕ → Outcome GlmTable
graduate os t new_bytes new_len = do
  reserve ← reserve_for new_bytes
  let moved = with_buffer t (some (grown t.buffer new_len)) new_len reserve
  let copied = elem_layout t.len t.esize >>= λ _. ok moved
  if not (os.mmap reserve)
      then aborted
      else if not (os.mprotect (round_up_page new_bytes))
      then aborted
      else elim t.buffer [ none ↦ ok moved | some _ ↦ copied ]

-- `grow_vm`: the reservation is remapped if it is too small, then the pages are committed.
unfoldable pub remap : Os → GlmTable → ℕ → Outcome ℕ
remap os t new_bytes =
    if ltb t.reserve new_bytes
    then (do reserve ← reserve_for new_bytes; if os.mremap reserve then ok reserve else aborted)
    else ok t.reserve

unfoldable pub grow_vm : Os → GlmTable → ℕ → ℕ → Outcome GlmTable
grow_vm os t new_bytes new_len = do
  reserve ← remap os t new_bytes
  if os.mprotect (round_up_page new_bytes)
      then ok (with_buffer t (some (grown t.buffer new_len)) new_len reserve)
      else aborted

-- The last part of `span_grow`. The answer of `alloc_zeroed` is not tested: a refusal leaves a null
-- buffer under the new length.
unfoldable pub grow_heap : Os → GlmTable → ℕ → Outcome GlmTable
grow_heap os t new_len = do
  bytes ← elem_layout new_len t.esize
  let fresh = if os.alloc_zeroed bytes then some (replicate new_len 0) else none
  let first = ok (with_buffer t fresh new_len t.reserve)
  let copied = (do
    _ ← elem_layout t.len t.esize
    if os.realloc bytes
        then ok (with_buffer t (some (grown t.buffer new_len)) new_len t.reserve)
        else aborted)
  elim t.buffer [ none ↦ first | some _ ↦ copied ]

-- `want.max(tbl.len.wrapping_mul(2)).max(8)` for a `want` that is not negative: a product that
-- wraps to a negative number loses against it, as 0 does.
unfoldable pub grown_len : ℕ → ℕ → ℕ
grown_len len want = max (max want (pos_part (to_i64 (len * 2 % 2 ^ 64)))) 8

unfoldable pub grow_to : Os → GlmTable → ℕ → Outcome GlmTable
grow_to os t new_len =
    let new_bytes = new_len * t.esize in
    if leb (2 ^ 64) new_bytes
    then aborted
    else if not (t.reserve == 0)
    then grow_vm os t new_bytes new_len
    else if leb graduate_at new_bytes && os.vm
    then graduate os t new_bytes new_len
    else grow_heap os t new_len

unfoldable pub span_grow : Os → GlmTable → ℤ → Outcome GlmTable
span_grow os t (negsuc _) = panicked
span_grow os t (pos want) = if leb want t.len then ok t else grow_to os t (grown_len t.len want)

-- `glm_tbl_grow` on a live table. `idx.wrapping_add(1)` is read off its 64-bit pattern; for a
-- negative `idx` it is not positive.
unfoldable pub tbl_grow : Os → GlmTable → ℤ → Outcome GlmTable
tbl_grow os t idx = elim t.mode [
  | sparse ↦ ok t
  | dense ↦ elim idx [
    | pos i ↦ if i == i64_max then aborted else span_grow os t (to_i64 ((i + 1) % 2 ^ 64))
    | negsuc i ↦ span_grow os t (elim i [ ℕ.zero ↦ pos 0 | ℕ.suc k ↦ negsuc k ])
  ]
]

-- `glm_tbl_reserve` on a live table.
unfoldable pub tbl_reserve : Os → GlmTable → ℤ → Outcome GlmTable
tbl_reserve os t n = elim t.mode [ sparse ↦ ok t | dense ↦ span_grow os t n ]
