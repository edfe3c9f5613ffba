-- ===== src/Runtime/Heap.antt =====
-- src/rt.rs: the C-ABI entry points over table headers at addresses, and the live-table count.
pub mod Owned
pub mod Free
use glm.Prelude.{
  ℕ, zero, suc, ◌+◌, ◌-◌, ◌/◌, ◌%◌, ◌^◌, Bool, true, false, ◌&&◌, ◌||◌, Option, none, some, List,
  [], ◌∷◌, map, ltb, ◌==◌, if◌then◌else◌, ℤ, pos, negsuc, i64_max,
}
use glm.Runtime.Outcome.{Outcome, ok, aborted, panicked, fault, out_of_fuel, ◌>>=◌, Os}
use glm.Runtime.Table.{GlmTable, SparseMap, dense, sparse, elem_layout}
use glm.Runtime.Grow.{tbl_grow, tbl_reserve}
use glm.Runtime.Access.{tbl_set, tbl_get, tbl_len}

abbrev pub Ptr : Type 0
Ptr = ℕ

abbrev pub null : Ptr
null = 0

-- The live headers, `ALLOC_COUNT`, and whether the leak check is registered (`LEAK_HOOK`).
pub record Machine : Type 0 where
  pub header : Ptr → Option GlmTable
  pub alloc_count : ℕ
  pub leak_hook : Bool

unfoldable pub update : (Ptr → Option GlmTable) → Ptr → Option GlmTable → Ptr → Option GlmTable
update h p c q = if p == q then c else h q

-- `&mut *t`
unfoldable pub load : Ptr → Machine → Outcome GlmTable
load p m = elim (m.header p) [ none ↦ fault | some t ↦ ok t ]

unfoldable pub store : Ptr → Machine → GlmTable → Outcome Machine
store p m t = ok (record m { header = update m.header p (some t) })

-- The header that `glm_tbl_new` boxes: bit 0 of `flags` is the sparse mode, bit 7 the deep free.
unfoldable pub new_header : ℕ → ℕ → GlmTable
new_header esize flags =
    let is_sparse = flags % 2 == 1 in
    record {
      buffer = none;
      len = 0;
      reserve = 0;
      esize = esize;
      mode = if is_sparse then sparse else dense;
      contains_tables = flags / 128 % 2 == 1;
      sparse_map = if is_sparse then some [] else none;
    }

-- `fresh` is the address that the allocator returns for the boxed header.
unfoldable pub glm_tbl_new : Ptr → ℕ → ℕ → Machine → Machine × Ptr
glm_tbl_new fresh esize flags m = (
  record {
    header = update m.header fresh (some (new_header esize flags));
    alloc_count = (m.alloc_count + 1) % 2 ^ 64;
    leak_hook = true;
  },
  fresh,
)

-- A null pointer passes the mode test, and faults in `span_grow` where that reads the header.
unfoldable pub glm_tbl_grow : Os → Ptr → ℤ → Machine → Outcome Machine
glm_tbl_grow os p idx m =
    if p == null
    then elim idx [
      | pos i ↦ if i == i64_max then aborted else fault
      | negsuc i ↦ if i == 0 then fault else panicked
    ]
    else load p m >>= λ t. tbl_grow os t idx >>= store p m

unfoldable pub glm_tbl_reserve : Os → Ptr → ℤ → Machine → Outcome Machine
glm_tbl_reserve os p n m = load p m >>= λ t. tbl_reserve os t n >>= store p m

unfoldable pub glm_tbl_set : Os → Ptr → ℤ → ℕ → Machine → Outcome Machine
glm_tbl_set os p index val m =
    if p == null then ok m else load p m >>= λ t. tbl_set os t index val >>= store p m

-- The word at `dst` afterwards; `none` is a null `dst`.
unfoldable pub glm_tbl_get : Ptr → ℤ → Option ℕ → Machine → Outcome (Option ℕ)
glm_tbl_get p index none m = ok none
glm_tbl_get p index (some old) m =
    if p == null then ok (some old) else load p m >>= λ t. tbl_get t index >>= λ v. ok (some v)

unfoldable pub glm_tbl_len : Ptr → Machine → Outcome ℕ
glm_tbl_len p m = if p == null then ok 0 else load p m >>= tbl_len

-- `is_valid_ptr` on a 64-bit target: above 16 MiB, below 128 TiB, aligned to 8 bytes.
unfoldable pub is_valid_ptr : ℕ → Bool
is_valid_ptr addr = ltb 0x0100_0000 addr && ltb addr 0x7fff_ffff_ffff && addr % 8 == 0

-- A buffer of words read as `len` pointers.
unfoldable pub read_words : ℕ → List ℕ → Outcome (List ℕ)
read_words zero cells = ok []
read_words (suc n) [] = fault
read_words (suc n) (c ∷ cells) = read_words n cells >>= λ ws. ok (c ∷ ws)

-- The words that the deep free looks at, the values of a map in the order of the list. A dense buffer is
-- read as `len` pointers of 8 bytes, whatever the size of a cell is; cells of one byte end before that.
unfoldable pub child_words : GlmTable → Outcome (List ℕ)
child_words t =
    if t.contains_tables
    then elim t.mode [
      | dense ↦ elim t.buffer [
        | none ↦ ok []
        | some cells ↦ if t.esize == 8 || t.len == 0 then read_words t.len cells else fault
      ]
      | sparse ↦ elim t.sparse_map [ none ↦ ok [] | some m ↦ ok (map (λ (e : ℕ × ℕ). e.1) m) ]
    ]
    else ok []

-- The loop over those words, with the call that frees one.
unfoldable pub free_children :
    (Ptr → Machine → Outcome Machine) → List ℕ → Machine → Outcome Machine
free_children free [] m = ok m
free_children free (c ∷ cs) m =
    let freed = if is_valid_ptr c then free c m else ok m in freed >>= free_children free cs

-- The flat deallocation: a heap buffer goes back by its layout.
unfoldable pub release : GlmTable → Outcome (Unit {0})
release t = elim t.mode [
  | sparse ↦ ok tt
  | dense ↦ elim t.buffer [
    | none ↦ ok tt
    | some _ ↦ if t.reserve == 0 then (elem_layout t.len t.esize >>= λ _. ok tt) else ok tt
  ]
]

-- `glm_tbl_free`, on fuel for the depth of nesting. The source takes the box of the header back without
-- a test; for a header that is not live that is undefined behaviour, here `fault`. The header is dead
-- before its children are looked at.
unfoldable pub glm_tbl_free : ℕ → Ptr → Machine → Outcome Machine
glm_tbl_free zero p m = out_of_fuel
glm_tbl_free (suc fuel) p m =
    let dead = record m {
      header = update m.header p none;
      alloc_count = (m.alloc_count + 2 ^ 64 - 1) % 2 ^ 64;
    } in
    let body = load p m >>= λ t. child_words t >>= λ ws.
    free_children (glm_tbl_free fuel) ws dead >>= λ m'. release t >>= λ _. ok m' in
    if p == null then ok m else body

-- `sys_alloc_count`
unfoldable pub sys_alloc_count : Machine → ℕ
sys_alloc_count m = m.alloc_count
