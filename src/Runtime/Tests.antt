-- ===== src/Runtime/Tests.antt =====
-- Runs of the runtime of src/rt.rs at fixed inputs, and its theorems at inputs that meet their hypotheses.
use glm.Prelude.{
  ℕ, ◌≡◌, refl, ◌⊎◌, true, false, none, some, List, [], ◌∷◌, arith, ◌==◌, ◌||◌, if◌then◌else◌, inl,
  inr, pos,
}
use glm.Runtime.Outcome.{ok, fault, Os}
use glm.Runtime.Table.{
  GlmTable, dense, sparse, elem_layout, next_power_of_two, reserve_for, cell_of, grow_cells,
}
use glm.Runtime.Grow.{
  with_buffer, graduate, remap, grow_vm, grow_heap, grown, grown_len, grow_to, span_grow, tbl_grow,
}
use glm.Runtime.Access.{
  insert, find, copy_cells, give_back, upgrade_to_sparse, make_sparse, sparse_insert, threshold,
  write_cell, dense_set, dense_get, tbl_set, tbl_get, border, tbl_len,
}
use glm.Runtime.Heap.{Ptr, Machine, is_valid_ptr, read_words, child_words, release, glm_tbl_free}
use glm.Runtime.Heap.Owned.{contains, Owned, own, done, skip, child}
use glm.Runtime.Heap.Free.{glm_tbl_free-Freed}
use glm.Runtime.Heap.Owned.{Freed}
use glm.Runtime.Cells.Base.{IsValid}
use glm.Runtime.Cells.Grow.{Keeps, Refused, tbl_grow-Keeps}
use glm.Runtime.Cells.Set.{tbl_get-tbl_set, tbl_set-IsValid}
use glm.Runtime.Cells.Stores.{store_all, written, tbl_get-store_all}
use glm.Runtime.Cells.Border.{IsBorder, tbl_len-IsBorder, upgrade_to_sparse-tbl_len}
use glm.Runtime.Reserve.{Commits, InReserve, graduate-Commits, span_grow-InReserve}

-- An allocator and a kernel that grant everything, and ones that refuse.
abbrev granting : Os
granting = record {
  alloc_zeroed = λ n. true;
  realloc = λ n. true;
  mmap = λ n. true;
  mprotect = λ n. true;
  mremap = λ n. true;
  vm = true;
}

abbrev refusing : Os
refusing = record granting { alloc_zeroed = λ n. false; realloc = λ n. false }

abbrev empty_table : GlmTable
empty_table = record {
  buffer = none;
  len = 0;
  reserve = 0;
  esize = 8;
  mode = dense;
  contains_tables = false;
  sparse_map = none;
}

abbrev small_table : GlmTable
small_table = record empty_table { buffer = some (7 ∷ 0 ∷ 9 ∷ []); len = 3 }

abbrev gap_table : GlmTable
gap_table = record empty_table {
  mode = sparse;
  sparse_map = some ((0, 7) ∷ (2, 9) ∷ (1, 8) ∷ (5, 1) ∷ []);
}

small-IsValid : IsValid small_table
small-IsValid = record { stored = refl; sized = inl refl }

-- A store past the end grows the span to at least eight cells.
set_grows :
    tbl_set granting small_table (pos 3) 4
    ≡ ok (record small_table { buffer = some (7 ∷ 0 ∷ 9 ∷ 4 ∷ 0 ∷ 0 ∷ 0 ∷ 0 ∷ []); len = 8 })
unfolding tbl_set dense_set threshold span_grow grow_to grow_heap elem_layout grown grow_cells
    grown_len write_cell cell_of
set_grows = refl

-- A store far past the end upgrades the table.
set_upgrades :
    tbl_set granting small_table (pos 200_000) 4
    ≡ ok (record gap_table { sparse_map = some ((0, 7) ∷ (1, 0) ∷ (2, 9) ∷ (200_000, 4) ∷ []) })
unfolding tbl_set dense_set threshold make_sparse upgrade_to_sparse copy_cells give_back elem_layout
    sparse_insert insert cell_of
set_upgrades = refl

-- A first buffer that the allocator refuses is written through a null pointer.
refused_buffer_faults : tbl_set refusing empty_table (pos 0) 4 ≡ fault
unfolding tbl_set dense_set threshold span_grow grow_to grow_heap elem_layout grown_len write_cell
refused_buffer_faults = refl

tbl_get-tbl_set_example :
    tbl_get (record small_table { buffer = some (7 ∷ 4 ∷ 9 ∷ []) }) (pos 2)
    ≡ (if 1 == 2 then ok (cell_of 8 4) else tbl_get small_table (pos 2))
unfolding tbl_set dense_set threshold span_grow write_cell cell_of
tbl_get-tbl_set_example =
    tbl_get-tbl_set granting small_table 1 2 4
      (record small_table { buffer = some (7 ∷ 4 ∷ 9 ∷ []) }) small-IsValid refl

tbl_get-store_all_example :
    tbl_get (record small_table { buffer = some (7 ∷ 6 ∷ 5 ∷ []) }) (pos 1)
    ≡ ok (written 8 ((1, 4) ∷ (2, 5) ∷ (1, 6) ∷ []) 1 0)
unfolding tbl_get dense_get store_all tbl_set dense_set threshold span_grow write_cell cell_of
tbl_get-store_all_example =
    tbl_get-store_all granting small_table ((1, 4) ∷ (2, 5) ∷ (1, 6) ∷ []) 1 0
      (record small_table { buffer = some (7 ∷ 6 ∷ 5 ∷ []) }) small-IsValid refl refl

tbl_set-IsValid_example :
    IsValid (record gap_table { sparse_map = some ((0, 7) ∷ (2, 9) ∷ (1, 6) ∷ (5, 1) ∷ []) })
    × (gap_table.esize ≡ 8)
unfolding tbl_set sparse_insert insert cell_of
tbl_set-IsValid_example =
    tbl_set-IsValid granting gap_table (pos 1) 6
      (record gap_table { sparse_map = some ((0, 7) ∷ (2, 9) ∷ (1, 6) ∷ (5, 1) ∷ []) })
      (record { stored = (refl, refl); sized = inl refl }) refl

tbl_grow-Keeps_example :
    Keeps small_table
      (record small_table { buffer = some (7 ∷ 0 ∷ 9 ∷ 0 ∷ 0 ∷ 0 ∷ 0 ∷ 0 ∷ []); len = 8 })
    ⊎ Refused granting small_table
        (record small_table { buffer = some (7 ∷ 0 ∷ 9 ∷ 0 ∷ 0 ∷ 0 ∷ 0 ∷ 0 ∷ []); len = 8 })
unfolding tbl_grow span_grow grow_to grow_heap elem_layout grown grow_cells grown_len
tbl_grow-Keeps_example =
    tbl_grow-Keeps granting small_table
      (record small_table { buffer = some (7 ∷ 0 ∷ 9 ∷ 0 ∷ 0 ∷ 0 ∷ 0 ∷ 0 ∷ []); len = 8 })
      small-IsValid (pos 4) refl

tbl_len-IsBorder_example :
    (n : ℕ) × (tbl_len gap_table ≡ ok n) × IsBorder ((0, 7) ∷ (2, 9) ∷ (1, 8) ∷ (5, 1) ∷ []) 0 n
tbl_len-IsBorder_example = tbl_len-IsBorder gap_table _ refl refl

gap_len : tbl_len gap_table ≡ ok 3
unfolding tbl_len border find
gap_len = refl

upgrade_to_sparse-tbl_len_example :
    tbl_len (record gap_table { sparse_map = some ((0, 7) ∷ (1, 0) ∷ (2, 9) ∷ []) })
    ≡ tbl_len small_table
unfolding upgrade_to_sparse copy_cells give_back elem_layout insert
upgrade_to_sparse-tbl_len_example =
    upgrade_to_sparse-tbl_len small_table
      (record gap_table { sparse_map = some ((0, 7) ∷ (1, 0) ∷ (2, 9) ∷ []) }) small-IsValid refl
      refl

abbrev mapped_table : GlmTable
mapped_table = record small_table {
  buffer = some (7 ∷ 0 ∷ 9 ∷ 0 ∷ []);
  len = 4;
  reserve = 67_108_864;
}

abbrev many_cells : ℕ
many_cells = 131_073

abbrev moved_table : GlmTable
moved_table =
    with_buffer small_table (some (grown small_table.buffer many_cells)) many_cells 67_108_864

graduate-Commits_example :
    (moved_table.len ≡ many_cells)
    × (granting.mmap moved_table.reserve ≡ true)
    × Commits granting moved_table
unfolding graduate reserve_for next_power_of_two elem_layout
graduate-Commits_example = graduate-Commits granting small_table many_cells moved_table refl

abbrev wider_table : GlmTable
wider_table = record mapped_table { buffer = some (7 ∷ 0 ∷ 9 ∷ 0 ∷ 0 ∷ 0 ∷ 0 ∷ 0 ∷ []); len = 8 }

span_grow-InReserve_example :
    InReserve wider_table
    × ((mapped_table ≡ wider_table) ⊎ (wider_table.reserve ≡ 0) ⊎ Commits granting wider_table)
unfolding span_grow grow_to grow_vm remap grown grow_cells grown_len
span_grow-InReserve_example =
    span_grow-InReserve granting mapped_table (pos 5) wider_table
      (inr (record {
        reserved = record { whole = refl; small = omega arith };
        holds = omega arith;
        cells = 7 ∷ 0 ∷ 9 ∷ 0 ∷ [];
        buffer = refl;
      }))
      refl

-- A parent at 0x2000000 that holds two rows, a word that is no pointer, and another row unowned.
abbrev parent_table : GlmTable
parent_table = record empty_table {
  buffer = some (0x2000_0008 ∷ 0 ∷ 0x2000_0010 ∷ []);
  len = 3;
  contains_tables = true;
}

abbrev family : Machine
family = record {
  header = λ q.
      if q == 0x2000_0000
      then some parent_table
      else if q == 0x2000_0008 || q == 0x2000_0010 || q == 0x2000_0018
      then some small_table
      else none;
  alloc_count = 4;
  leak_hook = true;
}

abbrev family_ps : List Ptr
family_ps = 0x2000_0000 ∷ 0x2000_0008 ∷ 0x2000_0010 ∷ []

family-Owned : Owned family.header 0x2000_0000 family_ps
unfolding release elem_layout child_words read_words is_valid_ptr
family-Owned = own parent_table (0x2000_0008 ∷ 0 ∷ 0x2000_0010 ∷ []) refl refl refl refl (
    child refl (own small_table [] refl refl refl refl done)
      (skip refl (child refl (own small_table [] refl refl refl refl done) done)))

glm_tbl_free-Freed_example :
    (m' : Machine) × (glm_tbl_free 3 0x2000_0000 family ≡ ok m') × Freed family family_ps m'
unfolding contains
glm_tbl_free-Freed_example =
    glm_tbl_free-Freed 3 0x2000_0000 family_ps family family-Owned (refl, (refl, (refl, tt)))
      (omega arith) (omega arith) (omega arith)
