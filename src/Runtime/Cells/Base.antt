-- ===== src/Runtime/Cells/Base.antt =====
-- The abstract view of a table of src/rt.rs, a word for each index, and its well-formedness.

use glm.Prelude.{ℕ, ◌≡◌, refl, ◌⊎◌, inl, inr, Option, none, some, List, length, get_or}
use glm.Runtime.Table.{GlmTable, TableMode, SparseMap, dense, sparse, cell_of}
use glm.Runtime.Access.{find, or_zero}

-- How the three fields that hold cells fit the mode and the length.
abbrev pub Stored : TableMode → Option (List ℕ) → Option SparseMap → ℕ → ℕ → Type 0
Stored dense (some cells) none len reserve = length cells ≡ len
Stored dense none none len reserve = (len ≡ 0) × (reserve ≡ 0)
Stored sparse none (some m) len reserve = (len ≡ 0) × (reserve ≡ 0)
Stored _ _ _ len reserve = ⊥

pub record IsValid (t : GlmTable) : Type 0 where
  pub stored : Stored t.mode t.buffer t.sparse_map t.len t.reserve
  pub sized : (t.esize ≡ 8) ⊎ (t.esize ≡ 1)

abbrev pub word_at : TableMode → Option (List ℕ) → Option SparseMap → ℕ → ℕ
word_at dense (some cells) _ j = get_or cells j 0
word_at dense none _ j = 0
word_at sparse _ (some m) j = or_zero (find j m)
word_at sparse _ none j = 0

-- The word at index `j`.
unfoldable pub view : GlmTable → ℕ → ℕ
view t j = cell_of t.esize (word_at t.mode t.buffer t.sparse_map j)

-- The shapes of a well-formed table, by its mode.
pub Stored-sparse :
    (m : TableMode) (b : Option (List ℕ)) (s : Option SparseMap) {len reserve : ℕ}
    → m ≡ sparse
    → Stored m b s len reserve
    → (x : SparseMap) × (s ≡ some x) × (b ≡ none) × (len ≡ 0) × (reserve ≡ 0)
Stored-sparse sparse none (some x) e v = (x, refl, refl, v.0, v.1)
Stored-sparse sparse none none e v = absurd v
Stored-sparse sparse (some _) _ e v = absurd v
Stored-sparse dense _ _ e v = cc

pub Stored-dense :
    (m : TableMode) (b : Option (List ℕ)) (s : Option SparseMap) {len reserve : ℕ}
    → m ≡ dense
    → Stored m b s len reserve
    → ((s ≡ none) × (b ≡ none) × (len ≡ 0) × (reserve ≡ 0))
      ⊎ ((cells : List ℕ) × (s ≡ none) × (b ≡ some cells) × (length cells ≡ len))
Stored-dense dense none none e v = inl (refl, refl, v.0, v.1)
Stored-dense dense (some cells) none e v = inr (cells, refl, refl, v)
Stored-dense dense none (some _) e v = absurd v
Stored-dense dense (some _) (some _) e v = absurd v
Stored-dense sparse _ _ e v = cc
