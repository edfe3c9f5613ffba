-- ===== src/Runtime/Heap/Owned.antt =====
-- Deep free of src/rt.rs on a tree of tables: exactly the owned headers go, each once.
use glm.Prelude.{
  ℕ, ◌+◌, ◌≡◌, refl, ◌∙◌, Bool, true, false, ◌||◌, Option, none, some, List, [], ◌∷◌, ◌++◌, arith,
  ◌==◌, if◌then◌else◌, length,
}
use glm.Runtime.Outcome.{ok}
use glm.Runtime.Table.{GlmTable}
use glm.Runtime.Heap.{Ptr, null, Machine, is_valid_ptr, child_words, release}

abbrev pub Headers : Type 0
Headers = Ptr → Option GlmTable

unfoldable pub contains : Ptr → List Ptr → Bool
contains q [] = false
contains q (p ∷ ps) = p == q || contains q ps

abbrev pub Distinct : List Ptr → Type 0
Distinct [] = Unit
Distinct (p ∷ ps) = (contains p ps ≡ false) × Distinct ps

-- `Owned h p ps`: the tables reachable from `p` through cells that the deep free follows form a
-- tree, whose headers are `ps`.
mutual
  pub data Owned (h : Headers) : Ptr → List Ptr → Type 0 where
    own :
        {p : Ptr} {qs : List Ptr} (t : GlmTable) (ws : List ℕ)
        → (p == null) ≡ false
        → h p ≡ some t
        → release t ≡ ok tt
        → child_words t ≡ ok ws
        → OwnedAll h ws qs
        → Owned h p (p ∷ qs)

  pub data OwnedAll (h : Headers) : List ℕ → List Ptr → Type 0 where
    done : OwnedAll h [] []
    skip :
        {c : ℕ} {cs : List ℕ} {qs : List Ptr}
        → is_valid_ptr c ≡ false
        → OwnedAll h cs qs
        → OwnedAll h (c ∷ cs) qs
    child :
        {c : ℕ} {cs : List ℕ} {ps qs : List Ptr}
        → is_valid_ptr c ≡ true
        → Owned h c ps
        → OwnedAll h cs qs
        → OwnedAll h (c ∷ cs) (ps ++ qs)

pub contains-append :
    (q : Ptr) (ps qs : List Ptr) → contains q (ps ++ qs) ≡ (contains q ps || contains q qs)
unfolding contains
contains-append q [] qs = refl
contains-append q (p ∷ ps) qs = ground (arith, contains-append q ps qs)

-- The two heaps hold the same headers at every address of the list.
abbrev pub Agree : Headers → Headers → List Ptr → Type 0
Agree h h' ps = (q : Ptr) → contains q ps ≡ true → h' q ≡ h q

-- A tree does not depend on the headers outside it.
mutual
  unfolding contains

  Owned-Agree :
      {h h' : Headers} {p : Ptr} {ps : List Ptr} → Owned h p ps → Agree h h' ps → Owned h' p ps
  Owned-Agree {p = p} (own {qs = qs} t ws n e r w c) a =
      own t ws n (a p (ground arith) ∙ e) r w (OwnedAll-Agree c (λ q m. a q (ground arith)))

  pub OwnedAll-Agree :
      {h h' : Headers} {cs : List ℕ} {qs : List Ptr}
      → OwnedAll h cs qs
      → Agree h h' qs
      → OwnedAll h' cs qs
  OwnedAll-Agree done a = done
  OwnedAll-Agree (skip v c) a = skip v (OwnedAll-Agree c a)
  OwnedAll-Agree (child {ps = ps} {qs = qs} v o c) a =
      child v (Owned-Agree o (λ q m. a q (ground (arith, contains-append q ps qs))))
        (OwnedAll-Agree c (λ q m. a q (ground (arith, contains-append q ps qs))))

-- What freeing the headers `ps` does to the machine.
pub record Freed (m : Machine) (ps : List Ptr) (m' : Machine) : Type 0 where
  pub headers : (q : Ptr) → m'.header q ≡ (if contains q ps then none else m.header q)
  pub count : m'.alloc_count + length ps ≡ m.alloc_count
