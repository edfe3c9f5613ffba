-- ===== src/Lowerer/Runs.antt =====
-- Actions of src/lowerer.rs one after the other while other blocks are pending, and those that neither
-- open nor close a block.
use Prim.Native.String.{String}
use glm.Prelude.{
  ℕ, ◌≡◌, refl, subst, ◌∙◌, arith, Bool, true, false, not, ◌&&◌, ◌||◌, Option, none, some, ◌==◌,
  if◌then◌else◌, length,
}
use glm.Ir.{BlockId, Terminator, Instruction}
use glm.Lowerer.State.{
  Local, Lowerer, undeclared_variable, ok, err, Lower, pure, ◌>>=◌, and_then, get, emit, terminate,
  or_panic, read_var, find_var, update_var, update_in, put_scopes, push_scope, pop_scope,
}
use glm.Lowerer.Expr.{deeper, shallower}
use glm.Lowerer.Loop.{lower_arm}
use glm.Lowerer.Blocks.{target_of, open_at, GoesBelow}
use glm.Lowerer.Steps.{Post, gives, fails, panics, Post-and_then, Post-map, Grows, Grows-then}
use glm.Lowerer.Flow.{Mid, Spec, step-Mid, terminate-Mid, emit-Mid}
use glm.Lowerer.Rules.{stays, chain_opens, chain_moved, Step-Mid}
use glm.Lowerer.Arms.{Mid-ext, Mid-start, Mid-enter, Mid-same, closed_arm}

-- Steps from the open block `v`, where `f` tells the open ones: one block is open in its place.
pub record Run (s : Lowerer) (n : ℕ) (v : BlockId) (f : BlockId → Bool) (d : Lowerer) : Type 0 where
  pub last : BlockId
  pub mid : Mid none s n last (λ j. j == last || (f j && not (j == v))) d
  pub moved : last == v || not (f last) ≡ true

module _ (s : Lowerer) (n : ℕ) (v : BlockId) (f : BlockId → Bool) where
  pub Run-start : (d : Lowerer) → f v ≡ true → Mid none s n v f d → Run s n v f d
  Run-start d ready m = record {
    last = v;
    mid = Mid-ext none s n v f _ d (λ j. stays f j v ready) m;
    moved = ground arith;
  }

  pub Run-same :
      (d e : Lowerer)
      → e.blocks ≡ d.blocks
      → e.current_block ≡ d.current_block
      → e.free_reg ≡ d.free_reg
      → Run s n v f d
      → Run s n v f e
  Run-same d e p q r x = record {
    last = x.last;
    mid = Mid-same none s n x.last _ d e p q r x.mid;
    moved = x.moved;
  }

  pub Run-step :
      {A : Type 0} (m : Lower A) (d : Lowerer)
      → Spec none m
      → Run s n v f d
      → Post (λ _ e. Run s n v f e) (m d)
  Run-step m d spec x =
      Post-map
        (λ a e (k, after, moved). record {
          last = k;
          mid = Mid-ext none s n k _ _ e (λ j. chain_opens f j v x.last k x.moved) after;
          moved = chain_moved f v x.last k x.moved moved;
        })
        (step-Mid s n x.last (λ j. j == x.last || (f j && not (j == v))) none m d spec x.mid
          (ground arith))

  pub Run-terminate :
      (t : Terminator) (d : Lowerer)
      → GoesBelow n (some t)
      → Run s n v f d
      → Post (λ _ e. (k : BlockId) × Mid none s n k (λ j. f j && not (j == v)) e) (terminate t d)
  Run-terminate t d goes x =
      Post-map
        (λ _ e m. (x.last, Mid-ext none s n x.last _ _ e (λ j. closed_arm f j v x.last x.moved) m))
        (terminate-Mid s n x.last (λ j. j == x.last || (f j && not (j == v))) t d goes x.mid)

  -- A body between the entry of its block and the end of its scope.
  pub Run-arm :
      (c : BlockId) (body : Lower (Unit {0})) (d : Lowerer)
      → Spec none body
      → f v ≡ true
      → Mid none s n c f d
      → Post (λ _ e. Run s n v f e) (lower_arm v body d)
  unfolding lower_arm and_then push_scope pop_scope deeper shallower
  Run-arm c body d spec ready m =
      Post-and_then (body _) _
        (Run-step body _ spec (
          Run-same (record d { current_block = v }) _ refl refl refl
            (Run-start (record d { current_block = v }) ready (Mid-enter s n c v f d m))))
        λ _ e x. gives (Run-same e _ refl refl refl x)

-- The open blocks and the current one are as they were.
pub record Still (s d : Lowerer) : Type 0 where
  pub grows : Grows none s d
  pub here : d.current_block ≡ s.current_block
  pub same : (j : BlockId) → open_at j d.blocks ≡ open_at j s.blocks

abbrev pub Steady : {A : Type 0} → Lower A → Type 0
Steady m = (s : Lowerer) → Post (λ _ d. Still s d) (m s)

pub Still-trans : (s d e : Lowerer) → Still s d → Still d e → Still s e
Still-trans s d e x y = record {
  grows = Grows-then none s d e x.grows y.grows;
  here = y.here ∙ x.here;
  same = λ j. y.same j ∙ x.same j;
}

pub Still-same :
    (s d : Lowerer)
    → d.blocks ≡ s.blocks
    → d.current_block ≡ s.current_block
    → d.free_reg ≡ s.free_reg
    → Still s d
Still-same s d p q r =
    let m =
      Mid-same none s (length s.blocks) s.current_block (λ j. open_at j s.blocks) s d p q r
        (Mid-start s) in
    record { grows = m.grows; here = m.here; same = m.opens }

pub Steady-bind :
    {A B : Type 0} (m : Lower A) (k : A → Lower B)
    → Steady m
    → ((a : A) → Steady (k a))
    → Steady (m >>= k)
Steady-bind m k h hk s =
    Post-and_then (m s) k (h s) λ a d x. Post-map (λ b e y. Still-trans s d e x y) (hk a d)

module _ {A : Type 0} where
  pub Steady-pure : (a : A) → Steady (pure a)
  Steady-pure a s = gives (Still-same s s refl refl refl)

  pub Steady-get : (k : Lowerer → Lower A) → ((s : Lowerer) → Steady (k s)) → Steady (get >>= k)
  unfolding and_then
  Steady-get k h s = h s s

  pub Steady-if : (b : Bool) (m n : Lower A) → Steady m → Steady n → Steady (if b then m else n)
  Steady-if true m n h k = h
  Steady-if false m n h k = k

  pub Steady-or_panic : (o : Option A) → Steady (or_panic o)
  unfolding or_panic
  Steady-or_panic none s = panics
  Steady-or_panic (some a) s = gives (Still-same s s refl refl refl)

  pub Spec-Steady : (m : Lower A) → Steady m → Spec none m
  Spec-Steady m h s ready =
      Post-map
        (λ a d x.
          Step-Mid none s (length s.blocks) s.current_block (λ j. open_at j s.blocks) d
            (λ j. stays (λ b. open_at b s.blocks) j s.current_block ready) (ground arith)
            (record { grows = x.grows; room = x.grows.grown; here = x.here; opens = x.same }))
        (h s)

  pub Mid-Steady :
      (s : Lowerer) (n : ℕ) (c : BlockId) (f : BlockId → Bool) (m : Lower A) (d : Lowerer)
      → Steady m
      → Mid none s n c f d
      → Post (λ _ e. Mid none s n c f e) (m d)
  Mid-Steady s n c f m d h x =
      Post-map
        (λ a e y. record {
          grows = Grows-then none s d e x.grows y.grows;
          room = let p = x.room in let q = y.grows.grown in omega arith;
          here = y.here ∙ x.here;
          opens = λ j. y.same j ∙ x.opens j;
        })
        (h d)

-- An instruction that writes no register.
pub Steady-emit : (i : Instruction) → target_of i ≡ none → Steady (emit i)
Steady-emit i e s =
    Post-map
      (λ _ d m. record {
        grows = subst (λ t. Grows t s d) e m.grows;
        here = m.here;
        same = m.opens;
      })
      (emit-Mid s (length s.blocks) s.current_block (λ j. open_at j s.blocks) i s (Mid-start s))

pub Steady-read_var : (x : String) → Steady (read_var x)
unfolding read_var
Steady-read_var x s =
    elim (find_var x s.scopes)
      as (λ v.
        Post (λ _ d. Still s d) (elim v [ none ↦ err undeclared_variable s | some l ↦ ok l s ])) [
          | none ↦ fails
          | some l ↦ gives (Still-same s s refl refl refl)
        ]

pub Steady-update_var : (x : String) (l : Local) → Steady (update_var x l)
unfolding update_var put_scopes
Steady-update_var x l s =
    elim (update_in x l s.scopes) as (λ v. Post (λ _ d. Still s d) (put_scopes s v)) [
      | none ↦ fails
      | some cs ↦ gives (Still-same s _ refl refl refl)
    ]
