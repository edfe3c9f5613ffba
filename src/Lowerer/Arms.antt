-- ===== src/Lowerer/Arms.antt =====
-- The branches of src/lowerer.rs: three new blocks, of which two are closed and the third goes on.
use glm.Prelude.{
  ◌%◌, ◌^◌, ℕ, suc, ◌+◌, ◌≤◌, ◌<◌, ◌≡◌, refl, ap, sym, subst, ◌∙◌, arith, Bool, true, false, not,
  ◌&&◌, ◌||◌, Option, none, some, ◌==◌, length, Bool-cases, inl, inr,
}
use glm.Ir.{BlockId, RegId, Terminator, Instruction}
use glm.Lowerer.State.{Lowerer, Lower, ◌>>=◌, ◌>>◌, and_then, new_block, next_reg, emit, terminate}
use glm.Lowerer.Blocks.{target_of, writes, open_at, AllBelow, GoesBelow}
use glm.Lowerer.Steps.{Post, Post-and_then, Post-map, fresh, Grows-refl}
use glm.Lowerer.Flow.{
  Mid, Ready, Step, Spec, Ready-Step, step-Mid, terminate-Mid, new_block-Mid, emit-Mid-next,
}
use glm.Lowerer.Rules.{Step-then, Step-Mid, stays}

pub Mid-ext :
    (t : Option RegId) (s : Lowerer) (n : ℕ) (c : BlockId) (f g : BlockId → Bool) (d : Lowerer)
    → ((j : BlockId) → f j ≡ g j)
    → Mid t s n c f d
    → Mid t s n c g d
Mid-ext t s n c f g d h m = record {
  grows = m.grows;
  room = m.room;
  here = m.here;
  opens = λ j. m.opens j ∙ h j;
}

pub Mid-start :
    (s : Lowerer) → Mid none s (length s.blocks) s.current_block (λ j. open_at j s.blocks) s
Mid-start s = record { grows = Grows-refl s; room = omega arith; here = refl; opens = λ j. refl }

pub Mid-enter :
    (s : Lowerer) (n : ℕ) (c b : BlockId) (f : BlockId → Bool) (d : Lowerer)
    → Mid none s n c f d
    → Mid none s n b f (record d { current_block = b })
Mid-enter s n c b f d m = record {
  grows = record {
    regs = m.grows.regs;
    counts = m.grows.counts;
    grown = m.grows.grown;
    sound = m.grows.sound;
  };
  room = m.room;
  here = refl;
  opens = m.opens;
}

-- A change of the state that leaves the registers and the blocks alone.
pub Mid-same :
    (t : Option RegId) (s : Lowerer) (n : ℕ) (c : BlockId) (f : BlockId → Bool) (d e : Lowerer)
    → e.blocks ≡ d.blocks
    → e.current_block ≡ d.current_block
    → e.free_reg ≡ d.free_reg
    → Mid t s n c f d
    → Mid t s n c f e
Mid-same t s n c f d e p q r m = record {
  grows = record {
    regs = let a = m.grows.regs in omega arith;
    counts = λ lim k.
        let w = ap (writes k) p in
        let g = ap (λ x. fresh s.free_reg x k) r in
        let c = m.grows.counts (omega arith) k in omega arith;
    grown = subst (λ bs. length s.blocks ≤ length bs) (sym p) m.grows.grown;
    sound = λ x. subst (λ bs. AllBelow (length bs) bs) (sym p) (m.grows.sound x);
  };
  room = subst (λ bs. n ≤ length bs) (sym p) m.room;
  here = q ∙ m.here;
  opens = λ j. ap (open_at j) p ∙ m.opens j;
}

pub closed_arm :
    (f : BlockId → Bool) (j v x : BlockId)
    → x == v || not (f x) ≡ true
    → ((j == x || (f j && not (j == v))) && not (j == x)) ≡ f j && not (j == v)
closed_arm f j v x h = elim (Bool-cases (j == x)) [
  | inl same ↦ let e = ap f {x = j} {y = x} (ground arith) in ground arith
  | inr other ↦ ground arith
]

-- A step that starts in the open block `v`, and the terminator that ends it, close `v`.
pub close-Mid :
    {A : Type 0} (s : Lowerer) (n : ℕ) (v : BlockId) (f : BlockId → Bool) (m : Lower A)
    (t : A → Terminator) (k : A → Lower (Unit {0})) (P : Unit {0} → Lowerer → Type 0) (d : Lowerer)
    → Spec none m
    → ((a : A) → GoesBelow n (some (t a)))
    → f v ≡ true
    → Mid none s n v f d
    → ((a : A) (x : BlockId) (e : Lowerer)
        → Mid none s n x (λ j. f j && not (j == v)) e
        → Post P (k a e))
    → Post P ((m >>= λ a. terminate (t a) >>= λ _. k a) d)
close-Mid s n v f m t k P d spec goes ready mid h =
    Post-and_then (m d) _ (step-Mid s n v f none m d spec mid ready) λ a e (x, after, moved).
      Post-and_then (terminate (t a) e) _
        (terminate-Mid s n x (λ j. j == x || (f j && not (j == v))) (t a) e (goes a) after)
        λ _ e' closed. h a x e' (Mid-ext none s n x _ _ e' (λ j. closed_arm f j v x moved) closed)

-- Three new blocks, and what is open with them.
abbrev pub three : (BlockId → Bool) → BlockId → BlockId → BlockId → BlockId → Bool
three o a b k j = ((o j || j == a) || j == b) || j == k

-- The numbers are new and below the number of blocks.
pub record New (o : BlockId → Bool) (a b k : BlockId) : Type 0 where
  pub first : o a ≡ false
  pub second : o b || b == a ≡ false
  pub third : (o k || k == a) || k == b ≡ false
  pub below : (a < suc k) × (b < suc k)

pub blocks-Mid :
    {A : Type 0} (s : Lowerer) (n : ℕ) (c : BlockId) (f : BlockId → Bool) (P : A → Lowerer → Type 0)
    (k : BlockId → BlockId → BlockId → Lower A) (d : Lowerer)
    → Mid none s n c f d
    → ((a b j : BlockId) (e : Lowerer)
        → New f a b j
        → Mid none s (suc j) c (three f a b j) e
        → Post P (k a b j e))
    → Post P ((new_block >>= λ a. new_block >>= λ b. new_block >>= λ j. k a b j) d)
blocks-Mid s n c f P k d mid h =
    Post-and_then (new_block d) _ (new_block-Mid s n c f d mid) λ a e (m₁, _, free_a).
      Post-and_then (new_block e) _ (new_block-Mid s (suc a) c _ e m₁) λ b e' (m₂, le_b, free_b).
        Post-and_then (new_block e') _ (new_block-Mid s (suc b) c _ e' m₂)
          λ j e'' (m₃, le_j, free_j).
            h a b j e''
              (record {
                first = free_a;
                second = free_b;
                third = free_j;
                below = (omega arith, omega arith);
              })
              m₃

same_as : (k j : BlockId) → j ≡ k → k ≡ j
same_as k j e = sym e

same_at : (o : BlockId → Bool) (i j : BlockId) → i == j ≡ true → o i ≡ o j
same_at o i j h = ap o {x = i} {y = j} (ground arith)

pub distinct : (o : BlockId → Bool) (k c : BlockId) → o k ≡ false → o c ≡ true → k == c ≡ false
distinct o k c h ready = elim (Bool-cases (k == c)) [
  | inl same ↦ let e = same_at o k c same in ground arith
  | inr other ↦ other
]

pub New-apart :
    (o : BlockId → Bool) (a b k : BlockId)
    → New o a b k
    → (o b ≡ false) × (o k ≡ false) × (k == a ≡ false) × (k == b ≡ false)
New-apart o a b k new =
    let p = new.second in
    let q = new.third in (ground arith, ground arith, ground arith, ground arith)

-- With the block `c` closed that was current, and the first two of the new ones, the third is left.
pub third_open :
    (o : BlockId → Bool) (c a b k j : BlockId)
    → o c ≡ true
    → New o a b k
    → ((three o a b k j && not (j == c)) && not (j == a)) && not (j == b)
      ≡ j == k || (o j && not (j == c))
third_open o c a b k j ready new =
    let first = new.first in
    let (closed_b, closed_k, k_a, k_b) = New-apart o a b k new in
    let k_c = distinct o k c closed_k ready in
    elim (Bool-cases (j == k)) [
      | inl same ↦
          subst
            (λ i.
              ((three o a b k i && not (i == c)) && not (i == a)) && not (i == b)
              ≡ i == k || (o i && not (i == c)))
            (same_as k j (ground arith)) (ground arith)
      | inr other ↦ elim (Bool-cases (j == a)) [
        | inl at_a ↦ let e = same_at o j a at_a in ground arith
        | inr not_a ↦ elim (Bool-cases (j == b)) [
          | inl at_b ↦ let e = same_at o j b at_b in ground arith
          | inr not_b ↦ ground arith
        ]
      ]
    ]

pub third-Step :
    (s : Lowerer) (n : ℕ) (c a b k v w : BlockId) (d : Lowerer)
    → Ready s
    → New (λ j. open_at j s.blocks) a b k
    → ((j : BlockId)
        → ((three (λ i. open_at i s.blocks) a b k j && not (j == s.current_block)) && not (j == v))
            && not (j == w)
          ≡ ((three (λ i. open_at i s.blocks) a b k j && not (j == s.current_block))
              && not (j == a))
            && not (j == b))
    → Mid none s n c
        (λ j.
          ((three (λ i. open_at i s.blocks) a b k j && not (j == s.current_block)) && not (j == v))
          && not (j == w))
        d
    → Step none s (record d { current_block = k })
third-Step s n c a b k v w d ready new swap mid =
    Step-Mid none s n k _ (record d { current_block = k })
      (λ j. swap j ∙ third_open (λ i. open_at i s.blocks) s.current_block a b k j ready new)
      (let (_, closed, _, _) = New-apart (λ j. open_at j s.blocks) a b k new in ground arith)
      (Mid-enter s n c k _ d mid)

-- What follows a step that was made.
pub Spec-tail :
    {A : Type 0} (t : Option RegId) (s d : Lowerer) (m : Lower A)
    → Step none s d
    → Spec t m
    → Post (λ _ e. Step t s e) (m d)
Spec-tail t s d m x h = Post-map (λ a e y. Step-then s d e t x y) (h d (Ready-Step s d x))

-- An instruction that writes the next register, before a step that has a target of its own.
pub Spec-emit_next :
    {A : Type 0} (t : Option RegId) (i : RegId → Instruction) (k : RegId → Lower A)
    → ((r : RegId) → target_of (i r) ≡ some r)
    → ((r : RegId) → Spec t (k r))
    → Spec t (next_reg >>= λ r. emit (i r) >> k r)
unfolding next_reg and_then
Spec-emit_next t i k new h s ready =
    let o : BlockId → Bool = λ j. open_at j s.blocks in
    Post-and_then (emit (i (s.free_reg % 2 ^ 32)) (record s { free_reg = s.free_reg + 1 })) _
      (emit-Mid-next s (length s.blocks) s.current_block o (i (s.free_reg % 2 ^ 32)) s
        (new (s.free_reg % 2 ^ 32)) (Mid-start s))
      λ _ d m.
        Spec-tail t s d (k (s.free_reg % 2 ^ 32))
          (Step-Mid none s _ s.current_block o d (λ j. stays o j s.current_block ready)
            (ground arith) m)
          (h (s.free_reg % 2 ^ 32))
