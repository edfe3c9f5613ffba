-- ===== src/Lowerer/Rules.antt =====
-- The rules by which the actions of src/lowerer.rs are whole steps.
use Prim.Native.String.{String}
use glm.Prelude.{
  ◌%◌, ◌^◌, ℕ, ◌+◌, ◌≡◌, refl, ap, sym, subst, ◌∙◌, arith, Bool, true, false, not, ◌&&◌, ◌||◌,
  Option, none, some, [], ◌∷◌, ◌==◌, if◌then◌else◌, length, Bool-cases, inl, inr,
}
use glm.Ir.{BlockId, RegId, Instruction}
use glm.Lowerer.State.{
  Local, Lowerer, undeclared_variable, ok, err, Lower, pure, panic, ◌>>=◌, and_then, next_reg,
  target_or_next, emit, or_panic, read_var, find_var, update_var, update_in, put_scopes,
  declare_var, declare_in, elem_of, Facts,
}
use glm.Checker.State.{elem_at}
use glm.Lowerer.Blocks.{target_of, hits, writes, open_at, AllBelow}
use glm.Lowerer.Steps.{
  Post, gives, fails, panics, Post-and_then, Post-map, fresh, Grows-refl, Grows-weaken, Grows-then,
  Grows-before, Grows-next,
}
use glm.Lowerer.Flow.{Mid, Ready, Step, Spec, Ready-Step, emit-Mid}

pub chain_opens :
    (o : BlockId → Bool) (j a b c : BlockId)
    → b == a || not (o b) ≡ true
    → (j == c || ((j == b || (o j && not (j == a))) && not (j == b)))
      ≡ j == c || (o j && not (j == a))
chain_opens o j a b c h = elim (Bool-cases (j == b)) [
  | inl same ↦ let e = ap o {x = j} {y = b} (ground arith) in ground arith
  | inr other ↦ ground arith
]

pub chain_moved :
    (o : BlockId → Bool) (a b c : BlockId)
    → b == a || not (o b) ≡ true
    → c == b || not (c == b || (o c && not (c == a))) ≡ true
    → c == a || not (o c) ≡ true
chain_moved o a b c h k = elim (Bool-cases (c == b)) [
  | inl same ↦ let e : c ≡ b = ground arith in subst (λ x. x == a || not (o x) ≡ true) (sym e) h
  | inr other ↦ ground arith
]

module _ (s d e : Lowerer) where
  Step-opens :
      {t u : Option RegId}
      → Step t s d
      → Step u d e
      → (j : BlockId)
      → open_at j e.blocks
        ≡ j == e.current_block || (open_at j s.blocks && not (j == s.current_block))
  Step-opens x y j =
      y.opens j
      ∙ ap (λ b. j == e.current_block || (b && not (j == d.current_block))) (x.opens j)
      ∙ chain_opens (λ i. open_at i s.blocks) j s.current_block d.current_block e.current_block
          x.moved

  Step-moved :
      {t u : Option RegId}
      → Step t s d
      → Step u d e
      → e.current_block == s.current_block || not (open_at e.current_block s.blocks) ≡ true
  Step-moved x y =
      chain_moved (λ i. open_at i s.blocks) s.current_block d.current_block e.current_block x.moved
        (ap (λ b. e.current_block == d.current_block || not b) (sym (x.opens e.current_block))
          ∙ y.moved)

  pub Step-then : (t : Option RegId) → Step none s d → Step t d e → Step t s e
  Step-then t x y = record {
    grows = Grows-then t s d e x.grows y.grows;
    opens = Step-opens x y;
    moved = Step-moved x y;
  }

  pub Step-before : (t : Option RegId) → Step t s d → Step none d e → Step t s e
  Step-before t x y = record {
    grows = Grows-before t s d e x.grows y.grows;
    opens = Step-opens x y;
    moved = Step-moved x y;
  }

pub stays :
    (o : BlockId → Bool) (j c : BlockId) → o c ≡ true → o j ≡ j == c || (o j && not (j == c))
stays o j c h = elim (Bool-cases (j == c)) [
  | inl same ↦ let e = ap o {x = j} {y = c} (ground arith) in ground arith
  | inr other ↦ ground arith
]

pub Step-Mid :
    (t : Option RegId) (s : Lowerer) (n : ℕ) (c : BlockId) (f : BlockId → Bool) (d : Lowerer)
    → ((j : BlockId) → f j ≡ j == c || (open_at j s.blocks && not (j == s.current_block)))
    → c == s.current_block || not (open_at c s.blocks) ≡ true
    → Mid t s n c f d
    → Step t s d
Step-Mid t s n c f d h k m = record {
  grows = m.grows;
  opens = λ j.
      m.opens j
      ∙ h j
      ∙ ap (λ b. j == b || (open_at j s.blocks && not (j == s.current_block))) (sym m.here);
  moved = ap (λ b. b == s.current_block || not (open_at b s.blocks)) m.here ∙ k;
}

-- A change of the state that leaves the registers and the blocks alone.
pub Step-same :
    (s d : Lowerer)
    → Ready s
    → d.blocks ≡ s.blocks
    → d.current_block ≡ s.current_block
    → d.free_reg ≡ s.free_reg
    → Step none s d
unfolding hits fresh
Step-same s d ready p q r = record {
  grows = record {
    regs = omega arith;
    counts = λ lim k. let e = ap (writes k) p in omega arith;
    grown = let e = ap length p in omega arith;
    sound = subst (λ bs. AllBelow (length bs) bs) (sym p);
  };
  opens = λ j.
      ap (open_at j) p
      ∙ stays (λ i. open_at i s.blocks) j s.current_block ready
      ∙ ap (λ c. j == c || (open_at j s.blocks && not (j == s.current_block))) (sym q);
  moved = ground arith;
}

module _ {A : Type 0} where
  pub Spec-pure : (a : A) → Spec none (pure a)
  Spec-pure a s r = gives (Step-same s s r refl refl refl)

  pub Spec-panic : (t : Option RegId) → Spec t (panic {A = A})
  Spec-panic t s r = panics

  pub Spec-or_panic : (o : Option A) → Spec none (or_panic o)
  unfolding or_panic
  Spec-or_panic none s r = panics
  Spec-or_panic (some a) s r = gives (Step-same s s r refl refl refl)

  pub Spec-weaken : (t : Option RegId) (m : Lower A) → Spec none m → Spec t m
  Spec-weaken t m h s r =
      Post-map
        (λ a d x. record { grows = Grows-weaken t s d x.grows; opens = x.opens; moved = x.moved })
        (h s r)

  pub Spec-if :
      (t : Option RegId) (b : Bool) (m n : Lower A)
      → Spec t m
      → Spec t n
      → Spec t (if b then m else n)
  Spec-if t true m n h k = h
  Spec-if t false m n h k = k

module _ {A B : Type 0} (t : Option RegId) (m : Lower A) (k : A → Lower B) where
  pub Spec-bind : Spec none m → ((a : A) → Spec t (k a)) → Spec t (m >>= k)
  Spec-bind h hk s r =
      Post-and_then (m s) k (h s r)
        λ a d x. Post-map (λ b e y. Step-then s d e t x y) (hk a d (Ready-Step s d x))

  pub Spec-before : Spec t m → ((a : A) → Spec none (k a)) → Spec t (m >>= k)
  Spec-before h hk s r =
      Post-and_then (m s) k (h s r)
        λ a d x. Post-map (λ b e y. Step-before s d e t x y) (hk a d (Ready-Step s d x))

-- A register that is given out may be written once by what follows.
pub Spec-next :
    {A : Type 0} (k : RegId → Lower A)
    → ((r : RegId) → Spec (some r) (k r))
    → Spec none (next_reg >>= k)
unfolding next_reg and_then
Spec-next k h s r =
    Post-map
      (λ a e x. record {
        grows = Grows-next s (record s { free_reg = s.free_reg + 1 }) e refl refl x.grows;
        opens = x.opens;
        moved = x.moved;
      })
      (h (s.free_reg % 2 ^ 32) (record s { free_reg = s.free_reg + 1 }) r)

pub Spec-target :
    {A : Type 0} (t : Option RegId) (k : RegId → Lower A)
    → ((r : RegId) → Spec (some r) (k r))
    → Spec t (target_or_next t >>= k)
unfolding target_or_next and_then
Spec-target none k h = Spec-next k h
Spec-target (some r) k h = h r

pub Spec-emit : (i : Instruction) → Spec (target_of i) (emit i)
Spec-emit i s r =
    Post-map
      (λ _ e m.
        Step-Mid (target_of i) s (length s.blocks) s.current_block (λ j. open_at j s.blocks) e
          (λ j. stays (λ b. open_at b s.blocks) j s.current_block r) (ground arith) m)
      (emit-Mid s (length s.blocks) s.current_block (λ j. open_at j s.blocks) i s
        (record { grows = Grows-refl s; room = omega arith; here = refl; opens = λ j. refl }))

pub Spec-read_var : (x : String) → Spec none (read_var x)
unfolding read_var
Spec-read_var x s r =
    elim (find_var x s.scopes)
      as (λ v.
        Post (λ _ d. Step none s d)
          (elim v [ none ↦ err undeclared_variable s | some l ↦ ok l s ])) [
            | none ↦ fails
            | some l ↦ gives (Step-same s s r refl refl refl)
          ]

pub Spec-update_var : (x : String) (l : Local) → Spec none (update_var x l)
unfolding update_var put_scopes
Spec-update_var x l s r =
    elim (update_in x l s.scopes) as (λ v. Post (λ _ d. Step none s d) (put_scopes s v)) [
      | none ↦ fails
      | some cs ↦ gives (Step-same s _ r refl refl refl)
    ]

pub Spec-declare_var : (x : String) (l : Local) → Spec none (declare_var x l)
unfolding declare_var declare_in
Spec-declare_var x l s r =
    elim s.scopes as (λ v. Post (λ _ d. Step none s d) (declare_in x l s v)) [
      | [] ↦ panics
      | _ ∷ _ ↦ gives (Step-same s _ r refl refl refl)
    ]

pub Spec-elem_of : (facts : Facts) (site : ℕ) → Spec none (elem_of facts site)
unfolding elem_of
Spec-elem_of facts site =
    Spec-bind none _ _ (Spec-or_panic (elem_at facts.elems site)) (λ t. Spec-pure _)
