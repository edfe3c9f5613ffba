-- ===== src/Parser/Ends.antt =====
-- How a parsing step of src/parser.rs ends: within its fuel, with a value that has a property and
-- with tokens consumed, or with an error.
use glm.Prelude.{
  ℕ, ◌+◌, ◌≤◌, ◌<◌, ◌≡◌, ◌≢◌, refl, subst, Bool, true, false, [], ◌∷◌, arith, length, if◌then◌else◌,
}
use glm.Syntax.{Token, kind}
use glm.Parser.Result.{
  ParseError, Parse, ok, err, out_of_fuel, Tokens, Parser, continue, peek, is_kind, advance, expect,
}

-- `P` holds of the value, and at least `n` tokens of `ts` are gone.
pub data Ends {A : Type 0} (P : A → Type 0) (n : ℕ) (ts : Tokens)
    : Parse (A × Tokens) → Type 0 where
  gives : {a : A} {rest : Tokens} → P a → length rest + n ≤ length ts → Ends P n ts (ok (a, rest))
  fails : {e : ParseError} → Ends P n ts (err e)

-- On at most `l` tokens the parser ends, and consumes a token if it gives a value.
abbrev pub Reads : {A : Type 0} → ℕ → (A → Type 0) → Parser A → Type 0
Reads l P p = (ts : Tokens) → length ts ≤ l → Ends P 1 ts (p ts)

-- The same on fewer than `l` tokens, which is what is left after a token is consumed.
abbrev pub ReadsBelow : {A : Type 0} → ℕ → (A → Type 0) → Parser A → Type 0
ReadsBelow l P p = (ts : Tokens) → length ts < l → Ends P 1 ts (p ts)

module _ {A : Type 0} {P : A → Type 0} where
  pub Ends-ne-out_of_fuel :
      {n : ℕ} {ts : Tokens} {r : Parse (A × Tokens)} → Ends P n ts r → r ≢ out_of_fuel
  Ends-ne-out_of_fuel (gives h le) = cc
  Ends-ne-out_of_fuel fails = cc

  pub Ends-ok :
      {n : ℕ} {ts rest : Tokens} {r : Parse (A × Tokens)} {a : A}
      → Ends P n ts r
      → r ≡ ok (a, rest)
      → P a × (length rest + n ≤ length ts)
  Ends-ok {n} {ts} (gives h le) e = subst (λ (x : Parse (A × Tokens)). holds x) e (h, le)
    where
      holds : Parse (A × Tokens) → Type 0
      holds (ok r) = P r.0 × (length r.1 + n ≤ length ts)
      holds _ = Unit
  Ends-ok fails e = cc

  -- Fewer tokens gone, of a longer input.
  pub weaken :
      {n m : ℕ} {ts us : Tokens} {r : Parse (A × Tokens)}
      → length ts + m ≤ length us + n
      → Ends P n ts r
      → Ends P m us r
  weaken h (gives p le) = gives p (omega arith)
  weaken h fails = fails

  pub Ends-continue :
      {B : Type 0} {Q : B → Type 0} {n m : ℕ} {ts us : Tokens} {r : Parse (A × Tokens)}
      {k : A → Parser B}
      → Ends P n ts r
      → ((a : A) (rest : Tokens) → P a → length rest + n ≤ length ts → Ends Q m us (k a rest))
      → Ends Q m us (continue r k)
  Ends-continue (gives {a} {rest} p le) f = f a rest p le
  Ends-continue fails f = fails

  pub Ends-map :
      {Q : A → Type 0} {n : ℕ} {ts : Tokens} {r : Parse (A × Tokens)}
      → ((a : A) → P a → Q a)
      → Ends P n ts r
      → Ends Q n ts r
  Ends-map f (gives {a} p le) = gives (f a p) le
  Ends-map f fails = fails

  pub Ends-if :
      {n : ℕ} {ts : Tokens} (b : Bool) {x y : Parse (A × Tokens)}
      → (b ≡ true → Ends P n ts x)
      → (b ≡ false → Ends P n ts y)
      → Ends P n ts (if b then x else y)
  Ends-if true hx hy = hx refl
  Ends-if false hx hy = hy refl

  -- The same where the branches are parsers.
  pub Ends-branch :
      {n : ℕ} {ts us : Tokens} (b : Bool) (p q : Parser A)
      → (b ≡ true → Ends P n ts (p us))
      → (b ≡ false → Ends P n ts (q us))
      → Ends P n ts ((if b then p else q) us)
  Ends-branch true p q hp hq = hp refl
  Ends-branch false p q hp hq = hq refl

-- A peeked token is there, and `advance` takes it off.
pub is_kind-advance :
    (k : ℕ) (ts : Tokens) → is_kind k (peek ts) ≡ true → length (advance ts) + 1 ≡ length ts
is_kind-advance k [] h = cc
is_kind-advance k (t ∷ ts) h = omega arith

pub length-advance : (ts : Tokens) → length (advance ts) ≤ length ts
length-advance [] = omega arith
length-advance (t ∷ ts) = omega arith

pub expect-Ends : (t : Token) (ts : Tokens) → Ends (λ _. Unit {0}) 1 ts (expect t ts)
unfolding expect
expect-Ends t ts =
    Ends-if (is_kind (kind t) (peek ts)) (λ h. gives tt (omega (arith, is_kind-advance _ ts h)))
      (λ _. fails)
