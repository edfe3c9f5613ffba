-- ===== src/Parser/Result.antt =====
-- The outcome of a parsing step of src/parser.rs, and what a step does to the tokens.
use Prim.Native.String.{String}
use glm.Prelude.{ℕ, Bool, false, Option, none, some, List, [], ◌∷◌, ◌==◌, if◌then◌else◌}
use glm.Syntax.{Token, kind}

-- `ParseError`, a constructor for each message with the values that it shows.
pub data ParseError : Type 0 where
  expected : Token → Option Token → ParseError
  expected_name : ParseError
  counts : ℕ → ℕ → ParseError
  after_if : ParseError
  after_elseif : ParseError
  bad_target : ParseError
  unexpected : Option Token → ParseError
  expected_expression : ParseError
  duplicate_index : ℕ → ParseError
  constant_key : ParseError
  index_overflow : ParseError
  record_syntax : ParseError
  named_key : String → ParseError

-- `out_of_fuel` has no counterpart in the source.
pub data Parse {ℓ} (A : Type ℓ) : Type ℓ where
  ok : A → Parse A
  err : ParseError → Parse A
  out_of_fuel : Parse A

abbrev pub Tokens : Type 0
Tokens = List Token

abbrev pub Parser {ℓ} : Type ℓ → Type ℓ
Parser A = Tokens → Parse (A × Tokens)

abbrev pub pure {ℓ} : {A : Type ℓ} → A → Parser A
pure a ts = ok (a, ts)

abbrev pub raise {ℓ} : {A : Type ℓ} → ParseError → Parser A
raise e ts = err e

abbrev pub continue {ℓ κ} :
    {A : Type ℓ} {B : Type κ} → Parse (A × Tokens) → (A → Parser B) → Parse (B × Tokens)
continue (ok r) k = k r.0 r.1
continue (err e) k = err e
continue out_of_fuel k = out_of_fuel

infixl 1 ◌>>=◌ ◌>>◌
abbrev pub ◌>>=◌ {ℓ κ} : {A : Type ℓ} {B : Type κ} → Parser A → (A → Parser B) → Parser B
p >>= k = λ ts. continue (p ts) k

abbrev pub ◌>>◌ {ℓ κ} : {A : Type ℓ} {B : Type κ} → Parser A → Parser B → Parser B
p >> q = p >>= λ _. q

-- `self.tokens.peek()`, and the test of what is peeked.
abbrev pub peek : Tokens → Option Token
peek [] = none
peek (t ∷ ts) = some t

abbrev pub is_kind : ℕ → Option Token → Bool
is_kind k none = false
is_kind k (some t) = k == kind t

-- `self.tokens.next()`
abbrev pub advance : Tokens → Tokens
advance [] = []
advance (t ∷ ts) = ts

unfoldable pub skip : Parser (Unit {0})
skip ts = ok (tt, advance ts)

-- `Parser::expect`, for a token without payload.
unfoldable pub expect : Token → Parser (Unit {0})
expect t ts = if is_kind (kind t) (peek ts) then ok (tt, advance ts) else err (expected t (peek ts))

-- A step that depends on the next token.
abbrev pub peeking {ℓ} : {A : Type ℓ} → (Option Token → Parser A) → Parser A
peeking f ts = f (peek ts) ts
