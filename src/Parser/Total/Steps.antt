-- ===== src/Parser/Total/Steps.antt =====
-- The loops and steps of the expression parser of src/parser.rs end if the parsers that they call do.
use glm.Prelude.{
  ℕ, zero, suc, ◌≤◌, ◌<◌, ◌≡◌, Bool-cases, Option-cases, ◌&&◌, Option, none, some, [], ◌∷◌, arith,
  inl, inr, length,
}
use text.Mathlib.Text.{◌==◌ as str_eq}
use glm.Syntax.{
  Expr, Token, kind, BinOp, left_bracket, right_bracket, left_paren, right_paren, left_brace,
  true_tok, false_tok,
}
use glm.Parser.Result.{Tokens, Parser, skip, peek, is_kind, advance, peeking}
use glm.Parser.Ends.{
  Ends, gives, fails, Reads, ReadsBelow, weaken, Ends-continue, Ends-if, is_kind-advance,
  length-advance, expect-Ends,
}
use glm.Parser.Slots.{IsSlotted}
use glm.Parser.Expr.{
  comparison_level, unary_level, left_loop, left_assoc, comparison_step, unary_step, postfix_loop,
  primary_step,
}

module _ (l : ℕ) (ops : Option Token → Option BinOp) (operand : Parser Expr)
    (idle : ops none ≡ none) (reads : Reads l IsSlotted operand) where
  left_loop-Ends :
      (k : ℕ) (left : Expr) (ts : Tokens)
      → IsSlotted left
      → length ts ≤ l
      → length ts < k
      → Ends IsSlotted 0 ts (left_loop k ops operand left ts)
  unfolding left_loop skip IsSlotted
  left_loop-Ends zero left ts h le lt = absurd (omega arith)
  left_loop-Ends (suc k) left [] h le lt = rw (idle, left_loop) (gives h (omega arith))
  left_loop-Ends (suc k) left (t ∷ ts) h le lt = elim (Option-cases (ops (some t))) [
    | inl e ↦ rw (e, left_loop) (gives h (omega arith))
    | inr (op, e) ↦
        rw (e, left_loop)
          (Ends-continue (reads ts (omega arith)) λ right rest s used. weaken (omega arith) (
            left_loop-Ends k (Expr.binary_op op left right) rest (h, s) (omega arith)
              (omega arith)))
  ]

  pub left_assoc-Reads : (k : ℕ) → l < k → Reads l IsSlotted (left_assoc k ops operand)
  unfolding left_assoc
  left_assoc-Reads k lt ts le = Ends-continue (reads ts le) λ left rest h used.
      weaken (omega arith) (left_loop-Ends k left rest h (omega arith) (omega arith))

pub comparison_step-Reads :
    (l : ℕ) (term : Parser Expr) → Reads l IsSlotted term → Reads l IsSlotted (comparison_step term)
unfolding comparison_step skip IsSlotted
comparison_step-Reads l term reads ts le = Ends-continue (reads ts le) λ left rest h used.
    elim (Option-cases (comparison_level (peek rest))) [
      | inl e ↦ rw (e, peeking) (gives h used)
      | inr (op, e) ↦
          rw (e, peeking)
            (Ends-continue (reads (advance rest) (omega (arith, length-advance rest)))
              λ right after s more. gives (h, s) (omega (arith, length-advance rest)))
    ]

pub unary_step-Reads :
    (l : ℕ) (unary postfix : Parser Expr)
    → ReadsBelow l IsSlotted unary
    → Reads l IsSlotted postfix
    → Reads l IsSlotted (unary_step unary postfix)
unfolding unary_step unary_level skip IsSlotted
unary_step-Reads l unary postfix ru rp [] le = rp [] le
unary_step-Reads l unary postfix ru rp (t ∷ ts) le = elim (Option-cases (unary_level (some t))) [
  | inl e ↦ rw e (rp (t ∷ ts) le)
  | inr (op, e) ↦ rw e (Ends-continue (ru ts (omega arith)) λ x rest h used. gives h (omega arith))
]

pub postfix_loop-Ends :
    (l : ℕ) (parse : Parser Expr) (reads : ReadsBelow l IsSlotted parse) (k : ℕ) (e : Expr)
    (ts : Tokens)
    → IsSlotted e
    → length ts ≤ l
    → length ts < k
    → Ends IsSlotted 0 ts (postfix_loop k parse e ts)
unfolding postfix_loop skip IsSlotted
postfix_loop-Ends l parse reads zero e ts h le lt = absurd (omega arith)
postfix_loop-Ends l parse reads (suc k) e ts h le lt =
    elim (Bool-cases (is_kind (kind left_bracket) (peek ts))) [
      | inr no_key ↦ rw (no_key, postfix_loop) (gives h (omega arith))
      | inl key_next ↦
          let one = is_kind-advance _ ts key_next in
          rw (key_next, postfix_loop)
            (Ends-continue (reads (advance ts) (omega arith)) λ key rest s used.
              Ends-continue (expect-Ends right_bracket rest) λ _ after _ closed.
                weaken (omega arith) (
                  postfix_loop-Ends l parse reads k (Expr.index e key) after (h, s) (omega arith)
                    (omega arith)))
    ]

pub primary_step-Reads :
    (l : ℕ) (parse ctor : Parser Expr)
    → ReadsBelow l IsSlotted parse
    → ((ts : Tokens) → length ts < l → Ends IsSlotted 0 ts (ctor ts))
    → Reads l IsSlotted (primary_step parse ctor)
unfolding primary_step skip IsSlotted
primary_step-Reads l parse ctor rp rc [] le = fails
primary_step-Reads l parse ctor rp rc (left_paren ∷ ts) le =
    Ends-continue (rp ts (omega arith)) λ e rest h used.
      Ends-continue (expect-Ends right_paren rest) λ _ after _ closed. gives h (omega arith)
primary_step-Reads l parse ctor rp rc (left_brace ∷ ts) le =
    weaken (omega arith) (rc ts (omega arith))
primary_step-Reads l parse ctor rp rc (Token.integer n ∷ ts) le = gives tt (omega arith)
primary_step-Reads l parse ctor rp rc (Token.float x ∷ ts) le = gives tt (omega arith)
primary_step-Reads l parse ctor rp rc (Token.string s ∷ ts) le = gives tt (omega arith)
primary_step-Reads l parse ctor rp rc (Token.nil ∷ ts) le = gives tt (omega arith)
primary_step-Reads l parse ctor rp rc (true_tok ∷ ts) le = gives tt (omega arith)
primary_step-Reads l parse ctor rp rc (false_tok ∷ ts) le = gives tt (omega arith)
primary_step-Reads l parse ctor rp rc (Token.identifier name ∷ ts) le =
    Ends-if (str_eq name "sys_alloc_count" && is_kind (kind left_paren) (peek ts))
      (λ call.
        Ends-continue (expect-Ends right_paren (advance ts))
          λ _ after _ closed. gives tt (omega (arith, length-advance ts)))
      (λ _. gives tt (omega arith))
primary_step-Reads l parse ctor rp rc (_ ∷ ts) le = fails
