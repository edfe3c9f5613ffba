-- ===== src/Parser/Total/Exprs.antt =====
-- With twelve units of fuel for each token and a few more the expression parser of src/parser.rs ends.
use glm.Prelude.{ℕ, zero, suc, ◌+◌, ◌*◌, ◌≤◌, ◌<◌, refl, arith, length}
use glm.Syntax.{Expr}
use glm.Parser.Result.{Tokens, Parser}
use glm.Parser.Ends.{Ends, Reads, ReadsBelow, weaken, Ends-continue}
use glm.Parser.Slots.{IsSlotted}
use glm.Parser.Expr.{
  or_level, and_level, term_level, factor_level, parse_expr, parse_and, parse_comparison,
  parse_term, parse_factor, parse_unary, parse_postfix, parse_primary, parse_table_ctor,
  parse_ctor_entry,
}
use glm.Parser.Total.Steps.{
  left_assoc-Reads, comparison_step-Reads, unary_step-Reads, postfix_loop-Ends, primary_step-Reads,
}
use glm.Parser.Total.Ctor.{SlotSlotted, entry_step-Ends, table_ctor_step-Ends}

-- With fuel above `12 * l + rank` the parser reads an expression off at most `l` tokens.
abbrev Ranked : ℕ → ℕ → (ℕ → Parser Expr) → Type 0
Ranked rank f parse = (l : ℕ) → 12 * l + rank < f → Reads l IsSlotted (parse f)

-- All the methods at one amount of fuel. A call that consumes nothing goes to a method of lower rank.
record Level (f : ℕ) : Type 0 where
  primary : Ranked 0 f parse_primary
  postfix : Ranked 1 f parse_postfix
  unary : Ranked 2 f parse_unary
  factor : Ranked 3 f parse_factor
  term : Ranked 4 f parse_term
  comparison : Ranked 5 f parse_comparison
  conjunction : Ranked 6 f parse_and
  expression : Ranked 7 f parse_expr
  slot : (l : ℕ) → 12 * l + 8 < f → (pos : ℕ) → Reads l SlotSlotted (parse_ctor_entry f pos)
  ctor :
      (l : ℕ)
      → 12 * l + 9 < f
      → (ts : Tokens) → length ts ≤ l
      → Ends IsSlotted 0 ts (parse_table_ctor f ts)

Level-zero : Level 0
Level-zero = record {
  primary = λ l h. absurd (omega arith);
  postfix = λ l h. absurd (omega arith);
  unary = λ l h. absurd (omega arith);
  factor = λ l h. absurd (omega arith);
  term = λ l h. absurd (omega arith);
  comparison = λ l h. absurd (omega arith);
  conjunction = λ l h. absurd (omega arith);
  expression = λ l h. absurd (omega arith);
  slot = λ l h. absurd (omega arith);
  ctor = λ l h. absurd (omega arith);
}

module _ (f : ℕ) (v : Level f) where
  -- Once a token is consumed there are twelve units to spare.
  below :
      (rank l : ℕ) (parse : ℕ → Parser Expr)
      → Ranked rank f parse
      → rank ≤ 9
      → 12 * l ≤ f
      → ReadsBelow l IsSlotted (parse f)
  below rank l parse h r le ts lt = h (length ts) (omega arith) ts (omega arith)

  postfix-suc : Ranked 1 (suc f) parse_postfix
  unfolding parse_expr
  postfix-suc l h ts le = Ends-continue (v.primary l (omega arith) ts le) λ e rest s used.
      weaken (omega arith) (
        postfix_loop-Ends l _ (below 7 l parse_expr v.expression (omega arith) (omega arith)) f e
          rest s (omega arith) (omega arith))

  Level-suc : Level (suc f)
  unfolding parse_expr factor_level term_level and_level or_level
  Level-suc = record {
    primary = λ l h.
        primary_step-Reads l _ _ (below 7 l parse_expr v.expression (omega arith) (omega arith))
          λ ts lt. v.ctor (length ts) (omega arith) ts (omega arith);
    postfix = postfix-suc;
    unary = λ l h.
        unary_step-Reads l _ _ (below 2 l parse_unary v.unary (omega arith) (omega arith))
          (v.postfix l (omega arith));
    factor =
        λ l h. left_assoc-Reads l factor_level _ refl (v.unary l (omega arith)) f (omega arith);
    term = λ l h. left_assoc-Reads l term_level _ refl (v.factor l (omega arith)) f (omega arith);
    comparison = λ l h. comparison_step-Reads l _ (v.term l (omega arith));
    conjunction =
        λ l h. left_assoc-Reads l and_level _ refl (v.comparison l (omega arith)) f (omega arith);
    expression =
        λ l h. left_assoc-Reads l or_level _ refl (v.conjunction l (omega arith)) f (omega arith);
    slot = λ l h pos ts le. entry_step-Ends l _ (v.expression l (omega arith)) pos ts le;
    ctor = λ l h ts le. table_ctor_step-Ends l _ (v.slot l (omega arith)) f ts le (omega arith);
  }

Level-all : (f : ℕ) → Level f
Level-all zero = Level-zero
Level-all (suc f) = Level-suc f (Level-all f)

-- The expression parser ends on `ts`: it fails, or consumes a token and gives an expression none of
-- whose constructors writes a slot twice.
pub parse_expr-Ends :
    (f : ℕ) (ts : Tokens) → 12 * length ts + 7 < f → Ends IsSlotted 1 ts (parse_expr f ts)
parse_expr-Ends f ts h = let level = Level-all f in level.expression (length ts) h ts (omega arith)
