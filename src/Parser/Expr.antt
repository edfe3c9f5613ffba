-- ===== src/Parser/Expr.antt =====
-- src/parser.rs: expressions and table constructors. Each loop is a function over the parsers that it
-- calls; what a call leaves of the tokens is no structural part, so calls and rounds cost fuel.
use Prim.Native.String.{String}
use text.Mathlib.Text.{◌==◌ as str_eq}
use glm.Prelude.{
  ℕ, zero, suc, ◌+◌, Bool, true, false, ◌&&◌, ◌||◌, Option, none, some, List, [], ◌∷◌, leb, ◌==◌,
  if◌then◌else◌,
}
use glm.Syntax.{
  Expr, Entries, no_entries, entry, Token, kind, BinOp, add, sub, mul, div, int_div, mod_op, and_op,
  or_op, UnOp, neg, not_op, len, left_paren, right_paren, left_bracket, right_bracket, left_brace,
  right_brace, comma, colon, assign, true_tok, false_tok, and_tok, or_tok, not_tok, plus, minus,
  star, slash, double_slash, percent, unary_op, binary_op, table_ctor, index, sys_alloc_count,
}
use glm.Parser.Result.{
  ok, err, out_of_fuel, Parser, pure, raise, ◌>>=◌, ◌>>◌, peek, is_kind, skip, expect, peeking,
  expected_expression, duplicate_index, constant_key, index_overflow, record_syntax, named_key,
}

-- `BOUNDS_FAIL_THRESHOLD`, `i64::MAX / 8`
abbrev pub bounds_fail_threshold : ℕ
bounds_fail_threshold = 1_152_921_504_606_846_975

-- The operators of each level of precedence, by the token that is peeked.
unfoldable pub or_level : Option Token → Option BinOp
or_level (some or_tok) = some or_op
or_level _ = none

unfoldable pub and_level : Option Token → Option BinOp
and_level (some and_tok) = some and_op
and_level _ = none

unfoldable pub comparison_level : Option Token → Option BinOp
comparison_level (some Token.less_than) = some BinOp.less_than
comparison_level (some Token.less_eq) = some BinOp.less_eq
comparison_level (some Token.greater_than) = some BinOp.greater_than
comparison_level (some Token.greater_eq) = some BinOp.greater_eq
comparison_level (some Token.equal) = some BinOp.equal
comparison_level (some Token.not_equal) = some BinOp.not_equal
comparison_level _ = none

unfoldable pub term_level : Option Token → Option BinOp
term_level (some plus) = some add
term_level (some minus) = some sub
term_level _ = none

unfoldable pub factor_level : Option Token → Option BinOp
factor_level (some star) = some mul
factor_level (some slash) = some div
factor_level (some double_slash) = some int_div
factor_level (some percent) = some mod_op
factor_level _ = none

unfoldable pub unary_level : Option Token → Option UnOp
unary_level (some minus) = some neg
unary_level (some not_tok) = some not_op
unary_level (some Token.len) = some len
unary_level _ = none

-- The `while` loop that folds operands to the left.
unfoldable pub left_loop : ℕ → (Option Token → Option BinOp) → Parser Expr → Expr → Parser Expr
left_loop zero ops operand left ts = out_of_fuel
left_loop (suc k) ops operand left ts = elim (ops (peek ts)) [
  | none ↦ ok (left, ts)
  | some op ↦ (do skip; right ← operand; left_loop k ops operand (binary_op op left right)) ts
]

-- `parse_or`, `parse_and`, `parse_term` and `parse_factor`.
unfoldable pub left_assoc : ℕ → (Option Token → Option BinOp) → Parser Expr → Parser Expr
left_assoc k ops operand = do left ← operand; left_loop k ops operand left

-- `parse_comparison`: at most one operator.
unfoldable pub comparison_step : Parser Expr → Parser Expr
comparison_step term = do
  left ← term
  peeking λ t. elim (comparison_level t) [
    | none ↦ pure left
    | some op ↦ do skip; right ← term; pure (binary_op op left right)
  ]

unfoldable pub unary_step : Parser Expr → Parser Expr → Parser Expr
unary_step unary postfix = peeking λ t. elim (unary_level t) [
  | none ↦ postfix
  | some op ↦ do skip; e ← unary; pure (unary_op op e)
]

unfoldable pub postfix_loop : ℕ → Parser Expr → Expr → Parser Expr
postfix_loop zero parse e ts = out_of_fuel
postfix_loop (suc k) parse e ts = elim (is_kind (kind left_bracket) (peek ts)) [
  | false ↦ ok (e, ts)
  | true ↦ (do skip; key ← parse; expect right_bracket; postfix_loop k parse (index e key)) ts
]

unfoldable pub primary_step : Parser Expr → Parser Expr → Parser Expr
primary_step parse ctor (Token.integer n ∷ ts) = ok (Expr.integer n, ts)
primary_step parse ctor (Token.float x ∷ ts) = ok (Expr.float x, ts)
primary_step parse ctor (true_tok ∷ ts) = ok (Expr.boolean true, ts)
primary_step parse ctor (false_tok ∷ ts) = ok (Expr.boolean false, ts)
primary_step parse ctor (Token.nil ∷ ts) = ok (Expr.nil, ts)
primary_step parse ctor (left_brace ∷ ts) = ctor ts
primary_step parse ctor (Token.string s ∷ ts) = ok (Expr.string s, ts)
primary_step parse ctor (Token.identifier name ∷ ts) =
    if str_eq name "sys_alloc_count" && is_kind (kind left_paren) (peek ts)
    then (do skip; expect right_paren; pure sys_alloc_count) ts
    else ok (Expr.identifier name, ts)
primary_step parse ctor (left_paren ∷ ts) = (do inner ← parse; expect right_paren; pure inner) ts
primary_step parse ctor _ = err expected_expression

-- An entry of a constructor: its slot, its value and the next positional slot.
abbrev pub Slot : Type 0
Slot = record { slot : ℕ; value : Expr; next_pos : ℕ }

unfoldable pub constant : Parser ℕ
constant (Token.integer k ∷ ts) = ok (k, ts)
constant _ = err constant_key

abbrev pub name_of : Expr → String
name_of (Expr.identifier n) = n
name_of _ = "name"

-- `[key] = value`
unfoldable pub keyed_step : Parser Expr → ℕ → Parser Slot
keyed_step parse pos = do
  skip
  key ← constant
  expect right_bracket
  expect assign
  if leb bounds_fail_threshold key
      then raise index_overflow
      else (do value ← parse; pure (record { slot = key; value = value; next_pos = pos }))

-- A value at the next positional slot.
unfoldable pub positional_step : Parser Expr → ℕ → Parser Slot
positional_step parse pos = do
  value ← parse
  peeking λ u.
      if is_kind (kind colon) u
      then raise record_syntax
      else if is_kind (kind assign) u
      then raise (named_key (name_of value))
      else pure (record { slot = pos; value = value; next_pos = pos + 1 })

-- `parse_ctor_entry`
unfoldable pub entry_step : Parser Expr → ℕ → Parser Slot
entry_step parse pos =
    peeking
      λ t. if is_kind (kind left_bracket) t then keyed_step parse pos else positional_step parse pos

abbrev pub member : ℕ → List ℕ → Bool
member k [] = false
member k (j ∷ js) = j == k || member k js

-- The loop of `parse_table_ctor`, with the slots that are taken.
unfoldable pub ctor_loop : ℕ → (ℕ → Parser Slot) → List ℕ → ℕ → Parser Entries
ctor_loop zero next slots pos ts = out_of_fuel
ctor_loop (suc k) next slots pos ts =
    (do
      s ← next pos
      let last = entry s.slot s.value no_entries
      let more = (do
        es ← ctor_loop k next (s.slot ∷ slots) s.next_pos
        pure (entry s.slot s.value es))
      if member s.slot slots
          then raise (duplicate_index s.slot)
          else peeking λ t.
            if is_kind (kind comma) t
            then (do skip; peeking λ u. if is_kind (kind right_brace) u then pure last else more)
            else pure last)
      ts

unfoldable pub table_ctor_step : ℕ → (ℕ → Parser Slot) → Parser Expr
table_ctor_step k next = peeking λ t.
    if is_kind (kind right_brace) t
    then (do skip; pure (table_ctor 0 no_entries))
    else (do es ← ctor_loop k next [] 0; expect right_brace; pure (table_ctor 0 es))

-- The methods of `Parser` for expressions; `parse_expr` is `parse_or`.
unfoldable mutual
  pub parse_expr : ℕ → Parser Expr
  parse_expr zero = λ ts. out_of_fuel
  parse_expr (suc f) = left_assoc f or_level (parse_and f)

  pub parse_and : ℕ → Parser Expr
  parse_and zero = λ ts. out_of_fuel
  parse_and (suc f) = left_assoc f and_level (parse_comparison f)

  pub parse_comparison : ℕ → Parser Expr
  parse_comparison zero = λ ts. out_of_fuel
  parse_comparison (suc f) = comparison_step (parse_term f)

  pub parse_term : ℕ → Parser Expr
  parse_term zero = λ ts. out_of_fuel
  parse_term (suc f) = left_assoc f term_level (parse_factor f)

  pub parse_factor : ℕ → Parser Expr
  parse_factor zero = λ ts. out_of_fuel
  parse_factor (suc f) = left_assoc f factor_level (parse_unary f)

  pub parse_unary : ℕ → Parser Expr
  parse_unary zero = λ ts. out_of_fuel
  parse_unary (suc f) = unary_step (parse_unary f) (parse_postfix f)

  pub parse_postfix : ℕ → Parser Expr
  parse_postfix zero = λ ts. out_of_fuel
  parse_postfix (suc f) = do e ← parse_primary f; postfix_loop f (parse_expr f) e

  pub parse_primary : ℕ → Parser Expr
  parse_primary zero = λ ts. out_of_fuel
  parse_primary (suc f) = primary_step (parse_expr f) (parse_table_ctor f)

  pub parse_table_ctor : ℕ → Parser Expr
  parse_table_ctor zero = λ ts. out_of_fuel
  parse_table_ctor (suc f) = table_ctor_step f (parse_ctor_entry f)

  pub parse_ctor_entry : ℕ → ℕ → Parser Slot
  parse_ctor_entry zero = λ pos ts. out_of_fuel
  parse_ctor_entry (suc f) = entry_step (parse_expr f)
