-- ===== src/Parser/Stmt.antt =====
-- src/parser.rs: statements, blocks and whole programs.
use Prim.Native.String.{String}
use glm.Prelude.{
  ℕ, zero, suc, ◌+◌, ◌*◌, Bool, true, false, Option, none, some, List, [], ◌∷◌, ◌==◌, if◌then◌else◌,
  length,
}
use glm.Syntax.{
  Expr, Stmt, Stmts, no_stmts, stmt, Token, kind, assign, comma, end, else_tok, else_if, then_tok,
  do_tok, left_paren, right_paren, local_decl, assignment, index_assign, while_loop, do_block,
  if_else,
}
use glm.Parser.Result.{
  ParseError, ok, err, out_of_fuel, Tokens, Parser, pure, raise, ◌>>=◌, ◌>>◌, peek, is_kind, skip,
  expect, peeking, expected_name, counts, after_if, after_elseif, bad_target, unexpected,
}
use glm.Parser.Expr.{parse_expr}

unfoldable pub var_name : Parser String
var_name (Token.identifier n ∷ ts) = ok (n, ts)
var_name _ = err expected_name

-- The loops that read items separated by commas: names, and expressions.
unfoldable pub comma_loop : {A : Type 0} → ℕ → Parser A → Parser (List A)
comma_loop zero item ts = out_of_fuel
comma_loop (suc k) item ts =
    (do
      x ← item
      peeking λ t.
          if is_kind (kind comma) t
          then (do skip; xs ← comma_loop k item; pure (x ∷ xs))
          else pure (x ∷ []))
      ts

-- A block up to the token at which `stop` says so, which stays.
unfoldable pub block_loop : ℕ → (Option Token → Bool) → Parser Stmt → Parser Stmts
block_loop zero stop item ts = out_of_fuel
block_loop (suc k) stop item ts = elim (stop (peek ts)) [
  | true ↦ ok (no_stmts, ts)
  | false ↦ (do s ← item; ss ← block_loop k stop item; pure (stmt s ss)) ts
]

-- The loops of `while` and `do` stop at `end` alone; `peek_not_block_end` is the negation of the other.
unfoldable pub at_end : Option Token → Bool
at_end = is_kind (kind end)

unfoldable pub block_end : Option Token → Bool
block_end (some end) = true
block_end (some else_tok) = true
block_end (some else_if) = true
block_end none = true
block_end _ = false

unfoldable pub local_step : ℕ → Parser Expr → Parser Stmt
local_step k parse = do
  skip
  names ← comma_loop k var_name
  peeking λ t.
      if is_kind (kind assign) t
      then (do
        skip
        exprs ← comma_loop k parse
        if length exprs == length names
            then pure (local_decl names exprs)
            else raise (counts (length names) (length exprs)))
      else pure (local_decl names [])

unfoldable pub while_step : ℕ → Parser Expr → Parser Stmt → Parser Stmt
while_step k parse item = do
  skip
  c ← parse
  expect do_tok
  body ← block_loop k at_end item
  expect end
  pure (while_loop c body)

unfoldable pub do_step : ℕ → Parser Stmt → Parser Stmt
do_step k item = do skip; body ← block_loop k at_end item; expect end; pure (do_block body)

-- What follows the keyword `if`, and in `parse_elseif_chain` the keyword `elseif`, with the error for a
-- body that none of the three keywords ends.
unfoldable pub if_step : ParseError → ℕ → Parser Expr → Parser Stmt → Parser Stmt → Parser Stmt
if_step unclosed k parse item chain = do
  c ← parse
  expect then_tok
  body ← block_loop k block_end item
  peeking λ t.
      if is_kind (kind else_if) t
      then (do s ← chain; pure (if_else c body (stmt s no_stmts)))
      else if is_kind (kind else_tok) t
      then (do skip; rest ← block_loop k block_end item; expect end; pure (if_else c body rest))
      else if is_kind (kind end) t
      then (do skip; pure (if_else c body no_stmts))
      else raise unclosed

unfoldable pub print_step : ℕ → Parser Expr → Parser Stmt
print_step k parse = do
  skip
  expect left_paren
  exprs ← peeking λ t. if is_kind (kind right_paren) t then pure [] else comma_loop k parse
  expect right_paren
  pure (Stmt.print exprs)

unfoldable pub assign_to : Expr → Expr → Parser Stmt
assign_to (Expr.identifier name) rhs = pure (assignment name rhs)
assign_to (Expr.index obj key) rhs = pure (index_assign obj key rhs)
assign_to _ rhs = raise bad_target

unfoldable pub assign_step : Parser Expr → Parser Stmt
assign_step parse = do lhs ← parse; expect assign; rhs ← parse; assign_to lhs rhs

-- `parse_stmt`, by the token that is peeked; `chain` is `parse_elseif_chain`.
unfoldable pub dispatch : ℕ → Parser Expr → Parser Stmt → Parser Stmt → Option Token → Parser Stmt
dispatch k parse item chain (some Token.local) = local_step k parse
dispatch k parse item chain (some Token.while_tok) = while_step k parse item
dispatch k parse item chain (some Token.if_tok) = skip >> if_step after_if k parse item chain
dispatch k parse item chain (some Token.do_tok) = do_step k item
dispatch k parse item chain (some Token.print) = print_step k parse
dispatch k parse item chain (some (Token.identifier _)) = assign_step parse
dispatch k parse item chain t = raise (unexpected t)

unfoldable pub stmt_step : ℕ → Parser Expr → Parser Stmt → Parser Stmt → Parser Stmt
stmt_step k parse item chain = peeking (dispatch k parse item chain)

unfoldable mutual
  pub parse_stmt : ℕ → Parser Stmt
  parse_stmt zero = λ ts. out_of_fuel
  parse_stmt (suc f) = stmt_step f (parse_expr f) (parse_stmt f) (parse_elseif_chain f)

  pub parse_elseif_chain : ℕ → Parser Stmt
  parse_elseif_chain zero = λ ts. out_of_fuel
  parse_elseif_chain (suc f) =
      expect else_if >> if_step after_elseif f (parse_expr f) (parse_stmt f) (parse_elseif_chain f)

-- `parse_program`: the statements read, and the diagnostics: the first error ends the run.
abbrev pub Program : Type 0
Program = record { stmts : Stmts; diagnostics : List ParseError }

abbrev then_rest : Stmt → Option Program → Option Program
then_rest s none = none
then_rest s (some p) = some (record { stmts = stmt s p.stmts; diagnostics = p.diagnostics })

unfoldable pub program_loop : ℕ → Parser Stmt → Tokens → Option Program
program_loop zero item ts = none
program_loop (suc k) item [] = some (record { stmts = no_stmts; diagnostics = [] })
program_loop (suc k) item (t ∷ ts) = elim (item (t ∷ ts)) [
  | ok r ↦ then_rest r.0 (program_loop k item r.1)
  | err e ↦ some (record { stmts = no_stmts; diagnostics = e ∷ [] })
  | out_of_fuel ↦ none
]

-- Sixteen calls for each token are enough fuel.
unfoldable pub fuel_for : Tokens → ℕ
fuel_for ts = 16 * length ts + 16

unfoldable pub parse_program : Tokens → Option Program
parse_program ts = program_loop (length ts + 1) (parse_stmt (fuel_for ts)) ts
