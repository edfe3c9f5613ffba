-- ===== src/Parser/Tests.antt =====
-- Runs of the parser of src/parser.rs at fixed inputs, and its theorems at inputs that meet their hypotheses.
use glm.Prelude.{◌≡◌, ◌≤◌, refl, some, [], ◌∷◌, arith, length}
use glm.Syntax.{
  Expr, no_entries, entry, no_stmts, stmt, Token, assign, left_brace, right_brace, local, comma,
  plus, star, left_bracket, right_bracket, local_decl, table_ctor, binary_op, add, mul,
}
use glm.Parser.Result.{skip, expect, ok, err, duplicate_index, Tokens}
use glm.Parser.Expr.{
  parse_expr, left_assoc, comparison_step, unary_step, unary_level, primary_step, postfix_loop,
  left_loop, factor_level, term_level, comparison_level, and_level, or_level, table_ctor_step,
  ctor_loop, entry_step, positional_step, keyed_step, constant,
}
use glm.Parser.Stmt.{
  Program, parse_program, program_loop, parse_stmt, fuel_for, stmt_step, dispatch, local_step,
  comma_loop, var_name, assign_step, assign_to, at_end, block_end, block_loop, do_step, if_step,
  print_step, while_step,
}
use glm.Parser.Ends.{Ends}
use glm.Parser.Slots.{StmtSlotted, StmtsSlotted}
use glm.Syntax.{StaticType}
use glm.Checker.Check.{new_checker, check_program}
use glm.Checker.Keeps.{Keeps}
use glm.Sites.{number_sites, number_exprs, number_expr}
use glm.Sites.Pipeline.{parsed-check_program-Keeps}
use glm.Parser.Total.Stmts.{parse_stmt-Ends, parse_program-ends}

-- `local t = { 7, [5] = 8 }`
abbrev a_table : Tokens
a_table =
    local
    ∷ Token.identifier "t"
    ∷ assign
    ∷ left_brace
    ∷ Token.integer 7
    ∷ comma
    ∷ left_bracket
    ∷ Token.integer 5
    ∷ right_bracket
    ∷ assign
    ∷ Token.integer 8
    ∷ right_brace
    ∷ []

-- `{ 7, [0] = 8 }`
abbrev slot_twice : Tokens
slot_twice =
    left_brace
    ∷ Token.integer 7
    ∷ comma
    ∷ left_bracket
    ∷ Token.integer 0
    ∷ right_bracket
    ∷ assign
    ∷ Token.integer 8
    ∷ right_brace
    ∷ []

-- `1 + 2 * 3`
abbrev a_sum : Tokens
a_sum = Token.integer 1 ∷ plus ∷ Token.integer 2 ∷ star ∷ Token.integer 3 ∷ []

precedence :
    parse_expr 80 a_sum
    ≡ ok (binary_op add (Expr.integer 1) (binary_op mul (Expr.integer 2) (Expr.integer 3)), [])
unfolding parse_expr left_assoc comparison_step unary_step unary_level primary_step postfix_loop
    left_loop factor_level term_level comparison_level and_level or_level skip
precedence = refl

duplicate : parse_expr 100 slot_twice ≡ err (duplicate_index 0)
unfolding parse_expr left_assoc comparison_step unary_step unary_level primary_step postfix_loop
    left_loop factor_level term_level comparison_level and_level or_level skip table_ctor_step
    ctor_loop entry_step positional_step keyed_step constant expect
duplicate = refl

table_program :
    parse_program a_table
    ≡ some (record {
      stmts =
          stmt
            (local_decl
              ("t" ∷ [])
              (table_ctor 0 (entry 0 (Expr.integer 7) (entry 5 (Expr.integer 8) no_entries)) ∷ []))
            no_stmts;
      diagnostics = [];
    })
unfolding parse_program program_loop parse_stmt fuel_for stmt_step dispatch local_step comma_loop
    var_name assign_step assign_to at_end block_end block_loop do_step if_step print_step while_step
    parse_expr left_assoc comparison_step unary_step unary_level primary_step postfix_loop left_loop
    factor_level term_level comparison_level and_level or_level skip table_ctor_step ctor_loop
    entry_step positional_step keyed_step constant expect
table_program = refl

parse_program-ends_example :
    (p : Program) × (parse_program a_table ≡ some p)
    × StmtsSlotted p.stmts
    × (length p.diagnostics ≤ 1)
parse_program-ends_example = parse_program-ends a_table

parse_stmt-Ends_example : Ends StmtSlotted 1 a_table (parse_stmt 200 a_table)
parse_stmt-Ends_example = parse_stmt-Ends 200 a_table (omega arith)

abbrev parsed_table : Program
parsed_table = record {
  stmts =
      stmt
        (local_decl ("t" ∷ [])
          (table_ctor 0 (entry 0 (Expr.integer 7) (entry 5 (Expr.integer 8) no_entries)) ∷ []))
        no_stmts;
  diagnostics = [];
}

parsed-check_program-Keeps_example : Keeps (new_checker (StaticType.integer ∷ []) []) (
    check_program 6
      ((number_sites parsed_table.stmts 0).0)
      (new_checker (StaticType.integer ∷ []) []))
unfolding number_sites number_expr number_exprs
parsed-check_program-Keeps_example =
    parsed-check_program-Keeps a_table parsed_table 6 (StaticType.integer ∷ []) [] table_program
      refl
