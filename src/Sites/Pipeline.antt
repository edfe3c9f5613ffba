-- ===== src/Sites/Pipeline.antt =====
-- From the tokens to the checked program: src/parser.rs, src/analysis.rs and src/type_checker.rs in the
-- order in which src/main.rs runs them.
use glm.Prelude.{ℕ, ◌≡◌, some, List, length, subst}
use glm.Syntax.{
  StaticType, Stmt, Stmts, no_stmts, stmt, local_decl, assignment, index_assign, while_loop,
  do_block, if_else, print,
}
use glm.Parser.Result.{Tokens}
use glm.Parser.Slots.{StmtSlotted, StmtsSlotted}
use glm.Parser.Stmt.{Program, parse_program}
use glm.Parser.Total.Stmts.{parse_program-ends}
use glm.Checker.Unify.{Substitutions}
use glm.Checker.Check.{new_checker, check_program}
use glm.Checker.Keeps.{Keeps}
use glm.Sites.{number_sites}
use glm.Sites.Numbered.{StmtDeclares, StmtsDeclare, check_numbered-Keeps}

mutual
  unfolding StmtSlotted StmtDeclares

  stmt_declares : (s : Stmt) → StmtSlotted s → StmtDeclares s
  stmt_declares (local_decl names exprs) h = h.0
  stmt_declares (while_loop c body) h = stmts_declare body h.1
  stmt_declares (do_block body) h = stmts_declare body h
  stmt_declares (if_else c then_body else_body) (hc, ht, he) =
      (stmts_declare then_body ht, stmts_declare else_body he)
  stmt_declares (assignment x e) h = tt
  stmt_declares (index_assign o k v) h = tt
  stmt_declares (print es) h = tt

  stmts_declare : (ss : Stmts) → StmtsSlotted ss → StmtsDeclare ss
  stmts_declare no_stmts h = tt
  stmts_declare (stmt s ss) h = (stmt_declares s h.0, stmts_declare ss h.1)

parsed-StmtsDeclare : (ts : Tokens) (p : Program) → parse_program ts ≡ some p → StmtsDeclare p.stmts
parsed-StmtsDeclare ts p e =
    let (q, runs, slotted, one) = parse_program-ends ts in
    let same : q ≡ p = cc in
    stmts_declare p.stmts (subst (λ (x : Program). StmtsSlotted x.stmts) same slotted)

-- A program that the parser gives, numbered from 0 and with an element type for every number given, is
-- checked without a panic; unless a resolution does not end, the final state of the checker has as many
-- scopes as a new checker, the same element types and every diagnostic there was.
pub parsed-check_program-Keeps :
    (ts : Tokens) (p : Program) (f : ℕ) (elems : List StaticType) (shape : Substitutions)
    → parse_program ts ≡ some p
    → length elems ≡ (number_sites p.stmts 0).1
    → Keeps
        (new_checker elems shape)
        (check_program f ((number_sites p.stmts 0).0) (new_checker elems shape))
parsed-check_program-Keeps ts p f elems shape e n =
    check_numbered-Keeps f p.stmts elems shape (parsed-StmtsDeclare ts p e) n
