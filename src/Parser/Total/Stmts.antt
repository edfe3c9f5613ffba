-- ===== src/Parser/Total/Stmts.antt =====
-- The statement parser of src/parser.rs ends on every input, and so does a whole program.
use glm.Prelude.{
  ℕ, zero, suc, ◌+◌, ◌*◌, ◌≤◌, ◌<◌, ◌≡◌, refl, Bool, Bool-cases, Option, some, List, [], ◌∷◌, arith,
  inl, inr, ◌==◌, if◌then◌else◌, length,
}
use glm.Syntax.{
  Expr, Stmt, no_stmts, stmt, Token, kind, assign, comma, end, else_tok, else_if, then_tok, do_tok,
  left_paren, right_paren,
}
use glm.Parser.Result.{
  Parse, ParseError, after_if, after_elseif, ok, Tokens, Parser, skip, peek, is_kind, advance,
}
use glm.Parser.Ends.{
  Ends, gives, fails, ReadsBelow, weaken, Ends-continue, Ends-map, Ends-branch, length-advance,
  expect-Ends,
}
use glm.Parser.Slots.{IsSlotted, ExprsSlotted, StmtSlotted, StmtsSlotted}
use glm.Parser.Expr.{parse_expr}
use glm.Parser.Stmt.{
  var_name, comma_loop, block_loop, at_end, block_end, local_step, while_step, do_step, if_step,
  print_step, assign_to, assign_step, dispatch, stmt_step, parse_stmt, parse_elseif_chain, Program,
  program_loop, fuel_for, parse_program,
}
use glm.Parser.Total.Exprs.{parse_expr-Ends}

var_name-Ends : (ts : Tokens) → Ends (λ _. Unit {0}) 1 ts (var_name ts)
unfolding var_name
var_name-Ends [] = fails
var_name-Ends (Token.identifier n ∷ ts) = gives tt (omega arith)
var_name-Ends (_ ∷ ts) = fails

-- What holds of every item holds of each of the list.
abbrev Each : {A : Type 0} → (A → Type 0) → List A → Type 0
Each P [] = Unit
Each P (x ∷ xs) = P x × Each P xs

comma_loop-Ends :
    {A : Type 0} (P : A → Type 0) (l : ℕ) (item : Parser A)
    → ReadsBelow l P item
    → (k : ℕ) (ts : Tokens) → length ts < l
    → length ts < k
    → Ends (Each P) 1 ts (comma_loop k item ts)
unfolding comma_loop skip
comma_loop-Ends P l item reads zero ts le lt = absurd (omega arith)
comma_loop-Ends P l item reads (suc k) ts le lt = Ends-continue (reads ts le) λ x rest h used.
    Ends-branch (is_kind (kind comma) (peek rest)) _ _
      (λ _.
        let one = length-advance rest in
        Ends-continue (comma_loop-Ends P l item reads k (advance rest) (omega arith) (omega arith))
          λ xs after hs more. gives (h, hs) (omega arith))
      λ _. gives (h, tt) used

Each-IsSlotted : (es : List Expr) → Each IsSlotted es → ExprsSlotted es
Each-IsSlotted [] h = tt
Each-IsSlotted (e ∷ es) h = (h.0, Each-IsSlotted es h.1)

block_loop-Ends :
    (l : ℕ) (stop : Option Token → Bool) (item : Parser Stmt)
    → ReadsBelow l StmtSlotted item
    → (k : ℕ) (ts : Tokens) → length ts < l
    → length ts < k
    → Ends StmtsSlotted 0 ts (block_loop k stop item ts)
unfolding block_loop StmtSlotted
block_loop-Ends l stop item reads zero ts le lt = absurd (omega arith)
block_loop-Ends l stop item reads (suc k) ts le lt = elim (Bool-cases (stop (peek ts))) [
  | inl e ↦ rw (e, block_loop) (gives tt (omega arith))
  | inr e ↦
      rw (e, block_loop)
        (Ends-continue (reads ts le) λ s rest h used.
          Ends-continue (block_loop-Ends l stop item reads k rest (omega arith) (omega arith))
            λ ss after hs more. gives (h, hs) (omega arith))
]

assign_to-Ends :
    (lhs rhs : Expr) (ts : Tokens)
    → IsSlotted lhs
    → IsSlotted rhs
    → Ends StmtSlotted 0 ts (assign_to lhs rhs ts)
unfolding assign_to StmtSlotted IsSlotted
assign_to-Ends (Expr.identifier n) rhs ts hl hr = gives hr (omega arith)
assign_to-Ends (Expr.index obj key) rhs ts hl hr = gives (hl.0, hl.1, hr) (omega arith)
assign_to-Ends _ rhs ts hl hr = fails

-- The steps, over parsers of expressions and statements that read what is left.
module _ (l k : ℕ) (room : l ≤ k) (parse : Parser Expr) (item chain : Parser Stmt)
    (re : ReadsBelow l IsSlotted parse) (rs : ReadsBelow l StmtSlotted item)
    (rc : ReadsBelow l StmtSlotted chain) where
  block :
      (stop : Option Token → Bool) (ts : Tokens)
      → length ts < l
      → Ends StmtsSlotted 0 ts (block_loop k stop item ts)
  block stop ts lt = block_loop-Ends l stop item rs k ts lt (omega arith)

  if_step-Ends :
      (unclosed : ParseError) (ts : Tokens)
      → length ts < l
      → Ends StmtSlotted 0 ts (if_step unclosed k parse item chain ts)
  unfolding if_step skip StmtSlotted
  if_step-Ends unclosed ts lt = Ends-continue (re ts lt) λ c r₁ hc u₁.
      Ends-continue (expect-Ends then_tok r₁) λ _ r₂ _ u₂.
        Ends-continue (block block_end r₂ (omega arith)) λ body r₃ hb u₃.
          let one = length-advance r₃ in
          Ends-branch (is_kind (kind else_if) (peek r₃)) _ _
            (λ _.
              Ends-continue (rc r₃ (omega arith))
                λ s r₄ hs u₄. gives (hc, hb, (hs, tt)) (omega arith))
            λ _.
              Ends-branch (is_kind (kind else_tok) (peek r₃)) _ _
                (λ _. Ends-continue (block block_end (advance r₃) (omega arith)) λ more r₄ hm u₄.
                  Ends-continue (expect-Ends end r₄) λ _ r₅ _ u₅. gives (hc, hb, hm) (omega arith))
                λ _.
                  Ends-branch (is_kind (kind end) (peek r₃)) _ _
                    (λ _. gives (hc, hb, tt) (omega arith)) (λ _. fails)

  comma_exprs : (ts : Tokens) → length ts < l → Ends ExprsSlotted 1 ts (comma_loop k parse ts)
  comma_exprs ts lt =
      Ends-map Each-IsSlotted (comma_loop-Ends IsSlotted l parse re k ts lt (omega arith))

  module _ (t : Token) (ts : Tokens) (le : length (t ∷ ts) ≤ l) where
    local_step-Ends : Ends StmtSlotted 1 (t ∷ ts) (local_step k parse (t ∷ ts))
    unfolding local_step skip StmtSlotted
    local_step-Ends =
        Ends-continue
          (comma_loop-Ends (λ _. Unit {0}) l var_name (λ us _. var_name-Ends us) k ts (omega arith)
            (omega arith))
          λ names r₁ _ u₁.
            let one = length-advance r₁ in
            Ends-branch (is_kind (kind assign) (peek r₁)) _ _
              (λ _. Ends-continue (comma_exprs (advance r₁) (omega arith)) λ exprs r₂ h u₂.
                Ends-branch (length exprs == length names) _ _
                  (λ same. gives (ground arith, h) (omega arith)) (λ _. fails))
              λ _. gives (omega arith, tt) (omega arith)

    while_step-Ends : Ends StmtSlotted 1 (t ∷ ts) (while_step k parse item (t ∷ ts))
    unfolding while_step skip StmtSlotted
    while_step-Ends = Ends-continue (re ts (omega arith)) λ c r₁ hc u₁.
        Ends-continue (expect-Ends do_tok r₁) λ _ r₂ _ u₂.
          Ends-continue (block at_end r₂ (omega arith)) λ body r₃ hb u₃.
            Ends-continue (expect-Ends end r₃) λ _ r₄ _ u₄. gives (hc, hb) (omega arith)

    do_step-Ends : Ends StmtSlotted 1 (t ∷ ts) (do_step k item (t ∷ ts))
    unfolding do_step skip StmtSlotted
    do_step-Ends =
        Ends-continue (block at_end ts (omega arith))
          λ body r₁ hb u₁. Ends-continue (expect-Ends end r₁) λ _ r₂ _ u₂. gives hb (omega arith)

    print_step-Ends : Ends StmtSlotted 1 (t ∷ ts) (print_step k parse (t ∷ ts))
    unfolding print_step skip StmtSlotted
    print_step-Ends = Ends-continue (expect-Ends left_paren ts) λ _ r₁ _ u₁.
        Ends-continue (arguments r₁ (omega arith)) λ es r₂ h u₂.
          Ends-continue (expect-Ends right_paren r₂) λ _ r₃ _ u₃. gives h (omega arith)
      where
        arguments :
            (us : Tokens)
            → length us < l
            → Ends ExprsSlotted 0 us (
                (if is_kind (kind right_paren) (peek us)
                    then (λ vs. ok ([], vs))
                    else comma_loop k parse)
                  us)
        arguments us lt =
            Ends-branch (is_kind (kind right_paren) (peek us)) _ _ (λ _. gives tt (omega arith))
              λ _. weaken (omega arith) (comma_exprs us lt)

  dispatch-Ends :
      (t : Token) (ts : Tokens)
      → length (t ∷ ts) ≤ l
      → Ends IsSlotted 1 (t ∷ ts) (parse (t ∷ ts))
      → Ends StmtSlotted 1 (t ∷ ts) (dispatch k parse item chain (some t) (t ∷ ts))
  unfolding dispatch assign_step skip
  dispatch-Ends Token.local ts le h = local_step-Ends Token.local ts le
  dispatch-Ends Token.while_tok ts le h = while_step-Ends Token.while_tok ts le
  dispatch-Ends Token.if_tok ts le h = weaken (omega arith) (if_step-Ends after_if ts (omega arith))
  dispatch-Ends Token.do_tok ts le h = do_step-Ends Token.do_tok ts le
  dispatch-Ends Token.print ts le h = print_step-Ends Token.print ts le
  dispatch-Ends (Token.identifier n) ts le h = Ends-continue h λ lhs r₁ hl u₁.
      Ends-continue (expect-Ends assign r₁) λ _ r₂ _ u₂.
        Ends-continue (re r₂ (omega arith))
          λ rhs r₃ hr u₃. weaken (omega arith) (assign_to-Ends lhs rhs r₃ hl hr)
  dispatch-Ends _ ts le h = fails

-- The two methods at one amount of fuel.
record StmtLevel (f : ℕ) : Type 0 where
  statement : (ts : Tokens) → 12 * length ts + 8 < f → Ends StmtSlotted 1 ts (parse_stmt f ts)
  chain : (ts : Tokens) → 12 * length ts + 8 < f → Ends StmtSlotted 1 ts (parse_elseif_chain f ts)

module _ (f : ℕ) (v : StmtLevel f) (ts : Tokens) (h : 12 * length ts + 8 < suc f) where
  expr_below : ReadsBelow (length ts) IsSlotted (parse_expr f)
  expr_below us lt = parse_expr-Ends f us (omega arith)

  stmt_below : ReadsBelow (length ts) StmtSlotted (parse_stmt f)
  stmt_below us lt = v.statement us (omega arith)

  chain_below : ReadsBelow (length ts) StmtSlotted (parse_elseif_chain f)
  chain_below us lt = v.chain us (omega arith)

  chain-suc : Ends StmtSlotted 1 ts (parse_elseif_chain (suc f) ts)
  unfolding parse_stmt
  chain-suc = Ends-continue (expect-Ends else_if ts) λ _ r₁ _ u₁. weaken (omega arith) (
      if_step-Ends (length ts) f (omega arith) _ _ _ expr_below stmt_below chain_below after_elseif
        r₁ (omega arith))

statement-suc :
    (f : ℕ) (v : StmtLevel f) (ts : Tokens)
    → 12 * length ts + 8 < suc f
    → Ends StmtSlotted 1 ts (parse_stmt (suc f) ts)
unfolding parse_stmt stmt_step dispatch
statement-suc f v [] h = fails
statement-suc f v (t ∷ ts) h =
    dispatch-Ends (length (t ∷ ts)) f (omega arith) _ _ _ (expr_below f v (t ∷ ts) h)
      (stmt_below f v (t ∷ ts) h) (chain_below f v (t ∷ ts) h) t ts (omega arith)
      (parse_expr-Ends f (t ∷ ts) (omega arith))

StmtLevel-all : (f : ℕ) → StmtLevel f
StmtLevel-all zero = record {
  statement = λ ts h. absurd (omega arith);
  chain = λ ts h. absurd (omega arith);
}
StmtLevel-all (suc f) =
    let v = StmtLevel-all f in record { statement = statement-suc f v; chain = chain-suc f v }

pub parse_stmt-Ends :
    (f : ℕ) (ts : Tokens) → 12 * length ts + 8 < f → Ends StmtSlotted 1 ts (parse_stmt f ts)
parse_stmt-Ends f ts h = let level = StmtLevel-all f in level.statement ts h

-- A program run ends, with statements that are slotted and at most one diagnostic.
abbrev RunEnds : Option Program → Type 0
RunEnds r = (p : Program) × (r ≡ some p) × StmtsSlotted p.stmts × (length p.diagnostics ≤ 1)

program_step-RunEnds :
    (item : Parser Stmt) (k : ℕ) (t : Token) (ts : Tokens) (r : Parse (Stmt × Tokens))
    → item (t ∷ ts) ≡ r
    → Ends StmtSlotted 1 (t ∷ ts) r
    → ((us : Tokens) → length us ≤ length ts → RunEnds (program_loop k item us))
    → RunEnds (program_loop (suc k) item (t ∷ ts))
unfolding program_loop StmtSlotted
program_step-RunEnds item k t ts r e (gives {a} {rest} h used) ih =
    let (p, runs, hp, one) = ih rest (omega arith) in
    (
      record { stmts = stmt a p.stmts; diagnostics = p.diagnostics },
      rw (e, program_loop, runs),
      (h, hp),
      one,
    )
program_step-RunEnds item k t ts r e (fails {e = why}) ih =
    (record { stmts = no_stmts; diagnostics = why ∷ [] }, rw (e, program_loop), tt, omega arith)

program_loop-RunEnds :
    (item : Parser Stmt) (l : ℕ)
    → ((ts : Tokens) → length ts ≤ l → Ends StmtSlotted 1 ts (item ts))
    → (k : ℕ) (ts : Tokens) → length ts ≤ l
    → length ts < k
    → RunEnds (program_loop k item ts)
unfolding program_loop StmtSlotted
program_loop-RunEnds item l reads zero ts le lt = absurd (omega arith)
program_loop-RunEnds item l reads (suc k) [] le lt = (_, refl, tt, omega arith)
program_loop-RunEnds item l reads (suc k) (t ∷ ts) le lt =
    program_step-RunEnds item k t ts (item (t ∷ ts)) refl (reads (t ∷ ts) le)
      λ us h. program_loop-RunEnds item l reads k us (omega arith) (omega arith)

-- The parser ends on every list of tokens. No table constructor in the statements that it returns
-- writes a slot twice, no declaration in them has more initializers than names, and it reports at most
-- one diagnostic.
pub parse_program-ends :
    (ts : Tokens)
    → (p : Program) × (parse_program ts ≡ some p)
      × StmtsSlotted p.stmts
      × (length p.diagnostics ≤ 1)
unfolding parse_program fuel_for
parse_program-ends ts =
    program_loop-RunEnds _ (length ts) (λ us le. parse_stmt-Ends _ us (omega arith)) (length ts + 1)
      ts (omega arith) (omega arith)
