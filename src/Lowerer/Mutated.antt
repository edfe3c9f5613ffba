-- ===== src/Lowerer/Mutated.antt =====
-- `find_mutated_vars` and `free_idents` of src/lowerer.rs find every name that is assigned or read.
use Prim.Native.String.{String}
use text.Mathlib.Text.{◌==◌ as str_eq}
use text.Mathlib.TextEquality.{eq_iff}
use glm.Prelude.{
  ◌≡◌, refl, ap, arith, true, false, ◌||◌, List, [], ◌∷◌, if◌then◌else◌, Bool-cases, inl, inr,
}
use glm.Syntax.{
  BinOp, UnOp, Expr, identifier, index, binary_op, unary_op, Stmt, Stmts, no_stmts, stmt,
  local_decl, assignment, index_assign, while_loop, do_block, if_else, print,
}
use glm.Lowerer.Names.{
  str_lt, name_insert, names_extend, contains, stmt_mutates, mutated_from, find_mutated_vars,
  idents_from, free_idents,
}

-- The statements assign the variable, at some depth.
pub data Assigns (x : String) : Stmts → Type 0 where
  direct : {e : Expr} {ss : Stmts} → Assigns x (stmt (assignment x e) ss)
  later : {s : Stmt} {ss : Stmts} → Assigns x ss → Assigns x (stmt s ss)
  in_while : {c : Expr} {body ss : Stmts} → Assigns x body → Assigns x (stmt (while_loop c body) ss)
  in_do : {body ss : Stmts} → Assigns x body → Assigns x (stmt (do_block body) ss)
  in_then : {c : Expr} {a b ss : Stmts} → Assigns x a → Assigns x (stmt (if_else c a b) ss)
  in_else : {c : Expr} {a b ss : Stmts} → Assigns x b → Assigns x (stmt (if_else c a b) ss)

-- The expression mentions the variable outside of table constructors.
pub data Mentions (x : String) : Expr → Type 0 where
  here : Mentions x (identifier x)
  left : {op : BinOp} {a b : Expr} → Mentions x a → Mentions x (binary_op op a b)
  right : {op : BinOp} {a b : Expr} → Mentions x b → Mentions x (binary_op op a b)
  under : {op : UnOp} {a : Expr} → Mentions x a → Mentions x (unary_op op a)
  base : {a b : Expr} → Mentions x a → Mentions x (index a b)
  key : {a b : Expr} → Mentions x b → Mentions x (index a b)

contains-insert :
    (x y : String) (ys : List String)
    → str_eq y x || contains x ys ≡ true
    → contains x (name_insert y ys) ≡ true
unfolding contains name_insert
contains-insert x y [] h = h
contains-insert x y (z ∷ zs) h =
    elim (str_eq y z)
        as (λ b.
          str_eq y z ≡ b
          → contains x
              (if b then z ∷ zs else if str_lt y z then y ∷ z ∷ zs else z ∷ name_insert y zs)
            ≡ true) [
              | true ↦ λ e. let same = ap (λ w. str_eq w x) ((eq_iff y z).0 e) in ground arith
              | false ↦ λ _.
                  elim (str_lt y z)
                    as (λ b. contains x (if b then y ∷ z ∷ zs else z ∷ name_insert y zs) ≡ true) [
                      | true ↦ h
                      | false ↦ elim (Bool-cases (str_eq z x)) [
                        | inl e ↦ ground arith
                        | inr e ↦ let rest = contains-insert x y zs (ground arith) in ground arith
                      ]
                    ]
            ]
      refl

contains-extend :
    (x : String) (xs ys : List String)
    → contains x xs || contains x ys ≡ true
    → contains x (names_extend xs ys) ≡ true
unfolding contains names_extend
contains-extend x xs [] h = ground arith
contains-extend x xs (y ∷ ys) h =
    contains-extend x (name_insert y xs) ys (elim (Bool-cases (str_eq y x || contains x xs)) [
      | inl e ↦ let i = contains-insert x y xs e in ground arith
      | inr e ↦ ground arith
    ])

module _ (x : String) where
  stmt_mutates_keeps :
      (s : Stmt) (acc : List String)
      → contains x acc ≡ true
      → contains x (stmt_mutates s acc) ≡ true
  unfolding stmt_mutates
  stmt_mutates_keeps (assignment y e) acc h = contains-insert x y acc (ground arith)
  stmt_mutates_keeps (while_loop c body) acc h = contains-extend x acc _ (ground arith)
  stmt_mutates_keeps (do_block body) acc h = contains-extend x acc _ (ground arith)
  stmt_mutates_keeps (if_else c a b) acc h =
      let first = contains-extend x acc (mutated_from a []) (ground arith) in
      contains-extend x _ (mutated_from b []) (ground arith)
  stmt_mutates_keeps (local_decl names es) acc h = h
  stmt_mutates_keeps (index_assign obj k e) acc h = h
  stmt_mutates_keeps (print es) acc h = h

  mutated_from_keeps :
      (ss : Stmts) (acc : List String)
      → contains x acc ≡ true
      → contains x (mutated_from ss acc) ≡ true
  unfolding mutated_from
  mutated_from_keeps no_stmts acc h = h
  mutated_from_keeps (stmt s ss) acc h =
      mutated_from_keeps ss (stmt_mutates s acc) (stmt_mutates_keeps s acc h)

  mutated_from-Assigns :
      (ss : Stmts) (acc : List String) → Assigns x ss → contains x (mutated_from ss acc) ≡ true
  unfolding mutated_from stmt_mutates
  mutated_from-Assigns _ acc (direct {e} {ss}) =
      let same = (eq_iff x x).1 refl in
      mutated_from_keeps ss (name_insert x acc) (contains-insert x x acc (ground arith))
  mutated_from-Assigns _ acc (later {s} {ss} a) = mutated_from-Assigns ss (stmt_mutates s acc) a
  mutated_from-Assigns _ acc (in_while {c} {body} {ss} a) =
      let inner = mutated_from-Assigns body [] a in
      mutated_from_keeps ss _ (contains-extend x acc (mutated_from body []) (ground arith))
  mutated_from-Assigns _ acc (in_do {body} {ss} a) =
      let inner = mutated_from-Assigns body [] a in
      mutated_from_keeps ss _ (contains-extend x acc (mutated_from body []) (ground arith))
  mutated_from-Assigns _ acc (in_then {c} {a} {b} {ss} i) =
      let inner = mutated_from-Assigns a [] i in
      let first = contains-extend x acc (mutated_from a []) (ground arith) in
      mutated_from_keeps ss _ (
        contains-extend x (names_extend acc (mutated_from a [])) (mutated_from b []) (ground arith))
  mutated_from-Assigns _ acc (in_else {c} {a} {b} {ss} i) =
      let inner = mutated_from-Assigns b [] i in
      mutated_from_keeps ss _ (
        contains-extend x (names_extend acc (mutated_from a [])) (mutated_from b []) (ground arith))

  pub find_mutated_vars-Assigns :
      (ss : Stmts) → contains x (find_mutated_vars ss) ≡ false → Assigns x ss → ⊥
  unfolding find_mutated_vars
  find_mutated_vars-Assigns ss h a =
      let found = mutated_from-Assigns ss [] a in absurd (ground arith)

  idents_from_keeps :
      (e : Expr) (out : List String) → contains x out ≡ true → contains x (idents_from e out) ≡ true
  unfolding idents_from
  idents_from_keeps (identifier y) out h = contains-insert x y out (ground arith)
  idents_from_keeps (binary_op op a b) out h = idents_from_keeps b _ (idents_from_keeps a out h)
  idents_from_keeps (unary_op op a) out h = idents_from_keeps a out h
  idents_from_keeps (index a b) out h = idents_from_keeps b _ (idents_from_keeps a out h)
  idents_from_keeps e out h = h

  idents_from-Mentions :
      (e : Expr) (out : List String) → Mentions x e → contains x (idents_from e out) ≡ true
  unfolding idents_from
  idents_from-Mentions _ out here =
      let same = (eq_iff x x).1 refl in contains-insert x x out (ground arith)
  idents_from-Mentions _ out (left {op} {a} {b} m) =
      idents_from_keeps b _ (idents_from-Mentions a out m)
  idents_from-Mentions _ out (right {op} {a} {b} m) = idents_from-Mentions b (idents_from a out) m
  idents_from-Mentions _ out (under {op} {a} m) = idents_from-Mentions a out m
  idents_from-Mentions _ out (base {a} {b} m) = idents_from_keeps b _ (idents_from-Mentions a out m)
  idents_from-Mentions _ out (key {a} {b} m) = idents_from-Mentions b (idents_from a out) m

  pub free_idents-Mentions : (e : Expr) → Mentions x e → contains x (free_idents e) ≡ true
  unfolding free_idents
  free_idents-Mentions e m = idents_from-Mentions e [] m
