-- ===== src/Lowerer/Fills.antt =====
-- `collect_fill_stores` of src/lowerer.rs: the tables that a body fills at the guard of its loop.
use Prim.Native.String.{String}
use text.Mathlib.Text.{◌==◌ as str_eq}
use text.Mathlib.TextEquality.{eq_iff}
use glm.Prelude.{
  ◌≡◌, refl, ap, sym, subst, ◌∙◌, Bool, true, false, not, ◌||◌, none, some, List, [], ◌∷◌,
  if◌then◌else◌, ◌⊎◌, inl, inr,
}
use glm.Syntax.{
  Expr, identifier, index, Stmt, Stmts, no_stmts, stmt, index_assign, while_loop, do_block, if_else,
}
use glm.Lowerer.Names.{
  name_insert, str_lt, contains, get_base_identifier, Fills, note_fill, note_store, stmt_fills,
  collect_fill_stores,
}

-- The statements store, at some depth, into the table `x` at the index `guard`.
pub data Stores (guard x : String) : Stmts → Type 0 where
  direct :
      {e : Expr} {ss : Stmts}
      → Stores guard x (stmt (index_assign (identifier x) (identifier guard) e) ss)
  later : {s : Stmt} {ss : Stmts} → Stores guard x ss → Stores guard x (stmt s ss)
  in_while :
      {c : Expr} {body ss : Stmts}
      → Stores guard x body
      → Stores guard x (stmt (while_loop c body) ss)
  in_do : {body ss : Stmts} → Stores guard x body → Stores guard x (stmt (do_block body) ss)
  in_then :
      {c : Expr} {a b ss : Stmts} → Stores guard x a → Stores guard x (stmt (if_else c a b) ss)
  in_else :
      {c : Expr} {a b ss : Stmts} → Stores guard x b → Stores guard x (stmt (if_else c a b) ss)

contains-name_insert :
    (x y : String) (ys : List String)
    → contains x (name_insert y ys) ≡ true
    → (y ≡ x) ⊎ (contains x ys ≡ true)
unfolding contains name_insert
contains-name_insert x y [] h = inl ((eq_iff y x).0 (either (str_eq y x) h))
  where
    either : (b : Bool) → b || false ≡ true → b ≡ true
    either true h = refl
    either false h = h
contains-name_insert x y (z ∷ zs) h =
    elim (str_eq y z)
        as (λ b.
          contains x (if b then z ∷ zs else if str_lt y z then y ∷ z ∷ zs else z ∷ name_insert y zs)
            ≡ true
          → (y ≡ x) ⊎ (contains x (z ∷ zs) ≡ true)) [
            | true ↦ λ k. inr k
            | false ↦
                elim (str_lt y z)
                  as (λ b.
                    contains x (if b then y ∷ z ∷ zs else z ∷ name_insert y zs) ≡ true
                    → (y ≡ x) ⊎ (contains x (z ∷ zs) ≡ true)) [
                      | true ↦ λ k. first (str_eq y x) (λ e. (eq_iff y x).0 e) k
                      | false ↦ λ k. rest (str_eq z x) (contains-name_insert x y zs) k
                    ]
          ]
      h
  where
    first :
        (b : Bool)
        → (b ≡ true → y ≡ x)
        → b || contains x (z ∷ zs) ≡ true
        → (y ≡ x) ⊎ (contains x (z ∷ zs) ≡ true)
    first true e k = inl (e refl)
    first false e k = inr k

    rest :
        (b : Bool)
        → (contains x (name_insert y zs) ≡ true → (y ≡ x) ⊎ (contains x zs ≡ true))
        → b || contains x (name_insert y zs) ≡ true
        → (y ≡ x) ⊎ (b || contains x zs ≡ true)
    rest true ih k = inr refl
    rest false ih k = ih k

module _ (guard : String) (mutated : List String) (x : String) where
  -- What a store adds to the fills.
  note_store-fills :
      (obj : Expr) (key : String) (f : Fills)
      → contains x (note_store guard mutated obj key f).fills ≡ true
      → (contains x f.fills ≡ true)
        ⊎ ((key ≡ guard) × (obj ≡ Expr.identifier x) × (contains x mutated ≡ false))
  unfolding note_store note_fill get_base_identifier
  note_store-fills (identifier z) key f h =
      elim (str_eq key guard)
          as (λ b.
            str_eq key guard ≡ b
            → contains x
                (if not b
                  then f
                  else if contains z mutated
                  then f
                  else note_fill (Expr.identifier z) z f).fills
              ≡ true
            → (contains x f.fills ≡ true)
              ⊎ ((key ≡ guard)
                  × (Expr.identifier z ≡ Expr.identifier x)
                  × (contains x mutated ≡ false))) [
                    | false ↦ λ _ h. inl h
                    | true ↦ λ k.
                        elim (contains z mutated)
                            as (λ m.
                              contains z mutated ≡ m
                              → contains x
                                  (if m then f else note_fill (Expr.identifier z) z f).fills
                                ≡ true
                              → (contains x f.fills ≡ true)
                                ⊎ ((key ≡ guard)
                                    × (Expr.identifier z ≡ Expr.identifier x)
                                    × (contains x mutated ≡ false))) [
                                      | true ↦ λ _ h. inl h
                                      | false ↦ λ m h.
                                          elim (contains-name_insert x z f.fills (
                                            ap
                                              (λ b.
                                                contains x
                                                  (if b
                                                    then record f { fills = name_insert z f.fills }
                                                    else f).fills)
                                              (sym ((eq_iff z z).1 refl))
                                            ∙ h)) [
                                              | inl e ↦ inr (
                                                (eq_iff key guard).0 k,
                                                ap Expr.identifier e,
                                                subst (λ y. contains y mutated ≡ false) e m,
                                              )
                                              | inr old ↦ inl old
                                            ]
                                    ]
                          refl
                  ]
        refl h
  note_store-fills (index obj k) key f h = inl (
      elim (str_eq key guard)
          as (λ b.
            contains x
                (if not b then f else elim (get_base_identifier obj) as (λ _. Fills) [
                  | none ↦ f
                  | some root ↦ if contains root mutated then f else note_fill (index obj k) root f
                ]).fills
              ≡ true
            → contains x f.fills ≡ true) [
              | false ↦ λ h. h
              | true ↦
                  elim (get_base_identifier obj)
                    as (λ o.
                      contains x
                          (elim o as (λ _. Fills) [
                            | none ↦ f
                            | some root ↦
                                if contains root mutated then f else note_fill (index obj k) root f
                          ]).fills
                        ≡ true
                      → contains x f.fills ≡ true) [
                        | none ↦ λ h. h
                        | some root ↦
                            elim (contains root mutated)
                              as (λ m.
                                contains x (if m then f else note_fill (index obj k) root f).fills
                                  ≡ true
                                → contains x f.fills ≡ true) [ true ↦ λ h. h | false ↦ λ h. h ]
                      ]
            ]
        h)
  note_store-fills obj key f h = inl (
      elim (str_eq key guard)
          as (λ b. contains x (if not b then f else f).fills ≡ true → contains x f.fills ≡ true) [
            | true ↦ λ h. h
            | false ↦ λ h. h
          ]
        h)

  -- A name that the walk adds is stored to at the guard and is not mutated.
  abbrev pub Added : Stmts → List String → List String → Type 0
  Added ss old new =
      contains x new ≡ true
      → (contains x old ≡ true) ⊎ (Stores guard x ss × (contains x mutated ≡ false))

  Added-in :
      {xs ys : Stmts} (f g : List String)
      → (Stores guard x xs → Stores guard x ys)
      → Added xs f g
      → Added ys f g
  Added-in f g move h k = elim (h k) [ inl old ↦ inl old | inr (s, m) ↦ inr (move s, m) ]

  Added-then :
      {xs ys : Stmts} (f g h : List String)
      → Added ys f g
      → (Added xs g h)
      → (Stores guard x xs → Stores guard x ys)
      → Added ys f h
  Added-then f g h p q move k = elim (q k) [ inl old ↦ p old | inr (s, m) ↦ inr (move s, m) ]

  mutual
    unfolding stmt_fills collect_fill_stores

    stmt_fills-Added :
        (s : Stmt) (ss : Stmts) (f : Fills)
        → Added (stmt s ss) f.fills (stmt_fills guard mutated s f).fills
    stmt_fills-Added (index_assign obj (identifier key) e) ss f = λ h.
        elim (note_store-fills obj key f h) [
          | inl old ↦ inl old
          | inr (same_key, same_obj, m) ↦ inr (
            subst (λ o. Stores guard x (stmt (index_assign o (Expr.identifier key) e) ss))
                (sym same_obj)
                (subst
                  (λ y.
                    Stores guard x
                      (stmt (index_assign (Expr.identifier x) (Expr.identifier y) e) ss))
                  (sym same_key) direct),
            m,
          )
        ]
    stmt_fills-Added (while_loop c body) ss f = Added-in _ _ in_while (collect-Added body f)
    stmt_fills-Added (do_block body) ss f = Added-in _ _ in_do (collect-Added body f)
    stmt_fills-Added (if_else c a b) ss f =
        Added-then _ _ _ (Added-in _ _ in_then (collect-Added a f))
          (collect-Added b (collect_fill_stores guard mutated a f)) in_else
    stmt_fills-Added s ss f = λ h. inl h

    pub collect-Added :
        (ss : Stmts) (f : Fills) → Added ss f.fills (collect_fill_stores guard mutated ss f).fills
    collect-Added no_stmts f = λ h. inl h
    collect-Added (stmt s ss) f =
        Added-then _ _ _ (stmt_fills-Added s ss f) (collect-Added ss (stmt_fills guard mutated s f))
          later
