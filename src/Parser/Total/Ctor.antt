-- ===== src/Parser/Total/Ctor.antt =====
-- The table-constructor steps of src/parser.rs end, and no slot is written twice.
use glm.Prelude.{
  ℕ, zero, suc, ◌≤◌, ◌<◌, ◌≡◌, refl, Bool-cases, true, false, ◌||◌, List, [], ◌∷◌, arith, leb, ◌==◌,
  ==_iff, inl, inr, length,
}
use glm.Syntax.{
  Expr, Entries, entry, Token, kind, left_bracket, right_bracket, right_brace, comma, colon, assign,
}
use glm.Parser.Result.{Tokens, Parser, skip, peek, is_kind, advance}
use glm.Parser.Ends.{
  Ends, gives, fails, Reads, Ends-continue, Ends-branch, length-advance, expect-Ends,
}
use glm.Parser.Slots.{IsSlotted, EntriesSlotted, slots}
use glm.Parser.Expr.{
  Slot, constant, keyed_step, positional_step, entry_step, bounds_fail_threshold, member, ctor_loop,
  table_ctor_step,
}

constant-Ends : (ts : Tokens) → Ends (λ _. Unit {0}) 1 ts (constant ts)
unfolding constant
constant-Ends [] = fails
constant-Ends (Token.integer k ∷ ts) = gives tt (omega arith)
constant-Ends (_ ∷ ts) = fails

abbrev pub SlotSlotted : Slot → Type 0
SlotSlotted s = IsSlotted s.value

module _ (l : ℕ) (parse : Parser Expr) (reads : Reads l IsSlotted parse) (pos : ℕ) (ts : Tokens)
    (le : length ts ≤ l) where
  keyed_step-Ends : Ends SlotSlotted 1 ts (keyed_step parse pos ts)
  unfolding keyed_step skip
  keyed_step-Ends =
      let one = length-advance ts in
      Ends-continue (constant-Ends (advance ts)) λ key r₁ _ u₁.
        Ends-continue (expect-Ends right_bracket r₁) λ _ r₂ _ u₂.
          Ends-continue (expect-Ends assign r₂) λ _ r₃ _ u₃.
            Ends-branch (leb bounds_fail_threshold key) _ _ (λ _. fails)
              λ _. Ends-continue (reads r₃ (omega arith)) λ v r₄ h u₄. gives h (omega arith)

  positional_step-Ends : Ends SlotSlotted 1 ts (positional_step parse pos ts)
  unfolding positional_step
  positional_step-Ends = Ends-continue (reads ts le) λ v rest h used.
      Ends-branch (is_kind (kind colon) (peek rest)) _ _ (λ _. fails)
        λ _. Ends-branch (is_kind (kind assign) (peek rest)) _ _ (λ _. fails) λ _. gives h used

  pub entry_step-Ends : Ends SlotSlotted 1 ts (entry_step parse pos ts)
  unfolding entry_step
  entry_step-Ends =
      Ends-branch (is_kind (kind left_bracket) (peek ts)) _ _ (λ _. keyed_step-Ends)
        (λ _. positional_step-Ends)

-- The entries write each slot once, and none that is taken.
abbrev pub Fresh : List ℕ → Entries → Type 0
Fresh taken es = EntriesSlotted es × ((j : ℕ) → member j taken ≡ true → member j (slots es) ≡ false)

-- A slot that is not taken is no taken slot.
apart :
    (k j : ℕ) (taken : List ℕ)
    → member k taken ≡ false
    → member j taken ≡ true
    → ((k == j) || false) ≡ false
apart k j taken new old = elim (Bool-cases (k == j)) [
  | inl same ↦ absurd (cc (new, old, (==_iff k j).0 same))
  | inr other ↦ rw other
]

Fresh-entry :
    (s : Slot) (es : Entries) (taken : List ℕ)
    → member s.slot taken ≡ false
    → SlotSlotted s
    → Fresh (s.slot ∷ taken) es
    → Fresh taken (entry s.slot s.value es)
unfolding EntriesSlotted
Fresh-entry s es taken new h f = (
  (f.1 s.slot (ground arith), h, f.0),
  λ j m. ground (arith, apart s.slot j taken new m, f.1 j (ground arith)),
)

module _ (l : ℕ) (next : ℕ → Parser Slot) (reads : (pos : ℕ) → Reads l SlotSlotted (next pos)) where
  ctor_loop-Ends :
      (k : ℕ) (taken : List ℕ) (pos : ℕ) (ts : Tokens)
      → length ts ≤ l
      → length ts < k
      → Ends (Fresh taken) 1 ts (ctor_loop k next taken pos ts)
  unfolding ctor_loop skip EntriesSlotted
  ctor_loop-Ends zero taken pos ts le lt = absurd (omega arith)
  ctor_loop-Ends (suc k) taken pos ts le lt = Ends-continue (reads pos ts le) λ s rest h used.
      let one = length-advance rest in
      Ends-branch (member s.slot taken) _ _ (λ _. fails)
        λ new.
          Ends-branch (is_kind (kind comma) (peek rest)) _ _
            (λ _.
              Ends-branch (is_kind (kind right_brace) (peek (advance rest))) _ _
                (λ _. gives ((refl, h, tt), λ j m. apart s.slot j taken new m) (omega arith))
                λ _.
                  Ends-continue
                    (ctor_loop-Ends k (s.slot ∷ taken) s.next_pos (advance rest) (omega arith)
                      (omega arith))
                    λ es after f more. gives (Fresh-entry s es taken new h f) (omega arith))
            λ _. gives ((refl, h, tt), λ j m. apart s.slot j taken new m) used

  pub table_ctor_step-Ends :
      (k : ℕ) (ts : Tokens)
      → length ts ≤ l
      → length ts < k
      → Ends IsSlotted 0 ts (table_ctor_step k next ts)
  unfolding table_ctor_step skip IsSlotted
  table_ctor_step-Ends k ts le lt =
      Ends-branch (is_kind (kind right_brace) (peek ts)) _ _
        (λ _. gives tt (omega (arith, length-advance ts)))
        λ _. Ends-continue (ctor_loop-Ends k [] 0 ts le lt) λ es rest f used.
          Ends-continue (expect-Ends right_brace rest) λ _ after _ closed. gives f.0 (omega arith)
