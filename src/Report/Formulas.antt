-- ===== src/Report/Formulas.antt =====
-- internal/report/report.go: the guard of a cell against formulas of a spreadsheet.
use twin_tidy.Base.{
  ℕ_discrete, ◌≡◌, ◌⊎◌, refl, sym, ap, subst, ◌∙◌, Bool-cases, false, inl, inr, [], ◌∷◌, Text, ◌==◌,
  ==_iff, nat_eq, text_eq, arith,
}
use twin_tidy.Report.Csv.{is_formula, is_control, guard_spreadsheet_formula}

-- A spreadsheet takes the cell for text: without the space in front it is empty or starts with
-- none of the four characters.
pub IsHarmless : (Text → Text) → Text → Type 0
IsHarmless trim cell = is_formula (trim cell) ≡ false

-- What the guard makes of a value.
pub IsGuarded : (Text → Text) → Text → Text → Type 0
IsGuarded trim value cell =
    IsHarmless trim cell
    × ((is_control cell ≡ false) ⊎ (trim value ≡ []))
    × ((cell ≡ value) ⊎ (cell ≡ b'\'' ∷ value))

-- Whatever a cell holds, its guarded form is harmless, does not start with a tab or a line end
-- unless it is white space throughout, and keeps the value, with at most an apostrophe in front of
-- it. An apostrophe is no white space.
pub guard-IsHarmless :
    (trim : Text → Text)
    → ((s : Text) → trim (b'\'' ∷ s) ≡ b'\'' ∷ s)
    → trim [] ≡ []
    → (value : Text) → IsGuarded trim value (guard_spreadsheet_formula trim value)
unfolding IsGuarded IsHarmless guard_spreadsheet_formula is_formula is_control ℕ_discrete
guard-IsHarmless trim kept none value =
    let cell = guard_spreadsheet_formula trim value in
    let quote = kept value in
    elim (Bool-cases (value == [])) [
      | inl empty ↦
          let same : value ≡ [] = (==_iff value []).0 empty in
          let all : cell ≡ value = ground arith in
          let blank : trim value ≡ [] = ap trim same ∙ none in
          subst (IsGuarded trim value) (sym all) (ap is_formula blank, inr blank, inl refl)
      | inr full ↦ elim (Bool-cases (trim value == [])) [
        | inl white ↦
            let blank : trim value ≡ [] = (==_iff (trim value) []).0 white in
            let all : cell ≡ value = ground arith in
            subst (IsGuarded trim value) (sym all) (ap is_formula blank, inr blank, inl refl)
        | inr black ↦ elim (Bool-cases (is_formula (trim value))) [
          | inl formula ↦
              let all : cell ≡ b'\'' ∷ value =
                rw (full, black, formula, guard_spreadsheet_formula) refl in
              subst (IsGuarded trim value) (sym all) (ap is_formula quote, inl refl, inr refl)
          | inr plain ↦ elim (Bool-cases (is_control value)) [
            | inl control ↦
                let all : cell ≡ b'\'' ∷ value =
                  rw (full, black, plain, control, guard_spreadsheet_formula) refl in
                subst (IsGuarded trim value) (sym all) (ap is_formula quote, inl refl, inr refl)
            | inr visible ↦
                let all : cell ≡ value =
                  rw (full, black, plain, visible, guard_spreadsheet_formula) refl in
                subst (IsGuarded trim value) (sym all) (plain, inl visible, inl refl)
          ]
        ]
      ]
    ]
