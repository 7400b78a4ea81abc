-- ===== src/Gui/Table/RecyclePlan/Counting.antt =====
-- internal/gui/app_windows.go: how many files a recycle plan selects.
use twin_tidy.Base.{
  ℕ, ◌+◌, ◌≡◌, refl, subst, Bool-cases, inl, inr, List, [], ◌∷◌, Text, ◌==◌, nat_eq, text_eq,
  if◌then◌else◌, length, length-append, arith,
}
use twin_tidy.Scanner.Types.{identity_eq, Result-cases, ok}
use twin_tidy.Scanner.Platform.{Platform}
use twin_tidy.Gui.Table.{DuplicateRow, is_checked, selected_count}
use twin_tidy.Gui.Table.RecyclePlan.{
  copy_eq, GroupAccumulator, add_to_group, insert_row, row_key, accumulate,
}

-- How many files are selected in all groups.
unfoldable pub all_selected : List (Text × GroupAccumulator) → ℕ
all_selected [] = 0
all_selected ((k, g) ∷ groups) = length g.selected + all_selected groups

length-add_to_group :
    (row : DuplicateRow) (g : GroupAccumulator)
    → length (add_to_group row g).selected
      ≡ (if row.selected then length g.selected + 1 else length g.selected)
unfolding add_to_group
length-add_to_group row g = elim (Bool-cases row.selected) [
  | inl yes' ↦ rw (yes') (length-append g.selected (row.file ∷ []))
  | inr no' ↦ rw (no') refl
]

all_selected-insert_row :
    (key : Text) (row : DuplicateRow) (groups groups' : List (Text × GroupAccumulator))
    → insert_row key row groups ≡ ok groups'
    → all_selected groups' ≡ (if row.selected then all_selected groups + 1 else all_selected groups)
unfolding insert_row all_selected
all_selected-insert_row key row [] groups' h =
    let start : GroupAccumulator = record {
      group_number = row.group;
      hash = row.hash;
      size = row.file.size;
      files = [];
      selected = [];
    } in
    let made : (key, add_to_group row start) ∷ [] ≡ groups' = ground arith in
    let grown = length-add_to_group row start in
    subst (λ gs. all_selected gs ≡ (if row.selected then 1 else 0)) made
      (elim (Bool-cases row.selected) [ inl marked ↦ ground arith | inr plain ↦ ground arith ])
all_selected-insert_row key row ((k, g) ∷ groups) groups' h = elim (Bool-cases (k == key)) [
  | inl same ↦
      let made : (k, add_to_group row g) ∷ groups ≡ groups' = ground arith in
      let grown = length-add_to_group row g in
      subst
        (λ gs. all_selected gs ≡ (
          if row.selected
          then all_selected ((k, g) ∷ groups) + 1
          else all_selected ((k, g) ∷ groups)))
        made
        (elim (Bool-cases row.selected) [ inl marked ↦ ground arith | inr plain ↦ ground arith ])
  | inr other ↦ elim (Result-cases (insert_row key row groups)) [
    | inl (e, q) ↦ absurd (ground arith)
    | inr (rest, q) ↦
        let made : (k, g) ∷ rest ≡ groups' = ground arith in
        let grown = all_selected-insert_row key row groups rest q in
        subst
          (λ gs. all_selected gs ≡ (
            if row.selected
            then all_selected ((k, g) ∷ groups) + 1
            else all_selected ((k, g) ∷ groups)))
          made
          (elim (Bool-cases row.selected) [ inl marked ↦ ground arith | inr plain ↦ ground arith ])
  ]
]

module _ (shown : ℕ → Text) (p : Platform) where
  pub all_selected-accumulate :
      (rows : List DuplicateRow) (groups groups' : List (Text × GroupAccumulator))
      → accumulate shown p rows groups ≡ ok groups'
      → all_selected groups' ≡ all_selected groups + selected_count rows
  unfolding accumulate selected_count is_checked
  all_selected-accumulate [] groups groups' h =
      let same : groups ≡ groups' = ground arith in
      subst (λ gs. all_selected gs ≡ all_selected groups + 0) same (omega arith)
  all_selected-accumulate (row ∷ rows) groups groups' h = elim (Bool-cases row.duplicate) [
    | inr plain ↦ ground (arith, all_selected-accumulate rows groups groups')
    | inl double ↦ elim (Result-cases (insert_row (row_key shown p row) row groups)) [
      | inl (e, q) ↦ absurd (ground arith)
      | inr (next, q) ↦
          let here = all_selected-insert_row (row_key shown p row) row groups next q in
          let later = all_selected-accumulate rows next groups' (ground arith) in
          elim (Bool-cases row.selected) [ inl marked ↦ ground arith | inr unmarked ↦ ground arith ]
    ]
  ]
