-- ===== src/Gui/Table/Shown.antt =====
-- internal/gui/app_report_windows.go: the groups that a report reads back from the rows on show.
use twin_tidy.Base.{
  ℕ, ◌+◌, ◌<◌, ◌≡◌, refl, sym, ap, ◌∙◌, not, List, [], ◌∷◌, ◌++◌, map, Text, ◌==◌, nat_eq,
  if◌then◌else◌, length, append-nil, append-snoc, All, arith,
}
use twin_tidy.Scanner.Types.{FileRecord, DuplicateGroup}
use twin_tidy.Gui.Table.{DuplicateRow, group_row, rows_of_group, rows_of_groups, set_groups}

-- `groups` and `indexByGroup` at once: the groups in the order of their first rows.
unfoldable pub add_shown : DuplicateRow → List (ℕ × DuplicateGroup) → List (ℕ × DuplicateGroup)
add_shown row [] =
    (row.group, record { size = row.file.size; hash = row.hash; files = row.file ∷ [] }) ∷ []
add_shown row ((n, g) ∷ groups) =
    let rest = add_shown row groups in
    if n == row.group
    then (n, record g { files = g.files ++ row.file ∷ [] }) ∷ groups
    else (n, g) ∷ rest

unfoldable pub add_rows : List DuplicateRow → List (ℕ × DuplicateGroup) → List (ℕ × DuplicateGroup)
add_rows [] groups = groups
add_rows (row ∷ rows) groups =
    if not row.duplicate then add_rows rows groups else add_rows rows (add_shown row groups)

unfoldable pub duplicate_groups_from_rows : List DuplicateRow → List DuplicateGroup
duplicate_groups_from_rows rows = map (λ (e : ℕ × DuplicateGroup). e.1) (add_rows rows [])

-- The numbers of the groups so far are less than the next one.
IsBelow : ℕ → List (ℕ × DuplicateGroup) → Type 0
IsBelow i groups = All (λ e. e.0 < i) groups

add_shown-new :
    (row : DuplicateRow) (groups : List (ℕ × DuplicateGroup))
    → IsBelow row.group groups
    → add_shown row groups
      ≡ groups
        ++ (row.group, record { size = row.file.size; hash = row.hash; files = row.file ∷ [] }) ∷ []
unfolding add_shown IsBelow
add_shown-new row [] h = refl
add_shown-new row ((n, g) ∷ groups) h =
    let less : n < row.group = h.0 in let rest = add_shown-new row groups h.1 in ground arith

add_shown-last :
    (row : DuplicateRow) (groups : List (ℕ × DuplicateGroup)) (g : DuplicateGroup)
    → IsBelow row.group groups
    → add_shown row (groups ++ (row.group, g) ∷ [])
      ≡ groups ++ (row.group, record g { files = g.files ++ row.file ∷ [] }) ∷ []
unfolding add_shown IsBelow
add_shown-last row [] g h = ground arith
add_shown-last row ((n, g') ∷ groups) g h =
    let less : n < row.group = h.0 in let rest = add_shown-last row groups g h.1 in ground arith

module _ (shown : ℕ → Text) where
  add_rows-group :
      (number i : ℕ) (g h : DuplicateGroup) (files : List FileRecord) (rows : List DuplicateRow)
      (groups : List (ℕ × DuplicateGroup))
      → IsBelow i groups
      → add_rows (rows_of_group shown number i g files ++ rows) (groups ++ (i, h) ∷ [])
        ≡ add_rows rows (groups ++ (i, record h { files = h.files ++ files }) ∷ [])
  unfolding add_rows rows_of_group
  add_rows-group number i g h [] rows groups below =
      ap (λ fs. add_rows rows (groups ++ (i, record h { files = fs }) ∷ [])) (append-nil h.files)
  add_rows-group number i g h (f ∷ files) rows groups below =
      let more : DuplicateGroup = record h { files = h.files ++ f ∷ [] } in
      ap (add_rows (rows_of_group shown (number + 1) i g files ++ rows))
        (add_shown-last (group_row shown number i g f) groups h below)
      ∙ add_rows-group (number + 1) i g more files rows groups below
      ∙ ap (λ fs. add_rows rows (groups ++ (i, record h { files = fs }) ∷ []))
          (append-snoc h.files f files)

  -- A group with a file, the first of which has the size of the group.
  unfoldable pub IsSized : DuplicateGroup → Type 0
  IsSized g = (f : FileRecord) × (fs : List FileRecord) × (g.files ≡ f ∷ fs) × (f.size ≡ g.size)

  add_rows-first :
      (number i : ℕ) (g : DuplicateGroup) (rows : List DuplicateRow)
      (groups : List (ℕ × DuplicateGroup))
      → IsBelow i groups
      → IsSized g
      → add_rows (rows_of_group shown number i g g.files ++ rows) groups
        ≡ add_rows rows (groups ++ (i, g) ∷ [])
  unfolding add_rows rows_of_group IsSized
  add_rows-first number i g rows groups below (f, fs, all, size) =
      let start : DuplicateGroup = record { size = f.size; hash = g.hash; files = f ∷ [] } in
      let whole : record start { files = f ∷ fs } ≡ g =
        ap {A = ℕ} {B = DuplicateGroup} (λ n. record { size = n; hash = g.hash; files = f ∷ fs })
          size
        ∙ ap {A = List FileRecord} {B = DuplicateGroup}
            (λ l. record { size = g.size; hash = g.hash; files = l }) (sym all) in
      ap (λ l. add_rows (rows_of_group shown number i g l ++ rows) groups) all
      ∙ ap (add_rows (rows_of_group shown (number + 1) i g fs ++ rows))
          (add_shown-new (group_row shown number i g f) groups below)
      ∙ add_rows-group (number + 1) i g start fs rows groups below
      ∙ ap (λ h. add_rows rows (groups ++ (i, h) ∷ [])) whole

  IsBelow-snoc :
      (i : ℕ) (g : DuplicateGroup) (groups : List (ℕ × DuplicateGroup))
      → IsBelow i groups
      → IsBelow (i + 1) (groups ++ (i, g) ∷ [])
  unfolding IsBelow
  IsBelow-snoc i g [] h = (omega arith, tt)
  IsBelow-snoc i g ((n, g') ∷ groups) h =
      let less : n < i = h.0 in (omega arith, IsBelow-snoc i g groups h.1)

  groups-snoc :
      (groups : List (ℕ × DuplicateGroup)) (i : ℕ) (g : DuplicateGroup)
      → map (λ (e : ℕ × DuplicateGroup). e.1) (groups ++ (i, g) ∷ [])
        ≡ map (λ (e : ℕ × DuplicateGroup). e.1) groups ++ g ∷ []
  groups-snoc [] i g = refl
  groups-snoc (e ∷ groups) i g = ap (λ l. e.1 ∷ l) (groups-snoc groups i g)

  add_rows-groups :
      (number i : ℕ) (scanned : List DuplicateGroup) (groups : List (ℕ × DuplicateGroup))
      → IsBelow i groups
      → All IsSized scanned
      → map
          (λ (e : ℕ × DuplicateGroup). e.1)
          (add_rows (rows_of_groups shown number i scanned) groups)
        ≡ map (λ (e : ℕ × DuplicateGroup). e.1) groups ++ scanned
  unfolding rows_of_groups add_rows
  add_rows-groups number i [] groups below sized = append-nil _
  add_rows-groups number i (g ∷ scanned) groups below sized =
      ap (map (λ (e : ℕ × DuplicateGroup). e.1)) (
        add_rows-first number i g (rows_of_groups shown (number + length g.files) (i + 1) scanned)
          groups below sized.0)
      ∙ add_rows-groups (number + length g.files) (i + 1) scanned (groups ++ (i, g) ∷ [])
          (IsBelow-snoc i g groups below) sized.1
      ∙ ap (λ l. l ++ scanned) (groups-snoc groups i g)
      ∙ append-snoc _ g scanned

  -- The groups that are read back from the rows of a scan's groups are these groups, in the same
  -- order and with the same files, when each has a file and the size of its first file.
  pub duplicate_groups_from_rows-set_groups :
      (groups : List DuplicateGroup)
      → All IsSized groups
      → duplicate_groups_from_rows (set_groups shown groups) ≡ groups
  unfolding duplicate_groups_from_rows set_groups IsBelow
  duplicate_groups_from_rows-set_groups groups sized = add_rows-groups 1 1 groups [] tt sized
