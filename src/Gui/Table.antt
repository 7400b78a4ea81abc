-- ===== src/Gui/Table.antt =====
-- internal/gui/app_windows.go: the rows of the window's table, without the notifications of the
-- window toolkit.
pub mod Batch
pub mod Removal
pub mod Shown
pub mod RecyclePlan
use twin_tidy.Base.{
  zero, suc, ℕ, ◌+◌, ◌≡◌, Bool, true, false, ◌&&◌, not, Option, none, some, List, [], ◌∷◌, ◌++◌,
  map, Text, bytes, ◌==◌, text_eq, nat_eq, if◌then◌else◌, length, ltb, contains, members, append_to,
  map_get, map_set, sort_slice, text_lt, filter_by,
}
use twin_tidy.Scanner.Types.{FileRecord, DuplicateGroup, Result, ok, err}
use twin_tidy.Scanner.Platform.{Platform}
use twin_tidy.Scanner.KeepRules.{SelectionPolicy, GroupSelection, apply_selection_policy}

pub record DuplicateRow : Type 0 where
  pub number : ℕ
  pub group : ℕ
  pub key : Text
  pub hash : Text
  pub status : Text
  pub duplicate : Bool
  pub selected : Bool
  pub file : FileRecord

unfoldable pub rows_contain_duplicates : List DuplicateRow → Bool
rows_contain_duplicates [] = false
rows_contain_duplicates (row ∷ rows) =
    let rest = rows_contain_duplicates rows in if row.duplicate then true else rest

unfoldable pub is_checked : DuplicateRow → Bool
is_checked row = row.duplicate && row.selected

unfoldable pub selected_count : List DuplicateRow → ℕ
selected_count [] = 0
selected_count (row ∷ rows) =
    let rest = selected_count rows in if is_checked row then rest + 1 else rest

unfoldable pub selected_paths : List DuplicateRow → List Text
selected_paths rows = sort_slice text_lt (map (λ row. row.file.path) (filter_by is_checked rows))

unfoldable pub clear_selection : List DuplicateRow → List DuplicateRow
clear_selection [] = []
clear_selection (row ∷ rows) = record row { selected = false } ∷ clear_selection rows

-- `SetChecked`: an index outside the table changes nothing, and a row that is no duplicate is never
-- selected.
unfoldable pub set_checked : List DuplicateRow → ℕ → Bool → List DuplicateRow
set_checked [] index checked = []
set_checked (row ∷ rows) zero checked =
    record row { selected = if not row.duplicate then false else checked } ∷ rows
set_checked (row ∷ rows) (suc index) checked = row ∷ set_checked rows index checked

-- `shown` prints a number.
module _ (shown : ℕ → Text) where
  unfoldable pub group_key : ℕ → Text → Text
  group_key size hash = shown size ++ b':' ∷ hash

  abbrev pub group_row : ℕ → ℕ → DuplicateGroup → FileRecord → DuplicateRow
  group_row number index g f = record {
    number = number;
    group = index;
    key = group_key g.size g.hash;
    hash = g.hash;
    status = bytes "Duplicate";
    duplicate = true;
    selected = false;
    file = f;
  }

  -- The inner loop of `setGroups`.
  unfoldable pub rows_of_group : ℕ → ℕ → DuplicateGroup → List FileRecord → List DuplicateRow
  rows_of_group number index g [] = []
  rows_of_group number index g (f ∷ files) =
      group_row number index g f ∷ rows_of_group (number + 1) index g files

  unfoldable pub rows_of_groups : ℕ → ℕ → List DuplicateGroup → List DuplicateRow
  rows_of_groups number index [] = []
  rows_of_groups number index (g ∷ groups) =
      rows_of_group number index g g.files
      ++ rows_of_groups (number + length g.files) (index + 1) groups

  unfoldable pub set_groups : List DuplicateGroup → List DuplicateRow
  set_groups groups = rows_of_groups 1 1 groups

-- `removeDeleted`: the rows that stay, and how many of them have the key.
unfoldable pub kept_rows : List Text → List DuplicateRow → List DuplicateRow
kept_rows deleted = filter_by (λ row. not (contains row.file.path deleted))

unfoldable pub key_count : Text → List DuplicateRow → ℕ
key_count key [] = 0
key_count key (row ∷ rows) =
    let rest = key_count key rows in if row.key == key then rest + 1 else rest

-- The second loop: `groupNumbers`, `nextGroup` and the rows so far, of which only the number counts.
unfoldable pub renumber :
    List DuplicateRow → List (Text × ℕ) → ℕ → ℕ → List DuplicateRow → List DuplicateRow
renumber all numbers next done [] = []
renumber all numbers next done (row ∷ rows) =
    if ltb (key_count row.key all) 2
    then renumber all numbers next done rows
    else elim (map_get numbers row.key) [
      | some group ↦
          record row { group = group; number = done + 1; selected = false }
          ∷ renumber all numbers next (done + 1) rows
      | none ↦
          record row { group = next; number = done + 1; selected = false }
          ∷ renumber all (map_set numbers row.key next) (next + 1) (done + 1) rows
    ]

unfoldable pub remove_deleted : List Text → List DuplicateRow → List DuplicateRow
remove_deleted deleted rows =
    let filtered = kept_rows deleted rows in renumber filtered [] 1 0 filtered
