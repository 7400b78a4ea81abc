-- ===== src/Gui/Table/RecyclePlan.antt =====
-- internal/gui/app_windows.go: what the checked rows ask to recycle.
pub mod Copies
pub mod Counting
pub mod Members
use twin_tidy.Base.{
  ◌&&◌, ℕ, ◌+◌, ◌≡◌, Bool, true, false, ◌||◌, not, List, [], ◌∷◌, ◌++◌, Text, bytes, Eq, ◌==◌,
  text_eq, nat_eq, List_ℕ-discrete, if◌then◌else◌, length, leb, contains,
}
use twin_tidy.Scanner.Types.{
  FileIdentity, identity_eq, FileIdentity-discrete, no_identity, FileRecord, RecycleRequest, Err,
  other, Result, ok, err, ◌>>=◌, ◌>>◌,
}
use twin_tidy.Scanner.Platform.{Platform}
use twin_tidy.Scanner.Recycle.{reject}
use twin_tidy.Gui.Table.{DuplicateRow, group_key}

pub record PlannedRecycleGroup : Type 0 where
  pub group_number : ℕ
  pub request : RecycleRequest

pub record RecyclePlan : Type 0 where
  pub groups : List PlannedRecycleGroup
  pub selected_count : ℕ

pub record PhysicalCopyKey : Type 0 where
  pub identity : FileIdentity
  pub path : Text

unfoldable pub PhysicalCopyKey-discrete : Discrete PhysicalCopyKey
unfolding FileIdentity-discrete List_ℕ-discrete
PhysicalCopyKey-discrete = hlevel (FileIdentity-discrete, List_ℕ-discrete)

instance abbrev pub copy_eq : Eq PhysicalCopyKey
copy_eq = record { discrete = PhysicalCopyKey-discrete }

pub record GroupAccumulator : Type 0 where
  pub group_number : ℕ
  pub hash : Text
  pub size : ℕ
  pub files : List FileRecord
  pub selected : List FileRecord

-- The keys of a Go map that is used as a set.
unfoldable pub add_key : {K : Type 0} ⦃e : Eq K⦄ → K → List K → List K
add_key k keys = if contains k keys then keys else k ∷ keys

unfoldable pub add_to_group : DuplicateRow → GroupAccumulator → GroupAccumulator
add_to_group row g = record g {
  files = g.files ++ row.file ∷ [];
  selected = if row.selected then g.selected ++ row.file ∷ [] else g.selected;
}

unfoldable pub is_consistent : DuplicateRow → GroupAccumulator → Bool
is_consistent row g = g.hash == row.hash && g.size == row.file.size

-- `groups` and `order` at once: the groups in the order of their first rows.
unfoldable pub insert_row :
    Text → DuplicateRow → List (Text × GroupAccumulator) → Result (List (Text × GroupAccumulator))
insert_row key row [] = ok (
    (
      key,
      add_to_group row (record {
        group_number = row.group;
        hash = row.hash;
        size = row.file.size;
        files = [];
        selected = [];
      }),
    )
    ∷ [])
insert_row key row ((k, g) ∷ groups) =
    let rest = insert_row key row groups in
    if k == key
    then if is_consistent row g
      then ok ((k, add_to_group row g) ∷ groups)
      else err (other (bytes "inconsistent scan data"))
    else elim rest [ err e ↦ err e | ok groups' ↦ ok ((k, g) ∷ groups') ]

module _ (shown : ℕ → Text) (p : Platform) where
  unfoldable pub recycle_physical_copy_key : FileRecord → PhysicalCopyKey
  recycle_physical_copy_key f =
      if not (f.identity == no_identity)
      then record { identity = f.identity; path = [] }
      else record { identity = no_identity; path = p.lower (p.clean f.path) }

  -- The keys of the copies, each once.
  unfoldable pub copies : List FileRecord → List PhysicalCopyKey
  copies [] = []
  copies (f ∷ files) = add_key (recycle_physical_copy_key f) (copies files)

  unfoldable pub row_key : DuplicateRow → Text
  row_key row = if row.key == [] then group_key shown row.file.size row.hash else row.key

  -- `for _, row := range rows`
  unfoldable pub accumulate :
      List DuplicateRow → List (Text × GroupAccumulator) → Result (List (Text × GroupAccumulator))
  accumulate [] groups = ok groups
  accumulate (row ∷ rows) groups =
      if not row.duplicate
      then accumulate rows groups
      else elim (insert_row (row_key row) row groups) [
        | err e ↦ err e
        | ok groups' ↦ accumulate rows groups'
      ]

  unfoldable pub planned : GroupAccumulator → PlannedRecycleGroup
  planned g = record {
    group_number = g.group_number;
    request = record {
      group = record { size = g.size; hash = g.hash; files = g.files };
      selected = g.selected;
    };
  }

  -- The second loop. A group without a selected file is passed over.
  unfoldable pub plan_groups : List (Text × GroupAccumulator) → RecyclePlan → Result RecyclePlan
  plan_groups [] plan = ok plan
  plan_groups ((k, g) ∷ groups) plan =
      if length g.selected == 0
      then plan_groups groups plan
      else if length (copies g.files) == 0
          || leb (length (copies g.files)) (length (copies g.selected))
      then err (other (bytes "recycle selection would remove every physical copy"))
      else plan_groups groups (record {
        groups = plan.groups ++ planned g ∷ [];
        selected_count = plan.selected_count + length g.selected;
      })

  unfoldable pub build_recycle_plan : List DuplicateRow → Result RecyclePlan
  build_recycle_plan rows = do
    groups ← accumulate rows []
    plan ← plan_groups groups (record { groups = []; selected_count = 0 })
    reject (plan.selected_count == 0) (bytes "no checked duplicate files were selected")
    ok plan
