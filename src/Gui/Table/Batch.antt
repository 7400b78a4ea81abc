-- ===== src/Gui/Table/Batch.antt =====
-- internal/gui/app_windows.go: what a finished batch changes in the
-- table, and what it counts. An error of a request is kept with the number of its group.
pub mod Consolidation
pub mod Counts
use twin_tidy.Base.{
  ℕ, ◌+◌, ◌≡◌, Bool, true, false, not, Option, none, some, List, [], ◌∷◌, ◌++◌, map, Text, bytes,
  ◌==◌, text_eq, if◌then◌else◌, map_get, map_set,
}
use twin_tidy.Scanner.Types.{
  RecycleStatus, recycled, skipped_changed, skipped_protected, cancelled, failed, RecycleItemResult,
  RecycleResult, Err,
}
use twin_tidy.Scanner.Platform.{Platform}
use twin_tidy.Scanner.Hardlink.{HardlinkResult}
use twin_tidy.Scanner.Hardlink.Windows
use twin_tidy.Scanner.Hardlink.Windows.{HardlinkStatus, HardlinkItemResult}
use twin_tidy.Gui.Table.{DuplicateRow, remove_deleted}

pub record RecycleGroupResult : Type 0 where
  pub group_number : ℕ
  pub result : RecycleResult

pub record RecycleBatchResult : Type 0 where
  pub groups : List RecycleGroupResult
  pub internal_error : Text

pub record RecycleOutcome : Type 0 where
  pub recycled_count : ℕ
  pub changed : ℕ
  pub protected_count : ℕ
  pub cancelled_count : ℕ
  pub failed_count : ℕ
  pub request_errors : List (ℕ × Err)
  pub internal_error : Text
  pub non_recycled_rows : List RecycleItemResult

unfoldable pub is_recycled : RecycleStatus → Bool
is_recycled recycled = true
is_recycled _ = false

-- The switch on the status of an item.
unfoldable pub count_item : RecycleOutcome → RecycleItemResult → RecycleOutcome
count_item o item = elim item.status [
  | recycled ↦ record o { recycled_count = o.recycled_count + 1 }
  | skipped_changed ↦ record o {
    changed = o.changed + 1;
    non_recycled_rows = o.non_recycled_rows ++ item ∷ [];
  }
  | skipped_protected ↦ record o {
    protected_count = o.protected_count + 1;
    non_recycled_rows = o.non_recycled_rows ++ item ∷ [];
  }
  | cancelled ↦ record o {
    cancelled_count = o.cancelled_count + 1;
    non_recycled_rows = o.non_recycled_rows ++ item ∷ [];
  }
  | failed ↦ record o {
    failed_count = o.failed_count + 1;
    non_recycled_rows = o.non_recycled_rows ++ item ∷ [];
  }
]

unfoldable pub count_items : RecycleOutcome → List RecycleItemResult → RecycleOutcome
count_items o [] = o
count_items o (item ∷ items) = count_items (count_item o item) items

unfoldable pub note_error : ℕ → Option Err → RecycleOutcome → RecycleOutcome
note_error number e o = elim e [
  | none ↦ o
  | some e' ↦ record o { request_errors = o.request_errors ++ (number, e') ∷ [] }
]

unfoldable pub count_groups : RecycleOutcome → List RecycleGroupResult → RecycleOutcome
count_groups o [] = o
count_groups o (g ∷ groups) =
    count_groups (count_items (note_error g.group_number g.result.request_error o) g.result.items)
      groups

unfoldable pub summarize_recycle_batch : RecycleBatchResult → RecycleOutcome
summarize_recycle_batch batch =
    count_groups
      (record {
        recycled_count = 0;
        changed = 0;
        protected_count = 0;
        cancelled_count = 0;
        failed_count = 0;
        request_errors = [];
        internal_error = batch.internal_error;
        non_recycled_rows = [];
      })
      batch.groups

unfoldable pub retained_recycle_status : RecycleStatus → Text
retained_recycle_status skipped_changed = bytes "Changed - kept"
retained_recycle_status skipped_protected = bytes "Protected - kept"
retained_recycle_status cancelled = bytes "Cancelled - kept"
retained_recycle_status _ = bytes "Recycle failed - kept"

-- The items of all groups, in their order.
unfoldable pub batch_items : List RecycleGroupResult → List RecycleItemResult
batch_items [] = []
batch_items (g ∷ groups) = g.result.items ++ batch_items groups

-- `deleted`
unfoldable pub recycled_paths : List RecycleItemResult → List Text
recycled_paths [] = []
recycled_paths (item ∷ items) =
    let rest = recycled_paths items in if is_recycled item.status then item.path ∷ rest else rest

module _ (p : Platform) where
  abbrev pub path_key : Text → Text
  path_key path = p.lower (p.clean path)

  -- `itemsByPath`: the last item of a path counts.
  unfoldable pub items_by_path :
      List (Text × RecycleItemResult) → List RecycleItemResult → List (Text × RecycleItemResult)
  items_by_path found [] = found
  items_by_path found (item ∷ items) = items_by_path (map_set found (path_key item.path) item) items

  unfoldable pub retain : List (Text × RecycleItemResult) → DuplicateRow → DuplicateRow
  retain found row = elim (map_get found (path_key row.file.path)) [
    | none ↦ record row { selected = false }
    | some item ↦
        if not (is_recycled item.status)
        then record row { selected = false; status = retained_recycle_status item.status }
        else record row { selected = false }
  ]

  unfoldable pub apply_recycle_batch_to_model :
      List DuplicateRow → RecycleBatchResult → List DuplicateRow × RecycleOutcome
  apply_recycle_batch_to_model rows batch =
      let items = batch_items batch.groups in
      (
        remove_deleted (recycled_paths items) (map (retain (items_by_path [] items)) rows),
        summarize_recycle_batch batch,
      )
