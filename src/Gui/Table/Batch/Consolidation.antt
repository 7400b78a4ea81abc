-- ===== src/Gui/Table/Batch/Consolidation.antt =====
-- internal/gui/app_consolidate_windows.go: what a finished consolidation changes in the table, and
-- what it counts.
use twin_tidy.Base.{
  ℕ, ◌+◌, false, none, some, List, [], ◌∷◌, ◌++◌, map, Text, bytes, ◌==◌, text_eq, if◌then◌else◌,
  map_get, map_set,
}
use twin_tidy.Scanner.Types.{Err}
use twin_tidy.Scanner.Platform.{Platform}
use twin_tidy.Scanner.Hardlink.{HardlinkResult}
use twin_tidy.Scanner.Hardlink.Windows.{
  HardlinkStatus, consolidated, skipped_changed, skipped_protected, skipped_cross_volume, cancelled,
  failed, HardlinkItemResult,
}
use twin_tidy.Gui.Table.{DuplicateRow}
use twin_tidy.Gui.Table.Batch.{path_key}

pub record ConsolidateGroupResult : Type 0 where
  pub group_number : ℕ
  pub result : HardlinkResult

pub record ConsolidateBatchResult : Type 0 where
  pub groups : List ConsolidateGroupResult
  pub internal_error : Text

pub record ConsolidateOutcome : Type 0 where
  pub consolidated_count : ℕ
  pub changed : ℕ
  pub protected_count : ℕ
  pub cross_volume : ℕ
  pub cancelled_count : ℕ
  pub failed_count : ℕ
  pub request_errors : List (ℕ × Err)
  pub backup_paths : List Text
  pub internal_error : Text

-- The switch on the status of an item.
unfoldable pub count_status : ConsolidateOutcome → HardlinkStatus → ConsolidateOutcome
count_status o consolidated = record o { consolidated_count = o.consolidated_count + 1 }
count_status o skipped_changed = record o { changed = o.changed + 1 }
count_status o skipped_protected = record o { protected_count = o.protected_count + 1 }
count_status o skipped_cross_volume = record o { cross_volume = o.cross_volume + 1 }
count_status o cancelled = record o { cancelled_count = o.cancelled_count + 1 }
count_status o failed = record o { failed_count = o.failed_count + 1 }

-- The backup path of an item, where it has one.
unfoldable pub note_backup : ConsolidateOutcome → Text → ConsolidateOutcome
note_backup o backup =
    if backup == [] then o else record o { backup_paths = o.backup_paths ++ backup ∷ [] }

unfoldable pub count_links : ConsolidateOutcome → List HardlinkItemResult → ConsolidateOutcome
count_links o [] = o
count_links o (item ∷ items) =
    count_links (count_status (note_backup o item.backup_path) item.status) items

unfoldable pub count_link_groups :
    ConsolidateOutcome → List ConsolidateGroupResult → ConsolidateOutcome
count_link_groups o [] = o
count_link_groups o (g ∷ groups) =
    let noted : ConsolidateOutcome = elim g.result.request_error [
      | none ↦ o
      | some e ↦ record o { request_errors = o.request_errors ++ (g.group_number, e) ∷ [] }
    ] in
    count_link_groups (count_links noted g.result.items) groups

unfoldable pub summarize_consolidate_batch : ConsolidateBatchResult → ConsolidateOutcome
summarize_consolidate_batch batch =
    count_link_groups
      (record {
        consolidated_count = 0;
        changed = 0;
        protected_count = 0;
        cross_volume = 0;
        cancelled_count = 0;
        failed_count = 0;
        request_errors = [];
        backup_paths = [];
        internal_error = batch.internal_error;
      })
      batch.groups

unfoldable pub consolidate_row_status : HardlinkStatus → Text
consolidate_row_status consolidated = bytes "Consolidated - shared copy"
consolidate_row_status skipped_changed = bytes "Changed - kept"
consolidate_row_status skipped_protected = bytes "Protected - kept"
consolidate_row_status skipped_cross_volume = bytes "Different volume - kept"
consolidate_row_status cancelled = bytes "Cancelled - kept"
consolidate_row_status failed = bytes "Consolidation failed - kept"

-- The items of all groups, in their order.
unfoldable pub consolidate_items : List ConsolidateGroupResult → List HardlinkItemResult
consolidate_items [] = []
consolidate_items (g ∷ groups) = g.result.items ++ consolidate_items groups

module _ (p : Platform) where
  unfoldable pub links_by_path :
      List (Text × HardlinkItemResult) → List HardlinkItemResult → List (Text × HardlinkItemResult)
  links_by_path found [] = found
  links_by_path found (item ∷ items) =
      links_by_path (map_set found (path_key p item.path) item) items

  -- The row keeps its place: the file is still there, as a shared copy.
  unfoldable pub annotate : List (Text × HardlinkItemResult) → DuplicateRow → DuplicateRow
  annotate found row = elim (map_get found (path_key p row.file.path)) [
    | none ↦ record row { selected = false }
    | some item ↦ record row { selected = false; status = consolidate_row_status item.status }
  ]

  unfoldable pub apply_consolidate_batch_to_model :
      List DuplicateRow → ConsolidateBatchResult → List DuplicateRow × ConsolidateOutcome
  apply_consolidate_batch_to_model rows batch = (
    map (annotate (links_by_path [] (consolidate_items batch.groups))) rows,
    summarize_consolidate_batch batch,
  )
