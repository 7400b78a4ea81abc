-- ===== src/Gui/Controls.antt =====
-- internal/gui/app_windows.go: which controls of the window are enabled, and what their clicks do to
-- the operation state. The cancel function of a scan is a number, as in the operation state.
pub mod Enabled
use twin_tidy.Base.{
  ℕ, ◌≡◌, Bool, true, false, ◌&&◌, ◌||◌, Option, none, some, [], Text, bytes, ◌==◌, text_eq, ltb,
  if◌then◌else◌,
}
use twin_tidy.Scanner.Types.{Time}
use twin_tidy.Gui.Operation.{
  AppPhase, phase_eq, no_folder, folder_ready, surface_scanning, surface_cancelling, surface_ready,
  duplicate_scanning, duplicate_cancelling, results_ready, exporting, export_cancelling, deleting,
  closing_after_export, closing_after_delete, closing, OperationState, can_change_folder, can_reset,
  Begun, begun, refused, begin_surface_scan, begin_duplicate_scan, request_scan_cancellation,
  request_export_cancellation, clear_results,
}

pub record PhaseControls : Type 0 where
  pub select_folder : Bool
  pub scan : Bool
  pub cancel : Bool
  pub clear : Bool
  pub reset : Bool
  pub file_focus : Bool
  pub table : Bool
  pub result_actions : Bool
  pub delete_selected : Bool
  pub scan_text : Text

unfoldable pub scan_text_in : AppPhase → Text
scan_text_in no_folder = bytes "Surface Scan"
scan_text_in folder_ready = bytes "Surface Scan"
scan_text_in surface_scanning = bytes "Surface Scan"
scan_text_in surface_cancelling = bytes "Surface Scan"
scan_text_in closing = bytes "Surface Scan"
scan_text_in _ = bytes "Find Duplicates"

unfoldable pub controls_for_operation : OperationState → Bool → Bool → ℕ → PhaseControls
controls_for_operation s has_rows has_duplicates checked_count =
    let reviewable = s.phase == surface_ready || s.phase == results_ready in
    let result_actions = s.phase == results_ready && has_duplicates in
    record {
      select_folder = can_change_folder s;
      scan = s.phase == folder_ready || s.phase == surface_ready || s.phase == results_ready;
      cancel = s.phase == surface_scanning || s.phase == duplicate_scanning || s.phase == exporting;
      clear = reviewable && has_rows;
      reset = can_reset s;
      file_focus = reviewable;
      table = reviewable;
      result_actions = result_actions;
      delete_selected = result_actions && ltb 0 checked_count;
      scan_text = scan_text_in s.phase;
    }

-- What a click on the scan button comes to.
pub data ScanClick : Type 0 where
  no_folder_chosen scan_ignored no_categories : ScanClick
  answered : Begun → ScanClick

-- `startDuplicateScan`, up to the answer of the operation state.
unfoldable pub start_duplicate_scan :
    ℕ → Time → Option ℕ → OperationState → OperationState × ScanClick
start_duplicate_scan categories at cancel s =
    let (t, answer) = begin_duplicate_scan at cancel s in
    if ltb 0 categories then (t, answered answer) else (s, no_categories)

-- `startScan`, for a number of chosen categories.
unfoldable pub start_scan : ℕ → Time → Option ℕ → OperationState → OperationState × ScanClick
start_scan categories at cancel s = if s.folder == [] then (s, no_folder_chosen) else elim s.phase [
  | folder_ready ↦ let (t, answer) = begin_surface_scan at cancel s in (t, answered answer)
  | surface_ready ↦ start_duplicate_scan categories at cancel s
  | _ ↦ (s, scan_ignored)
]

-- `cancelScan`: whether anything was cancelled.
unfoldable pub cancel_scan : OperationState → OperationState × Bool
cancel_scan s =
    let (t, scanning) = request_scan_cancellation s in
    if scanning then (t, true) else request_export_cancellation t

-- `clearResults` of the window: whether the rows are cleared.
unfoldable pub clear_shown_results : OperationState → OperationState × Bool
clear_shown_results s = elim s.phase [
  | surface_ready ↦ (s, true)
  | results_ready ↦
      let (t, e) = clear_results s in elim e [ none ↦ (t, true) | some _ ↦ (t, false) ]
  | _ ↦ (s, false)
]
