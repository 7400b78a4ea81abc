-- ===== src/Gui/Controls/Enabled.antt =====
-- internal/gui/app_windows.go: the clicks of the enabled controls, against the operation state.
use twin_tidy.Base.{
  ==_iff, Bool-cases, inl, inr, ℕ, ◌≡◌, ◌<◌, Bool, true, false, ◌||◌, Option, none, [], Text, ◌==◌,
  text_eq, arith,
}
use twin_tidy.Scanner.Types.{Time}
use twin_tidy.Scanner.Platform.{Platform}
use twin_tidy.Gui.Operation.{
  surface_scanning, duplicate_scanning, exporting, deleting, surface_scan, duplicate_scan, export,
  delete, AppPhase-discrete, phase_eq, folder_ready, surface_ready, results_ready, OperationState,
  OperationToken, can_change_folder, can_reset, begun, begin_operation, begin_surface_scan,
  begin_duplicate_scan, begin_export, begin_delete, request_scan_cancellation,
  request_export_cancellation, clear_results, reset, select_folder,
}
use twin_tidy.Gui.Controls.{
  PhaseControls, controls_for_operation, scan_ignored, answered, start_duplicate_scan, start_scan,
  cancel_scan, clear_shown_results,
}

-- The state takes the click of each enabled control, but the scan button is enabled with the
-- results on show, and its click is ignored there.
pub record TakesClicks (p : Platform) (s : OperationState) (c : PhaseControls) : Type 0 where
  pub selects :
      c.select_folder ≡ true
      → (folder : Text) → (p.trim_space folder == []) ≡ false
      → (select_folder p folder s).1 ≡ none
  pub resets : c.reset ≡ true → (reset s).1 ≡ none
  pub cancels : c.cancel ≡ true → (cancel_scan s).1 ≡ true
  pub clears : c.clear ≡ true → (clear_shown_results s).1 ≡ true
  pub scans :
      c.scan ≡ true
      → (s.phase == results_ready) ≡ false
      → (s.folder == []) ≡ false
      → (categories : ℕ) (at : Time) (cancel : Option ℕ) → 0 < categories
      → (token : OperationToken) × ((start_scan categories at cancel s).1 ≡ answered (begun token))
  pub ignores :
      s.phase ≡ results_ready
      → (s.folder == []) ≡ false
      → (categories : ℕ) (at : Time) (cancel : Option ℕ)
      → (c.scan ≡ true) × (start_scan categories at cancel s ≡ (s, scan_ignored))
  pub exports :
      c.result_actions ≡ true
      → (at : Time) (cancel : Option ℕ)
      → (token : OperationToken) × ((begin_export at cancel s).1 ≡ begun token)
  pub deletes :
      c.delete_selected ≡ true
      → (at : Time) → (token : OperationToken) × ((begin_delete at s).1 ≡ begun token)

scans-begun :
    (s : OperationState) (categories : ℕ) (at : Time) (cancel : Option ℕ)
    → (s.phase == folder_ready || s.phase == surface_ready || s.phase == results_ready) ≡ true
    → (s.phase == results_ready) ≡ false
    → (s.folder == []) ≡ false
    → 0 < categories
    → (token : OperationToken) × ((start_scan categories at cancel s).1 ≡ answered (begun token))
unfolding start_scan start_duplicate_scan begin_surface_scan begin_duplicate_scan AppPhase-discrete
    begin_operation
scans-begun s categories at cancel enabled other chosen some' =
    elim (Bool-cases (s.phase == folder_ready)) [
      | inl idle ↦
          let phase = (==_iff s.phase folder_ready).0 idle in
          ((begin_operation surface_scan surface_scanning at cancel s).1, ground arith)
      | inr busy ↦
          let phase = (==_iff s.phase surface_ready).0 (ground arith) in
          ((begin_operation duplicate_scan duplicate_scanning at cancel s).1, ground arith)
    ]

-- In every state, a click on an enabled control is taken: a folder that is not blank is selected,
-- the reset, the cancellation, the clearing, the export and the deletion are accepted, and a scan
-- begins when a folder and a category are chosen, except with the results on show, where the scan
-- button is enabled and its click changes nothing.
pub controls_for_operation-TakesClicks :
    (p : Platform) (s : OperationState) (has_rows has_duplicates : Bool) (checked_count : ℕ)
    → TakesClicks p s (controls_for_operation s has_rows has_duplicates checked_count)
unfolding controls_for_operation can_change_folder can_reset select_folder reset cancel_scan
    request_scan_cancellation request_export_cancellation clear_shown_results clear_results
    start_scan begin_export begin_delete begin_operation AppPhase-discrete
controls_for_operation-TakesClicks p s has_rows has_duplicates checked_count = record {
  selects = λ on folder full. ground arith;
  resets = λ on. ground arith;
  cancels = λ on. ground arith;
  clears = λ on. ground arith;
  scans = λ on other chosen categories at cancel some'.
      scans-begun s categories at cancel on other chosen some';
  ignores = λ shown chosen categories at cancel. (ground arith, ground arith);
  exports = λ on at cancel. ((begin_operation export exporting at cancel s).1, ground arith);
  deletes = λ on at. ((begin_operation delete deleting at none s).1, ground arith);
}
