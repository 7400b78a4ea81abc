-- ===== src/Tests/Operation.antt =====
-- The operation state on short histories.
use twin_tidy.Base.{
  ◌↔◌, ◌≡◌, refl, inl, true, false, none, some, List, [], ◌∷◌, arith, bytes, List_ℕ-discrete,
}
use twin_tidy.Gui.Operation.{
  OperationToken, OperationState, Event, step, run, accepts, new_operation_state, selects,
  begins_surface, begins_duplicate, begins_export, completes_surface, completes_duplicate, resets,
  closes, surface_scan, duplicate_scan, export, AppPhase-discrete, OperationKind-discrete,
  OperationToken-discrete, request_scan_cancellation, request_close, complete_surface_scan,
  complete_export, closing, close_deferred, folder_ready,
}
use twin_tidy.Gui.Operation.Invariant.{Inv, new-Inv, step-Inv}
use twin_tidy.Gui.Operation.Tokens.{run-Inv, accepts_never_again, complete_once, completes}
use twin_tidy.Gui.Operation.Closing.{
  IsUninterruptible, allow_close_idle, request_close_deferred, complete_after_close,
  cancelled_scan_unpublished,
}
use twin_tidy.Tests.Sample.{windows}

abbrev token : OperationToken
token = record {
  generation = 2;
  folder_revision = 1;
  kind = surface_scan;
  folder = bytes "C:\\Docs";
  started_at = 5;
}

abbrev scanning_events : List Event
scanning_events = selects (bytes "C:\\Docs") ∷ begins_surface 5 (some 40) ∷ []

scanning : OperationState
unfolding run step new_operation_state AppPhase-discrete List_ℕ-discrete
scanning = run windows new_operation_state scanning_events

scanning-Inv : Inv scanning
unfolding scanning
scanning-Inv = run-Inv windows new_operation_state scanning_events new-Inv

scanning_active : scanning.active ≡ some token
unfolding scanning
scanning_active = refl

step-Inv_example : Inv (step windows scanning (completes_surface token true))
step-Inv_example = step-Inv windows scanning (completes_surface token true) scanning-Inv

scanning-accepts : accepts scanning token ≡ true
unfolding scanning accepts OperationToken-discrete OperationKind-discrete
scanning-accepts = refl

complete_once_example :
    accepts
      (run windows (step windows scanning (completes token true)) (begins_duplicate 6 none ∷ []))
      token
    ≡ false
unfolding scanning
complete_once_example =
    complete_once windows scanning token true (begins_duplicate 6 none ∷ []) scanning-Inv
      scanning-accepts (omega arith)

-- A token from before the reset.
ready : OperationState
unfolding scanning
ready = step windows scanning (completes_surface token true)

ready-Inv : Inv ready
unfolding ready
ready-Inv = step-Inv windows scanning (completes_surface token true) scanning-Inv

accepts_never_again_example : accepts (run windows ready (resets ∷ scanning_events)) token ≡ false
unfolding ready accepts OperationToken-discrete OperationKind-discrete
accepts_never_again_example =
    accepts_never_again windows ready token (resets ∷ scanning_events) ready-Inv (omega arith) refl
      (omega arith)

cancelled_scan_unpublished_example :
    (complete_surface_scan token true (request_scan_cancellation scanning).0).0.phase ≡ folder_ready
unfolding scanning
cancelled_scan_unpublished_example =
    (cancelled_scan_unpublished scanning token true scanning-Inv scanning_active refl).1

allow_close_idle_example : (run windows new_operation_state (closes ∷ [])).phase ≡ closing
unfolding run new_operation_state step
allow_close_idle_example = (allow_close_idle windows (closes ∷ []) refl).0

dup_token : OperationToken
dup_token = record {
  generation = 3;
  folder_revision = 1;
  kind = duplicate_scan;
  folder = bytes "C:\\Docs";
  started_at = 6;
}

abbrev export_token : OperationToken
export_token = record {
  generation = 4;
  folder_revision = 1;
  kind = export;
  folder = bytes "C:\\Docs";
  started_at = 7;
}

abbrev exporting_events : List Event
exporting_events =
    begins_duplicate 6 (some 41)
    ∷ completes_duplicate dup_token true
    ∷ begins_export 7 (some 42)
    ∷ []

writing : OperationState
unfolding ready dup_token OperationToken-discrete OperationKind-discrete
writing = run windows ready exporting_events

writing-Inv : Inv writing
unfolding writing
writing-Inv = run-Inv windows ready exporting_events ready-Inv

writing_active : writing.active ≡ some export_token
unfolding writing
writing_active = refl

request_close_deferred_example :
    ((request_close writing).1 ≡ close_deferred) ↔ IsUninterruptible export_token
request_close_deferred_example =
    (request_close_deferred writing export_token writing-Inv writing_active).0

complete_after_close_example :
    (complete_export export_token (request_close writing).0).0.phase ≡ closing
complete_after_close_example =
    (complete_after_close writing export_token writing-Inv writing_active (inl refl)).2
