-- ===== src/Gui/Operation/Invariant.antt =====
-- internal/gui/operation_state.go: the invariant of the operation state between two calls.
use twin_tidy.Base.{◌≡◌, refl, Bool, true, false, Option, none, some, arith, ◌==◌}
use twin_tidy.Scanner.Platform.{Platform}
use twin_tidy.Gui.Operation.{
  AppPhase, AppPhase-discrete, phase_eq, selects, OperationKind, OperationToken, OperationState,
  Event, step, new_operation_state, surface_scan, duplicate_scan, export, delete, surface_scanning,
  surface_cancelling, duplicate_scanning, duplicate_cancelling, exporting, export_cancelling,
  deleting, closing_after_export, closing_after_delete, closing,
}

-- The operation that is under way in a phase.
abbrev pub kind_in : AppPhase → Option OperationKind
kind_in surface_scanning = some surface_scan
kind_in surface_cancelling = some surface_scan
kind_in duplicate_scanning = some duplicate_scan
kind_in duplicate_cancelling = some duplicate_scan
kind_in exporting = some export
kind_in export_cancelling = some export
kind_in closing_after_export = some export
kind_in deleting = some delete
kind_in closing_after_delete = some delete
kind_in _ = none

abbrev kind_of : Option OperationToken → Option OperationKind
kind_of none = none
kind_of (some t) = some t.kind

-- The active token carries the current generation, revision and folder.
abbrev IsCurrent : Option OperationToken → OperationState → Type 0
IsCurrent none s = s.cancel ≡ none
IsCurrent (some t) s =
    (t.generation ≡ s.next_generation)
    × (t.folder_revision ≡ s.folder_revision)
    × (t.folder ≡ s.folder)

-- The phases whose cancel function has been called, or that have none.
abbrev is_past_cancel : AppPhase → Bool
is_past_cancel surface_cancelling = true
is_past_cancel duplicate_cancelling = true
is_past_cancel export_cancelling = true
is_past_cancel closing_after_export = true
is_past_cancel deleting = true
is_past_cancel closing_after_delete = true
is_past_cancel _ = false

pub record Inv (s : OperationState) : Type 0 where
  pub active_kind : kind_of s.active ≡ kind_in s.phase
  pub active_current : IsCurrent s.active s
  pub cancel_spent : is_past_cancel s.phase ≡ true → s.cancel ≡ none
  pub allowed_iff : s.allow_close ≡ (s.phase == closing)

pub new-Inv : Inv new_operation_state
unfolding new_operation_state AppPhase-discrete
new-Inv = record {
  active_kind = refl;
  active_current = refl;
  cancel_spent = λ _. refl;
  allowed_iff = refl;
}

-- Every call keeps the invariant.
pub step-Inv : (p : Platform) (s : OperationState) (e : Event) → Inv s → Inv (step p s e)
unfolding step AppPhase-discrete
step-Inv p s (selects folder) h = ground arith
step-Inv p s _ h = ground arith
