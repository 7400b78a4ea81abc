-- ===== src/Gui/Operation.antt =====
-- internal/gui/operation_state.go: which foreground operation may start, and which asynchronous
-- completion is accepted. A cancel function is a number, and the state keeps those that were called.
pub mod Invariant
pub mod Tokens
pub mod Closing
use twin_tidy.Base.{
  ℕ, ◌+◌, ◌%◌, ◌^◌, ◌≡◌, Bool, true, false, ◌&&◌, ◌||◌, not, Option, none, some, List, [], ◌∷◌,
  Text, Eq, ◌==◌, text_eq, nat_eq, ℕ_discrete, List_ℕ-discrete, if◌then◌else◌,
}
use twin_tidy.Scanner.Types.{Time}
use twin_tidy.Scanner.Platform.{Platform}

pub data AppPhase : Type 0 where
  no_folder folder_ready surface_scanning surface_cancelling surface_ready : AppPhase
  duplicate_scanning duplicate_cancelling results_ready : AppPhase
  exporting export_cancelling deleting : AppPhase
  closing_after_export closing_after_delete closing : AppPhase

pub data OperationKind : Type 0 where
  surface_scan duplicate_scan export delete : OperationKind

unfoldable pub AppPhase-discrete : Discrete AppPhase
AppPhase-discrete = hlevel

unfoldable pub OperationKind-discrete : Discrete OperationKind
OperationKind-discrete = hlevel

instance abbrev pub phase_eq : Eq AppPhase
phase_eq = record { discrete = AppPhase-discrete }

instance abbrev pub kind_eq : Eq OperationKind
kind_eq = record { discrete = OperationKind-discrete }

pub record OperationToken : Type 0 where
  pub generation : ℕ
  pub folder_revision : ℕ
  pub kind : OperationKind
  pub folder : Text
  pub started_at : Time

unfoldable pub OperationToken-discrete : Discrete OperationToken
unfolding ℕ_discrete List_ℕ-discrete OperationKind-discrete
OperationToken-discrete = hlevel (ℕ_discrete, List_ℕ-discrete)

instance abbrev pub token_eq : Eq OperationToken
token_eq = record { discrete = OperationToken-discrete }

pub data CloseDisposition : Type 0 where
  close_now close_deferred : CloseDisposition

pub data OperationError : Type 0 where
  folder_required : OperationError
  transition : AppPhase → OperationError

pub record OperationState : Type 0 where
  pub phase : AppPhase
  pub folder : Text
  pub folder_revision : ℕ
  pub next_generation : ℕ
  pub active : Option OperationToken
  pub cancel : Option ℕ
  pub called : List ℕ
  pub close_requested : Bool
  pub allow_close : Bool

-- `uint64` addition
abbrev pub u64 : ℕ → ℕ
u64 n = n % 2 ^ 64

unfoldable pub new_operation_state : OperationState
new_operation_state = record {
  phase = no_folder;
  folder = [];
  folder_revision = 0;
  next_generation = 0;
  active = none;
  cancel = none;
  called = [];
  close_requested = false;
  allow_close = false;
}

abbrev pub can_change_phase : AppPhase → Bool
can_change_phase no_folder = true
can_change_phase folder_ready = true
can_change_phase surface_ready = true
can_change_phase results_ready = true
can_change_phase _ = false

unfoldable pub can_change_folder : OperationState → Bool
can_change_folder s = can_change_phase s.phase

unfoldable pub can_reset : OperationState → Bool
unfolding can_change_folder
can_reset s = can_change_folder s

-- The switch of `accepts` on the kind of the token.
abbrev pub phase_accepts : OperationKind → AppPhase → Bool
phase_accepts surface_scan phase = phase == surface_scanning || phase == surface_cancelling
phase_accepts duplicate_scan phase = phase == duplicate_scanning || phase == duplicate_cancelling
phase_accepts export phase =
    phase == exporting || phase == export_cancelling || phase == closing_after_export
phase_accepts delete phase = phase == deleting || phase == closing_after_delete

unfoldable pub accepts : OperationState → OperationToken → Bool
accepts s token = elim s.active [
  | none ↦ false
  | some t ↦ if not (t == token) then false else phase_accepts token.kind s.phase
]

unfoldable pub invoke_cancellation : OperationState → OperationState
invoke_cancellation s = elim s.cancel [
  | none ↦ s
  | some c ↦ record s { cancel = none; called = c ∷ s.called }
]

unfoldable pub clear_active_operation : OperationState → OperationState
clear_active_operation s = record s { active = none; cancel = none }

unfoldable pub invalidate_active_operation : OperationState → OperationState
unfolding invoke_cancellation
invalidate_active_operation s =
    let t = invoke_cancellation s in
    record t { active = none; next_generation = u64 (t.next_generation + 1) }

unfoldable pub begin_operation :
    OperationKind → AppPhase → Time → Option ℕ → OperationState → OperationState × OperationToken
begin_operation kind phase started_at cancel s =
    let generation : ℕ = u64 (s.next_generation + 1) in
    let token : OperationToken = record {
      generation = generation;
      folder_revision = s.folder_revision;
      kind = kind;
      folder = s.folder;
      started_at = started_at;
    } in
    (
      record s {
        next_generation = generation;
        active = some token;
        cancel = cancel;
        phase = phase;
      },
      token,
    )

pub data Begun : Type 0 where
  begun : OperationToken → Begun
  refused : OperationError → Begun

-- A guard on the phase in front of `beginOperation`.
abbrev begin_if :
    Bool → OperationKind → AppPhase → Time → Option ℕ → OperationState → OperationState × Begun
begin_if allowed kind phase started_at cancel s =
    let (t, token) = begin_operation kind phase started_at cancel s in
    if allowed then (t, begun token) else (s, refused (transition s.phase))

unfoldable pub begin_surface_scan : Time → Option ℕ → OperationState → OperationState × Begun
unfolding begin_operation
begin_surface_scan at cancel s =
    begin_if (s.phase == folder_ready) surface_scan surface_scanning at cancel s

unfoldable pub begin_duplicate_scan : Time → Option ℕ → OperationState → OperationState × Begun
unfolding begin_operation
begin_duplicate_scan at cancel s =
    begin_if (s.phase == surface_ready || s.phase == results_ready) duplicate_scan
      duplicate_scanning at cancel s

unfoldable pub begin_export : Time → Option ℕ → OperationState → OperationState × Begun
unfolding begin_operation
begin_export at cancel s = begin_if (s.phase == results_ready) export exporting at cancel s

unfoldable pub begin_delete : Time → OperationState → OperationState × Begun
unfolding begin_operation
begin_delete at s = begin_if (s.phase == results_ready) delete deleting at none s

unfoldable pub reset : OperationState → OperationState × Option OperationError
unfolding can_reset invalidate_active_operation
reset s =
    let t = invalidate_active_operation s in
    if not (can_reset s) then (s, some (transition s.phase)) else (
      record t { folder_revision = u64 (t.folder_revision + 1); folder = []; phase = no_folder },
      none,
    )

unfoldable pub clear_results : OperationState → OperationState × Option OperationError
clear_results s =
    if not (s.phase == results_ready)
    then (s, some (transition s.phase))
    else (record s { phase = surface_ready }, none)

unfoldable pub complete_surface_scan :
    OperationToken → Bool → OperationState → OperationState × Bool
unfolding accepts clear_active_operation
complete_surface_scan token successful s =
    let was_cancelling = s.phase == surface_cancelling in
    let t = clear_active_operation s in
    if not (token.kind == surface_scan) || not (accepts s token)
    then (s, false)
    else if successful && not was_cancelling
    then (record t { phase = surface_ready }, true)
    else (record t { phase = folder_ready }, true)

unfoldable pub complete_duplicate_scan :
    OperationToken → Bool → OperationState → OperationState × Bool
unfolding accepts clear_active_operation
complete_duplicate_scan token successful s =
    let was_cancelling = s.phase == duplicate_cancelling in
    let t = clear_active_operation s in
    if not (token.kind == duplicate_scan) || not (accepts s token)
    then (s, false)
    else if successful && not was_cancelling
    then (record t { phase = results_ready }, true)
    else (record t { phase = surface_ready }, true)

unfoldable pub request_scan_cancellation : OperationState → OperationState × Bool
unfolding invoke_cancellation
request_scan_cancellation s = elim s.phase [
  | surface_scanning ↦ (invoke_cancellation (record s { phase = surface_cancelling }), true)
  | duplicate_scanning ↦ (invoke_cancellation (record s { phase = duplicate_cancelling }), true)
  | _ ↦ (s, false)
]

unfoldable pub request_export_cancellation : OperationState → OperationState × Bool
unfolding invoke_cancellation
request_export_cancellation s =
    if not (s.phase == exporting)
    then (s, false)
    else (invoke_cancellation (record s { phase = export_cancelling }), true)

-- What a completion answers: whether it was accepted, and whether a deferred close is due.
pub record Completion : Type 0 where
  pub accepted : Bool
  pub should_close : Bool

abbrev finish : AppPhase → OperationState → OperationState × Completion
finish deferred s =
    let t = clear_active_operation s in
    if s.phase == deferred
    then (
      record t { phase = closing; allow_close = true },
      record { accepted = true; should_close = true },
    )
    else (record t { phase = results_ready }, record { accepted = true; should_close = false })

abbrev ignored : Completion
ignored = record { accepted = false; should_close = false }

unfoldable pub complete_export : OperationToken → OperationState → OperationState × Completion
unfolding accepts clear_active_operation
complete_export token s =
    if not (token.kind == export) || not (accepts s token)
    then (s, ignored)
    else finish closing_after_export s

unfoldable pub complete_delete : OperationToken → OperationState → OperationState × Completion
unfolding accepts clear_active_operation
complete_delete token s =
    if not (token.kind == delete) || not (accepts s token)
    then (s, ignored)
    else finish closing_after_delete s

-- The switch of `requestClose`, after the request is noted.
close_in : AppPhase → OperationState → OperationState × CloseDisposition
close_in exporting s =
    (invoke_cancellation (record s { phase = closing_after_export }), close_deferred)
close_in export_cancelling s =
    (invoke_cancellation (record s { phase = closing_after_export }), close_deferred)
close_in closing_after_export s = (s, close_deferred)
close_in deleting s = (record s { phase = closing_after_delete }, close_deferred)
close_in closing_after_delete s = (s, close_deferred)
close_in _ s =
    (record (invalidate_active_operation s) { phase = closing; allow_close = true }, close_now)

unfoldable pub request_close : OperationState → OperationState × CloseDisposition
unfolding close_in invoke_cancellation invalidate_active_operation
request_close s =
    if s.allow_close then (s, close_now) else close_in s.phase (record s { close_requested = true })

module _ (p : Platform) where
  unfoldable pub select_folder : Text → OperationState → OperationState × Option OperationError
  unfolding can_change_folder invalidate_active_operation
  select_folder folder s =
      let t = invalidate_active_operation s in
      if p.trim_space folder == []
      then (s, some folder_required)
      else if not (can_change_folder s)
      then (s, some (transition s.phase))
      else (
        record t {
          folder_revision = u64 (t.folder_revision + 1);
          folder = folder;
          phase = folder_ready;
        },
        none,
      )

-- The calls that the application makes.
pub data Event : Type 0 where
  selects : Text → Event
  resets clears cancels_scan cancels_export closes : Event
  begins_surface begins_duplicate begins_export : Time → Option ℕ → Event
  begins_delete : Time → Event
  completes_surface completes_duplicate : OperationToken → Bool → Event
  completes_export completes_delete : OperationToken → Event

module _ (p : Platform) where
  unfoldable pub step : OperationState → Event → OperationState
  unfolding select_folder reset clear_results begin_surface_scan begin_duplicate_scan begin_export
      begin_delete complete_surface_scan complete_duplicate_scan complete_export complete_delete
      request_scan_cancellation request_export_cancellation request_close
  step s (selects folder) = (select_folder p folder s).0
  step s resets = (reset s).0
  step s clears = (clear_results s).0
  step s cancels_scan = (request_scan_cancellation s).0
  step s cancels_export = (request_export_cancellation s).0
  step s closes = (request_close s).0
  step s (begins_surface at cancel) = (begin_surface_scan at cancel s).0
  step s (begins_duplicate at cancel) = (begin_duplicate_scan at cancel s).0
  step s (begins_export at cancel) = (begin_export at cancel s).0
  step s (begins_delete at) = (begin_delete at s).0
  step s (completes_surface token successful) = (complete_surface_scan token successful s).0
  step s (completes_duplicate token successful) = (complete_duplicate_scan token successful s).0
  step s (completes_export token) = (complete_export token s).0
  step s (completes_delete token) = (complete_delete token s).0

  unfoldable pub run : OperationState → List Event → OperationState
  run s [] = s
  run s (e ∷ es) = run (step s e) es
