-- ===== src/Gui/Operation/Closing.antt =====
-- internal/gui/operation_state.go: cancellation and shutdown.
use twin_tidy.Base.{
  refl, ◌↔◌, inl, inr, ◌≡◌, ◌⊎◌, Bool, true, false, none, some, List, ◌∷◌, arith, ==_refl,
}
use twin_tidy.Scanner.Platform.{Platform}
use twin_tidy.Gui.Operation.{
  AppPhase-discrete, phase_eq, OperationKind, OperationToken, Completion, OperationState, Event,
  run, accepts, new_operation_state, close_now, close_deferred, closing, duplicate_scan,
  folder_ready, surface_ready, surface_scan, export, delete, request_close,
  request_scan_cancellation, complete_export, complete_delete, complete_surface_scan,
  complete_duplicate_scan, token_eq, OperationKind-discrete,
}
use twin_tidy.Gui.Operation.Invariant.{Inv, new-Inv}
use twin_tidy.Gui.Operation.Tokens.{run-Inv}

-- After any calls from the start, the window may close only in the closing phase, with no
-- operation under way and no cancel function left to call.
pub allow_close_idle :
    (p : Platform) (es : List Event)
    → let s = run p new_operation_state es in
      s.allow_close ≡ true → (s.phase ≡ closing) × (s.active ≡ none) × (s.cancel ≡ none)
unfolding AppPhase-discrete
allow_close_idle p es a = ground (arith, run-Inv p new_operation_state es new-Inv)

abbrev pub IsUninterruptible : OperationToken → Type 0
IsUninterruptible t = (t.kind ≡ export) ⊎ (t.kind ≡ delete)

uninterruptible :
    (s : OperationState) (t : OperationToken)
    → Inv s
    → s.active ≡ some t
    → (k : OperationKind) → t.kind ≡ k
    → (request_close s).1 ≡ close_deferred
    → IsUninterruptible t
unfolding request_close AppPhase-discrete
uninterruptible s t h a export k d = inl k
uninterruptible s t h a delete k d = inr k
uninterruptible s t h a surface_scan k d = absurd (ground arith)
uninterruptible s t h a duplicate_scan k d = absurd (ground arith)

-- While an operation is active, a close request is deferred exactly when it is an export or a
-- delete. A deferred request keeps the token of the operation active and accepted, the window may
-- not close, and no cancel function is left to call for an export.
pub request_close_deferred :
    (s : OperationState) (t : OperationToken)
    → Inv s
    → s.active ≡ some t
    → let (s', answer) = request_close s in
      ((answer ≡ close_deferred) ↔ IsUninterruptible t)
      × (answer ≡ close_deferred
          → (s'.active ≡ some t)
            × (accepts s' t ≡ true)
            × (s'.allow_close ≡ false)
            × (t.kind ≡ export → s'.cancel ≡ none))
unfolding request_close accepts AppPhase-discrete
request_close_deferred s t h a = (
  ((λ d. uninterruptible s t h a t.kind refl d), (λ u. ground (arith, ==_refl t))),
  (λ d. ground (arith, ==_refl t)),
)

abbrev complete_deferred :
    OperationKind → OperationToken → OperationState → OperationState × Completion
complete_deferred export = complete_export
complete_deferred _ = complete_delete

-- The completion of a deferred operation closes the window: after a close request, completing the
-- active export or delete is accepted, and the window may then close.
pub complete_after_close :
    (s : OperationState) (t : OperationToken)
    → Inv s
    → s.active ≡ some t
    → IsUninterruptible t
    → let s' = (request_close s).0 in
      let (u, done) = complete_deferred t.kind t s' in
      (done.accepted ≡ true)
      × (done.should_close ≡ true)
      × (u.phase ≡ closing)
      × (u.allow_close ≡ true)
      × ((request_close u).1 ≡ close_now)
unfolding request_close complete_export complete_delete AppPhase-discrete OperationKind-discrete
complete_after_close s t h a u = ground (arith, ==_refl t)

abbrev complete_scan :
    OperationKind → OperationToken → Bool → OperationState → OperationState × Bool
complete_scan surface_scan = complete_surface_scan
complete_scan _ = complete_duplicate_scan

-- A cancelled scan publishes nothing: once a cancellation is requested, the completion of the
-- active scan, successful or not, is accepted and falls back to the phase before the scan. The
-- cancel function is called once by the request, and a second request does nothing.
pub cancelled_scan_unpublished :
    (s : OperationState) (t : OperationToken) (successful : Bool)
    → Inv s
    → s.active ≡ some t
    → (request_scan_cancellation s).1 ≡ true
    → let s' = (request_scan_cancellation s).0 in
      let (u, accepted) = complete_scan t.kind t successful s' in
      (accepted ≡ true)
      × (u.phase ≡ elim t.kind [ surface_scan ↦ folder_ready | _ ↦ surface_ready ])
      × (s'.called ≡ elim s.cancel [ none ↦ s.called | some c ↦ c ∷ s.called ])
      × (s'.cancel ≡ none)
      × ((request_scan_cancellation s').1 ≡ false)
      × ((request_scan_cancellation s').0 ≡ s')
unfolding request_scan_cancellation complete_surface_scan complete_duplicate_scan AppPhase-discrete
    OperationKind-discrete
cancelled_scan_unpublished s t successful h a c = ground (arith, ==_refl t)
