-- ===== src/Gui/Operation/Tokens.antt =====
-- internal/gui/operation_state.go: the tokens of the operations.
use twin_tidy.Base.{
  ◌+◌, ◌^◌, ◌≤◌, ◌<◌, ◌≡◌, refl, ◌≢◌, ◌↔◌, Bool, true, false, Option, none, some, List, [], ◌∷◌,
  arith, length, ==_refl,
}
use twin_tidy.Scanner.Platform.{Platform}
use twin_tidy.Gui.Operation.{
  AppPhase-discrete, token_eq, OperationToken, OperationState, Event, step, run, accepts,
  surface_scan, duplicate_scan, export, delete, selects, completes_surface, completes_duplicate,
  completes_export, completes_delete,
}
use twin_tidy.Gui.Operation.Invariant.{Inv, step-Inv}

-- The invariant holds after any calls.
pub run-Inv : (p : Platform) (s : OperationState) (es : List Event) → Inv s → Inv (run p s es)
unfolding run
run-Inv p s [] h = h
run-Inv p s (e ∷ es) h = run-Inv p (step p s e) es (step-Inv p s e h)

-- Between calls, exactly the active token is accepted.
pub accepts_iff :
    (s : OperationState) (t : OperationToken) → Inv s → (accepts s t ≡ true) ↔ (s.active ≡ some t)
unfolding accepts AppPhase-discrete
accepts_iff s t h = (λ a. ground arith, λ e. grind (arith, h.active_kind, ==_refl t))

abbrev IsOther : OperationToken → Option OperationToken → Type 0
IsOther t none = Unit
IsOther t (some u) = u ≢ t

-- The token was issued, and is not active.
abbrev IsStale : OperationToken → OperationState → Type 0
IsStale t s = (t.generation ≤ s.next_generation) × IsOther t s.active

step-IsStale :
    (p : Platform) (t : OperationToken) (s : OperationState) (e : Event)
    → s.next_generation + 1 < 2 ^ 64
    → IsStale t s
    → IsStale t (step p s e) × ((step p s e).next_generation ≤ s.next_generation + 1)
unfolding step
step-IsStale p t s (selects folder) b h = ground arith
step-IsStale p t s _ b h = ground arith

run-IsStale :
    (p : Platform) (t : OperationToken) (s : OperationState) (es : List Event)
    → s.next_generation + length es < 2 ^ 64
    → IsStale t s
    → IsStale t (run p s es)
unfolding run
run-IsStale p t s [] b h = h
run-IsStale p t s (e ∷ es) b h =
    let (still, next) = step-IsStale p t s e (omega arith) h in
    run-IsStale p t (step p s e) es (omega arith) still

-- The completion call for a token.
abbrev pub completes : OperationToken → Bool → Event
completes t successful = elim t.kind [
  | surface_scan ↦ completes_surface t successful
  | duplicate_scan ↦ completes_duplicate t successful
  | export ↦ completes_export t
  | delete ↦ completes_delete t
]

not_accepted_of_IsStale :
    (t : OperationToken) (s : OperationState) → IsStale t s → accepts s t ≡ false
unfolding accepts
not_accepted_of_IsStale t s h = ground arith

-- A token that was issued and is not accepted is never accepted again, whatever calls follow, as
-- long as the 64-bit generation does not wrap round.
pub accepts_never_again :
    (p : Platform) (s : OperationState) (t : OperationToken) (es : List Event)
    → Inv s
    → t.generation ≤ s.next_generation
    → accepts s t ≡ false
    → s.next_generation + length es < 2 ^ 64
    → accepts (run p s es) t ≡ false
accepts_never_again p s t es h issued rejected b =
    not_accepted_of_IsStale t (run p s es) (run-IsStale p t s es b (issued, other s.active refl))
  where
    other : (o : Option OperationToken) → s.active ≡ o → IsOther t o
    other none e = tt
    other (some u) e = λ same. cc ((accepts_iff s t h).1 (ground arith))

complete-IsStale :
    (p : Platform) (s : OperationState) (t : OperationToken) (successful : Bool)
    → Inv s
    → accepts s t ≡ true
    → IsStale t (step p s (completes t successful))
      × ((step p s (completes t successful)).next_generation ≡ s.next_generation)
unfolding step
complete-IsStale p s t successful h a = ground (arith, (accepts_iff s t h).0 a)

-- A completion is applied at most once: after the completion of an accepted token, whatever calls
-- follow, the token is never accepted again.
pub complete_once :
    (p : Platform) (s : OperationState) (t : OperationToken) (successful : Bool) (es : List Event)
    → Inv s
    → accepts s t ≡ true
    → s.next_generation + length es < 2 ^ 64
    → accepts (run p (step p s (completes t successful)) es) t ≡ false
complete_once p s t successful es h a b =
    let (stale, same) = complete-IsStale p s t successful h a in
    not_accepted_of_IsStale t _
      (run-IsStale p t (step p s (completes t successful)) es (omega arith) stale)
