-- ===== src/Gui/Preview/Freshness.antt =====
-- internal/gui/preview_state.go: the tokens of the previews, and the channel of requests.
use twin_tidy.Base.{
  ℕ, ◌+◌, ◌^◌, ◌<◌, ◌≤◌, ◌≡◌, Bool, true, false, some, List, [], ◌∷◌, length, ==_refl, arith,
}
use twin_tidy.Gui.Preview.{
  PreviewToken, preview_eq, PreviewGenerationState, begin, invalidate, accepts_preview,
  PreviewEvent, begins, invalidates, step_preview, run_preview, LatestValueQueue, submit, try_send,
  maybe_take,
}

-- The active token is the newest one.
pub IsNewest : ℕ → PreviewGenerationState → Type 0
IsNewest g s =
    (g < s.next_generation) × (s.has_active ≡ true → s.active.generation ≡ s.next_generation)

step_preview-IsNewest :
    (g : ℕ) (s : PreviewGenerationState) (e : PreviewEvent)
    → s.next_generation + 1 < 2 ^ 64
    → g ≤ s.next_generation
    → IsNewest g (step_preview s e) × ((step_preview s e).next_generation ≡ s.next_generation + 1)
unfolding IsNewest step_preview begin invalidate
step_preview-IsNewest g s (begins f) b h = ground arith
step_preview-IsNewest g s invalidates b h = ground arith

run_preview-IsNewest :
    (g : ℕ) (s : PreviewGenerationState) (es : List PreviewEvent)
    → s.next_generation + length es < 2 ^ 64
    → IsNewest g s
    → IsNewest g (run_preview s es)
unfolding IsNewest run_preview
run_preview-IsNewest g s [] b h = h
run_preview-IsNewest g s (e ∷ es) b h =
    let (newest, next) = step_preview-IsNewest g s e (omega arith) (omega (arith, h.0)) in
    run_preview-IsNewest g (step_preview s e) es (omega arith) newest

-- A token is accepted right after its request, under the folder it was requested for.
begin-accepts_preview :
    (s : PreviewGenerationState) (folder : ℕ)
    → let (token, s') = begin s folder in accepts_preview s' token folder ≡ true
unfolding begin accepts_preview
begin-accepts_preview s folder = grind (arith, ==_refl {A = PreviewToken})

-- After another request or an invalidation, whatever follows and whichever folder is asked for, the
-- token is not accepted again, as long as the 64-bit generation does not wrap round.
pub accepts_preview_stale :
    (s : PreviewGenerationState) (folder other : ℕ) (e : PreviewEvent) (es : List PreviewEvent)
    → s.next_generation + 1 + length (e ∷ es) < 2 ^ 64
    → let (token, s') = begin s folder in
      accepts_preview (run_preview s' (e ∷ es)) token other ≡ false
unfolding accepts_preview run_preview begin IsNewest
accepts_preview_stale s folder other e es b =
    let (token, s') = begin s folder in
    let next : s'.next_generation ≡ s.next_generation + 1 = ground arith in
    let (newest, count) =
      step_preview-IsNewest token.generation s' e (omega arith) (ground arith) in
    let (later, same) =
      run_preview-IsNewest token.generation (step_preview s' e) es (omega arith) newest in
    ground arith

-- What `submit` leaves is the value that it was given, whatever the consumer takes meanwhile.
pub submit-newest :
    {A : Type 0} (between before_send : Bool) (q : LatestValueQueue A) (a : A)
    → submit between before_send q a ≡ some a
unfolding submit try_send maybe_take
submit-newest between before_send q a = ground arith
