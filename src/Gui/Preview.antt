-- ===== src/Gui/Preview.antt =====
-- internal/gui/preview_state.go: which preview result may be shown, and the queue that keeps only
-- the newest request. Both are used by one thread; the consumer of the queue may take the pending
-- value at any moment, also between the steps of `submit`.
pub mod Freshness
use twin_tidy.Base.{
  ℕ, ◌+◌, ◌^◌, ◌%◌, ◌≡◌, Bool, true, false, ◌&&◌, Option, none, some, List, [], ◌∷◌, Eq, ◌==◌,
  nat_eq, ℕ_discrete, if◌then◌else◌,
}
use twin_tidy.Gui.Operation.{u64}

pub record PreviewToken : Type 0 where
  pub generation : ℕ
  pub model_revision : ℕ
  pub folder_revision : ℕ

unfoldable pub PreviewToken-discrete : Discrete PreviewToken
unfolding ℕ_discrete
PreviewToken-discrete = hlevel ℕ_discrete

instance abbrev pub preview_eq : Eq PreviewToken
preview_eq = record { discrete = PreviewToken-discrete }

abbrev pub no_token : PreviewToken
no_token = record { generation = 0; model_revision = 0; folder_revision = 0 }

pub record PreviewGenerationState : Type 0 where
  pub next_generation : ℕ
  pub model_revision : ℕ
  pub active : PreviewToken
  pub has_active : Bool

unfoldable pub begin : PreviewGenerationState → ℕ → PreviewToken × PreviewGenerationState
begin s folder_revision =
    let token : PreviewToken = record {
      generation = u64 (s.next_generation + 1);
      model_revision = s.model_revision;
      folder_revision = folder_revision;
    } in
    (
      token,
      record s { next_generation = u64 (s.next_generation + 1); active = token; has_active = true },
    )

unfoldable pub invalidate : PreviewGenerationState → PreviewGenerationState
invalidate s = record {
  next_generation = u64 (s.next_generation + 1);
  model_revision = u64 (s.model_revision + 1);
  active = no_token;
  has_active = false;
}

unfoldable pub accepts_preview : PreviewGenerationState → PreviewToken → ℕ → Bool
accepts_preview s token folder_revision =
    s.has_active
    && s.active == token
    && token.model_revision == s.model_revision
    && token.folder_revision == folder_revision

-- A call that changes the state.
pub data PreviewEvent : Type 0 where
  begins : ℕ → PreviewEvent
  invalidates : PreviewEvent

unfoldable pub step_preview : PreviewGenerationState → PreviewEvent → PreviewGenerationState
step_preview s (begins folder_revision) = (begin s folder_revision).1
step_preview s invalidates = invalidate s

unfoldable pub run_preview : PreviewGenerationState → List PreviewEvent → PreviewGenerationState
run_preview s [] = s
run_preview s (e ∷ es) = run_preview (step_preview s e) es

-- A channel with room for one value.
abbrev pub LatestValueQueue : Type 0 → Type 0
LatestValueQueue A = Option A

unfoldable pub new_latest_value_queue : {A : Type 0} → LatestValueQueue A
new_latest_value_queue = none

-- `select { case pending <- value: …; default: }`, and whether the value was sent.
unfoldable pub try_send : {A : Type 0} → LatestValueQueue A → A → LatestValueQueue A × Bool
try_send none a = (some a, true)
try_send (some b) a = (some b, false)

-- What the consumer does between two steps of `submit`: it may take what is pending.
unfoldable pub maybe_take : {A : Type 0} → Bool → LatestValueQueue A → LatestValueQueue A
maybe_take taken q = if taken then none else q

-- The values that `submit` leaves pending, for what the consumer does between its three selects.
unfoldable pub submit : {A : Type 0} → Bool → Bool → LatestValueQueue A → A → LatestValueQueue A
unfolding try_send maybe_take
submit between before_send q a =
    let (q1, sent) = try_send q a in
    if sent then q1 else (try_send (maybe_take before_send (drained (maybe_take between q1))) a).0
  where
    drained : {A : Type 0} → LatestValueQueue A → LatestValueQueue A
    drained q = none
