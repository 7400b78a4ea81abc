-- ===== src/Tests/Preview.antt =====
-- Preview requests from a fresh state.
use twin_tidy.Base.{ℕ, ◌≡◌, true, false, some, [], ◌∷◌, arith}
use twin_tidy.Gui.Preview.{
  PreviewGenerationState, no_token, begin, invalidates, accepts_preview, run_preview, submit,
}
use twin_tidy.Gui.Preview.Freshness.{accepts_preview_stale, submit-newest}

abbrev fresh : PreviewGenerationState
fresh = record { next_generation = 0; model_revision = 0; active = no_token; has_active = false }

accepts_preview_stale_example :
    let (token, s) = begin fresh 5 in
    accepts_preview (run_preview s (invalidates ∷ [])) token 5 ≡ false
accepts_preview_stale_example = accepts_preview_stale fresh 5 5 invalidates [] (omega arith)

submit-newest_example : submit {A = ℕ} true false (some 1) 2 ≡ some 2
submit-newest_example = submit-newest true false (some 1) 2
