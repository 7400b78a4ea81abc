-- ===== src/Scanner/Recycle/Items/Report.antt =====
-- internal/scanner/delete.go: the items that a recycle request reports.
use twin_tidy.Base.{
  ℕ, ◌≡◌, ◌≢◌, Bool, none, some, List, [], ◌∷◌, ◌⊎◌, inl, inr, map, bytes, text_eq, arith, Option,
  refl, subst,
}
use twin_tidy.Scanner.Types.{
  identity_eq, FileRecord, RecycleRequest, recycled, failed, RecycleItemResult, Err, Result-cases,
  ok, err, other,
}
use twin_tidy.Scanner.Platform.{Platform}
use twin_tidy.Scanner.Io.{Os, check_ctx, ◌>>◌}
use twin_tidy.Scanner.Recycle.{ValidatedRecycleRequest, validate_recycle_request}
use twin_tidy.Scanner.Recycle.Items.{
  RecycleAdapter, unsupported_recycle_adapter, recycle_item, rejected_recycle_result,
  confirm_recycled, recycle_target, recycle_one, recycle_next, recycle_each,
  recycle_exact_duplicates,
}
use twin_tidy.Scanner.Recycle.Items.Outcome.{IsRecycled, recycle_one-IsRecycled}

module _ (is_windows : Bool) (p : Platform) {W Handle : Type 0} (os : Os W Handle) where
  recycle_next-path :
      (fuel : ℕ) (adapter : RecycleAdapter W Handle) (request : ValidatedRecycleRequest)
      (target : FileRecord) (w : W)
      → (recycle_next is_windows p os fuel adapter request target w).0.path ≡ target.path
  unfolding recycle_next recycle_one recycle_item recycle_target confirm_recycled
  recycle_next-path fuel adapter request target w = ground arith

  recycle_next-IsRecycled :
      (fuel : ℕ) (adapter : RecycleAdapter W Handle) (request : ValidatedRecycleRequest)
      (target : FileRecord) (w : W)
      → (recycle_next is_windows p os fuel adapter request target w).0.status ≡ recycled
      → IsRecycled is_windows p os fuel request adapter target
          (recycle_next is_windows p os fuel adapter request target w).1
  unfolding recycle_next recycle_item
  recycle_next-IsRecycled fuel adapter request target w h =
      let v = (check_ctx os w).1 in
      let last : (recycle_one is_windows p os fuel adapter request target v).1
          ≡ (recycle_next is_windows p os fuel adapter request target w).1 =
        ground arith in
      subst (IsRecycled is_windows p os fuel request adapter target) last
        (recycle_one-IsRecycled is_windows p os fuel adapter request target v (ground arith))

  -- One item for each target, in order: it names the target's path, and says "recycled" only with
  -- the evidence.
  abbrev pub Reports :
      ℕ
      → ValidatedRecycleRequest
      → RecycleAdapter W Handle
      → List FileRecord
      → List RecycleItemResult
      → Type 0
  Reports fuel request adapter [] [] = Unit
  Reports fuel request adapter (t ∷ targets) (item ∷ items) =
      (item.path ≡ t.path)
      × (item.status ≡ recycled
          → (last : W) × IsRecycled is_windows p os fuel request adapter t last)
      × Reports fuel request adapter targets items
  Reports fuel request adapter _ _ = ⊥

  recycle_each-Reports :
      (fuel : ℕ) (adapter : RecycleAdapter W Handle) (request : ValidatedRecycleRequest)
      (targets : List FileRecord) (w : W)
      → Reports fuel request adapter targets
          (recycle_each is_windows p os fuel adapter request targets w).0
  unfolding recycle_each
  recycle_each-Reports fuel adapter request [] w = tt
  recycle_each-Reports fuel adapter request (t ∷ targets) w = (
    recycle_next-path fuel adapter request t w,
    (λ h. (_, recycle_next-IsRecycled fuel adapter request t w h)),
    recycle_each-Reports fuel adapter request targets
        (recycle_next is_windows p os fuel adapter request t w).1,
  )

  -- Why a request may be rejected: it does not pass the checks, or there is no adapter.
  pub IsRefused : Option (RecycleAdapter W Handle) → RecycleRequest → Err → Type 0
  IsRefused adapter request e =
      (validate_recycle_request p request ≡ err e)
      ⊎ ((adapter ≡ none)
          × ((v : ValidatedRecycleRequest) × (validate_recycle_request p request ≡ ok v)))

  -- A request that passes the checks, with an adapter, gives one item for each selected member, in
  -- the order of the selection, under the member's path, and an item says "recycled" only with the
  -- evidence of `IsRecycled`. A request that does not pass, or that has no adapter, changes nothing:
  -- its error is reported, with a failed item for each selected path.
  pub recycle_exact_duplicates-Reports :
      (fuel : ℕ) (adapter : Option (RecycleAdapter W Handle)) (request : RecycleRequest) (w : W)
      → let (result, w') = recycle_exact_duplicates is_windows p os fuel adapter request w in
        ((e : Err) × IsRefused adapter request e
          × (w' ≡ w)
          × (result.items ≡ map (λ s. recycle_item s.path failed (some e)) request.selected)
          × (result.request_error ≡ some e))
        ⊎ ((a : RecycleAdapter W Handle) × (v : ValidatedRecycleRequest) × (adapter ≡ some a)
            × (validate_recycle_request p request ≡ ok v)
            × Reports fuel v a v.selected result.items
            × (result.request_error ≡ none))
  unfolding recycle_exact_duplicates rejected_recycle_result IsRefused
  recycle_exact_duplicates-Reports fuel none request w =
      elim (Result-cases (validate_recycle_request p request)) [
        | inl (e, q) ↦ inl (e, inl q, ground arith, ground arith, ground arith)
        | inr (v, q) ↦ inl (
          other (bytes "recycle adapter is unavailable"),
          inr (refl, (v, q)),
          ground arith,
          rw (q, recycle_exact_duplicates) refl,
          rw (q, recycle_exact_duplicates) refl,
        )
      ]
  recycle_exact_duplicates-Reports fuel (some a) request w =
      elim (Result-cases (validate_recycle_request p request)) [
        | inl (e, q) ↦ inl (e, inl q, ground arith, ground arith, ground arith)
        | inr (v, q) ↦ inr (
          a,
          v,
          refl,
          q,
          rw (q, recycle_exact_duplicates) (recycle_each-Reports fuel a v v.selected w),
          ground arith,
        )
      ]

  -- Where recycling is not supported nothing is ever reported as recycled.
  pub unsupported-recycled :
      (fuel : ℕ) (request : ValidatedRecycleRequest) (target : FileRecord) (w : W)
      → (recycle_one is_windows p os fuel
          (unsupported_recycle_adapter os)
          request
          target
          w).0.status
        ≢ recycled
  unfolding unsupported_recycle_adapter ◌>>◌
  unsupported-recycled fuel request target w h =
      let taken = (recycle_one-IsRecycled is_windows p os fuel _ request target w h).taken in
      let e = taken.returned.run in ground arith
