-- ===== src/Scanner/Recycle/Items.antt =====
-- internal/scanner/delete.go: what happens to each selected file. A deferred close runs on every path that leaves the function.
pub mod Outcome
pub mod Report
use twin_tidy.Base.{
  ℕ, zero, suc, ◌≡◌, Bool, true, false, ◌&&◌, ◌||◌, not, Option, none, some, List, [], ◌∷◌, ◌++◌,
  map, Text, bytes, ◌==◌, text_eq, nat_eq, if◌then◌else◌,
}
use twin_tidy.Scanner.Types.{
  FileIdentity, identity_eq, FileRecord, RecycleRequest, RecycleStatus, recycled, skipped_changed,
  skipped_protected, cancelled, failed, RecycleItemResult, RecycleResult, Err, Result, ok, err,
  canceled, deadline_exceeded, hard_linked_file, named_stream_file, reparse_point, file_changed,
  not_exist, recycle_aborted, recycle_unsupported, source_still_exists, no_progress, out_of_fuel,
  other,
}
use twin_tidy.Scanner.Platform.{Platform}
use twin_tidy.Scanner.Io.{
  close_quietly, Io, Os, ◌>>=◌, ◌>>◌, return, throw, reject_if, on_error, check_ctx, ReadEnd, more,
  eof, broken,
}
use twin_tidy.Scanner.Snapshot.{
  FileSnapshot, record_matches_snapshot, open_file_snapshot, open_scoped_verification_snapshot,
  verify_stable_snapshot_in_scope,
}
use twin_tidy.Scanner.Recycle.{ValidatedRecycleRequest, validate_recycle_request}
use twin_tidy.Scanner.Recycle.Verify.{
  KeeperResult, verified, unverified, verification_status, open_verified_record,
  open_verified_keeper,
}

pub record RecycleReceipt : Type 0 where
  pub identity : FileIdentity
  pub destination : Text
  pub confirmed : Bool

-- `recycleAdapter`
pub record RecycleAdapter (W Handle : Type 0) : Type 0 where
  pub recycle : Text → Handle → FileIdentity → Io W RecycleReceipt

-- The adapter of the platforms other than Windows.
unfoldable pub unsupported_recycle_adapter :
    {W Handle : Type 0} → Os W Handle → RecycleAdapter W Handle
unsupported_recycle_adapter os = record {
  recycle = λ path file expected. check_ctx os >> throw recycle_unsupported;
}

unfoldable pub recycle_item : Text → RecycleStatus → Option Err → RecycleItemResult
recycle_item path status reason = record { path = path; status = status; reason = reason }

unfoldable pub rejected_recycle_result : RecycleRequest → Err → RecycleResult
rejected_recycle_result request e = record {
  items = map (λ selected. recycle_item selected.path failed (some e)) request.selected;
  request_error = some e;
}

-- `switch` on the error of the adapter.
unfoldable pub adapter_status : Err → RecycleStatus
adapter_status canceled = cancelled
adapter_status recycle_aborted = cancelled
adapter_status _ = failed

module _ (is_windows : Bool) (p : Platform) {W Handle : Type 0} (os : Os W Handle) where
  -- An object at the source path, the expected one or another, is an error.
  unfoldable pub verify_source_path_absent : FileRecord → Io W (Unit {0})
  verify_source_path_absent expected w =
      let (r, w') = open_file_snapshot is_windows p os expected.path w in
      elim r [
        | err not_exist ↦ (ok tt, w')
        | err e ↦ (err e, w')
        | ok found ↦ (err source_still_exists, close_quietly os found.0 w')
      ]

  -- What follows a call of the adapter that reported no error.
  unfoldable pub confirm_recycled : FileRecord → RecycleReceipt → W → RecycleItemResult × W
  confirm_recycled target receipt w =
      if not receipt.confirmed
        || not (receipt.identity == target.identity)
        || receipt.destination == []
      then (recycle_item target.path failed (some (other (bytes "receipt"))), w)
      else let (c, w1) = check_ctx os w in
        elim c [
          | err e ↦ (recycle_item target.path cancelled (some e), w1)
          | ok _ ↦
              let (a, w2) = verify_source_path_absent target w1 in
              elim a [
                | err e ↦ (recycle_item target.path failed (some e), w2)
                | ok _ ↦ (recycle_item target.path recycled none, w2)
              ]
        ]

  -- The part of `recycleOne` in which both handles are open.
  unfoldable pub recycle_target :
      RecycleAdapter W Handle → FileRecord → Handle → W → RecycleItemResult × W
  recycle_target adapter target file w =
      let (c, w1) = check_ctx os w in
      elim c [
        | err e ↦ (recycle_item target.path cancelled (some e), w1)
        | ok _ ↦
            let (a, w2) = adapter.recycle target.path file target.identity w1 in
            elim a [
              | err e ↦ (recycle_item target.path (adapter_status e) (some e), w2)
              | ok receipt ↦ confirm_recycled target receipt w2
            ]
      ]

  unfoldable pub recycle_one :
      ℕ → RecycleAdapter W Handle → ValidatedRecycleRequest → FileRecord → W → RecycleItemResult × W
  recycle_one fuel adapter request target w =
      let (k, w1) =
        open_verified_keeper is_windows p os fuel request.keepers request.group_hash w in
      elim k [
        | unverified status e ↦ (recycle_item target.path status (some e), w1)
        | verified keeper ↦
            let (t, w2) =
              open_verified_record is_windows p os fuel target request.group_hash true w1 in
            elim t [
              | err e ↦ (
                recycle_item target.path (verification_status e) (some e),
                close_quietly os keeper w2,
              )
              | ok file ↦
                  let (item, w3) = recycle_target adapter target file w2 in
                  (item, close_quietly os keeper (close_quietly os file w3))
            ]
      ]

  -- The body of the loop over the selected files.
  unfoldable pub recycle_next :
      ℕ → RecycleAdapter W Handle → ValidatedRecycleRequest → FileRecord → W → RecycleItemResult × W
  recycle_next fuel adapter request target w =
      let (c, w1) = check_ctx os w in
      elim c [
        | err e ↦ (recycle_item target.path cancelled (some e), w1)
        | ok _ ↦ recycle_one fuel adapter request target w1
      ]

  -- `for _, target := range validated.selected`
  unfoldable pub recycle_each :
      ℕ
      → RecycleAdapter W Handle
      → ValidatedRecycleRequest
      → List FileRecord
      → W
      → List RecycleItemResult × W
  recycle_each fuel adapter request [] w = ([], w)
  recycle_each fuel adapter request (target ∷ rest) w =
      let (item, w2) = recycle_next fuel adapter request target w in
      let (items, w3) = recycle_each fuel adapter request rest w2 in (item ∷ items, w3)

  unfoldable pub recycle_exact_duplicates :
      ℕ → Option (RecycleAdapter W Handle) → RecycleRequest → W → RecycleResult × W
  recycle_exact_duplicates fuel adapter request w = elim (validate_recycle_request p request) [
    | err e ↦ (rejected_recycle_result request e, w)
    | ok validated ↦ elim adapter [
      | none ↦ (rejected_recycle_result request (other (bytes "recycle adapter is unavailable")), w)
      | some a ↦
          let (items, w') = recycle_each fuel a validated validated.selected w in
          (record { items = items; request_error = none }, w')
    ]
  ]
