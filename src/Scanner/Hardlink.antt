-- ===== src/Scanner/Hardlink.antt =====
-- internal/scanner/hardlink.go: duplicates that become hard links to a verified keeper.
pub mod Buffer
pub mod Places
pub mod Moves
pub mod Reachable
pub mod Windows
pub mod Target
pub mod Report
pub mod Outcome
use twin_tidy.Base.{
  ℕ, ◌≡◌, Bool, true, false, not, Option, none, some, List, [], ◌∷◌, map, Text, bytes, ◌==◌, nat_eq,
  text_eq, if◌then◌else◌,
}
use twin_tidy.Scanner.Types.{
  identity_eq, FileRecord, RecycleRequest, RecycleStatus, Err, Result, ok, err, other,
  hardlink_unsupported,
}
use twin_tidy.Scanner.Types
use twin_tidy.Scanner.Platform.{Platform}
use twin_tidy.Scanner.Io.{close_quietly, Io, Os, check_ctx}
use twin_tidy.Scanner.Recycle.{ValidatedRecycleRequest, validate_recycle_request}
use twin_tidy.Scanner.Recycle.Verify.{KeeperLoop, verification_status, open_verified_record}
use twin_tidy.Scanner.Hardlink.Windows.{
  Links, HardlinkStatus, consolidated, skipped_changed, skipped_protected, skipped_cross_volume,
  cancelled, failed, HardlinkItemResult, hardlink_item, hardlink_verification_status,
  consolidate_target_windows,
}

pub record HardlinkResult : Type 0 where
  pub items : List HardlinkItemResult
  pub request_error : Option Err

unfoldable pub rejected_hardlink_result : RecycleRequest → Err → HardlinkResult
rejected_hardlink_result request e = record {
  items = map (λ selected. hardlink_item selected.path failed (some e)) request.selected;
  request_error = some e;
}

-- The functions behind build tags: true on Windows, false elsewhere.
unfoldable pub platform_hardlink_supported : Bool → Bool
platform_hardlink_supported is_windows = is_windows

-- What `openVerifiedKeeperRecord` returns.
pub data KeeperRecord (Handle : Type 0) : Type 0 where
  keeper_found : Handle → FileRecord → KeeperRecord Handle
  keeper_missing : HardlinkStatus → Err → KeeperRecord Handle

unfoldable pub no_keeper_record : {Handle : Type 0} → KeeperLoop → KeeperRecord Handle
no_keeper_record s =
    let last : Err = elim s.last_error [
      | none ↦ other (bytes "keeper set is empty")
      | some e ↦ e
    ] in
    if s.saw_changed
    then keeper_missing skipped_changed last
    else if s.saw_protected
    then keeper_missing skipped_protected last
    else keeper_missing failed last

module _ (is_windows : Bool) (p : Platform) {W Handle : Type 0} (os : Os W Handle) where
  -- The loop over the candidates.
  unfoldable pub next_keeper_record :
      ℕ → List FileRecord → Text → KeeperLoop → W → KeeperRecord Handle × W
  next_keeper_record fuel [] hash s w = (no_keeper_record s, w)
  next_keeper_record fuel (candidate ∷ rest) hash s w =
      let (r, w') = open_verified_record is_windows p os fuel candidate hash false w in
      elim r [
        | ok file ↦ (keeper_found file candidate, w')
        | err e ↦ elim (hardlink_verification_status e) [
          | cancelled ↦ (keeper_missing cancelled e, w')
          | skipped_changed ↦
              next_keeper_record fuel rest hash
                (record s { last_error = some e; saw_changed = true }) w'
          | skipped_protected ↦
              next_keeper_record fuel rest hash
                (record s { last_error = some e; saw_protected = true }) w'
          | _ ↦ next_keeper_record fuel rest hash (record s { last_error = some e }) w'
        ]
      ]

  unfoldable pub open_verified_keeper_record :
      ℕ → List FileRecord → Text → W → KeeperRecord Handle × W
  unfolding next_keeper_record
  open_verified_keeper_record fuel candidates hash =
      next_keeper_record fuel candidates hash
        (record { last_error = none; saw_changed = false; saw_protected = false })

  -- On other systems the adapter refuses.
  unfoldable pub platform_consolidate_target :
      ℕ → Links W Handle → Handle → FileRecord → FileRecord → Text → W → HardlinkItemResult × W
  platform_consolidate_target fuel links keeper_file keeper target hash w =
      if is_windows
      then consolidate_target_windows p os links fuel keeper_file keeper target hash w
      else let (c, w1) = check_ctx os w in
        elim c [
          | err e ↦ (hardlink_item target.path cancelled (some e), w1)
          | ok _ ↦ (hardlink_item target.path failed (some hardlink_unsupported), w1)
        ]

  -- The part of `consolidateOne` in which the keeper is open.
  unfoldable pub consolidate_beside :
      ℕ
      → Links W Handle
      → ValidatedRecycleRequest
      → FileRecord
      → Handle
      → FileRecord
      → W
      → HardlinkItemResult × W
  consolidate_beside fuel links request target keeper_file keeper w =
      if not (keeper.identity.volume_serial == target.identity.volume_serial)
      then (
        hardlink_item target.path skipped_cross_volume
            (some (other (bytes "hardlinks cannot cross volumes"))),
        w,
      )
      else let (c, w1) = check_ctx os w in
        elim c [
          | err e ↦ (hardlink_item target.path cancelled (some e), w1)
          | ok _ ↦
              platform_consolidate_target fuel links keeper_file keeper target request.group_hash w1
        ]

  unfoldable pub consolidate_one :
      ℕ → Links W Handle → ValidatedRecycleRequest → FileRecord → W → HardlinkItemResult × W
  consolidate_one fuel links request target w =
      let (k, w1) = open_verified_keeper_record fuel request.keepers request.group_hash w in
      elim k [
        | keeper_missing status e ↦ (hardlink_item target.path status (some e), w1)
        | keeper_found keeper_file keeper ↦
            let (item, w2) = consolidate_beside fuel links request target keeper_file keeper w1 in
            (item, close_quietly os keeper_file w2)
      ]

  -- The body of the loop over the selected files.
  unfoldable pub consolidate_next :
      ℕ → Links W Handle → ValidatedRecycleRequest → FileRecord → W → HardlinkItemResult × W
  consolidate_next fuel links request target w =
      let (c, w1) = check_ctx os w in
      elim c [
        | err e ↦ (hardlink_item target.path cancelled (some e), w1)
        | ok _ ↦ consolidate_one fuel links request target w1
      ]

  -- `for _, target := range validated.selected`
  unfoldable pub consolidate_each :
      ℕ
      → Links W Handle
      → ValidatedRecycleRequest
      → List FileRecord
      → W
      → List HardlinkItemResult × W
  consolidate_each fuel links request [] w = ([], w)
  consolidate_each fuel links request (target ∷ rest) w =
      let (item, w2) = consolidate_next fuel links request target w in
      let (items, w3) = consolidate_each fuel links request rest w2 in (item ∷ items, w3)

  unfoldable pub consolidate_exact_duplicates :
      ℕ → Links W Handle → RecycleRequest → W → HardlinkResult × W
  consolidate_exact_duplicates fuel links request w =
      if not (platform_hardlink_supported is_windows)
      then (rejected_hardlink_result request hardlink_unsupported, w)
      else elim (validate_recycle_request p request) [
        | err e ↦ (rejected_hardlink_result request e, w)
        | ok validated ↦
            let (items, w') = consolidate_each fuel links validated validated.selected w in
            (record { items = items; request_error = none }, w')
      ]
