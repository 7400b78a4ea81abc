-- ===== src/Scanner/Hardlink/Windows.antt =====
-- internal/scanner/hardlink_windows.go: one candidate is renamed aside, linked and disposed of, each
-- through its own handle.
use twin_tidy.Base.{
  ℕ, Bool, true, false, not, Option, none, some, List, [], ◌++◌, Text, bytes, ◌==◌, nat_eq, text_eq,
}
use twin_tidy.Scanner.Types.{
  FileIdentity, identity_eq, FileRecord, RecycleStatus, Err, Result, ok, err, other, file_changed,
  hard_linked_file, named_stream_file,
}
use twin_tidy.Scanner.Types
use twin_tidy.Scanner.Platform.{Platform}
use twin_tidy.Scanner.Io.{
  close_quietly, Io, Os, ◌>>=◌, ◌>>◌, return, reject_if, on_error, check_ctx,
}
use twin_tidy.Scanner.Snapshot.{
  FileSnapshot, record_matches_snapshot, snapshots_equal, snapshot_open_file, open_file_snapshot,
  validate_open_path_scope, open_scoped_snapshot_with, closing,
}
use twin_tidy.Scanner.Recycle.Verify.{verification_status, copy_with_context, gone_is_changed}
use twin_tidy.Scanner.Hardlink.Buffer.{but_last, rename_buffer}

pub data HardlinkStatus : Type 0 where
  consolidated skipped_changed skipped_protected skipped_cross_volume cancelled failed :
      HardlinkStatus

-- No backup path is the empty text.
pub record HardlinkItemResult : Type 0 where
  pub path : Text
  pub status : HardlinkStatus
  pub reason : Option Err
  pub backup_path : Text

unfoldable pub hardlink_item : Text → HardlinkStatus → Option Err → HardlinkItemResult
hardlink_item path status reason = record {
  path = path;
  status = status;
  reason = reason;
  backup_path = [];
}

-- A failure after the candidate was renamed aside.
unfoldable pub kept_at : Text → Err → Text → HardlinkItemResult
kept_at path e backup = record {
  path = path;
  status = failed;
  reason = some e;
  backup_path = backup;
}

unfoldable pub hardlink_verification_status : Err → HardlinkStatus
hardlink_verification_status e = elim (verification_status e) [
  | Types.cancelled ↦ cancelled
  | Types.skipped_changed ↦ skipped_changed
  | Types.skipped_protected ↦ skipped_protected
  | _ ↦ failed
]

-- The system calls that only the consolidation makes, `rand.Read` with `hex.EncodeToString`, and
-- `filepath.Join`. `attributes` tells whether the file is read-only.
pub record Links (W Handle : Type 0) : Type 0 where
  pub open_consolidation_file : Text → Io W Handle
  pub random_hex : Io W Text
  pub join : Text → Text → Text
  pub utf16 : Text → Result (List ℕ)
  pub set_rename_info : Handle → List ℕ → Io W (Unit {0})
  pub is_read_only : Handle → Io W Bool
  pub clear_read_only : Handle → Io W (Unit {0})
  pub set_disposition : Handle → Io W (Unit {0})
  pub link : Text → Text → Io W (Unit {0})

module _ (p : Platform) {W Handle : Type 0} (os : Os W Handle) (links : Links W Handle) where
  unfoldable pub rename_by_handle : Handle → Text → Io W (Unit {0})
  rename_by_handle file path w = elim (links.utf16 path) [
    | err e ↦ (err e, w)
    | ok units ↦ links.set_rename_info file (rename_buffer (but_last units)) w
  ]

  -- A read-only attribute is cleared first.
  unfoldable pub dispose_by_handle : Handle → Io W (Unit {0})
  dispose_by_handle file w =
      let (r, w1) = links.is_read_only file w in
      elim r [
        | err e ↦ (err e, w1)
        | ok false ↦ links.set_disposition file w1
        | ok true ↦
            let (c, w2) = links.clear_read_only file w1 in
            elim c [ err e ↦ (err e, w2) | ok _ ↦ links.set_disposition file w2 ]
      ]

  unfoldable pub backup_path : Text → Text → Text
  backup_path final suffix =
      links.join (p.dir final) (bytes ".twintidy-consolidate-" ++ suffix ++ bytes ".bak")

  unfoldable pub consolidation_backup_path : Text → Io W Text
  unfolding backup_path
  consolidation_backup_path final = do suffix ← links.random_hex; return (backup_path final suffix)

  unfoldable pub verify_path_has_identity : Text → FileIdentity → Io W (Unit {0})
  verify_path_has_identity path expected = do
    (file, snapshot) ← open_file_snapshot true p os path
    closing true p os file (
        reject_if (not (snapshot.identity == expected))
          (other (bytes "path does not resolve to the keeper identity")))

  unfoldable pub restore_or_report :
      Handle → Text → Text → HardlinkStatus → Err → W → HardlinkItemResult × W
  restore_or_report file original backup status cause w =
      let (r, w') = rename_by_handle file original w in
      elim r [
        | err e ↦ (kept_at original (other (bytes "restore also failed")) backup, w')
        | ok _ ↦ (hardlink_item original status (some cause), w')
      ]

  -- Steps 4 and 5, once the keeper is linked into the vacated path.
  unfoldable pub dispose_linked :
      Handle → FileRecord → FileRecord → Text → Text → W → HardlinkItemResult × W
  dispose_linked file keeper target final backup w =
      let (v, w1) = verify_path_has_identity final keeper.identity w in
      elim v [
        | err e ↦ (kept_at target.path e backup, w1)
        | ok _ ↦
            let (d, w2) = dispose_by_handle file w1 in
            elim d [
              | err e ↦ (kept_at target.path e backup, w2)
              | ok _ ↦ (hardlink_item target.path consolidated none, w2)
            ]
      ]

  -- From step 3 on, once the candidate is renamed aside.
  unfoldable pub link_vacated :
      Handle → FileRecord → FileRecord → Text → Text → Text → W → HardlinkItemResult × W
  link_vacated file keeper target keeper_final final backup w =
      let (c, w1) = check_ctx os w in
      elim c [
        | err e ↦ restore_or_report file target.path backup cancelled e w1
        | ok _ ↦
            let (l, w2) = links.link keeper_final final w1 in
            elim l [
              | err e ↦ restore_or_report file target.path backup failed e w2
              | ok _ ↦ dispose_linked file keeper target final backup w2
            ]
      ]

  -- The paths of the keeper and the candidate, and the name to rename the candidate to.
  unfoldable pub consolidation_paths : Handle → Handle → Io W (Text × Text × Text)
  unfolding consolidation_backup_path
  consolidation_paths keeper_file file = do
    keeper_final ← os.final_path keeper_file
    final ← os.final_path file
    backup ← consolidation_backup_path final
    return (keeper_final, final, backup)

  -- The candidate is renamed aside.
  unfoldable pub rename_aside :
      Handle → FileRecord → FileRecord → Text → Text → Text → W → HardlinkItemResult × W
  rename_aside file keeper target keeper_final final backup w =
      let (c, w1) = check_ctx os w in
      elim c [
        | err e ↦ (hardlink_item target.path cancelled (some e), w1)
        | ok _ ↦
            let (m, w2) = rename_by_handle file backup w1 in
            elim m [
              | err e ↦ (hardlink_item target.path failed (some e), w2)
              | ok _ ↦ link_vacated file keeper target keeper_final final backup w2
            ]
      ]

  -- What `platformConsolidateTarget` does while the candidate is open.
  unfoldable pub consolidate_open :
      Handle → Handle → FileRecord → FileRecord → W → HardlinkItemResult × W
  consolidate_open keeper_file file keeper target w =
      let (r, w1) = consolidation_paths keeper_file file w in
      elim r [
        | err e ↦ (hardlink_item target.path failed (some e), w1)
        | ok paths ↦ rename_aside file keeper target paths.0 paths.1 paths.2 w1
      ]

  unfoldable pub verify_record_content_hash :
      ℕ → Handle → FileRecord → FileSnapshot → Text → Io W (Unit {0})
  verify_record_content_hash fuel file r snapshot expected_hash = do
    content ← copy_with_context true p os fuel file []
    _ ← validate_open_path_scope true p os file r.path r.scope
    current ← snapshot_open_file true p os file r.path
    reject_if (not (snapshots_equal snapshot current)) file_changed
    reject_if (not (p.equal_fold (os.sha256_hex content) expected_hash)) file_changed

  unfoldable pub open_verified_consolidation_target : ℕ → FileRecord → Text → Io W Handle
  open_verified_consolidation_target fuel r expected_hash = do
    check_ctx os
    (file, snapshot) ←
        gone_is_changed true p os
          (open_scoped_snapshot_with true p os r links.open_consolidation_file)
    on_error (close_quietly os file) (reject_if (not (snapshot.link_count == 1)) hard_linked_file)
    on_error (close_quietly os file)
        (reject_if (not (snapshot.named_streams == 0)) named_stream_file)
    on_error (close_quietly os file)
        (reject_if (not (record_matches_snapshot r snapshot)) file_changed)
    on_error (close_quietly os file) (verify_record_content_hash fuel file r snapshot expected_hash)
    return file

  unfoldable pub consolidate_target_windows :
      ℕ → Handle → FileRecord → FileRecord → Text → W → HardlinkItemResult × W
  consolidate_target_windows fuel keeper_file keeper target hash w =
      let (t, w1) = open_verified_consolidation_target fuel target hash w in
      elim t [
        | err e ↦ (hardlink_item target.path (hardlink_verification_status e) (some e), w1)
        | ok file ↦
            let (item, w2) = consolidate_open keeper_file file keeper target w1 in
            (item, close_quietly os file w2)
      ]
