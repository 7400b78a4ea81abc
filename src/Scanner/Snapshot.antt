-- ===== src/Scanner/Snapshot.antt =====
-- internal/scanner/file_snapshot.go: handles that are bound to an authorized scan root.
pub mod Roots
pub mod Scope
use twin_tidy.Base.{
  ℕ, ◌≡◌, Bool, true, false, ◌&&◌, ◌||◌, not, Option, none, some, List, [], ◌∷◌, Text, bytes, ◌==◌,
  text_eq, nat_eq, ◌++◌, ltb, if◌then◌else◌, has_prefix,
}
use twin_tidy.Scanner.Types.{
  Time, FileIdentity, identity_eq, AuthorizedScope, FileRecord, no_identity, Err, Result, err, ok,
  file_changed, reparse_point, hard_linked_file, named_stream_file, missing_file_id, missing_scope,
  scope_escape, root_changed, other,
}
use twin_tidy.Scanner.Platform.{Platform}
use twin_tidy.Scanner.Io.{
  close_quietly, Io, ◌>>=◌, ◌>>◌, return, throw, reject_if, wrapped, on_error, Os, FileInfo,
}

pub record FileSnapshot : Type 0 where
  pub size : ℕ
  pub modified_at : Time
  pub identity : FileIdentity
  pub link_count : ℕ
  pub named_streams : ℕ

unfoldable pub scope_is_valid : AuthorizedScope → Bool
scope_is_valid s = not (s.root_final_path == []) && not (s.root_identity == no_identity)

unfoldable pub record_matches_snapshot : FileRecord → FileSnapshot → Bool
record_matches_snapshot r s =
    r.size == s.size
    && r.modified_at == s.modified_at
    && r.identity == s.identity
    && r.link_count == s.link_count
    && r.named_streams == s.named_streams

unfoldable pub snapshots_equal : FileSnapshot → FileSnapshot → Bool
snapshots_equal a b =
    a.size == b.size
    && a.modified_at == b.modified_at
    && a.identity == b.identity
    && a.link_count == b.link_count
    && a.named_streams == b.named_streams

-- The operating system family decides how paths are compared: `runtime.GOOS == "windows"`.
module _ (is_windows : Bool) (p : Platform) where
  unfoldable pub same_canonical_path : Text → Text → Bool
  same_canonical_path left right =
      if is_windows
      then p.equal_fold (p.clean left) (p.clean right)
      else p.clean left == p.clean right

  -- The tests on the relative path.
  is_inside : Text → Bool
  is_inside relative =
      if relative == bytes "."
      then true
      else not (relative == bytes "..")
        && not (has_prefix relative (bytes ".." ++ p.separator ∷ []))
        && not (p.is_abs relative)

  unfoldable pub path_within_scope : Text → AuthorizedScope → Bool
  unfolding is_inside same_canonical_path
  path_within_scope path scope =
      if scope.root_is_file
      then same_canonical_path path scope.root_final_path
      else elim (p.rel scope.root_final_path path) [
        | none ↦ false
        | some relative ↦ is_inside relative
      ]

  module _ {W Handle : Type 0} (os : Os W Handle) where
    unfoldable pub snapshot_open_file : Handle → Text → Io W FileSnapshot
    snapshot_open_file file path = do
      info ← os.stat file
      reject_if (not info.is_regular) (other [])
      (identity, link_count, named_streams) ← os.platform_snapshot file path
      reject_if (identity == no_identity) missing_file_id
      return (record {
        size = info.size;
        modified_at = info.mod_time;
        identity = identity;
        link_count = link_count;
        named_streams = named_streams;
      })

    unfoldable pub open_file_snapshot : Text → Io W (Handle × FileSnapshot)
    open_file_snapshot path = do
      file ← os.open_file path
      snapshot ← on_error (close_quietly os file) (snapshot_open_file file path)
      return (file, snapshot)

    -- The checks on the root's open handle, which `defer file.Close()` closes on every path.
    root_unchanged : AuthorizedScope → Handle → Io W (Unit {0})
    root_unchanged scope file = do
      info ← wrapped root_changed (os.stat file)
      reject_if
          (not (if scope.root_is_file then info.is_regular else not info.is_regular)
            || (not info.is_dir && not info.is_regular))
          root_changed
      final ← wrapped root_changed (os.final_path file)
      reject_if (not (same_canonical_path scope.root_final_path final)) root_changed
      identity ← wrapped root_changed (os.path_identity file final)
      reject_if (not (identity == scope.root_identity)) root_changed

    -- `defer file.Close()`
    abbrev pub closing : {A : Type 0} → Handle → Io W A → Io W A
    closing file call w = let (r, w') = call w in (r, close_quietly os file w')

    unfoldable pub validate_authorized_scope : AuthorizedScope → Io W (Unit {0})
    unfolding root_unchanged
    validate_authorized_scope scope = do
      reject_if (not (scope_is_valid scope)) missing_scope
      wrapped root_changed (os.no_reparse_components scope.root_final_path)
      file ← wrapped root_changed (os.open_file scope.root_final_path)
      closing file (root_unchanged scope file)

    unfoldable pub validate_open_path_scope : Handle → Text → AuthorizedScope → Io W Text
    validate_open_path_scope file requested scope = do
      reject_if (not (scope_is_valid scope)) missing_scope
      final ← os.final_path file
      reject_if (not (path_within_scope final scope)) scope_escape
      reject_if (not (same_canonical_path requested final)) reparse_point
      return (p.clean final)

    -- What `openFileSnapshotInScope` and `openScopedSnapshotWith` share: they differ in how the
    -- file is opened, and in whether the caller is given the final path.
    unfoldable pub open_scoped_with :
        (Text → Io W Handle) → Text → AuthorizedScope → Io W (Handle × FileSnapshot × Text)
    open_scoped_with opener path scope = do
      validate_authorized_scope scope
      os.no_reparse_components path
      file ← opener path
      final ← on_error (close_quietly os file) (validate_open_path_scope file path scope)
      snapshot ← on_error (close_quietly os file) (snapshot_open_file file final)
      on_error (close_quietly os file) (validate_authorized_scope scope)
      return (file, snapshot, final)

    unfoldable pub open_file_snapshot_in_scope :
        Text → AuthorizedScope → Io W (Handle × FileSnapshot × Text)
    unfolding open_scoped_with
    open_file_snapshot_in_scope = open_scoped_with os.open_file

    unfoldable pub open_scoped_snapshot_with :
        FileRecord → (Text → Io W Handle) → Io W (Handle × FileSnapshot)
    unfolding open_scoped_with
    open_scoped_snapshot_with r opener = do
      (file, snapshot, _) ← open_scoped_with opener r.path r.scope
      return (file, snapshot)

    unfoldable pub open_scoped_verification_snapshot :
        FileRecord → Bool → Io W (Handle × FileSnapshot)
    unfolding open_scoped_snapshot_with
    open_scoped_verification_snapshot r share_delete =
        open_scoped_snapshot_with r (os.open_verification_file share_delete)

    unfoldable pub open_verification_snapshot_in_scope :
        FileRecord → Bool → Io W (Handle × FileSnapshot)
    unfolding open_scoped_verification_snapshot
    open_verification_snapshot_in_scope r share_delete = do
      (file, snapshot) ← open_scoped_verification_snapshot r share_delete
      on_error (close_quietly os file)
          (reject_if (not (record_matches_snapshot r snapshot)) file_changed)
      return (file, snapshot)

    unfoldable pub open_verified_record_for_read : FileRecord → Io W Handle
    unfolding open_verification_snapshot_in_scope
    open_verified_record_for_read r = do
      (file, snapshot) ← open_verification_snapshot_in_scope r false
      on_error (close_quietly os file) (reject_if (not (snapshot.link_count == 1)) hard_linked_file)
      on_error (close_quietly os file)
          (reject_if (not (snapshot.named_streams == 0)) named_stream_file)
      return file

    -- The error of reopening the path, where a changed root keeps its own error.
    reopened : Text → AuthorizedScope → Io W (Handle × FileSnapshot × Text)
    reopened path scope w =
        let (r, w') = open_file_snapshot_in_scope path scope w in
        elim r [
          | err root_changed ↦ (err root_changed, w')
          | err missing_scope ↦ (err missing_scope, w')
          | err _ ↦ (err file_changed, w')
          | ok found ↦ (ok found, w')
        ]

    unfoldable pub verify_stable_snapshot_in_scope :
        Handle → Text → FileSnapshot → AuthorizedScope → Io W (Unit {0})
    unfolding reopened
    verify_stable_snapshot_in_scope file path expected scope = do
      current ← snapshot_open_file file path
      reject_if (not (snapshots_equal expected current)) file_changed
      _ ← validate_open_path_scope file path scope
      (path_file, path_snapshot, _) ← reopened path scope
      os.close path_file
      reject_if (not (snapshots_equal expected path_snapshot)) file_changed
      validate_authorized_scope scope

    unfoldable pub validate_record_scope : FileRecord → Io W (Unit {0})
    validate_record_scope r = do
      (file, snapshot, _) ← open_file_snapshot_in_scope r.path r.scope
      closing file (do
        reject_if (not (record_matches_snapshot r snapshot)) file_changed
        verify_stable_snapshot_in_scope file r.path snapshot r.scope)
