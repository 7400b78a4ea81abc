-- ===== src/Tests/Hardlink.antt =====
-- A disk on which the download becomes a hard link to the photo.
use twin_tidy.Base.{
  ℕ, ◌∙◌, ◌≡◌, refl, sym, subst, Bool, true, false, ◌&&◌, none, List, [], ◌∷◌, ◌++◌, Text, bytes,
  ◌==◌, ==_iff, Bool-cases, inl, inr, text_eq, if◌then◌else◌, List_ℕ-discrete, has_prefix, arith,
}
use twin_tidy.Scanner.Types.{identity_eq, FileIdentity-discrete, ok, err, not_exist}
use twin_tidy.Scanner.Io.{Os, eof, return, ◌>>=◌, ◌>>◌, reject_if, on_error, wrapped, check_ctx}
use twin_tidy.Scanner.Snapshot.{
  scope_is_valid, record_matches_snapshot, snapshots_equal, same_canonical_path, path_within_scope,
  snapshot_open_file, open_file_snapshot, validate_authorized_scope, validate_open_path_scope,
  open_scoped_with, open_file_snapshot_in_scope, open_scoped_snapshot_with,
  open_scoped_verification_snapshot, verify_stable_snapshot_in_scope,
}
use twin_tidy.Scanner.Recycle.Verify.{copy_with_context, gone_is_changed, open_verified_record}
use twin_tidy.Scanner.Hardlink.{
  platform_consolidate_target, next_keeper_record, open_verified_keeper_record, consolidate_beside,
  consolidate_one,
}
use twin_tidy.Scanner.Hardlink.Buffer.{
  little_endian, zeros, wide_bytes, but_last, rename_buffer, number, wide_units, read_name,
  read_name-rename_buffer,
}
use twin_tidy.Scanner.Hardlink.Windows.{
  Links, consolidated, hardlink_item, rename_by_handle, dispose_by_handle, backup_path,
  consolidation_backup_path, verify_path_has_identity, dispose_linked, link_vacated,
  consolidation_paths, rename_aside, consolidate_open, verify_record_content_hash,
  open_verified_consolidation_target, consolidate_target_windows,
}
use twin_tidy.Scanner.Hardlink.Places.{IsPlaced}
use twin_tidy.Scanner.Hardlink.Reachable.{IsReachable, consolidate_open-IsReachable}
use twin_tidy.Scanner.Hardlink.Outcome.{IsConsolidated, consolidate_one-IsConsolidated}
use twin_tidy.Tests.Sample.{windows, identity, photo, download}
use twin_tidy.Tests.Recycle.{is_root, record_at, sample_hash, validated}

-- Where the download's bytes stand, and whether its path is a link to the photo.
record World : Type 0 where
  place : Text
  is_linked : Bool

abbrev start : World
start = record { place = download.path; is_linked = false }

abbrev volume : Os World Text
volume = record {
  ctx_err = λ w. (none, w);
  open_file = λ path w. (ok path, w);
  open_verification_file = λ share path w. (ok path, w);
  close = λ file w. (ok tt, w);
  stat = λ file w. (
    ok (record {
      is_dir = is_root file;
      is_regular = if is_root file then false else true;
      size = 10;
      mod_time = (record_at file).modified_at;
    }),
    w,
  );
  final_path = λ file w. (ok file, w);
  path_identity = λ file path w. (ok (identity 1), w);
  platform_snapshot = λ file path w. (
    ok (
      if w.is_linked && path == download.path then photo.identity else (record_at path).identity,
      1,
      0,
    ),
    w,
  );
  no_reparse_components = λ path w. (ok tt, w);
  read = λ file n w. ((bytes "x", eof), w);
  sha256_hex = λ s. sample_hash;
}

abbrev backup : Text
backup = bytes ".twintidy-consolidate-5.bak"

abbrev links : Links World Text
links = record {
  open_consolidation_file = λ path w. (ok path, w);
  random_hex = λ w. (ok (bytes "5"), w);
  join = λ dir name. name;
  utf16 = λ path.
      if path == backup
      then ok (backup ++ 0 ∷ [])
      else if path == download.path
      then ok (download.path ++ 0 ∷ [])
      else err not_exist;
  set_rename_info = λ file buffer w. (ok tt, record w { place = read_name buffer });
  is_read_only = λ file w. (ok true, w);
  clear_read_only = λ file w. (ok tt, w);
  set_disposition = λ file w. (ok tt, w);
  link = λ old new w. (ok tt, record w { is_linked = true });
}

reads_backup : read_name (rename_buffer (but_last (backup ++ 0 ∷ []))) ≡ backup
unfolding read_name rename_buffer but_last zeros little_endian wide_bytes wide_units number
reads_backup = refl

reads_download : read_name (rename_buffer (but_last (download.path ++ 0 ∷ []))) ≡ download.path
unfolding read_name rename_buffer but_last zeros little_endian wide_bytes wide_units number
reads_download = refl

places-moved :
    (path : Text) (units : List ℕ)
    → links.utf16 path ≡ ok units
    → read_name (rename_buffer (but_last units)) ≡ path
places-moved path units q = elim (Bool-cases (path == backup)) [
  | inl same ↦
      let written : backup ++ 0 ∷ [] ≡ units = ground arith in
      subst (λ u. read_name (rename_buffer (but_last u)) ≡ path) written
        (reads_backup ∙ sym ((==_iff path backup).0 same))
  | inr other ↦ elim (Bool-cases (path == download.path)) [
    | inl same ↦
        let written : download.path ++ 0 ∷ [] ≡ units = ground arith in
        subst (λ u. read_name (rename_buffer (but_last u)) ≡ path) written
          (reads_download ∙ sym ((==_iff path download.path).0 same))
    | inr strange ↦ absurd (ground arith)
  ]
]

volume-IsPlaced : IsPlaced windows volume links download.path (λ w path. w.place ≡ path)
volume-IsPlaced = record {
  context = λ w path h. h;
  opened = λ n w path h. h;
  closed = λ n w path h. h;
  stated = λ n w path h. h;
  resolved = λ n w path h. h;
  snapped = λ o n w path h. h;
  drawn = λ w path h. h;
  linked = λ o n w path h. h;
  inspected = λ w path h. h;
  cleared = λ w path h. h;
  moved = λ path units w q r. places-moved path units q;
  unmoved = λ b w e path q h. absurd (ground arith);
  undisposed = λ w e path q h. absurd (ground arith);
}

consolidates :
    (consolidate_one true windows volume 1 links validated download start).0.status ≡ consolidated
unfolding consolidate_one open_verified_keeper_record next_keeper_record consolidate_beside
    platform_consolidate_target consolidate_target_windows open_verified_consolidation_target
    verify_record_content_hash consolidate_open rename_aside consolidation_paths
    consolidation_backup_path backup_path link_vacated dispose_linked verify_path_has_identity
    dispose_by_handle rename_by_handle hardlink_item open_file_snapshot open_verified_record
    gone_is_changed open_scoped_verification_snapshot open_scoped_snapshot_with open_scoped_with
    validate_authorized_scope validate_open_path_scope snapshot_open_file scope_is_valid
    same_canonical_path path_within_scope record_matches_snapshot snapshots_equal
    open_file_snapshot_in_scope verify_stable_snapshot_in_scope copy_with_context ◌>>=◌ ◌>>◌ return
    reject_if on_error wrapped check_ctx has_prefix List_ℕ-discrete FileIdentity-discrete
consolidates = refl

consolidate_one-IsConsolidated_example :
    IsConsolidated true windows volume 1 links validated download
      (consolidate_one true windows volume 1 links validated download start).1
consolidate_one-IsConsolidated_example =
    consolidate_one-IsConsolidated true windows volume 1 links validated download start consolidates

consolidate_open-IsReachable_example :
    IsReachable windows volume links download.path
      (λ w path. w.place ≡ path)
      download.path
      photo.path
      photo
      download
      start
      (consolidate_open windows volume links photo.path download.path photo download start)
consolidate_open-IsReachable_example =
    consolidate_open-IsReachable windows volume links download.path (λ w path. w.place ≡ path)
      volume-IsPlaced download.path photo.path photo download start refl

read_name-rename_buffer_example : read_name (rename_buffer (65 ∷ 8364 ∷ [])) ≡ 65 ∷ 8364 ∷ []
read_name-rename_buffer_example =
    read_name-rename_buffer (65 ∷ 8364 ∷ []) (omega arith, (omega arith, tt)) (omega arith)
