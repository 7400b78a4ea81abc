-- ===== src/Tests/Recycle.antt =====
-- A disk with three copies of one text, on which the recycle request runs.
use twin_tidy.Base.{
  ◌≡◌, ◌⊎◌, refl, Bool, true, false, ◌&&◌, none, some, [], ◌∷◌, ◌++◌, map, Text, bytes, ◌==◌,
  text_eq, if◌then◌else◌, List_ℕ-discrete, has_prefix, contains, filter_by, map_get, map_set, ◌≢◌,
  arith,
}
use twin_tidy.Scanner.Types.{
  identity_eq, FileRecord, FileIdentity-discrete, AuthorizedScope-discrete, no_identity,
  RecycleRequest, recycled, ok, err, not_exist, Err, failed,
}
use twin_tidy.Scanner.Io.{
  Os, Gives, eof, return, ◌>>=◌, ◌>>◌, reject_if, on_error, wrapped, check_ctx,
}
use twin_tidy.Scanner.Snapshot.{
  scope_is_valid, record_matches_snapshot, snapshots_equal, same_canonical_path, path_within_scope,
  snapshot_open_file, open_file_snapshot, validate_authorized_scope, validate_open_path_scope,
  open_scoped_with, open_file_snapshot_in_scope, open_scoped_snapshot_with,
  open_scoped_verification_snapshot, verify_stable_snapshot_in_scope, open_verified_record_for_read,
  open_verification_snapshot_in_scope,
}
use twin_tidy.Scanner.Recycle.{
  ValidatedRecycleRequest, validate_recycle_request, reject, is_sha256_hex, canonical_record_path,
  same_scanned_record, check_member, check_members, exact_member, check_candidate, check_selected,
  no_members, no_selection, keepers_of,
}
use twin_tidy.Scanner.Recycle.Verify.{
  copy_with_context, gone_is_changed, open_verified_record, next_keeper, open_verified_keeper,
}
use twin_tidy.Scanner.Recycle.Verify.Content.{
  Copies, ends, copy_with_context-Copies, IsVerified, open_verified_record-IsVerified,
}
use twin_tidy.Scanner.Recycle.Items.{
  RecycleAdapter, unsupported_recycle_adapter, recycle_item, verify_source_path_absent,
  confirm_recycled, recycle_target, recycle_one, recycle_exact_duplicates,
}
use twin_tidy.Scanner.Recycle.Items.Outcome.{IsRecycled, recycle_one-IsRecycled}
use twin_tidy.Scanner.Recycle.Items.Report.{
  IsRefused, Reports, recycle_exact_duplicates-Reports, unsupported-recycled,
}
use twin_tidy.Scanner.Snapshot.Scope.{IsBound, open_verified_record_for_read-IsBound}
use twin_tidy.Scanner.Recycle.Keepers.{IsSafe, validate_recycle_request-IsSafe}
use twin_tidy.Tests.Sample.{windows, identity, docs, photo, copy, download}

abbrev pub is_root : Text → Bool
is_root path = path == docs.root_final_path

abbrev pub record_at : Text → FileRecord
record_at path = if path == photo.path then photo else if path == copy.path then copy else download

abbrev pub sample_hash : Text
sample_hash = bytes "aaaaaaaaaaaaaaaaaaaaaaaaaaaaaaaaaaaaaaaaaaaaaaaaaaaaaaaaaaaaaaaa"

-- The world is whether the download is gone; a handle is the path that it was opened at.
abbrev pub disk : Os Bool Text
disk = record {
  ctx_err = λ w. (none, w);
  open_file = λ path w. if w && path == download.path then (err not_exist, w) else (ok path, w);
  open_verification_file = λ share path w. (ok path, w);
  close = λ file w. (ok tt, w);
  stat = λ file w. (
    ok (record {
      is_dir = is_root file;
      is_regular = if is_root file then false else true;
      size = 10;
      mod_time = (record_at file).modified_at;
    }),
    w,
  );
  final_path = λ file w. (ok file, w);
  path_identity = λ file path w. (ok (identity 1), w);
  platform_snapshot = λ file path w. (ok ((record_at path).identity, 1, 0), w);
  no_reparse_components = λ path w. (ok tt, w);
  read = λ file n w. ((bytes "x", eof), w);
  sha256_hex = λ s. sample_hash;
}

abbrev bin : RecycleAdapter Bool Text
bin = record {
  recycle = λ path file expected w.
      (ok (record { identity = expected; destination = bytes "bin"; confirmed = true }), true);
}

abbrev pub request : RecycleRequest
request = record {
  group = record { size = 10; hash = sample_hash; files = photo ∷ copy ∷ download ∷ [] };
  selected = download ∷ [];
}

abbrev pub validated : ValidatedRecycleRequest
validated = record {
  group_hash = sample_hash;
  selected = download ∷ [];
  keepers = photo ∷ copy ∷ [];
}

passes : validate_recycle_request windows request ≡ ok validated
unfolding validate_recycle_request reject is_sha256_hex canonical_record_path same_scanned_record
    check_member check_members exact_member check_candidate check_selected no_members no_selection
    keepers_of contains filter_by map_get map_set List_ℕ-discrete FileIdentity-discrete
    AuthorizedScope-discrete
passes = refl

validate_recycle_request-IsSafe_example : IsSafe windows request validated
validate_recycle_request-IsSafe_example =
    validate_recycle_request-IsSafe windows request validated passes

opens :
    Gives
      (open_verified_record true windows disk 1 download sample_hash true)
      false
      download.path
      false
unfolding open_verified_record gone_is_changed open_scoped_verification_snapshot
    open_scoped_snapshot_with open_scoped_with validate_authorized_scope validate_open_path_scope
    snapshot_open_file scope_is_valid same_canonical_path path_within_scope record_matches_snapshot
    snapshots_equal open_file_snapshot_in_scope verify_stable_snapshot_in_scope copy_with_context
    ◌>>=◌ ◌>>◌ return reject_if on_error wrapped check_ctx has_prefix List_ℕ-discrete
    FileIdentity-discrete
opens = record { run = refl }

open_verified_record-IsVerified_example :
    IsVerified true windows disk download sample_hash download.path
open_verified_record-IsVerified_example =
    open_verified_record-IsVerified true windows disk 1 download sample_hash true opens

open_reads : Gives (open_verified_record_for_read true windows disk copy) false copy.path false
unfolding open_verified_record_for_read open_verification_snapshot_in_scope
    open_scoped_verification_snapshot open_scoped_snapshot_with open_scoped_with
    validate_authorized_scope validate_open_path_scope snapshot_open_file scope_is_valid
    same_canonical_path path_within_scope record_matches_snapshot snapshots_equal
    open_file_snapshot_in_scope verify_stable_snapshot_in_scope copy_with_context ◌>>=◌ ◌>>◌ return
    reject_if on_error wrapped check_ctx has_prefix List_ℕ-discrete FileIdentity-discrete
open_reads = record { run = refl }

open_verified_record_for_read-IsBound_example :
    IsBound true windows disk copy.path docs copy.path
    × (copy.link_count ≡ 1)
    × (copy.named_streams ≡ 0)
    × ((copy.identity == no_identity) ≡ false)
open_verified_record_for_read-IsBound_example =
    open_verified_record_for_read-IsBound true windows disk copy open_reads

one_read : Copies true windows disk download.path 1 false (bytes "x") false
unfolding check_ctx
one_read = ends (record { run = refl }) refl

copy_with_context-Copies_example :
    Gives
      (copy_with_context true windows disk 3 download.path (bytes "a"))
      false
      (bytes "a" ++ bytes "x")
      false
copy_with_context-Copies_example =
    copy_with_context-Copies true windows disk download.path 1 3 (bytes "a") (bytes "x") false false
      one_read (omega arith)

recycles : (recycle_one true windows disk 1 bin validated download false).0.status ≡ recycled
unfolding recycle_one recycle_item open_verified_keeper next_keeper recycle_target confirm_recycled
    verify_source_path_absent open_file_snapshot open_verified_record gone_is_changed
    open_scoped_verification_snapshot open_scoped_snapshot_with open_scoped_with
    validate_authorized_scope validate_open_path_scope snapshot_open_file scope_is_valid
    same_canonical_path path_within_scope record_matches_snapshot snapshots_equal
    open_file_snapshot_in_scope verify_stable_snapshot_in_scope copy_with_context ◌>>=◌ ◌>>◌ return
    reject_if on_error wrapped check_ctx has_prefix List_ℕ-discrete FileIdentity-discrete
recycles = refl

recycle_one-IsRecycled_example :
    IsRecycled true windows disk 1 validated bin download
      (recycle_one true windows disk 1 bin validated download false).1
recycle_one-IsRecycled_example =
    recycle_one-IsRecycled true windows disk 1 bin validated download false recycles

recycle_exact_duplicates-Reports_example :
    let (result, w') = recycle_exact_duplicates true windows disk 1 (some bin) request false in
    ((e : Err) × IsRefused true windows disk (some bin) request e
      × (w' ≡ false)
      × (result.items ≡ map (λ s. recycle_item s.path failed (some e)) (download ∷ []))
      × (result.request_error ≡ some e))
    ⊎ ((a : RecycleAdapter Bool Text) × (v : ValidatedRecycleRequest) × (some bin ≡ some a)
        × (validate_recycle_request windows request ≡ ok v)
        × Reports true windows disk 1 v a v.selected result.items
        × (result.request_error ≡ none))
recycle_exact_duplicates-Reports_example =
    recycle_exact_duplicates-Reports true windows disk 1 (some bin) request false

unsupported-recycled_example :
    (recycle_one true windows disk 1
      (unsupported_recycle_adapter disk)
      validated
      download
      false).0.status
    ≢ recycled
unsupported-recycled_example = unsupported-recycled true windows disk 1 validated download false
