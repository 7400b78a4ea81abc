-- ===== src/Tests/Roots.antt =====
-- The root of the disk, and a file below it.
use twin_tidy.Base.{refl, has_prefix, true, false, List_ℕ-discrete}
use twin_tidy.Scanner.Types.{FileIdentity-discrete}
use twin_tidy.Scanner.Io.{Gives, FileInfo, return, ◌>>=◌, ◌>>◌, reject_if, on_error}
use twin_tidy.Scanner.Snapshot.{
  FileSnapshot, scope_is_valid, same_canonical_path, path_within_scope, snapshot_open_file,
  validate_open_path_scope,
}
use twin_tidy.Scanner.Snapshot.Scope.{IsBoundSnapshot}
use twin_tidy.Scanner.Snapshot.Roots.{
  resolve_scan_root, authorize_scan_root, open_surface_file_snapshot, IsAuthorized,
  open_surface_file_snapshot-IsBound, authorize_scan_root-IsAuthorized,
}
use twin_tidy.Tests.Sample.{windows, identity, docs, copy}
use twin_tidy.Tests.Recycle.{disk}

abbrev root_info : FileInfo
root_info = record { is_dir = true; is_regular = false; size = 10; mod_time = 70 }

authorizes :
    Gives (authorize_scan_root true windows disk docs.root_final_path) false (docs, root_info) false
unfolding authorize_scan_root resolve_scan_root same_canonical_path ◌>>=◌ ◌>>◌ return reject_if
    List_ℕ-discrete FileIdentity-discrete
authorizes = record { run = refl }

authorize_scan_root-IsAuthorized_example :
    IsAuthorized true windows disk docs.root_final_path false docs root_info
authorize_scan_root-IsAuthorized_example =
    authorize_scan_root-IsAuthorized true windows disk docs.root_final_path authorizes

abbrev copy_snapshot : FileSnapshot
copy_snapshot = record {
  size = 10;
  modified_at = 90;
  identity = identity 12;
  link_count = 1;
  named_streams = 0;
}

lists :
    Gives
      (open_surface_file_snapshot true windows disk copy.path docs)
      false
      (copy.path, copy_snapshot, copy.path)
      false
unfolding open_surface_file_snapshot scope_is_valid validate_open_path_scope snapshot_open_file
    same_canonical_path path_within_scope has_prefix ◌>>=◌ ◌>>◌ return reject_if on_error
    List_ℕ-discrete FileIdentity-discrete
lists = record { run = refl }

open_surface_file_snapshot-IsBound_example :
    IsBoundSnapshot true windows disk copy.path docs copy.path copy_snapshot
open_surface_file_snapshot-IsBound_example =
    open_surface_file_snapshot-IsBound true windows disk copy.path docs lists
