-- ===== src/Tests/Hashing.antt =====
-- The hash of the ends of a file of the sample disk.
use twin_tidy.Base.{
  ◌≡◌, refl, Bool, true, false, Text, bytes, text_eq, nat_eq, length, take, drop, List_ℕ-discrete,
  has_prefix,
}
use twin_tidy.Scanner.Types.{identity_eq, FileIdentity-discrete}
use twin_tidy.Scanner.Io.{Gives, more, return, ◌>>=◌, ◌>>◌, reject_if, on_error, wrapped, check_ctx}
use twin_tidy.Scanner.Snapshot.{
  scope_is_valid, record_matches_snapshot, snapshots_equal, same_canonical_path, path_within_scope,
  snapshot_open_file, validate_authorized_scope, validate_open_path_scope, open_scoped_with,
  open_file_snapshot_in_scope, open_scoped_snapshot_with, verify_stable_snapshot_in_scope,
}
use twin_tidy.Scanner.Groups.{BoundaryKey}
use twin_tidy.Scanner.Hashing.{
  Hashes, size_bytes, boundary_length, read_exactly, check_hashable, hash_ends, boundary_hash,
}
use twin_tidy.Scanner.Hashing.Content.{IsReadAs, content_key, boundary_hash-content_key}
use twin_tidy.Tests.Sample.{windows, photo}
use twin_tidy.Tests.Recycle.{disk}

abbrev letters : Text
letters = bytes "abcdefghij"

-- Every file holds the letters, and the sum of a text is its length.
abbrev letter_hashes : Hashes Bool Text
letter_hashes = record {
  read_at = λ file n offset w. ((take n (drop offset letters), more), w);
  sum64 = λ text. length text;
}

photo_key : BoundaryKey
photo_key = record { size = 10; hash = 28 }

photo_hash : Gives (boundary_hash true windows disk letter_hashes photo) false photo_key false
unfolding boundary_hash hash_ends check_hashable read_exactly boundary_length photo_key
    open_scoped_snapshot_with open_scoped_with validate_authorized_scope validate_open_path_scope
    snapshot_open_file scope_is_valid same_canonical_path path_within_scope record_matches_snapshot
    snapshots_equal open_file_snapshot_in_scope verify_stable_snapshot_in_scope ◌>>=◌ ◌>>◌ return
    reject_if on_error wrapped check_ctx has_prefix List_ℕ-discrete FileIdentity-discrete size_bytes
photo_hash = record { run = refl }

photo-read : IsReadAs true windows disk letter_hashes photo letters
unfolding IsReadAs
photo-read = λ file snapshot final w w' opened n offset v. refl

boundary_hash-content_key_example : photo_key ≡ content_key true windows disk letter_hashes letters
boundary_hash-content_key_example =
    boundary_hash-content_key true windows disk letter_hashes photo letters false photo_key false
      refl photo-read photo_hash
