-- ===== src/Scanner/Hashing.antt =====
-- internal/scanner/engine.go: the hashes of one file, of its ends and of all of it.
pub mod Content
use twin_tidy.Base.{
  ℕ, zero, suc, ◌-◌, ◌%◌, ◌/◌, ◌≡◌, Bool, true, false, not, List, [], ◌∷◌, ◌++◌, Text, ◌==◌, nat_eq,
  ltb, if◌then◌else◌, length,
}
use twin_tidy.Scanner.Types.{
  FileRecord, Err, ok, err, file_changed, hard_linked_file, named_stream_file, unexpected_eof,
}
use twin_tidy.Scanner.Platform.{Platform}
use twin_tidy.Scanner.Io.{
  Io, Os, ◌>>=◌, ◌>>◌, return, reject_if, check_ctx, ReadEnd, more, eof, broken,
}
use twin_tidy.Scanner.Snapshot.{
  FileSnapshot, record_matches_snapshot, open_file_snapshot_in_scope,
  verify_stable_snapshot_in_scope, closing,
}
use twin_tidy.Scanner.Recycle.Verify.{copy_with_context}
use twin_tidy.Scanner.Groups.{BoundaryKey}

-- `ReadAt` with a length and an offset, and the 64-bit sum of package xxhash.
pub record Hashes (W Handle : Type 0) : Type 0 where
  pub read_at : Handle → ℕ → ℕ → W → (Text × ReadEnd) × W
  pub sum64 : Text → ℕ

-- `binary.LittleEndian.PutUint64`
unfoldable pub size_bytes : ℕ → ℕ → Text
size_bytes zero n = []
size_bytes (suc width) n = n % 256 ∷ size_bytes width (n / 256)

-- `minInt64(boundaryReadSize, size)`
unfoldable pub boundary_length : ℕ → ℕ
boundary_length size = if ltb size 4096 then size else 4096

module _ (is_windows : Bool) (p : Platform) {W Handle : Type 0} (os : Os W Handle)
    (hashes : Hashes W Handle) where
  -- A read that gives fewer bytes than asked for is an error, and the end of the file is none.
  unfoldable pub read_exactly : Handle → ℕ → ℕ → Io W Text
  read_exactly file n offset w =
      let ((chunk, end), w') = hashes.read_at file n offset w in
      elim end [
        | broken e ↦ (err e, w')
        | more ↦ if length chunk == n then (ok chunk, w') else (err unexpected_eof, w')
        | eof ↦ if length chunk == n then (ok chunk, w') else (err unexpected_eof, w')
      ]

  -- The checks on a file that is about to be hashed.
  unfoldable pub check_hashable : FileRecord → FileSnapshot → Io W (Unit {0})
  check_hashable r snapshot = do
    reject_if (not (record_matches_snapshot r snapshot)) file_changed
    reject_if (ltb 1 snapshot.link_count) hard_linked_file
    reject_if (ltb 0 snapshot.named_streams) named_stream_file

  -- What `boundaryHash` does while the file is open.
  unfoldable pub hash_ends : FileRecord → Handle → FileSnapshot → Io W BoundaryKey
  hash_ends r file snapshot = do
    check_hashable r snapshot
    head ← read_exactly file (boundary_length snapshot.size) 0
    check_ctx os
    tail ←
        read_exactly file (boundary_length snapshot.size)
          (snapshot.size - boundary_length snapshot.size)
    verify_stable_snapshot_in_scope is_windows p os file r.path snapshot r.scope
    return (record {
      size = snapshot.size;
      hash = hashes.sum64 (size_bytes 8 snapshot.size ++ (head ++ tail));
    })

  unfoldable pub boundary_hash : FileRecord → Io W BoundaryKey
  boundary_hash r = do
    check_ctx os
    (file, snapshot, _) ← open_file_snapshot_in_scope is_windows p os r.path r.scope
    closing is_windows p os file (hash_ends r file snapshot)

  -- What `fullHash` does while the file is open.
  unfoldable pub hash_all : ℕ → FileRecord → Handle → FileSnapshot → Io W Text
  hash_all fuel r file snapshot = do
    check_hashable r snapshot
    content ← copy_with_context is_windows p os fuel file []
    verify_stable_snapshot_in_scope is_windows p os file r.path snapshot r.scope
    return (os.sha256_hex content)

  unfoldable pub full_hash : ℕ → FileRecord → Io W Text
  full_hash fuel r = do
    check_ctx os
    (file, snapshot, _) ← open_file_snapshot_in_scope is_windows p os r.path r.scope
    closing is_windows p os file (hash_all fuel r file snapshot)
