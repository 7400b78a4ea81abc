-- ===== src/Scanner/Recycle/Verify.antt =====
-- internal/scanner/delete.go: opening a record whose bytes still have the group's hash, with
-- `copyWithContext` of internal/scanner/engine.go.
pub mod Content
use twin_tidy.Base.{
  ℕ, zero, suc, ◌≡◌, Bool, true, false, ◌&&◌, ◌||◌, not, Option, none, some, List, [], ◌∷◌, ◌++◌,
  map, Text, bytes, ◌==◌, text_eq, nat_eq, if◌then◌else◌,
}
use twin_tidy.Scanner.Types.{
  FileIdentity, identity_eq, FileRecord, RecycleRequest, RecycleStatus, recycled, skipped_changed,
  skipped_protected, cancelled, failed, RecycleItemResult, RecycleResult, Err, Result, ok, err,
  canceled, deadline_exceeded, hard_linked_file, named_stream_file, reparse_point, file_changed,
  not_exist, recycle_aborted, recycle_unsupported, source_still_exists, no_progress, out_of_fuel,
  other,
}
use twin_tidy.Scanner.Platform.{Platform}
use twin_tidy.Scanner.Io.{
  close_quietly, Io, Os, ◌>>=◌, ◌>>◌, return, throw, reject_if, on_error, check_ctx, ReadEnd, more,
  eof, broken,
}
use twin_tidy.Scanner.Snapshot.{
  FileSnapshot, record_matches_snapshot, open_file_snapshot, open_scoped_verification_snapshot,
  verify_stable_snapshot_in_scope,
}

unfoldable pub verification_status : Err → RecycleStatus
verification_status canceled = cancelled
verification_status deadline_exceeded = cancelled
verification_status hard_linked_file = skipped_protected
verification_status named_stream_file = skipped_protected
verification_status reparse_point = skipped_protected
verification_status file_changed = skipped_changed
verification_status not_exist = skipped_changed
verification_status _ = failed

-- What `openVerifiedKeeper` returns.
pub data KeeperResult (Handle : Type 0) : Type 0 where
  verified : Handle → KeeperResult Handle
  unverified : RecycleStatus → Err → KeeperResult Handle

-- What the loop over the candidates has seen.
pub record KeeperLoop : Type 0 where
  pub last_error : Option Err
  pub saw_changed : Bool
  pub saw_protected : Bool

unfoldable pub no_keeper : {Handle : Type 0} → KeeperLoop → KeeperResult Handle
no_keeper s =
    let last : Err = elim s.last_error [
      | none ↦ other (bytes "keeper set is empty")
      | some e ↦ e
    ] in
    if s.saw_changed
    then unverified skipped_changed last
    else if s.saw_protected
    then unverified skipped_protected last
    else unverified failed last

module _ (is_windows : Bool) (p : Platform) {W Handle : Type 0} (os : Os W Handle) where
  -- `copyWithContext` into a hash, whose `Write` takes every byte: the bytes that it was given.
  -- The buffer has 64 KiB. A read that gives bytes may end the file or fail at once.
  unfoldable pub copy_with_context : ℕ → Handle → Text → Io W Text
  copy_with_context zero file written = throw out_of_fuel
  copy_with_context (suc fuel) file written = check_ctx os >> (λ w.
      let ((chunk, end), w') = os.read file 65536 w in
      elim end [
        | eof ↦ (ok (written ++ chunk), w')
        | broken e ↦ (err e, w')
        | more ↦ elim chunk [
          | [] ↦ (err no_progress, w')
          | ◌∷◌ c rest ↦ copy_with_context fuel file (written ++ c ∷ rest) w'
        ]
      ])

  -- `errors.Is(err, os.ErrNotExist)` turns into a changed file.
  unfoldable pub gone_is_changed : {A : Type 0} → Io W A → Io W A
  gone_is_changed call w =
      let (r, w') = call w in
      elim r [ err not_exist ↦ (err file_changed, w') | err e ↦ (err e, w') | ok a ↦ (ok a, w') ]

  unfoldable pub open_verified_record : ℕ → FileRecord → Text → Bool → Io W Handle
  open_verified_record fuel r expected_hash share_delete = do
    check_ctx os
    (file, snapshot) ←
        gone_is_changed (open_scoped_verification_snapshot is_windows p os r share_delete)
    on_error (close_quietly os file) (reject_if (not (snapshot.link_count == 1)) hard_linked_file)
    on_error (close_quietly os file)
        (reject_if (not (snapshot.named_streams == 0)) named_stream_file)
    on_error (close_quietly os file)
        (reject_if (not (record_matches_snapshot r snapshot)) file_changed)
    content ← on_error (close_quietly os file) (copy_with_context fuel file [])
    on_error (close_quietly os file)
        (verify_stable_snapshot_in_scope is_windows p os file r.path snapshot r.scope)
    on_error (close_quietly os file)
        (reject_if (not (p.equal_fold (os.sha256_hex content) expected_hash)) file_changed)
    return file

  -- The loop of `openVerifiedKeeper`.
  unfoldable pub next_keeper : ℕ → List FileRecord → Text → KeeperLoop → W → KeeperResult Handle × W
  next_keeper fuel [] hash s w = (no_keeper s, w)
  next_keeper fuel (candidate ∷ rest) hash s w =
      let (r, w') = open_verified_record fuel candidate hash false w in
      elim r [
        | ok file ↦ (verified file, w')
        | err e ↦ elim (verification_status e) [
          | cancelled ↦ (unverified cancelled e, w')
          | skipped_changed ↦
              next_keeper fuel rest hash (record s { last_error = some e; saw_changed = true }) w'
          | skipped_protected ↦
              next_keeper fuel rest hash (record s { last_error = some e; saw_protected = true }) w'
          | _ ↦ next_keeper fuel rest hash (record s { last_error = some e }) w'
        ]
      ]

  unfoldable pub open_verified_keeper : ℕ → List FileRecord → Text → W → KeeperResult Handle × W
  unfolding next_keeper
  open_verified_keeper fuel candidates hash =
      next_keeper fuel candidates hash
        (record { last_error = none; saw_changed = false; saw_protected = false })
