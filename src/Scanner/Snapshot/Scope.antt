-- ===== src/Scanner/Snapshot/Scope.antt =====
-- internal/scanner/file_snapshot.go: the evidence about a handle that the scoped open functions return.
use twin_tidy.Base.{==_iff, ◌≡◌, refl, subst, Bool, true, false, Text, ◌==◌, text_eq, nat_eq, arith}
use twin_tidy.Scanner.Types.{AuthorizedScope, FileRecord, no_identity, identity_eq}
use twin_tidy.Scanner.Platform.{Platform}
use twin_tidy.Scanner.Io.{
  FileInfo, Io, Os, Gives, Gives->>=, Gives->>, Gives-return, Gives-on_error, Gives-reject_if,
}
use twin_tidy.Scanner.Snapshot.{
  FileSnapshot, scope_is_valid, record_matches_snapshot, same_canonical_path, path_within_scope,
  snapshot_open_file, validate_open_path_scope, open_scoped_with, open_scoped_snapshot_with,
  open_scoped_verification_snapshot, open_verification_snapshot_in_scope,
  open_verified_record_for_read,
}

-- The snapshot has the record's size, time, identity, links and streams.
pub record IsMatch (r : FileRecord) (s : FileSnapshot) : Type 0 where
  pub size : r.size ≡ s.size
  pub time : r.modified_at ≡ s.modified_at
  pub identity : r.identity ≡ s.identity
  pub links : r.link_count ≡ s.link_count
  pub streams : r.named_streams ≡ s.named_streams

pub record_matches_snapshot-IsMatch :
    (r : FileRecord) (s : FileSnapshot) → record_matches_snapshot r s ≡ true → IsMatch r s
unfolding record_matches_snapshot
record_matches_snapshot-IsMatch r s h =
    let same : (r.identity == s.identity) ≡ true = ground arith in
    record {
      size = ground arith;
      time = ground arith;
      identity = (==_iff r.identity s.identity).0 same;
      links = ground arith;
      streams = ground arith;
    }

module _ (is_windows : Bool) (p : Platform) {W Handle : Type 0} (os : Os W Handle) where
  -- The handle resolves, at some moment, to a path inside the scope that is the requested one.
  pub record IsBound (path : Text) (scope : AuthorizedScope) (file : Handle) : Type 0 where
    pub scope_valid : scope_is_valid scope ≡ true
    pub final : Text
    pub before : W
    pub after : W
    pub resolves : Gives (os.final_path file) before final after
    pub within : path_within_scope is_windows p final scope ≡ true
    pub same : same_canonical_path is_windows p path final ≡ true

  pub validate_open_path_scope-IsBound :
      (file : Handle) (path : Text) (scope : AuthorizedScope) {w : W} {final : Text} {w' : W}
      → Gives (validate_open_path_scope is_windows p os file path scope) w final w'
      → IsBound path scope file
  unfolding validate_open_path_scope
  validate_open_path_scope-IsBound file path scope {w} h =
      let (w0, v, h1) = Gives->> _ _ h in
      let (raw, w1, r, h2) = Gives->>= _ _ h1 in
      let (w2, i, h3) = Gives->> _ _ h2 in
      let (w3, s, _) = Gives->> _ _ h3 in
      let v' = Gives-reject_if _ _ v in
      let i' = Gives-reject_if _ _ i in
      let s' = Gives-reject_if _ _ s in
      record {
        scope_valid = ground arith;
        final = raw;
        before = w0;
        after = w1;
        resolves = r;
        within = ground arith;
        same = ground arith;
      }

  pub snapshot_open_file-identity :
      (file : Handle) (path : Text) {w : W} {s : FileSnapshot} {w' : W}
      → Gives (snapshot_open_file is_windows p os file path) w s w'
      → (s.identity == no_identity) ≡ false
  unfolding snapshot_open_file
  snapshot_open_file-identity file path h =
      let (_, _, _, h1) = Gives->>= _ _ h in
      let (_, _, h2) = Gives->> _ _ h1 in
      let (_, _, _, h3) = Gives->>= _ _ h2 in
      let (_, e, h4) = Gives->> _ _ h3 in
      let e' = Gives-reject_if _ _ e in let s' = Gives-return _ h4 in ground arith

  -- The snapshot is what the system told of the open file itself.
  pub record IsSnapshotOf (file : Handle) (s : FileSnapshot) : Type 0 where
    pub info : FileInfo
    pub path : Text
    pub before : W
    pub told : W
    pub shown : W
    pub after : W
    pub stated : Gives (os.stat file) before info told
    pub snapped :
        Gives
          (os.platform_snapshot file path)
          shown
          (s.identity, s.link_count, s.named_streams)
          after
    pub regular : info.is_regular ≡ true
    pub size : s.size ≡ info.size
    pub time : s.modified_at ≡ info.mod_time

  pub snapshot_open_file-IsSnapshotOf :
      (file : Handle) (path : Text) {w : W} {s : FileSnapshot} {w' : W}
      → Gives (snapshot_open_file is_windows p os file path) w s w'
      → IsSnapshotOf file s
  unfolding snapshot_open_file
  snapshot_open_file-IsSnapshotOf file path h =
      let (info, _, st, h1) = Gives->>= _ _ h in
      let (_, k, h2) = Gives->> _ _ h1 in
      let (ids, _, sn, h3) = Gives->>= _ _ h2 in
      let (_, _, h4) = Gives->> _ _ h3 in
      let regular = Gives-reject_if _ _ k in
      subst (IsSnapshotOf file) (Gives-return _ h4) (record {
        info = info;
        path = path;
        before = _;
        told = _;
        shown = _;
        after = _;
        stated = st;
        snapped = sn;
        regular = ground arith;
        size = refl;
        time = refl;
      })

  -- What is known of an open file and the snapshot that was taken of it.
  unfoldable pub IsBoundSnapshot : Text → AuthorizedScope → Handle → FileSnapshot → Type 0
  IsBoundSnapshot path scope file s =
      IsBound path scope file × ((s.identity == no_identity) ≡ false) × IsSnapshotOf file s

  open_scoped_with-IsBound :
      (opener : Text → Io W Handle) (path : Text) (scope : AuthorizedScope) {w : W}
      {t : Handle × FileSnapshot × Text} {w' : W}
      → Gives (open_scoped_with is_windows p os opener path scope) w t w'
      → IsBoundSnapshot path scope t.0 t.1
  unfolding open_scoped_with IsBoundSnapshot
  open_scoped_with-IsBound opener path scope h =
      let (_, _, h1) = Gives->> _ _ h in
      let (_, _, h2) = Gives->> _ _ h1 in
      let (file, _, _, h3) = Gives->>= _ _ h2 in
      let (final, _, v, h4) = Gives->>= _ _ h3 in
      let (snapshot, _, s, h5) = Gives->>= _ _ h4 in
      let (_, _, h6) = Gives->> _ _ h5 in
      let bound = validate_open_path_scope-IsBound file path scope (Gives-on_error _ _ v) in
      let known = snapshot_open_file-identity file final (Gives-on_error _ _ s) in
      subst (λ t. IsBoundSnapshot path scope t.0 t.1) (Gives-return _ h6)
        (bound, known, snapshot_open_file-IsSnapshotOf file final (Gives-on_error _ _ s))

  pub open_scoped_snapshot_with-IsBound :
      (r : FileRecord) (opener : Text → Io W Handle) {w : W} {t : Handle × FileSnapshot} {w' : W}
      → Gives (open_scoped_snapshot_with is_windows p os r opener) w t w'
      → IsBoundSnapshot r.path r.scope t.0 t.1
  unfolding open_scoped_snapshot_with
  open_scoped_snapshot_with-IsBound r opener h =
      let (t, _, o, h1) = Gives->>= _ _ h in
      let bound = open_scoped_with-IsBound opener r.path r.scope o in
      subst (λ t. IsBoundSnapshot r.path r.scope t.0 t.1) (Gives-return _ h1) bound

  -- A file that is opened to verify a record is bound to the record's scope at the record's own
  -- path, has a stable identity, and the snapshot of the open handle is the record, field by field.
  pub open_verification_snapshot_in_scope-IsBound :
      (r : FileRecord) (share_delete : Bool) {w : W} {t : Handle × FileSnapshot} {w' : W}
      → Gives (open_verification_snapshot_in_scope is_windows p os r share_delete) w t w'
      → IsBoundSnapshot r.path r.scope t.0 t.1 × (record_matches_snapshot r t.1 ≡ true)
  unfolding open_verification_snapshot_in_scope open_scoped_verification_snapshot
  open_verification_snapshot_in_scope-IsBound r share_delete h =
      let (t, _, o, h1) = Gives->>= _ _ h in
      let (_, m, h2) = Gives->> _ _ h1 in
      let bound = open_scoped_snapshot_with-IsBound r (os.open_verification_file share_delete) o in
      let changed = Gives-reject_if _ _ (Gives-on_error _ _ m) in
      let matches : record_matches_snapshot r t.1 ≡ true = ground arith in
      subst (λ t. IsBoundSnapshot r.path r.scope t.0 t.1 × (record_matches_snapshot r t.1 ≡ true))
        (Gives-return _ h2) (bound, matches)

  -- A record's file that is opened to be read is bound to the record's scope at the record's own
  -- path; the record has one link, no named stream and a stable identity.
  pub open_verified_record_for_read-IsBound :
      (r : FileRecord) {w : W} {file : Handle} {w' : W}
      → Gives (open_verified_record_for_read is_windows p os r) w file w'
      → IsBound r.path r.scope file
        × (r.link_count ≡ 1)
        × (r.named_streams ≡ 0)
        × ((r.identity == no_identity) ≡ false)
  unfolding open_verified_record_for_read record_matches_snapshot IsBoundSnapshot
  open_verified_record_for_read-IsBound r h =
      let (t, _, o, h1) = Gives->>= _ _ h in
      let (_, l, h2) = Gives->> _ _ h1 in
      let (_, n, h3) = Gives->> _ _ h2 in
      let ((bound, known, _), matches) = open_verification_snapshot_in_scope-IsBound r false o in
      let links = Gives-reject_if _ _ (Gives-on_error _ _ l) in
      let streams = Gives-reject_if _ _ (Gives-on_error _ _ n) in
      (
        subst (λ f. IsBound r.path r.scope f) (Gives-return _ h3) bound,
        ground arith,
        ground arith,
        ground arith,
      )
