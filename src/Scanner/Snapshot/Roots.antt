-- ===== src/Scanner/Snapshot/Roots.antt =====
-- internal/scanner/file_snapshot.go: how a selected root becomes a scope, and how the scan opens
-- what stands below it.
use twin_tidy.Base.{
  ◌||◌, refl, ◌≡◌, ap, subst, Bool, true, false, ltb, if◌then◌else◌, ◌&&◌, not, Text, [], ◌==◌,
  text_eq, arith,
}
use twin_tidy.Scanner.Types.{
  identity_eq, AuthorizedScope, no_identity, missing_scope, missing_file_id, ok, Time, FileRecord,
  hard_linked_file, named_stream_file, reparse_point, other,
}
use twin_tidy.Scanner.Platform.{Platform}
use twin_tidy.Scanner.Io.{
  close_quietly, Io, ◌>>=◌, ◌>>◌, return, reject_if, on_error, Os, FileInfo, Gives, Gives->>=,
  Gives->>, Gives-return, Gives-on_error, Gives-reject_if,
}
use twin_tidy.Scanner.Snapshot.{
  FileSnapshot, open_file_snapshot, open_file_snapshot_in_scope, scope_is_valid,
  same_canonical_path, snapshot_open_file, validate_authorized_scope, validate_open_path_scope,
  closing,
}
use twin_tidy.Scanner.Snapshot.Scope.{
  IsBound, IsBoundSnapshot, validate_open_path_scope-IsBound, snapshot_open_file-identity,
  snapshot_open_file-IsSnapshotOf,
}

module _ (is_windows : Bool) (p : Platform) {W Handle : Type 0} (os : Os W Handle) where
  -- The checks on the open root of `resolveScanRoot`.
  resolved_path : Text → Handle → Io W Text
  resolved_path path file = do
    final ← os.final_path file
    reject_if (not (same_canonical_path is_windows p path final)) reparse_point
    return (p.clean final)

  unfoldable pub resolve_scan_root : Text → Io W Text
  unfolding resolved_path
  resolve_scan_root path = do
    os.no_reparse_components path
    file ← os.open_file path
    closing is_windows p os file (resolved_path path file)

  -- The checks on the open root of `authorizeScanRoot`.
  scope_of : Text → Handle → Io W (AuthorizedScope × FileInfo)
  scope_of resolved file = do
    info ← os.stat file
    reject_if (not info.is_dir && not info.is_regular) (other [])
    final ← os.final_path file
    reject_if (not (same_canonical_path is_windows p resolved final)) reparse_point
    identity ← os.path_identity file final
    reject_if (identity == no_identity) missing_file_id
    return (
      record { root_final_path = final; root_identity = identity; root_is_file = info.is_regular },
      info,
    )

  unfoldable pub authorize_scan_root : Text → Io W (AuthorizedScope × FileInfo)
  unfolding scope_of
  authorize_scan_root path = do
    resolved ← resolve_scan_root path
    file ← os.open_file resolved
    closing is_windows p os file (scope_of resolved file)

  unfoldable pub open_surface_file_snapshot :
      Text → AuthorizedScope → Io W (Handle × FileSnapshot × Text)
  open_surface_file_snapshot path scope = do
    reject_if (not (scope_is_valid scope)) missing_scope
    file ← os.open_file path
    final ←
        on_error (close_quietly os file) (validate_open_path_scope is_windows p os file path scope)
    snapshot ← on_error (close_quietly os file) (snapshot_open_file is_windows p os file final)
    return (file, snapshot, final)

  unfoldable pub open_directory_in_scope : Text → AuthorizedScope → Io W (Handle × Text)
  open_directory_in_scope path scope = do
    reject_if scope.root_is_file (other [])
    validate_authorized_scope is_windows p os scope
    os.no_reparse_components path
    file ← os.open_file path
    info ← on_error (close_quietly os file) (os.stat file)
    on_error (close_quietly os file) (reject_if (not info.is_dir) (other []))
    final ←
        on_error (close_quietly os file) (validate_open_path_scope is_windows p os file path scope)
    on_error (close_quietly os file) (validate_authorized_scope is_windows p os scope)
    return (file, final)

  -- The record as the file is now; `created` is `bestEffortCreatedAt`.
  unfoldable pub refresh_file_record : (Text → Time → W → Time × W) → FileRecord → Io W FileRecord
  refresh_file_record created r = do
    (file, snapshot, final) ←
        if scope_is_valid r.scope
        then open_file_snapshot_in_scope is_windows p os r.path r.scope
        else (open_file_snapshot is_windows p os r.path >>= λ found.
            return (found.0, found.1, r.path))
    os.close file
    reject_if (ltb 1 snapshot.link_count) hard_linked_file
    reject_if (ltb 0 snapshot.named_streams) named_stream_file
    created_at ← λ w. let (t, w') = created final snapshot.modified_at w in (ok t, w')
    return (record r {
      path = final;
      size = snapshot.size;
      modified_at = snapshot.modified_at;
      created_at = created_at;
      identity = snapshot.identity;
      link_count = snapshot.link_count;
      named_streams = snapshot.named_streams;
    })

  -- A directory that the scan opens is bound to its scope at its own path.
  open_directory_in_scope-IsBound :
      (path : Text) (scope : AuthorizedScope) {w : W} {t : Handle × Text} {w' : W}
      → Gives (open_directory_in_scope path scope) w t w'
      → IsBound is_windows p os path scope t.0
  unfolding open_directory_in_scope
  open_directory_in_scope-IsBound path scope h =
      let (_, _, h1) = Gives->> _ _ h in
      let (_, _, h2) = Gives->> _ _ h1 in
      let (_, _, h3) = Gives->> _ _ h2 in
      let (file, _, _, h4) = Gives->>= _ _ h3 in
      let (_, _, _, h5) = Gives->>= _ _ h4 in
      let (_, _, h6) = Gives->> _ _ h5 in
      let (final, _, v, h7) = Gives->>= _ _ h6 in
      let (_, _, h8) = Gives->> _ _ h7 in
      let bound =
        validate_open_path_scope-IsBound is_windows p os file path scope (Gives-on_error _ _ v) in
      subst (λ t. IsBound is_windows p os path scope t.0) (Gives-return _ h8) bound

  -- A file that the scan lists is bound to the scope of its root at its own path, and has a stable
  -- identity.
  pub open_surface_file_snapshot-IsBound :
      (path : Text) (scope : AuthorizedScope) {w : W} {t : Handle × FileSnapshot × Text} {w' : W}
      → Gives (open_surface_file_snapshot path scope) w t w'
      → IsBoundSnapshot is_windows p os path scope t.0 t.1
  unfolding open_surface_file_snapshot IsBoundSnapshot
  open_surface_file_snapshot-IsBound path scope h =
      let (_, _, h1) = Gives->> _ _ h in
      let (file, _, _, h2) = Gives->>= _ _ h1 in
      let (final, _, v, h3) = Gives->>= _ _ h2 in
      let (snapshot, _, s, h4) = Gives->>= _ _ h3 in
      let bound =
        validate_open_path_scope-IsBound is_windows p os file path scope (Gives-on_error _ _ v) in
      let known = snapshot_open_file-identity is_windows p os file final (Gives-on_error _ _ s) in
      subst (λ t. IsBoundSnapshot is_windows p os path scope t.0 t.1) (Gives-return _ h4)
        (
          bound,
          known,
          snapshot_open_file-IsSnapshotOf is_windows p os file final (Gives-on_error _ _ s),
        )

  Gives-closing :
      {A : Type 0} (file : Handle) (call : Io W A) {w : W} {a : A} {w' : W}
      → Gives (closing is_windows p os file call) w a w'
      → Gives call w a (call w).1
  Gives-closing file call {w} h = record { run = ap (λ r. (r, (call w).1)) (ap (λ t. t.0) h.run) }

  -- A selected path is resolved: it goes through no reparse point, its open handle has a path that
  -- is the selected one in canonical form, and that path, cleaned, is the resolved one.
  pub record IsResolved (path : Text) (start : W) (resolved : Text) : Type 0 where
    pub w1 : W
    pub w2 : W
    pub w3 : W
    pub root : Handle
    pub raw : Text
    pub plain : Gives (os.no_reparse_components path) start tt w1
    pub opened : Gives (os.open_file path) w1 root w2
    pub final : Gives (os.final_path root) w2 raw w3
    pub canonical : same_canonical_path is_windows p path raw ≡ true
    pub cleaned : p.clean raw ≡ resolved

  -- The scope of the file that was opened at the resolved path: its path is the one that the handle
  -- has, and the resolved one in canonical form, and its identity, which is stable, is the one that
  -- the system gave for this handle. It is a directory or a regular file.
  pub record IsScopeOf (resolved : Text) (file : Handle) (start : W) (scope : AuthorizedScope)
      (info : FileInfo) : Type 0 where
    pub w1 : W
    pub w2 : W
    pub w3 : W
    pub w4 : W
    pub w5 : W
    pub stated : Gives (os.stat file) start info w1
    pub kind : (info.is_dir || info.is_regular) ≡ true
    pub is_file : scope.root_is_file ≡ info.is_regular
    pub final : Gives (os.final_path file) w2 scope.root_final_path w3
    pub canonical : same_canonical_path is_windows p resolved scope.root_final_path ≡ true
    pub named : Gives (os.path_identity file scope.root_final_path) w4 scope.root_identity w5
    pub stable : (scope.root_identity == no_identity) ≡ false

  -- A selected path is authorized: it is resolved first, and then opened anew at the resolved path.
  pub record IsAuthorized (path : Text) (start : W) (scope : AuthorizedScope) (info : FileInfo)
      : Type 0 where
    pub resolved : Text
    pub file : Handle
    pub between : W
    pub ready : W
    pub resolves : IsResolved path start resolved
    pub opened : Gives (os.open_file resolved) between file ready
    pub scoped : IsScopeOf resolved file ready scope info

  resolve_scan_root-IsResolved :
      (path : Text) {w : W} {resolved : Text} {w' : W}
      → Gives (resolve_scan_root path) w resolved w'
      → IsResolved path w resolved
  unfolding resolve_scan_root resolved_path
  resolve_scan_root-IsResolved path h =
      let (_, n, h1) = Gives->> _ _ h in
      let (root, _, o, h2) = Gives->>= _ _ h1 in
      let (raw, _, f, h3) = Gives->>= _ _ (Gives-closing root _ h2) in
      let (_, s, h4) = Gives->> _ _ h3 in
      let same = Gives-reject_if _ _ s in
      record {
        w1 = _;
        w2 = _;
        w3 = _;
        root = root;
        raw = raw;
        plain = n;
        opened = o;
        final = f;
        canonical = ground arith;
        cleaned = Gives-return _ h4;
      }

  scope_of-IsScopeOf :
      (resolved : Text) (file : Handle) {w : W} {t : AuthorizedScope × FileInfo} {w' : W}
      → Gives (scope_of resolved file) w t w'
      → IsScopeOf resolved file w t.0 t.1
  unfolding scope_of
  scope_of-IsScopeOf resolved file {w} h =
      let (info, _, d, h1) = Gives->>= _ _ h in
      let (_, r, h2) = Gives->> _ _ h1 in
      let (final, _, f, h3) = Gives->>= _ _ h2 in
      let (_, s, h4) = Gives->> _ _ h3 in
      let (identity, _, n, h5) = Gives->>= _ _ h4 in
      let (_, k, h6) = Gives->> _ _ h5 in
      let same = Gives-reject_if _ _ s in
      let kind = Gives-reject_if _ _ r in
      subst (λ t. IsScopeOf resolved file w t.0 t.1) (Gives-return _ h6)
        (record {
          w1 = _;
          w2 = _;
          w3 = _;
          w4 = _;
          w5 = _;
          stated = d;
          kind = ground arith;
          is_file = refl;
          final = f;
          canonical = ground arith;
          named = n;
          stable = Gives-reject_if _ _ k;
        })

  -- When `authorizeScanRoot` returns a scope for a selected path, that path goes through no reparse
  -- point and its open handle has it as its canonical path; the file opened anew at the path so
  -- resolved is a directory or a regular file, and the scope has the path of this handle, which is
  -- the resolved one in canonical form, and the identity that the system gave for this handle,
  -- which is stable.
  pub authorize_scan_root-IsAuthorized :
      (path : Text) {w : W} {t : AuthorizedScope × FileInfo} {w' : W}
      → Gives (authorize_scan_root path) w t w'
      → IsAuthorized path w t.0 t.1
  unfolding authorize_scan_root
  authorize_scan_root-IsAuthorized path h =
      let (resolved, _, r, h1) = Gives->>= _ _ h in
      let (file, _, o, h2) = Gives->>= _ _ h1 in
      record {
        resolved = resolved;
        file = file;
        between = _;
        ready = _;
        resolves = resolve_scan_root-IsResolved path r;
        opened = o;
        scoped = scope_of-IsScopeOf resolved file (Gives-closing file (scope_of resolved file) h2);
      }
