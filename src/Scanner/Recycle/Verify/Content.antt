-- ===== src/Scanner/Recycle/Verify/Content.antt =====
-- internal/scanner/delete.go: the evidence about a record that was verified, and the copy loop of
-- internal/scanner/engine.go.
use twin_tidy.Base.{
  ℕ, zero, suc, ◌≡◌, refl, sym, ap, subst, ◌∙◌, ◌≤◌, Bool, true, append-cons, [], ◌∷◌, ◌++◌, Text,
  nat_eq, arith,
}
use twin_tidy.Scanner.Types.{
  identity_eq, FileRecord, Result, ok, err, no_progress, not_exist, file_changed,
}
use twin_tidy.Scanner.Platform.{Platform}
use twin_tidy.Scanner.Io.{
  Io, Os, Gives, Gives->>=, Gives->>, Gives-return, Gives-on_error, Gives-reject_if, ◌>>◌,
  check_ctx, ReadEnd, more, eof, broken,
}
use twin_tidy.Scanner.Snapshot.{
  FileSnapshot, record_matches_snapshot, open_scoped_verification_snapshot,
}
use twin_tidy.Scanner.Snapshot.Scope.{
  IsBound, IsBoundSnapshot, IsSnapshotOf, IsMatch, record_matches_snapshot-IsMatch,
  open_scoped_snapshot_with-IsBound,
}
use twin_tidy.Scanner.Recycle.Verify.{copy_with_context, gone_is_changed, open_verified_record}

module _ (is_windows : Bool) (p : Platform) {W Handle : Type 0} (os : Os W Handle) where
  -- The reads that a copy of the whole file makes: `Copies file n w content w'` when the context
  -- stays alive and `n` reads, the last of which meets the end, give the content.
  pub data Copies (file : Handle) : ℕ → W → Text → W → Type 0 where
    ends :
        {w w1 w2 : W} {chunk : Text}
        → Gives (check_ctx os) w tt w1
        → os.read file 65536 w1 ≡ ((chunk, eof), w2)
        → Copies file 1 w chunk w2
    reads :
        {n : ℕ} {w w1 w2 w3 : W} {c : ℕ} {chunk rest : Text}
        → Gives (check_ctx os) w tt w1
        → os.read file 65536 w1 ≡ ((c ∷ chunk, more), w2)
        → Copies file n w2 rest w3
        → Copies file (suc n) w (c ∷ (chunk ++ rest)) w3

  -- A copy with fuel for the reads that the file takes gives the file's content.
  pub copy_with_context-Copies :
      (file : Handle) (n fuel : ℕ) (written content : Text) (w w' : W)
      → Copies file n w content w'
      → n ≤ fuel
      → Gives (copy_with_context is_windows p os fuel file written) w (written ++ content) w'
  unfolding copy_with_context ◌>>◌
  copy_with_context-Copies file n zero written content w w' (ends g e) h = absurd (omega arith)
  copy_with_context-Copies file n zero written content w w' (reads g e rest) h =
      absurd (omega arith)
  copy_with_context-Copies file n (suc fuel) written content w w' (ends g e) h =
      let e' = g.run in record { run = ground arith }
  copy_with_context-Copies file n (suc fuel) written content w w'
        (reads {n = k} {w2 = w2} {c = c} {chunk = chunk} {rest = tail} g e rest) h =
      let e' = g.run in
      let next =
        copy_with_context-Copies file k fuel (written ++ c ∷ chunk) tail w2 w' rest (omega arith) in
      let assoc = append-cons written c chunk tail in
      let step : copy_with_context is_windows p os (suc fuel) file written w
          ≡ copy_with_context is_windows p os fuel file (written ++ c ∷ chunk) w2 =
        ground arith in
      let same : ◌≡◌ {A = Result Text × W} (ok ((written ++ c ∷ chunk) ++ tail), w')
          (ok (written ++ c ∷ (chunk ++ tail)), w') =
        ap (λ t. (ok t, w')) assoc in
      record { run = step ∙ next.run ∙ same }

  pub gone_is_changed-Gives :
      {A : Type 0} (call : Io W A) {w : W} {a : A} {w' : W}
      → Gives (gone_is_changed is_windows p os call) w a w'
      → Gives call w a w'
  unfolding gone_is_changed
  gone_is_changed-Gives call {w} {a} {w'} h = go (call w) refl h.run
    where
      go :
          {A : Type 0} {call : Io W A} {w : W} {a : A} {w' : W} (r : Result A × W)
          → call w ≡ r
          → ◌≡◌ {A = Result A × W}
              (elim r.0 [
                | err not_exist ↦ (err file_changed, r.1)
                | err e ↦ (err e, r.1)
                | ok a ↦ (ok a, r.1)
              ])
              (ok a, w')
          → Gives call w a w'
      go (err e, w1) e' h = absurd (ground arith)
      go (ok a, w1) e' h = record { run = e' ∙ h }

  copy_cases :
      (file : Handle) (fuel : ℕ) (written : Text) {w w1 : W} {all : Text} {w' : W}
      → Gives (check_ctx os) w tt w1
      → ((more_written : Text) (v : W)
          → Gives (copy_with_context is_windows p os fuel file more_written) v all w'
          → (n : ℕ) × (content : Text) × Copies file n v content w'
            × (more_written ++ content ≡ all))
      → (r : (Text × ReadEnd) × W) → os.read file 65536 w1 ≡ r
      → ◌≡◌ {A = Result Text × W}
          (elim r.0.1 [
            | eof ↦ (ok (written ++ r.0.0), r.1)
            | broken e ↦ (err e, r.1)
            | more ↦ elim r.0.0 [
              | [] ↦ (err no_progress, r.1)
              | ◌∷◌ c rest ↦ copy_with_context is_windows p os fuel file (written ++ c ∷ rest) r.1
            ]
          ])
          (ok all, w')
      → (n : ℕ) × (content : Text) × Copies file n w content w' × (written ++ content ≡ all)
  copy_cases file fuel written {w = w} {w' = w'} g rec ((chunk, eof), w2) e h =
      let same : w2 ≡ w' = ground arith in
      (1, chunk, subst (λ v. Copies file 1 w chunk v) same (ends g e), ground arith)
  copy_cases file fuel written g rec ((chunk, broken b), w2) e h = absurd (ground arith)
  copy_cases file fuel written g rec (([], more), w2) e h = absurd (ground arith)
  copy_cases file fuel written g rec ((c ∷ chunk, more), w2) e h =
      let (n, rest, copied, same) = rec (written ++ c ∷ chunk) w2 (record { run = h }) in
      (suc n, c ∷ (chunk ++ rest), reads g e copied, sym (append-cons written c chunk rest) ∙ same)

  pub copy_with_context-Gives :
      (file : Handle) (fuel : ℕ) (written : Text) {w : W} {all : Text} {w' : W}
      → Gives (copy_with_context is_windows p os fuel file written) w all w'
      → (n : ℕ) × (content : Text) × Copies file n w content w' × (written ++ content ≡ all)
  unfolding copy_with_context
  copy_with_context-Gives file zero written h = let e = h.run in absurd (ground arith)
  copy_with_context-Gives file (suc fuel) written h =
      let (w1, g, next) = Gives->> _ _ h in
      copy_cases file fuel written g
        (λ more_written v k. copy_with_context-Gives file fuel more_written k)
        (os.read file 65536 w1) refl next.run

  -- The content that was hashed, and that its hash is the expected one.
  pub record HasHash (hash : Text) (file : Handle) : Type 0 where
    pub content : Text
    pub n : ℕ
    pub before : W
    pub after : W
    pub copied : Copies file n before content after
    pub equal : p.equal_fold (os.sha256_hex content) hash ≡ true

  -- An open file that is the record's, with the group's content: what the system told of this very
  -- handle has the size, the time, the identity, the links and the streams of the record.
  pub record IsVerified (r : FileRecord) (hash : Text) (file : Handle) : Type 0 where
    pub bound : IsBound is_windows p os r.path r.scope file
    pub snapshot : FileSnapshot
    pub taken : IsSnapshotOf is_windows p os file snapshot
    pub matches : IsMatch r snapshot
    pub single : r.link_count ≡ 1
    pub plain : r.named_streams ≡ 0
    pub hashed : HasHash hash file

  -- When `openVerifiedRecord` returns a handle, the handle is bound to the scope of the record at
  -- its own path; the size, the time, the identity, the number of links and of named streams that
  -- the system told of this handle are those of the record; there is one link and no named stream;
  -- and the bytes read to the end through this handle have the expected hash.
  pub open_verified_record-IsVerified :
      (fuel : ℕ) (r : FileRecord) (hash : Text) (share_delete : Bool) {w : W} {file : Handle}
      {w' : W}
      → Gives (open_verified_record is_windows p os fuel r hash share_delete) w file w'
      → IsVerified r hash file
  unfolding open_verified_record open_scoped_verification_snapshot IsBoundSnapshot
      record_matches_snapshot
  open_verified_record-IsVerified fuel r hash share_delete h =
      let (_, _, h1) = Gives->> _ _ h in
      let (t, _, o, h2) = Gives->>= _ _ h1 in
      let (_, l, h3) = Gives->> _ _ h2 in
      let (_, n, h4) = Gives->> _ _ h3 in
      let (_, m, h5) = Gives->> _ _ h4 in
      let (all, _, c, h6) = Gives->>= _ _ h5 in
      let (_, _, h7) = Gives->> _ _ h6 in
      let (_, e, h8) = Gives->> _ _ h7 in
      let opened = gone_is_changed-Gives _ o in
      let (bound, _, taken) =
        open_scoped_snapshot_with-IsBound is_windows p os r (os.open_verification_file share_delete)
          opened in
      let links = Gives-reject_if _ _ (Gives-on_error _ _ l) in
      let streams = Gives-reject_if _ _ (Gives-on_error _ _ n) in
      let changed = Gives-reject_if _ _ (Gives-on_error _ _ m) in
      let differs = Gives-reject_if _ _ (Gives-on_error _ _ e) in
      let matched : record_matches_snapshot r t.1 ≡ true = ground arith in
      let (count, content, copied, same) =
        copy_with_context-Gives t.0 fuel [] (Gives-on_error _ _ c) in
      let equal : p.equal_fold (os.sha256_hex all) hash ≡ true = ground arith in
      subst (IsVerified r hash) (Gives-return _ h8) (record {
        bound = bound;
        snapshot = t.1;
        taken = taken;
        matches = record_matches_snapshot-IsMatch r t.1 matched;
        single = ground arith;
        plain = ground arith;
        hashed = record {
          content = content;
          n = count;
          before = _;
          after = _;
          copied = copied;
          equal = subst (λ s. p.equal_fold (os.sha256_hex s) hash ≡ true) (sym same) equal;
        };
      })
