-- ===== src/Scanner/Hardlink/Target.antt =====
-- internal/scanner/hardlink_windows.go: the evidence about the candidate of a consolidation.
use twin_tidy.Base.{ℕ, ◌≡◌, ◌≢◌, sym, subst, true, inl, inr, [], Text, nat_eq, arith}
use twin_tidy.Scanner.Types.{FileRecord, Err, Result-cases}
use twin_tidy.Scanner.Platform.{Platform}
use twin_tidy.Scanner.Io.{
  close_quietly, Os, Gives, Gives->>=, Gives->>, Gives-return, Gives-on_error, Gives-reject_if,
}
use twin_tidy.Scanner.Snapshot.{FileSnapshot, record_matches_snapshot}
use twin_tidy.Scanner.Snapshot.Scope.{
  IsBoundSnapshot, record_matches_snapshot-IsMatch, open_scoped_snapshot_with-IsBound,
}
use twin_tidy.Scanner.Recycle.Verify.Content.{HasHash, IsVerified}
use twin_tidy.Scanner.Hardlink.Windows.{
  Links, consolidated, hardlink_item, hardlink_verification_status,
  open_verified_consolidation_target, consolidate_open, consolidate_target_windows,
}
use twin_tidy.Scanner.Recycle.Verify.Content.{gone_is_changed-Gives, copy_with_context-Gives}
use twin_tidy.Scanner.Recycle.Items.Outcome.{Gives-of_ok}
use twin_tidy.Scanner.Hardlink.Windows.{verify_record_content_hash}
use twin_tidy.Scanner.Hardlink.Places.{IsPlaced}
use twin_tidy.Scanner.Hardlink.Reachable.{IsReplaced, consolidate_open-IsReachable}

hardlink_verification_status-consolidated :
    (e : Err) → hardlink_verification_status e ≢ consolidated
unfolding hardlink_verification_status
hardlink_verification_status-consolidated e h = ground arith

module _ (p : Platform) {W Handle : Type 0} (os : Os W Handle) (links : Links W Handle) where
  verify_record_content_hash-HasHash :
      (fuel : ℕ) (file : Handle) (r : FileRecord) (snapshot : FileSnapshot) (hash : Text) {w w' : W}
      → Gives (verify_record_content_hash p os links fuel file r snapshot hash) w tt w'
      → HasHash true p os hash file
  unfolding verify_record_content_hash
  verify_record_content_hash-HasHash fuel file r snapshot hash h =
      let (all, _, c, h1) = Gives->>= _ _ h in
      let (_, _, _, h2) = Gives->>= _ _ h1 in
      let (_, _, _, h3) = Gives->>= _ _ h2 in
      let (_, _, h4) = Gives->> _ _ h3 in
      let differs = Gives-reject_if _ _ h4 in
      let (count, content, copied, same) = copy_with_context-Gives true p os file fuel [] c in
      let equal : p.equal_fold (os.sha256_hex all) hash ≡ true = ground arith in
      record {
        content = content;
        n = count;
        before = _;
        after = _;
        copied = copied;
        equal = subst (λ s. p.equal_fold (os.sha256_hex s) hash ≡ true) (sym same) equal;
      }

  open_verified_consolidation_target-IsVerified :
      (fuel : ℕ) (r : FileRecord) (hash : Text) {w : W} {file : Handle} {w' : W}
      → Gives (open_verified_consolidation_target p os links fuel r hash) w file w'
      → IsVerified true p os r hash file
  unfolding open_verified_consolidation_target IsBoundSnapshot record_matches_snapshot
  open_verified_consolidation_target-IsVerified fuel r hash h =
      let (_, _, h1) = Gives->> _ _ h in
      let (t, _, o, h2) = Gives->>= _ _ h1 in
      let (_, l, h3) = Gives->> _ _ h2 in
      let (_, n, h4) = Gives->> _ _ h3 in
      let (_, m, h5) = Gives->> _ _ h4 in
      let (_, c, h6) = Gives->> _ _ h5 in
      let opened = gone_is_changed-Gives true p os _ o in
      let (bound, _, taken) =
        open_scoped_snapshot_with-IsBound true p os r links.open_consolidation_file opened in
      let single = Gives-reject_if _ _ (Gives-on_error _ _ l) in
      let plain = Gives-reject_if _ _ (Gives-on_error _ _ n) in
      let changed = Gives-reject_if _ _ (Gives-on_error _ _ m) in
      let matched : record_matches_snapshot r t.1 ≡ true = ground arith in
      subst (IsVerified true p os r hash) (Gives-return _ h6) (record {
        bound = bound;
        snapshot = t.1;
        taken = taken;
        matches = record_matches_snapshot-IsMatch r t.1 matched;
        single = ground arith;
        plain = ground arith;
        hashed = verify_record_content_hash-HasHash fuel t.0 r t.1 hash (Gives-on_error _ _ c);
      })

  consolidate_open-IsReplaced :
      (keeper_file file : Handle) (keeper target : FileRecord) (w : W)
      → (consolidate_open p os links keeper_file file keeper target w).0.status ≡ consolidated
      → IsReplaced p os links keeper_file file keeper w
          (consolidate_open p os links keeper_file file keeper target w).1
  consolidate_open-IsReplaced keeper_file file keeper target w h =
      let placed : IsPlaced p os links file (λ _ _. Unit {0}) = record {
        context = λ w path u. tt;
        opened = λ n w path u. tt;
        closed = λ n w path u. tt;
        stated = λ n w path u. tt;
        resolved = λ n w path u. tt;
        snapped = λ o n w path u. tt;
        drawn = λ w path u. tt;
        linked = λ o n w path u. tt;
        inspected = λ w path u. tt;
        cleared = λ w path u. tt;
        moved = λ path units w q r. tt;
        unmoved = λ b w e path q u. tt;
        undisposed = λ w e path q u. tt;
      } in
      elim (consolidate_open-IsReachable p os links file (λ _ _. Unit {0}) placed [] keeper_file
        keeper target w tt) [ inl kept ↦ absurd (kept.status h) | inr (_, done) ↦ done ]

  -- The calls on the target in their order: it is opened and verified, then replaced, and only
  -- then its handle is closed.
  pub record IsTargetReplaced (fuel : ℕ) (keeper_file : Handle) (keeper target : FileRecord)
      (hash : Text) (start last : W) : Type 0 where
    pub file : Handle
    pub ready : W
    pub done : W
    pub opened :
        Gives (open_verified_consolidation_target p os links fuel target hash) start file ready
    pub verified : IsVerified true p os target hash file
    pub replaced : IsReplaced p os links keeper_file file keeper ready done
    pub closed : last ≡ close_quietly os file done

  pub target_windows-IsTargetReplaced :
      (fuel : ℕ) (keeper_file : Handle) (keeper target : FileRecord) (hash : Text) (w : W)
      → (consolidate_target_windows p os links fuel keeper_file keeper target hash w).0.status
        ≡ consolidated
      → IsTargetReplaced fuel keeper_file keeper target hash w
          (consolidate_target_windows p os links fuel keeper_file keeper target hash w).1
  unfolding consolidate_target_windows hardlink_item
  target_windows-IsTargetReplaced fuel keeper_file keeper target hash w h =
      let call = open_verified_consolidation_target p os links fuel target hash in
      elim (Result-cases (call w).0) [
        | inl (e, q) ↦ absurd (ground (arith, hardlink_verification_status-consolidated e))
        | inr (file, q) ↦ record {
          file = file;
          ready = (call w).1;
          done = _;
          opened = Gives-of_ok true p os call q;
          verified =
              open_verified_consolidation_target-IsVerified fuel target hash
                (Gives-of_ok true p os call q);
          replaced =
              consolidate_open-IsReplaced keeper_file file keeper target (call w).1 (ground arith);
          closed = ground arith;
        }
      ]
