-- ===== src/Scanner/Hardlink/Outcome.antt =====
-- internal/scanner/hardlink.go: the evidence behind an item of a consolidation.
use twin_tidy.Base.{
  ℕ, ◌≡◌, ◌≢◌, ◌⊎◌, refl, sym, ap, subst, ◌∙◌, Bool, true, false, some, none, inl, inr, List, [],
  ◌∷◌, Text, Memᴰ, ◌==◌, ==_iff, nat_eq, arith,
}
use twin_tidy.Scanner.Types.{FileRecord, Err, Result-cases, err, ok}
use twin_tidy.Scanner.Platform.{Platform}
use twin_tidy.Scanner.Io.{Os, Gives, close_quietly, check_ctx}
use twin_tidy.Scanner.Recycle.{ValidatedRecycleRequest}
use twin_tidy.Scanner.Recycle.Verify.{KeeperLoop, open_verified_record}
use twin_tidy.Scanner.Hardlink.{
  KeeperRecord, keeper_found, keeper_missing, no_keeper_record, next_keeper_record,
  open_verified_keeper_record, platform_consolidate_target, consolidate_beside, consolidate_one,
}
use twin_tidy.Scanner.Hardlink.Windows.{
  Links, HardlinkStatus, consolidated, skipped_changed, skipped_protected, skipped_cross_volume,
  cancelled, failed, hardlink_item, hardlink_verification_status, consolidate_target_windows,
}
use twin_tidy.Scanner.Recycle.Items.Outcome.{Gives-of_ok, IsOpened, Gives-IsOpened}
use twin_tidy.Scanner.Hardlink.Target.{IsTargetReplaced, target_windows-IsTargetReplaced}

no_keeper_record-keeper_found :
    {Handle : Type 0} (s : KeeperLoop) {file : Handle} {k : FileRecord}
    → no_keeper_record s ≢ keeper_found file k
unfolding no_keeper_record
no_keeper_record-keeper_found s h = ground arith

no_keeper_record-consolidated :
    {Handle : Type 0} (s : KeeperLoop) {e : Err}
    → no_keeper_record {Handle = Handle} s ≢ keeper_missing consolidated e
unfolding no_keeper_record
no_keeper_record-consolidated s h = ground arith

pub KeeperRecord-cases :
    {Handle : Type 0} (r : KeeperRecord Handle)
    → ((st : HardlinkStatus) × (e : Err) × (r ≡ keeper_missing st e))
      ⊎ ((f : Handle) × (k : FileRecord) × (r ≡ keeper_found f k))
KeeperRecord-cases (keeper_missing st e) = inl (st, e, refl)
KeeperRecord-cases (keeper_found f k) = inr (f, k, refl)

module _ (is_windows : Bool) (p : Platform) {W Handle : Type 0} (os : Os W Handle) where
  keeper_record_after :
      (fuel : ℕ) (c : FileRecord) (rest : List FileRecord) (hash : Text) (s : KeeperLoop) (w : W)
      (e : Err)
      → (open_verified_record is_windows p os fuel c hash false w).0 ≡ err e
      → (st : HardlinkStatus) → hardlink_verification_status e ≡ st
      → ((next_keeper_record is_windows p os fuel (c ∷ rest) hash s w).0
          ≡ keeper_missing cancelled e)
        ⊎ ((s' : KeeperLoop) × (w' : W) × (next_keeper_record is_windows p os fuel
                (c ∷ rest)
                hash
                s
                w
              ≡ next_keeper_record is_windows p os fuel rest hash s' w'))
  unfolding next_keeper_record
  keeper_record_after fuel c rest hash s w e q cancelled h = inl (ground arith)
  keeper_record_after fuel c rest hash s w e q skipped_changed h = inr (
    record s { last_error = some e; saw_changed = true },
    (open_verified_record is_windows p os fuel c hash false w).1,
    ground arith,
  )
  keeper_record_after fuel c rest hash s w e q skipped_protected h = inr (
    record s { last_error = some e; saw_protected = true },
    (open_verified_record is_windows p os fuel c hash false w).1,
    ground arith,
  )
  keeper_record_after fuel c rest hash s w e q consolidated h = inr (
    record s { last_error = some e },
    (open_verified_record is_windows p os fuel c hash false w).1,
    ground arith,
  )
  keeper_record_after fuel c rest hash s w e q skipped_cross_volume h = inr (
    record s { last_error = some e },
    (open_verified_record is_windows p os fuel c hash false w).1,
    ground arith,
  )
  keeper_record_after fuel c rest hash s w e q failed h = inr (
    record s { last_error = some e },
    (open_verified_record is_windows p os fuel c hash false w).1,
    ground arith,
  )

  -- A keeper that is returned is one of the candidates and was opened last, as a verified record.
  next_keeper_record-IsOpened :
      (fuel : ℕ) (candidates : List FileRecord) (hash : Text) (s : KeeperLoop) (w : W)
      (file : Handle) (k : FileRecord)
      → (next_keeper_record is_windows p os fuel candidates hash s w).0 ≡ keeper_found file k
      → Memᴰ k candidates
        × IsOpened is_windows p os fuel k hash false file
            (next_keeper_record is_windows p os fuel candidates hash s w).1
  unfolding next_keeper_record
  next_keeper_record-IsOpened fuel [] hash s w file k h = absurd (no_keeper_record-keeper_found s h)
  next_keeper_record-IsOpened fuel (c ∷ rest) hash s w file k h =
      let call = open_verified_record is_windows p os fuel c hash false in
      elim (Result-cases (call w).0) [
        | inl (e, q) ↦
            elim (keeper_record_after fuel c rest hash s w e q (hardlink_verification_status e)
              refl) [
                | inl stop ↦ absurd (ground arith)
                | inr (s', w', next) ↦
                    let (m, v) =
                      next_keeper_record-IsOpened fuel rest hash s' w' file k
                        (sym (ap (λ r. r.0) next) ∙ h) in
                    (
                      Memᴰ.tail m,
                      subst (IsOpened is_windows p os fuel k hash false file)
                          (sym (ap (λ r. r.1) next)) v,
                    )
              ]
        | inr (found, q) ↦
            let v =
              Gives-IsOpened is_windows p os fuel c hash false
                (Gives-of_ok is_windows p os call q) in
            let last : (call w).1
                ≡ (next_keeper_record is_windows p os fuel (c ∷ rest) hash s w).1 =
              ground arith in
            let keeper : c ≡ k = ground arith in
            let handle : found ≡ file = ground arith in
            (
              Memᴰ.head (sym keeper),
              subst (IsOpened is_windows p os fuel k hash false file) last (
                  subst (λ f. IsOpened is_windows p os fuel k hash false f (call w).1) handle
                    (subst (λ r. IsOpened is_windows p os fuel r hash false found (call w).1) keeper
                      v)),
            )
      ]

  next_keeper_record-consolidated :
      (fuel : ℕ) (candidates : List FileRecord) (hash : Text) (s : KeeperLoop) (w : W) (e : Err)
      → (next_keeper_record is_windows p os fuel candidates hash s w).0
        ≢ keeper_missing consolidated e
  unfolding next_keeper_record
  next_keeper_record-consolidated fuel [] hash s w e h = no_keeper_record-consolidated s h
  next_keeper_record-consolidated fuel (c ∷ rest) hash s w e h =
      elim (Result-cases (open_verified_record is_windows p os fuel c hash false w).0) [
        | inl (e', q) ↦
            elim (keeper_record_after fuel c rest hash s w e' q (hardlink_verification_status e')
              refl) [
                | inl stop ↦ absurd (ground arith)
                | inr (s', w', next) ↦
                    next_keeper_record-consolidated fuel rest hash s' w' e
                      (sym (ap (λ r. r.0) next) ∙ h)
              ]
        | inr (found, q) ↦ absurd (ground arith)
      ]

  -- Why an item may be reported as consolidated, as the calls in their order, each of which starts
  -- in the world that the one before left: a keeper is opened and verified, then the target, which
  -- is replaced, and the handle of the keeper is closed last.
  pub record IsConsolidated (fuel : ℕ) (links : Links W Handle) (request : ValidatedRecycleRequest)
      (target : FileRecord) (last : W) : Type 0 where
    pub keeper : FileRecord
    pub keeper_file : Handle
    pub held : W
    pub ready : W
    pub done : W
    pub listed : Memᴰ keeper request.keepers
    pub kept : IsOpened is_windows p os fuel keeper request.group_hash false keeper_file held
    pub volume : keeper.identity.volume_serial ≡ target.identity.volume_serial
    pub windows : is_windows ≡ true
    pub alive : Gives (check_ctx os) held tt ready
    pub replaced :
        IsTargetReplaced p os links fuel keeper_file keeper target request.group_hash ready done
    pub closed : last ≡ close_quietly os keeper_file done

  -- A target is reported as consolidated only on Windows, when a listed keeper on the same volume
  -- was opened and verified, then the target, the path that the handle of the target had resolved
  -- to the keeper's identity directly before the target's bytes were disposed of, and only then the
  -- handle of the target and that of the keeper were closed.
  pub consolidate_one-IsConsolidated :
      (fuel : ℕ) (links : Links W Handle) (request : ValidatedRecycleRequest) (target : FileRecord)
      (w : W)
      → (consolidate_one is_windows p os fuel links request target w).0.status ≡ consolidated
      → IsConsolidated fuel links request target
          (consolidate_one is_windows p os fuel links request target w).1
  unfolding consolidate_one consolidate_beside platform_consolidate_target hardlink_item
      open_verified_keeper_record
  consolidate_one-IsConsolidated fuel links request target w h =
      let start : KeeperLoop = record {
        last_error = none;
        saw_changed = false;
        saw_protected = false;
      } in
      let (k, w1) =
        open_verified_keeper_record is_windows p os fuel request.keepers request.group_hash w in
      let w2 = (check_ctx os w1).1 in
      elim (KeeperRecord-cases k) [
        | inl (st, e, q) ↦
            let none : k ≡ keeper_missing consolidated e = ground arith in
            absurd (
              next_keeper_record-consolidated fuel request.keepers request.group_hash start w e
                none)
        | inr (keeper_file, keeper, q) ↦
            let (listed, kept) =
              next_keeper_record-IsOpened fuel request.keepers request.group_hash start w
                keeper_file keeper q in
            let volume : (keeper.identity.volume_serial == target.identity.volume_serial) ≡ true =
              ground arith in
            let done : (consolidate_target_windows p os links fuel keeper_file keeper target
                  request.group_hash w2).0.status
                ≡ consolidated =
              ground arith in
            let alive : (check_ctx os w1).0 ≡ ok tt = ground arith in
            let replaced =
              target_windows-IsTargetReplaced p os links fuel keeper_file keeper target
                request.group_hash w2 done in
            record {
              keeper = keeper;
              keeper_file = keeper_file;
              held = w1;
              ready = w2;
              done = _;
              listed = listed;
              kept = kept;
              volume =
                  (==_iff keeper.identity.volume_serial target.identity.volume_serial).0 volume;
              windows = ground arith;
              alive = Gives-of_ok is_windows p os (check_ctx os) alive;
              replaced = replaced;
              closed = ground arith;
            }
      ]
