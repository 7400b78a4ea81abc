-- ===== src/Scanner/Recycle/Items/Outcome.antt =====
-- internal/scanner/delete.go: the evidence behind an item of a recycle request.
use twin_tidy.Base.{
  ℕ, ◌≡◌, ◌≢◌, refl, sym, ap, subst, ◌∙◌, Bool, true, false, none, some, List, [], ◌∷◌, ◌⊎◌, inl,
  inr, Text, ◌==◌, text_eq, Memᴰ, arith,
}
use twin_tidy.Scanner.Types.{
  identity_eq, FileRecord, RecycleStatus, recycled, skipped_changed, skipped_protected, cancelled,
  failed, Err, Result-cases, ok, err,
}
use twin_tidy.Scanner.Platform.{Platform}
use twin_tidy.Scanner.Io.{Io, Os, Gives, check_ctx, close_quietly}
use twin_tidy.Scanner.Recycle.{ValidatedRecycleRequest}
use twin_tidy.Scanner.Recycle.Verify.{
  KeeperResult, verified, unverified, KeeperLoop, no_keeper, verification_status,
  open_verified_record, next_keeper, open_verified_keeper,
}
use twin_tidy.Scanner.Recycle.Verify.Content.{IsVerified, open_verified_record-IsVerified}
use twin_tidy.Scanner.Recycle.Items.{
  RecycleReceipt, RecycleAdapter, recycle_item, adapter_status, verify_source_path_absent,
  confirm_recycled, recycle_target, recycle_one,
}

verification_status-recycled : (e : Err) → verification_status e ≢ recycled
unfolding verification_status
verification_status-recycled e h = ground arith

adapter_status-recycled : (e : Err) → adapter_status e ≢ recycled
unfolding adapter_status
adapter_status-recycled e h = ground arith

no_keeper-recycled :
    {Handle : Type 0} (s : KeeperLoop) {e : Err}
    → no_keeper {Handle = Handle} s ≢ unverified recycled e
unfolding no_keeper
no_keeper-recycled s h = ground arith

no_keeper-verified :
    {Handle : Type 0} (s : KeeperLoop) {file : Handle} → no_keeper s ≢ verified file
unfolding no_keeper
no_keeper-verified s h = ground arith

KeeperResult-cases :
    {Handle : Type 0} (r : KeeperResult Handle)
    → ((st : RecycleStatus) × (e : Err) × (r ≡ unverified st e)) ⊎ ((f : Handle) × (r ≡ verified f))
KeeperResult-cases (unverified st e) = inl (st, e, refl)
KeeperResult-cases (verified f) = inr (f, refl)

module _ (is_windows : Bool) (p : Platform) {W Handle : Type 0} (os : Os W Handle) where
  pub Gives-of_ok :
      {A : Type 0} (call : Io W A) {w : W} {a : A} → (call w).0 ≡ ok a → Gives call w a (call w).1
  Gives-of_ok call {w} e = record { run = ap (λ r. (r, (call w).1)) e }

  -- The handle is what the opening of the verified record gave, which ended in this world.
  pub record IsOpened (fuel : ℕ) (r : FileRecord) (hash : Text) (share_delete : Bool)
      (file : Handle) (w' : W) : Type 0 where
    pub w : W
    pub opened : Gives (open_verified_record is_windows p os fuel r hash share_delete) w file w'
    pub verified : IsVerified is_windows p os r hash file

  pub Gives-IsOpened :
      (fuel : ℕ) (r : FileRecord) (hash : Text) (share_delete : Bool) {w : W} {file : Handle}
      {w' : W}
      → Gives (open_verified_record is_windows p os fuel r hash share_delete) w file w'
      → IsOpened fuel r hash share_delete file w'
  Gives-IsOpened fuel r hash share_delete h = record {
    w = _;
    opened = h;
    verified = open_verified_record-IsVerified is_windows p os fuel r hash share_delete h;
  }

  -- A candidate that fails to verify ends the search or hands on to the next.
  keeper_after :
      (fuel : ℕ) (c : FileRecord) (rest : List FileRecord) (hash : Text) (s : KeeperLoop) (w : W)
      (e : Err)
      → (open_verified_record is_windows p os fuel c hash false w).0 ≡ err e
      → (st : RecycleStatus) → verification_status e ≡ st
      → ((next_keeper is_windows p os fuel (c ∷ rest) hash s w).0 ≡ unverified cancelled e)
        ⊎ ((s' : KeeperLoop) × (w' : W) × (next_keeper is_windows p os fuel (c ∷ rest) hash s w
              ≡ next_keeper is_windows p os fuel rest hash s' w'))
  unfolding next_keeper
  keeper_after fuel c rest hash s w e q cancelled h = inl (ground arith)
  keeper_after fuel c rest hash s w e q skipped_changed h = inr (
    record s { last_error = some e; saw_changed = true },
    (open_verified_record is_windows p os fuel c hash false w).1,
    ground arith,
  )
  keeper_after fuel c rest hash s w e q skipped_protected h = inr (
    record s { last_error = some e; saw_protected = true },
    (open_verified_record is_windows p os fuel c hash false w).1,
    ground arith,
  )
  keeper_after fuel c rest hash s w e q failed h = inr (
    record s { last_error = some e },
    (open_verified_record is_windows p os fuel c hash false w).1,
    ground arith,
  )
  keeper_after fuel c rest hash s w e q recycled h = inr (
    record s { last_error = some e },
    (open_verified_record is_windows p os fuel c hash false w).1,
    ground arith,
  )

  -- A keeper that is returned is one of the candidates and was opened last, as a verified record.
  next_keeper-IsOpened :
      (fuel : ℕ) (candidates : List FileRecord) (hash : Text) (s : KeeperLoop) (w : W)
      (file : Handle)
      → (next_keeper is_windows p os fuel candidates hash s w).0 ≡ verified file
      → (k : FileRecord) × Memᴰ k candidates
        × IsOpened fuel k hash false file (next_keeper is_windows p os fuel candidates hash s w).1
  unfolding next_keeper
  next_keeper-IsOpened fuel [] hash s w file h = absurd (no_keeper-verified s h)
  next_keeper-IsOpened fuel (c ∷ rest) hash s w file h =
      let call = open_verified_record is_windows p os fuel c hash false in
      elim (Result-cases (call w).0) [
        | inl (e, q) ↦ elim (keeper_after fuel c rest hash s w e q (verification_status e) refl) [
          | inl k ↦ absurd (ground arith)
          | inr (s', w', k) ↦
              let (keeper, m, v) =
                next_keeper-IsOpened fuel rest hash s' w' file (sym (ap (λ r. r.0) k) ∙ h) in
              (
                keeper,
                Memᴰ.tail m,
                subst (IsOpened fuel keeper hash false file) (sym (ap (λ r. r.1) k)) v,
              )
        ]
        | inr (found, q) ↦
            let same : found ≡ file = ground arith in
            let opened = Gives-IsOpened fuel c hash false (Gives-of_ok call q) in
            let at : (call w).1 ≡ (next_keeper is_windows p os fuel (c ∷ rest) hash s w).1 =
              ground arith in
            (
              c,
              Memᴰ.head refl,
              subst
                  (λ f.
                    IsOpened fuel c hash false f
                      (next_keeper is_windows p os fuel (c ∷ rest) hash s w).1)
                  same (subst (IsOpened fuel c hash false found) at opened),
            )
      ]

  next_keeper-recycled :
      (fuel : ℕ) (candidates : List FileRecord) (hash : Text) (s : KeeperLoop) (w : W) (e : Err)
      → (next_keeper is_windows p os fuel candidates hash s w).0 ≢ unverified recycled e
  unfolding next_keeper
  next_keeper-recycled fuel [] hash s w e h = no_keeper-recycled s h
  next_keeper-recycled fuel (c ∷ rest) hash s w e h =
      elim (Result-cases (open_verified_record is_windows p os fuel c hash false w).0) [
        | inl (e', q) ↦
            elim (keeper_after fuel c rest hash s w e' q (verification_status e') refl) [
              | inl k ↦ absurd (ground arith)
              | inr (s', w', k) ↦
                  next_keeper-recycled fuel rest hash s' w' e (sym (ap (λ r. r.0) k) ∙ h)
            ]
        | inr (found, q) ↦ absurd (ground arith)
      ]

  -- The evidence behind a confirmed removal, from one world to another.
  pub record IsConfirmed (target : FileRecord) (receipt : RecycleReceipt) (start done : W)
      : Type 0 where
    pub confirmed : receipt.confirmed ≡ true
    pub same : receipt.identity ≡ target.identity
    pub stored : (receipt.destination == []) ≡ false
    pub asked : W
    pub alive : Gives (check_ctx os) start tt asked
    pub absent : Gives (verify_source_path_absent is_windows p os target) asked tt done

  confirm_recycled-IsConfirmed :
      (target : FileRecord) (receipt : RecycleReceipt) (w : W)
      → (confirm_recycled is_windows p os target receipt w).0.status ≡ recycled
      → IsConfirmed target receipt w (confirm_recycled is_windows p os target receipt w).1
  unfolding confirm_recycled recycle_item
  confirm_recycled-IsConfirmed target receipt w h =
      let v = (check_ctx os w).1 in
      let alive : (check_ctx os w).0 ≡ ok tt = ground arith in
      let found : (verify_source_path_absent is_windows p os target v).0 ≡ ok tt = ground arith in
      let last : (verify_source_path_absent is_windows p os target v).1
          ≡ (confirm_recycled is_windows p os target receipt w).1 =
        ground arith in
      record {
        confirmed = ground arith;
        same = ground arith;
        stored = ground arith;
        asked = v;
        alive = Gives-of_ok (check_ctx os) alive;
        absent =
            subst (λ d. Gives (verify_source_path_absent is_windows p os target) v tt d) last
              (Gives-of_ok (verify_source_path_absent is_windows p os target) found);
      }

  -- From one world to another nothing is called but the context, the adapter, with the handle of
  -- the target, and the confirmation.
  pub record IsTaken (adapter : RecycleAdapter W Handle) (target : FileRecord) (file : Handle)
      (start done : W) : Type 0 where
    pub receipt : RecycleReceipt
    pub before : W
    pub after : W
    pub alive : Gives (check_ctx os) start tt before
    pub returned : Gives (adapter.recycle target.path file target.identity) before receipt after
    pub confirmed : IsConfirmed target receipt after done

  recycle_target-IsTaken :
      (adapter : RecycleAdapter W Handle) (target : FileRecord) (file : Handle) (w : W)
      → (recycle_target is_windows p os adapter target file w).0.status ≡ recycled
      → IsTaken adapter target file w (recycle_target is_windows p os adapter target file w).1
  unfolding recycle_target recycle_item
  recycle_target-IsTaken adapter target file w h =
      let v = (check_ctx os w).1 in
      let call = adapter.recycle target.path file target.identity in
      elim (Result-cases (call v).0) [
        | inl (e, q) ↦ absurd (ground (arith, adapter_status-recycled e))
        | inr (receipt, q) ↦
            let alive : (check_ctx os w).0 ≡ ok tt = ground arith in
            let last : (confirm_recycled is_windows p os target receipt (call v).1).1
                ≡ (recycle_target is_windows p os adapter target file w).1 =
              ground arith in
            record {
              receipt = receipt;
              before = v;
              after = _;
              alive = Gives-of_ok (check_ctx os) alive;
              returned = Gives-of_ok call q;
              confirmed =
                  subst (IsConfirmed target receipt (call v).1) last
                    (confirm_recycled-IsConfirmed target receipt (call v).1 (ground arith));
            }
      ]

  -- Why an item may be reported as recycled, as the calls in their order, each of which starts in
  -- the world that the one before left: a keeper is opened and verified, then the target, the
  -- system takes this very file, and only then both handles are closed.
  pub record IsRecycled (fuel : ℕ) (request : ValidatedRecycleRequest)
      (adapter : RecycleAdapter W Handle) (target : FileRecord) (last : W) : Type 0 where
    pub keeper : FileRecord
    pub keeper_file : Handle
    pub file : Handle
    pub listed : Memᴰ keeper request.keepers
    pub held : W
    pub ready : W
    pub done : W
    pub kept : IsOpened fuel keeper request.group_hash false keeper_file held
    pub found :
        Gives
          (open_verified_record is_windows p os fuel target request.group_hash true)
          held
          file
          ready
    pub verified : IsVerified is_windows p os target request.group_hash file
    pub taken : IsTaken adapter target file ready done
    pub closed : last ≡ close_quietly os keeper_file (close_quietly os file done)

  -- A target is reported as recycled only when a listed keeper was opened and verified, directly
  -- after it the target, the adapter was called with the handle of the target, its receipt is
  -- confirmed and names the target's own identity, nothing was left at the target's path, and only
  -- then the two handles were closed.
  pub recycle_one-IsRecycled :
      (fuel : ℕ) (adapter : RecycleAdapter W Handle) (request : ValidatedRecycleRequest)
      (target : FileRecord) (w : W)
      → (recycle_one is_windows p os fuel adapter request target w).0.status ≡ recycled
      → IsRecycled fuel request adapter target
          (recycle_one is_windows p os fuel adapter request target w).1
  unfolding recycle_one recycle_item open_verified_keeper
  recycle_one-IsRecycled fuel adapter request target w h =
      let start : KeeperLoop = record {
        last_error = none;
        saw_changed = false;
        saw_protected = false;
      } in
      let (k, w1) =
        open_verified_keeper is_windows p os fuel request.keepers request.group_hash w in
      let call = open_verified_record is_windows p os fuel target request.group_hash true in
      elim (KeeperResult-cases k) [
        | inl (st, e, q) ↦
            let no_more : k ≡ unverified recycled e = ground arith in
            absurd (next_keeper-recycled fuel request.keepers request.group_hash start w e no_more)
        | inr (keeper, q) ↦ elim (Result-cases (call w1).0) [
          | inl (e, q') ↦ absurd (ground (arith, verification_status-recycled e))
          | inr (file, q') ↦
              let (member, listed, kept) =
                next_keeper-IsOpened fuel request.keepers request.group_hash start w keeper q in
              record {
                keeper = member;
                keeper_file = keeper;
                file = file;
                listed = listed;
                held = w1;
                ready = (call w1).1;
                done = _;
                kept = kept;
                found = Gives-of_ok call q';
                verified =
                    open_verified_record-IsVerified is_windows p os fuel target request.group_hash
                      true (Gives-of_ok call q');
                taken = recycle_target-IsTaken adapter target file (call w1).1 (ground arith);
                closed = ground arith;
              }
        ]
      ]
