-- ===== src/Scanner/Hardlink/Reachable.antt =====
-- internal/scanner/hardlink_windows.go: where the bytes of a candidate are after each step.
use twin_tidy.Base.{bytes, ◌≡◌, ◌≢◌, ◌⊎◌, refl, sym, ap, subst, some, inl, inr, [], Text, arith}
use twin_tidy.Scanner.Types.{FileIdentity, FileRecord, Err, Result, Result-cases, ok, err}
use twin_tidy.Scanner.Types
use twin_tidy.Scanner.Platform.{Platform}
use twin_tidy.Scanner.Io.{Os, Gives, Gives->>=, Gives-return, check_ctx}
use twin_tidy.Scanner.Hardlink.Windows.{
  Links, HardlinkStatus, consolidated, cancelled, failed, HardlinkItemResult, hardlink_item,
  kept_at, rename_by_handle, dispose_by_handle, verify_path_has_identity, restore_or_report,
  dispose_linked, link_vacated, consolidation_paths, rename_aside, consolidate_open,
}
use twin_tidy.Scanner.Hardlink.Moves.{
  rename_by_handle-moved, rename_by_handle-unmoved, dispose_by_handle-undisposed,
}
use twin_tidy.Scanner.Hardlink.Places.{
  IsPlaced, Keeps-check_ctx, Keeps-verify_path_has_identity, Keeps-consolidation_paths,
}

module _ (p : Platform) {W Handle : Type 0} (os : Os W Handle) (links : Links W Handle) where
  -- The path of the open candidate resolves to the keeper's identity, and directly after that the
  -- candidate is disposed of, which is the last call.
  pub record IsSwapped (file : Handle) (keeper : FileRecord) (final : Text) (last : W)
      : Type 0 where
    pub before : W
    pub after : W
    pub resolves : Gives (verify_path_has_identity p os links final keeper.identity) before tt after
    pub disposed : Gives (dispose_by_handle p os links file) after tt last

  -- The path that is resolved before the disposal is the one that the handle of the candidate had
  -- at the start, right after the path of the keeper was asked for.
  pub record IsReplaced (keeper_file file : Handle) (keeper : FileRecord) (start last : W)
      : Type 0 where
    pub keeper_final : Text
    pub final : Text
    pub between : W
    pub after : W
    pub kept : Gives (os.final_path keeper_file) start keeper_final between
    pub named : Gives (os.final_path file) between final after
    pub swapped : IsSwapped file keeper final last

module _ (p : Platform) {W Handle : Type 0} (os : Os W Handle) (links : Links W Handle)
    (file : Handle) (At : W → Text → Type 0) where
  -- The candidate is not consolidated, and its bytes stand where it was, at the target's path, or
  -- at the backup path that the item reports.
  pub record IsKept (start : Text) (target : FileRecord) (item : HardlinkItemResult) (w : W)
      : Type 0 where
    pub status : item.status ≢ consolidated
    pub place : Text
    pub here : At w place
    pub told :
        (place ≡ item.backup_path)
        ⊎ ((item.backup_path ≡ []) × ((place ≡ start) ⊎ (place ≡ target.path)))

  -- While the paths are known.
  abbrev IsOnWay : Text → FileRecord → FileRecord → Text → HardlinkItemResult × W → Type 0
  IsOnWay start keeper target final r =
      IsKept start target r.0 r.1
      ⊎ ((r.0.status ≡ consolidated) × IsSwapped p os links file keeper final r.1)

  abbrev pub IsReachable :
      Text → Handle → FileRecord → FileRecord → W → HardlinkItemResult × W → Type 0
  IsReachable start keeper_file keeper target w r =
      IsKept start target r.0 r.1
      ⊎ ((r.0.status ≡ consolidated) × IsReplaced p os links keeper_file file keeper w r.1)

  module _ (placed : IsPlaced p os links file At) where
    kept_at-IsOnWay :
        (start : Text) (keeper target : FileRecord) (final path : Text) (e : Err) (backup : Text)
        (w : W)
        → At w backup
        → IsOnWay start keeper target final (kept_at path e backup, w)
    unfolding kept_at
    kept_at-IsOnWay start keeper target final path e backup w here = inl (record {
      status = λ h. absurd (ground arith);
      place = backup;
      here = here;
      told = inl refl;
    })

    item-IsKept :
        (start : Text) (target : FileRecord) (status : HardlinkStatus) (e : Err) (w : W)
        → status ≢ consolidated
        → (place : Text) → (place ≡ start) ⊎ (place ≡ target.path)
        → At w place
        → IsKept start target (hardlink_item target.path status (some e)) w
    unfolding hardlink_item
    item-IsKept start target status e w other place known here = record {
      status = other;
      place = place;
      here = here;
      told = inr (refl, known);
    }

    item-IsOnWay :
        (start : Text) (keeper target : FileRecord) (final : Text) (status : HardlinkStatus)
        (e : Err) (w : W)
        → status ≢ consolidated
        → (place : Text) → (place ≡ start) ⊎ (place ≡ target.path)
        → At w place
        → IsOnWay start keeper target final (hardlink_item target.path status (some e), w)
    item-IsOnWay start keeper target final status e w other place known here =
        inl (item-IsKept start target status e w other place known here)

    restore_or_report-IsOnWay :
        (start : Text) (keeper target : FileRecord) (final backup : Text) (status : HardlinkStatus)
        (cause : Err) (w : W)
        → status ≢ consolidated
        → At w backup
        → IsOnWay start keeper target final
            (restore_or_report p os links file target.path backup status cause w)
    unfolding restore_or_report
    restore_or_report-IsOnWay start keeper target final backup status cause w other here =
        let call = rename_by_handle p os links file target.path in
        let result = restore_or_report p os links file target.path backup status cause w in
        elim (Result-cases (call w).0) [
          | inl (e, q) ↦ subst (IsOnWay start keeper target final) (ground arith) (
              kept_at-IsOnWay start keeper target final target.path
                (Types.other (bytes "restore also failed")) backup (call w).1
                (rename_by_handle-unmoved p os links file At placed target.path w e backup q here))
          | inr (_, q) ↦ subst (IsOnWay start keeper target final) (ground arith) (
              item-IsOnWay start keeper target final status cause (call w).1 other target.path
                (inr refl) (rename_by_handle-moved p os links file At placed target.path w q))
        ]

    dispose_linked-IsOnWay :
        (start : Text) (keeper target : FileRecord) (final backup : Text) (w : W)
        → At w backup
        → IsOnWay start keeper target final
            (dispose_linked p os links file keeper target final backup w)
    unfolding dispose_linked hardlink_item
    dispose_linked-IsOnWay start keeper target final backup w here =
        let check = verify_path_has_identity p os links final keeper.identity in
        let w1 = (check w).1 in
        let here1 =
          Keeps-verify_path_has_identity p os links file At placed final keeper.identity w backup
            here in
        let dispose = dispose_by_handle p os links file in
        elim (Result-cases (check w).0) [
          | inl (e, q) ↦
              subst (IsOnWay start keeper target final) (ground arith)
                (kept_at-IsOnWay start keeper target final target.path e backup w1 here1)
          | inr (_, q) ↦ elim (Result-cases (dispose w1).0) [
            | inl (e, q') ↦ subst (IsOnWay start keeper target final) (ground arith) (
                kept_at-IsOnWay start keeper target final target.path e backup (dispose w1).1
                  (dispose_by_handle-undisposed p os links file At placed w1 e backup q' here1))
            | inr (_, q') ↦ inr (
              ground arith,
              record {
                before = w;
                after = w1;
                resolves = record { run = ap (λ r. (r, w1)) q };
                disposed =
                    subst (λ v. Gives dispose w1 tt v) (ground arith)
                      (record { run = ap (λ r. (r, (dispose w1).1)) q' });
              },
            )
          ]
        ]

    link_vacated-IsOnWay :
        (start : Text) (keeper target : FileRecord) (keeper_final final backup : Text) (w : W)
        → At w backup
        → IsOnWay start keeper target final
            (link_vacated p os links file keeper target keeper_final final backup w)
    unfolding link_vacated
    link_vacated-IsOnWay start keeper target keeper_final final backup w here =
        let w1 = (check_ctx os w).1 in
        let here1 = Keeps-check_ctx p os links file At placed w backup here in
        let w2 = (links.link keeper_final final w1).1 in
        let here2 = placed.linked keeper_final final w1 backup here1 in
        elim (Result-cases (check_ctx os w).0) [
          | inl (e, q) ↦ subst (IsOnWay start keeper target final) (ground arith) (
              restore_or_report-IsOnWay start keeper target final backup cancelled e w1
                (λ h. absurd (ground arith)) here1)
          | inr (_, q) ↦ elim (Result-cases (links.link keeper_final final w1).0) [
            | inl (e, q') ↦ subst (IsOnWay start keeper target final) (ground arith) (
                restore_or_report-IsOnWay start keeper target final backup failed e w2
                  (λ h. absurd (ground arith)) here2)
            | inr (_, q') ↦
                subst (IsOnWay start keeper target final) (ground arith)
                  (dispose_linked-IsOnWay start keeper target final backup w2 here2)
          ]
        ]

    rename_aside-IsOnWay :
        (start : Text) (keeper target : FileRecord) (keeper_final final backup : Text) (w : W)
        → At w start
        → IsOnWay start keeper target final
            (rename_aside p os links file keeper target keeper_final final backup w)
    unfolding rename_aside
    rename_aside-IsOnWay start keeper target keeper_final final backup w here =
        let w1 = (check_ctx os w).1 in
        let here1 = Keeps-check_ctx p os links file At placed w start here in
        let rename = rename_by_handle p os links file backup in
        elim (Result-cases (check_ctx os w).0) [
          | inl (e, q) ↦ subst (IsOnWay start keeper target final) (ground arith) (
              item-IsOnWay start keeper target final cancelled e w1 (λ h. absurd (ground arith))
                start (inl refl) here1)
          | inr (_, q) ↦ elim (Result-cases (rename w1).0) [
            | inl (e, q') ↦ subst (IsOnWay start keeper target final) (ground arith) (
                item-IsOnWay start keeper target final failed e (rename w1).1
                  (λ h. absurd (ground arith)) start (inl refl)
                  (rename_by_handle-unmoved p os links file At placed backup w1 e start q' here1))
            | inr (_, q') ↦ subst (IsOnWay start keeper target final) (ground arith) (
                link_vacated-IsOnWay start keeper target keeper_final final backup (rename w1).1
                  (rename_by_handle-moved p os links file At placed backup w1 q'))
          ]
        ]

    on_way-IsReachable :
        (start : Text) (keeper_file : Handle) (keeper target : FileRecord)
        (keeper_final final backup : Text) (w w1 : W)
        → Gives (consolidation_paths p os links keeper_file file) w (keeper_final, final, backup) w1
        → (r : HardlinkItemResult × W) → IsOnWay start keeper target final r
        → IsReachable start keeper_file keeper target w r
    unfolding consolidation_paths
    on_way-IsReachable start keeper_file keeper target keeper_final final backup w w1 found r
          (inl kept) =
        inl kept
    on_way-IsReachable start keeper_file keeper target keeper_final final backup w w1 found r
          (inr (status, swapped)) =
        let (kf, _, kept, h1) = Gives->>= _ _ found in
        let (f, _, named, h2) = Gives->>= _ _ h1 in
        let (_, _, _, h3) = Gives->>= _ _ h2 in
        let same = Gives-return _ h3 in
        inr (
          status,
          record {
            keeper_final = kf;
            final = f;
            between = _;
            after = _;
            kept = kept;
            named = named;
            swapped =
                subst (λ t. IsSwapped p os links file keeper t r.1) (sym (ap (λ t. t.1) same))
                  swapped;
          },
        )

    -- Whatever fails or is cancelled while the candidate is open, either it is consolidated, and the
    -- path that its handle had at the start resolved to the keeper's identity directly before its
    -- disposal, the last call, or its bytes stand where they stood, at the target's path, or at the
    -- backup path that the item reports. The system moves the open candidate only by a rename or a
    -- disposal through its own handle that succeeds.
    pub consolidate_open-IsReachable :
        (start : Text) (keeper_file : Handle) (keeper target : FileRecord) (w : W)
        → At w start
        → IsReachable start keeper_file keeper target w
            (consolidate_open p os links keeper_file file keeper target w)
    unfolding consolidate_open
    consolidate_open-IsReachable start keeper_file keeper target w here =
        let call = consolidation_paths p os links keeper_file file in
        let w1 = (call w).1 in
        let here1 = Keeps-consolidation_paths p os links file At placed keeper_file w start here in
        elim (Result-cases (call w).0) [
          | inl (e, q) ↦ subst (IsReachable start keeper_file keeper target w) (ground arith) (
              inl (
                item-IsKept start target failed e w1 (λ h. absurd (ground arith)) start (inl refl)
                  here1))
          | inr (paths, q) ↦ subst (IsReachable start keeper_file keeper target w) (ground arith) (
              on_way-IsReachable start keeper_file keeper target paths.0 paths.1 paths.2 w w1
                (record { run = ap (λ r. (r, w1)) q }) _
                (rename_aside-IsOnWay start keeper target paths.0 paths.1 paths.2 w1 here1))
        ]
