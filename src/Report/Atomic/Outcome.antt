-- ===== src/Report/Atomic/Outcome.antt =====
-- internal/report/report.go: what became of the destination and of the staging file of an atomic write.
use twin_tidy.Base.{
  ==_iff, ℕ, ◌≡◌, ◌≢◌, ◌⊎◌, refl, ap, subst, Bool-cases, Option, none, some, inl, inr, [], Text,
  bytes, ◌==◌, nat_eq, text_eq, arith,
}
use twin_tidy.Scanner.Types.{Err, Result-cases, ok, err, other}
use twin_tidy.Scanner.Io.{Gives, Gives->>}
use twin_tidy.Report.Atomic.{
  Files, Writer, check_files, context_write, settle, publish, remove_quietly, abandon, write_staged,
  write_file_atomic,
}
use twin_tidy.Report.Atomic.Keeping.{
  Option-cases, IsSeparate, check_files-Old, context_write-Old, settle-Old, remove_quietly-Old,
  publish-Old,
}

module _ {W Handle : Type 0} (files : Files W Handle) (path : Text) (Old : W → Type 0) where
  -- The callback changes the world only by its writer.
  pub record IsConfined (produce : Writer (W × ℕ) → (W × ℕ) → Option Err × (W × ℕ)) : Type 1 where
    pub confined :
        (writer : Writer (W × ℕ)) (I : W × ℕ → Type 0)
        → ((content : Text) (s : W × ℕ) → I s → I (writer content s).1)
        → (s : W × ℕ) → I s
        → I (produce writer s).1

  -- No staging file was made.
  pub IsEarly : W → Type 0
  IsEarly w =
      (path ≡ [])
      ⊎ ((e : Err) × ((check_files files w).0 ≡ err e))
      ⊎ ((e : Err) × ((files.create_temp (files.dir path) (bytes ".twintidy-report-*")
              (check_files files w).1).0
            ≡ err e))

  -- The staging file that the system made for this call.
  pub IsStaging : W → Handle → Text → W → Type 0
  IsStaging w file name opened =
      Gives (files.create_temp (files.dir path) (bytes ".twintidy-report-*"))
        (check_files files w).1 (file, name) opened

  -- The destination is as it was, and the staging file, if it was made, was removed last.
  pub record IsUntouched (w : W) (r : (ℕ × Option Err) × W) : Type 0 where
    pub e : Err
    pub failed : r.0.1 ≡ some e
    pub old : Old r.1
    pub removed :
        IsEarly w
        ⊎ ((file : Handle) × (name : Text) × (opened : W) × (before : W) × IsStaging w file name
              opened
            × (r.1 ≡ remove_quietly files name before))

  -- The callback wrote the staging file without an error, the file was synchronized and closed, and
  -- the staging file, and no other, was renamed to the destination last.
  pub record IsPublished (produce : Writer (W × ℕ) → (W × ℕ) → Option Err × (W × ℕ)) (w : W)
      (r : (ℕ × Option Err) × W) : Type 0 where
    pub file : Handle
    pub name : Text
    pub opened : W
    pub filled : W
    pub closed : W
    pub before : W
    pub done : r.0.1 ≡ none
    pub staging : IsStaging w file name opened
    pub produced : produce (context_write files file) (opened, 0) ≡ (none, (filled, r.0.0))
    pub settled : Gives (settle files file) filled tt closed
    pub alive : Gives (check_files files) closed tt before
    pub renamed : Gives (files.rename name path) before tt r.1

  abbrev pub IsAtomic :
      (Writer (W × ℕ) → (W × ℕ) → Option Err × (W × ℕ)) → W → (ℕ × Option Err) × W → Type 0
  IsAtomic produce w r = IsUntouched w r ⊎ IsPublished produce w r

  module _ (sep : IsSeparate files path Old) where
    module _ (produce : Writer (W × ℕ) → (W × ℕ) → Option Err × (W × ℕ)) (start : W) (file : Handle)
        (name : Text) (opened : W) (staging : IsStaging start file name opened)
        (apart : name ≢ path) where
      abandon-IsUntouched :
          (n : ℕ) (e : Err) (w : W)
          → Old w
          → IsAtomic produce start ((n, some e), abandon files file name w)
      unfolding abandon
      abandon-IsUntouched n e w old = inl (record {
        e = e;
        failed = refl;
        old =
            remove_quietly-Old files path Old sep name (files.close file w).1 apart
              (sep.closed file w old);
        removed = inr (file, name, opened, (files.close file w).1, staging, refl);
      })

      publish-IsPublished :
          (n : ℕ) (filled closed : W)
          → produce (context_write files file) (opened, 0) ≡ (none, (filled, n))
          → Gives (settle files file) filled tt closed
          → (publish files name path closed).0 ≡ ok tt
          → IsPublished produce start ((n, none), (publish files name path closed).1)
      unfolding publish
      publish-IsPublished n filled closed produced settled h =
          let (w1, alive, renamed) =
            Gives->> _ _ (record { run = ap (λ r. (r, (publish files name path closed).1)) h }) in
          record {
            file = file;
            name = name;
            opened = opened;
            filled = filled;
            closed = closed;
            before = w1;
            done = refl;
            staging = staging;
            produced = produced;
            settled = settled;
            alive = alive;
            renamed = renamed;
          }

      write_staged-IsAtomic :
          IsConfined produce
          → Old opened
          → IsAtomic produce start (write_staged files file name path produce opened)
      unfolding write_staged
      write_staged-IsAtomic confined old =
          let (e, s) = produce (context_write files file) (opened, 0) in
          let old1 =
            confined.confined (context_write files file) (λ t. Old t.0)
              (context_write-Old files path Old sep file) (opened, 0) old in
          let settled = settle files file s.0 in
          let old2 = settle-Old files path Old sep file s.0 old1 in
          let published = publish files name path settled.1 in
          elim (Option-cases e) [
            | inr (e', q) ↦
                subst (IsAtomic produce start) (ground arith) (abandon-IsUntouched s.1 e' s.0 old1)
            | inl q ↦ elim (Result-cases settled.0) [
              | inl (e', q') ↦
                  subst (IsAtomic produce start) (ground arith)
                    (abandon-IsUntouched s.1 e' settled.1 old2)
              | inr (_, q') ↦ elim (Result-cases published.0) [
                | inl (e', r) ↦
                    let failed : IsAtomic produce start
                        ((s.1, some e'), remove_quietly files name published.1) =
                      inl (record {
                        e = e';
                        failed = refl;
                        old =
                            remove_quietly-Old files path Old sep name published.1 apart
                              (publish-Old files path Old sep name settled.1 e' r old2);
                        removed = inr (file, name, opened, published.1, staging, refl);
                      }) in
                    subst (IsAtomic produce start) (ground arith) failed
                | inr (_, r) ↦
                    let done : IsAtomic produce start ((s.1, none), published.1) = inr (
                      publish-IsPublished s.1 s.0 settled.1 (ap (λ o. (o, s)) q)
                        (record { run = ap (λ o. (o, settled.1)) q' }) r) in
                    subst (IsAtomic produce start) (ground arith) done
              ]
            ]
          ]

    -- When WriteFileAtomic returns an error, the destination is as it was, and the staging file, if
    -- it was made, was removed at the end; when it returns none, the callback wrote the staging file
    -- without an error, the file was synchronized and closed, and the last step renamed this file
    -- to the destination. The callback writes only through its writer, and a new staging file is
    -- not the destination.
    pub write_file_atomic-IsAtomic :
        (produce : Writer (W × ℕ) → (W × ℕ) → Option Err × (W × ℕ)) (w : W)
        → IsConfined produce
        → Old w
        → IsAtomic produce w (write_file_atomic files path produce w)
    unfolding write_file_atomic IsEarly IsStaging
    write_file_atomic-IsAtomic produce w confined old =
        let w1 = (check_files files w).1 in
        let old1 = check_files-Old files path Old sep w old in
        let made = files.create_temp (files.dir path) (bytes ".twintidy-report-*") w1 in
        let old2 = sep.created (files.dir path) (bytes ".twintidy-report-*") w1 old1 in
        elim (Bool-cases (path == [])) [
          | inl empty ↦
              let failed : IsAtomic produce w
                  ((0, some (other (bytes "report path is empty"))), w) =
                inl (record {
                  e = _;
                  failed = refl;
                  old = old;
                  removed = inl (inl ((==_iff path []).0 empty));
                }) in
              subst (IsAtomic produce w) (ground arith) failed
          | inr full ↦ elim (Result-cases (check_files files w).0) [
            | inl (e, q) ↦
                let failed : IsAtomic produce w ((0, some e), w1) =
                  inl (record {
                    e = e;
                    failed = refl;
                    old = old1;
                    removed = inl (inr (inl (e, q)));
                  }) in
                subst (IsAtomic produce w) (ground arith) failed
            | inr (_, q) ↦ elim (Result-cases made.0) [
              | inl (e, q') ↦
                  let failed : IsAtomic produce w ((0, some e), made.1) = inl (record {
                    e = e;
                    failed = refl;
                    old = old2;
                    removed = inl (inr (inr (e, q')));
                  }) in
                  subst (IsAtomic produce w) (ground arith) failed
              | inr (found, q') ↦ subst (IsAtomic produce w) (ground arith) (
                  write_staged-IsAtomic produce w found.0 found.1 made.1
                    (record { run = ap (λ r. (r, made.1)) q' })
                    (sep.fresh (files.dir path) (bytes ".twintidy-report-*") w1 found.0 found.1 q')
                    confined old2)
            ]
          ]
        ]
