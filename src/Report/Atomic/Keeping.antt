-- ===== src/Report/Atomic/Keeping.antt =====
-- internal/report/report.go: the destination during the calls of an atomic write.
use twin_tidy.Base.{
  ℕ, ◌+◌, ◌≡◌, ◌≢◌, ◌⊎◌, refl, sym, subst, Bool-cases, Option, none, some, inl, inr, Text, ◌==◌,
  nat_eq, text_eq, length, arith,
}
use twin_tidy.Scanner.Types.{Err, Result, Result-cases, ok, err}
use twin_tidy.Scanner.Io.{Io, ◌>>◌}
use twin_tidy.Report.Atomic.{
  Files, check_files, written, context_write, settle, publish, remove_quietly,
}

pub Option-cases : (o : Option Err) → (o ≡ none) ⊎ ((e : Err) × (o ≡ some e))
Option-cases none = inl refl
Option-cases (some e) = inr (e, refl)

module _ {W Handle : Type 0} (files : Files W Handle) (path : Text) (Old : W → Type 0) where
  -- `Old w` says that the destination is as it was. A staging file is a file of its own, so that
  -- only a rename to the destination that succeeds changes it.
  pub record IsSeparate : Type 0 where
    pub looked : (w : W) → Old w → Old (files.ctx_err w).1
    pub created : (dir pattern : Text) (w : W) → Old w → Old (files.create_temp dir pattern w).1
    pub fresh :
        (dir pattern : Text) (w : W) (file : Handle) (name : Text)
        → (files.create_temp dir pattern w).0 ≡ ok (file, name)
        → name ≢ path
    pub wrote :
        (file : Handle) (content : Text) (w : W) → Old w → Old (files.write file content w).1
    pub synced : (file : Handle) (w : W) → Old w → Old (files.sync file w).1
    pub closed : (file : Handle) (w : W) → Old w → Old (files.close file w).1
    pub removed : (name : Text) (w : W) → name ≢ path → Old w → Old (files.remove name w).1
    pub not_renamed :
        (name : Text) (w : W) (e : Err)
        → (files.rename name path w).0 ≡ err e
        → Old w
        → Old (files.rename name path w).1

  module _ (sep : IsSeparate) where
    pub check_files-Old : (w : W) → Old w → Old (check_files files w).1
    unfolding check_files
    check_files-Old w h = go (files.ctx_err w) (sep.looked w h)
      where
        go :
            (r : Option Err × W)
            → Old r.1
            → Old
                (elim r.0 as (λ _. Result (Unit {0}) × W) [
                  | none ↦ (ok tt, r.1)
                  | some e' ↦ (err e', r.1)
                ]).1
        go (none, v) k = k
        go (some e, v) k = k

    written-Old :
        (content : Text) (n : ℕ) (w : W) (total : ℕ)
        → Old w
        → Old (written files content n w total).1.0
    unfolding written
    written-Old content n w total h = elim (Bool-cases (n == length content)) [
      | inl all ↦
          let same : (written files content n w total).1.0 ≡ (files.ctx_err w).1 = ground arith in
          subst Old (sym same) (sep.looked w h)
      | inr short ↦ subst (λ (v : W). Old v) (ground arith) h
    ]

    pub context_write-Old :
        (file : Handle) (content : Text) (s : W × ℕ)
        → Old s.0
        → Old (context_write files file content s).1.0
    unfolding context_write
    context_write-Old file content (w, total) h =
        let w1 = (files.ctx_err w).1 in
        let h1 = sep.looked w h in
        let call = files.write file content w1 in
        let h2 = sep.wrote file content w1 h1 in
        elim (Option-cases (files.ctx_err w).0) [
          | inr (e, q) ↦ subst (λ (v : W). Old v) (ground arith) h1
          | inl q ↦ elim (Option-cases call.0.1) [
            | inr (e, q') ↦ subst (λ (v : W). Old v) (ground arith) h2
            | inl q' ↦
                let same : (context_write files file content (w, total)).1.0
                    ≡ (written files content call.0.0 call.1 (total + call.0.0)).1.0 =
                  ground arith in
                subst (λ (v : W). Old v) (sym same)
                  (written-Old content call.0.0 call.1 (total + call.0.0) h2)
          ]
        ]

    then-Old :
        (first next : Io W (Unit {0}))
        → ((w : W) → Old w → Old (first w).1)
        → ((w : W) → Old w → Old (next w).1)
        → (w : W) → Old w
        → Old ((first >> next) w).1
    unfolding ◌>>◌
    then-Old first next h k w old = elim (Result-cases (first w).0) [
      | inl (e, q) ↦ subst Old (ground arith) (h w old)
      | inr (_, q) ↦ subst Old (ground arith) (k (first w).1 (h w old))
    ]

    pub settle-Old : (file : Handle) (w : W) → Old w → Old (settle files file w).1
    unfolding settle
    settle-Old file =
        then-Old _ _ check_files-Old
          (then-Old _ _ (sep.synced file) (then-Old _ _ check_files-Old (sep.closed file)))

    pub remove_quietly-Old :
        (name : Text) (w : W) → name ≢ path → Old w → Old (remove_quietly files name w)
    unfolding remove_quietly
    remove_quietly-Old name w = sep.removed name w

    -- The rename is the last call, so a failure to publish leaves the destination alone.
    pub publish-Old :
        (name : Text) (w : W) (e : Err)
        → (publish files name path w).0 ≡ err e
        → Old w
        → Old (publish files name path w).1
    unfolding publish ◌>>◌
    publish-Old name w e h old =
        let w1 = (check_files files w).1 in
        let old1 = check_files-Old w old in
        elim (Result-cases (check_files files w).0) [
          | inl (e', q) ↦ subst Old (ground arith) old1
          | inr (_, q) ↦ subst Old (ground arith) (sep.not_renamed name w1 e (ground arith) old1)
        ]
