-- ===== src/Scanner/Hardlink/Places.antt =====
-- internal/scanner/hardlink_windows.go: where the candidate stands, and the calls beside its rename.
use twin_tidy.Base.{Option, none, some, ℕ, ◌≡◌, Bool, true, false, List, Text}
use twin_tidy.Scanner.Types.{FileIdentity, Err, Result, ok, err}
use twin_tidy.Scanner.Platform.{Platform}
use twin_tidy.Scanner.Io.{
  close_quietly, Io, Os, ◌>>=◌, ◌>>◌, return, reject_if, on_error, check_ctx,
}
use twin_tidy.Scanner.Snapshot.{open_file_snapshot, snapshot_open_file}
use twin_tidy.Scanner.Hardlink.Buffer.{but_last, rename_buffer}
use twin_tidy.Scanner.Hardlink.Windows.{
  Links, consolidation_backup_path, verify_path_has_identity, consolidation_paths,
}

-- Steps that leave an object where it is: `At w path` says that it stands at the path.
module _ {W : Type 0} (At : W → Text → Type 0) where
  abbrev pub Keeps : {A : Type 0} → Io W A → Type 0
  Keeps call = (w : W) (path : Text) → At w path → At (call w).1 path

  after_bind :
      {A B : Type 0} (next : A → Io W B) (path : Text) (r : Result A × W)
      → ((a : A) → Keeps (next a))
      → At r.1 path
      → At (elim r.0 as (λ _. Result B × W) [ err e ↦ (err e, r.1) | ok a ↦ next a r.1 ]).1 path
  after_bind next path (err e, w) keeps here = here
  after_bind next path (ok a, w) keeps here = keeps a w path here

  pub Keeps->>= :
      {A B : Type 0} (first : Io W A) (next : A → Io W B)
      → Keeps first
      → ((a : A) → Keeps (next a))
      → Keeps (first >>= next)
  unfolding ◌>>=◌
  Keeps->>= first next h k w path here = after_bind next path (first w) k (h w path here)

  after_then :
      {B : Type 0} (next : Io W B) (path : Text) (r : Result (Unit {0}) × W)
      → Keeps next
      → At r.1 path
      → At (elim r.0 as (λ _. Result B × W) [ err e ↦ (err e, r.1) | ok _ ↦ next r.1 ]).1 path
  after_then next path (err e, w) keeps here = here
  after_then next path (ok a, w) keeps here = keeps w path here

  pub Keeps->> :
      {B : Type 0} (first : Io W (Unit {0})) (next : Io W B)
      → Keeps first
      → Keeps next
      → Keeps (first >> next)
  unfolding ◌>>◌
  Keeps->> first next h k w path here = after_then next path (first w) k (h w path here)

  pub Keeps-reject_if : (test : Bool) (e : Err) → Keeps (reject_if test e)
  unfolding reject_if
  Keeps-reject_if true e w path here = here
  Keeps-reject_if false e w path here = here

  after_error :
      {A : Type 0} (cleanup : W → W) (path : Text) (r : Result A × W)
      → ((w : W) (path : Text) → At w path → At (cleanup w) path)
      → At r.1 path
      → At
          (elim r.0 as (λ _. Result A × W) [ err e ↦ (err e, cleanup r.1) | ok a ↦ (ok a, r.1) ]).1
          path
  after_error cleanup path (err e, w) keeps here = keeps w path here
  after_error cleanup path (ok a, w) keeps here = here

  pub Keeps-on_error :
      {A : Type 0} (cleanup : W → W) (call : Io W A)
      → ((w : W) (path : Text) → At w path → At (cleanup w) path)
      → Keeps call
      → Keeps (on_error cleanup call)
  unfolding on_error
  Keeps-on_error cleanup call h k w path here = after_error cleanup path (call w) h (k w path here)

  pub Keeps-return : {A : Type 0} (a : A) → Keeps (return a)
  unfolding return
  Keeps-return a w path here = here

module _ (p : Platform) {W Handle : Type 0} (os : Os W Handle) (links : Links W Handle)
    (file : Handle) (At : W → Text → Type 0) where
  -- What the system promises of an open file that nobody else may delete: only a rename or a
  -- disposal through its own handle moves it, and only where the call succeeds.
  pub record IsPlaced : Type 0 where
    pub context : (w : W) (path : Text) → At w path → At (os.ctx_err w).1 path
    pub opened : (name : Text) → Keeps At (os.open_file name)
    pub closed : (other : Handle) → Keeps At (os.close other)
    pub stated : (other : Handle) → Keeps At (os.stat other)
    pub resolved : (other : Handle) → Keeps At (os.final_path other)
    pub snapped : (other : Handle) (name : Text) → Keeps At (os.platform_snapshot other name)
    pub drawn : Keeps At links.random_hex
    pub linked : (old new : Text) → Keeps At (links.link old new)
    pub inspected : Keeps At (links.is_read_only file)
    pub cleared : Keeps At (links.clear_read_only file)
    pub moved :
        (path : Text) (units : List ℕ) (w : W)
        → links.utf16 path ≡ ok units
        → (links.set_rename_info file (rename_buffer (but_last units)) w).0 ≡ ok tt
        → At (links.set_rename_info file (rename_buffer (but_last units)) w).1 path
    pub unmoved :
        (buffer : List ℕ) (w : W) (e : Err) (path : Text)
        → (links.set_rename_info file buffer w).0 ≡ err e
        → At w path
        → At (links.set_rename_info file buffer w).1 path
    pub undisposed :
        (w : W) (e : Err) (path : Text)
        → (links.set_disposition file w).0 ≡ err e
        → At w path
        → At (links.set_disposition file w).1 path

  module _ (placed : IsPlaced) where
    pub Keeps-check_ctx : Keeps At (check_ctx os)
    unfolding check_ctx
    Keeps-check_ctx w path here = go (os.ctx_err w) (placed.context w path here)
      where
        go :
            (r : Option Err × W)
            → At r.1 path
            → At
                (elim r.0 as (λ _. Result (Unit {0}) × W) [
                  | none ↦ (ok tt, r.1)
                  | some e' ↦ (err e', r.1)
                ]).1
                path
        go (none, v) h = h
        go (some e, v) h = h

    Keeps-open_file_snapshot : (name : Text) → Keeps At (open_file_snapshot true p os name)
    unfolding open_file_snapshot snapshot_open_file
    Keeps-open_file_snapshot name = Keeps->>= At _ _ (placed.opened name) (λ other.
        Keeps->>= At _ _
          (Keeps-on_error At (close_quietly os other) (snapshot_open_file true p os other name)
            (placed.closed other)
            (Keeps->>= At _ _ (placed.stated other) (λ info.
              Keeps->> At _ _ (Keeps-reject_if At _ _) (
                Keeps->>= At _ _ (placed.snapped other name)
                  (λ snap. Keeps->> At _ _ (Keeps-reject_if At _ _) (Keeps-return At _))))))
          (λ snapshot. Keeps-return At _))

    pub Keeps-verify_path_has_identity :
        (name : Text) (expected : FileIdentity)
        → Keeps At (verify_path_has_identity p os links name expected)
    unfolding verify_path_has_identity
    Keeps-verify_path_has_identity name expected =
        Keeps->>= At _ _ (Keeps-open_file_snapshot name)
          (λ found w path here. placed.closed found.0 _ path (Keeps-reject_if At _ _ w path here))

    pub Keeps-consolidation_paths :
        (keeper_file : Handle) → Keeps At (consolidation_paths p os links keeper_file file)
    unfolding consolidation_paths consolidation_backup_path
    Keeps-consolidation_paths keeper_file =
        Keeps->>= At _ _ (placed.resolved keeper_file) (λ keeper_final.
          Keeps->>= At _ _ (placed.resolved file) (λ final.
            Keeps->>= At _ _ (Keeps->>= At _ _ placed.drawn (λ suffix. Keeps-return At _))
              (λ backup. Keeps-return At _)))
