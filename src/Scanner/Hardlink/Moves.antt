-- ===== src/Scanner/Hardlink/Moves.antt =====
-- internal/scanner/hardlink_windows.go: where a rename or a disposal leaves the candidate.
use twin_tidy.Base.{◌≡◌, sym, ap, subst, ◌∙◌, true, false, inl, inr, Text, arith}
use twin_tidy.Scanner.Types.{Err, Result-cases, ok, err}
use twin_tidy.Scanner.Platform.{Platform}
use twin_tidy.Scanner.Io.{Os}
use twin_tidy.Scanner.Hardlink.Buffer.{but_last, rename_buffer}
use twin_tidy.Scanner.Hardlink.Windows.{Links, rename_by_handle, dispose_by_handle}
use twin_tidy.Scanner.Hardlink.Places.{IsPlaced}

module _ (p : Platform) {W Handle : Type 0} (os : Os W Handle) (links : Links W Handle)
    (file : Handle) (At : W → Text → Type 0) (placed : IsPlaced p os links file At) where
  pub rename_by_handle-moved :
      (name : Text) (w : W)
      → (rename_by_handle p os links file name w).0 ≡ ok tt
      → At (rename_by_handle p os links file name w).1 name
  unfolding rename_by_handle
  rename_by_handle-moved name w h = elim (Result-cases (links.utf16 name)) [
    | inl (e, q) ↦ absurd (ground arith)
    | inr (units, q) ↦
        let same : rename_by_handle p os links file name w
            ≡ links.set_rename_info file (rename_buffer (but_last units)) w =
          ground arith in
        subst (λ r. At r.1 name) (sym same)
          (placed.moved name units w q (ap (λ r. r.0) (sym same) ∙ h))
  ]

  pub rename_by_handle-unmoved :
      (name : Text) (w : W) (e : Err) (path : Text)
      → (rename_by_handle p os links file name w).0 ≡ err e
      → At w path
      → At (rename_by_handle p os links file name w).1 path
  unfolding rename_by_handle
  rename_by_handle-unmoved name w e path h here = elim (Result-cases (links.utf16 name)) [
    | inl (e', q) ↦
        let same : (rename_by_handle p os links file name w).1 ≡ w = ground arith in
        subst (λ v. At v path) (sym same) here
    | inr (units, q) ↦
        let same : rename_by_handle p os links file name w
            ≡ links.set_rename_info file (rename_buffer (but_last units)) w =
          ground arith in
        subst (λ r. At r.1 path) (sym same)
          (placed.unmoved (rename_buffer (but_last units)) w e path (ap (λ r. r.0) (sym same) ∙ h)
            here)
  ]

  pub dispose_by_handle-undisposed :
      (w : W) (e : Err) (path : Text)
      → (dispose_by_handle p os links file w).0 ≡ err e
      → At w path
      → At (dispose_by_handle p os links file w).1 path
  unfolding dispose_by_handle
  dispose_by_handle-undisposed w e path h here =
      let w1 = (links.is_read_only file w).1 in
      let w2 = (links.clear_read_only file w1).1 in
      let here1 = placed.inspected w path here in
      let here2 = placed.cleared w1 path here1 in
      elim (Result-cases (links.is_read_only file w).0) [
        | inl (e', q) ↦
            let same : (dispose_by_handle p os links file w).1 ≡ w1 = ground arith in
            subst (λ v. At v path) (sym same) here1
        | inr (false, q) ↦
            let same : dispose_by_handle p os links file w ≡ links.set_disposition file w1 =
              ground arith in
            subst (λ r. At r.1 path) (sym same)
              (placed.undisposed w1 e path (ap (λ r. r.0) (sym same) ∙ h) here1)
        | inr (true, q) ↦ elim (Result-cases (links.clear_read_only file w1).0) [
          | inl (e', q') ↦
              let same : (dispose_by_handle p os links file w).1 ≡ w2 = ground arith in
              subst (λ v. At v path) (sym same) here2
          | inr (_, q') ↦
              let same : dispose_by_handle p os links file w ≡ links.set_disposition file w2 =
                ground arith in
              subst (λ r. At r.1 path) (sym same)
                (placed.undisposed w2 e path (ap (λ r. r.0) (sym same) ∙ h) here2)
        ]
      ]
