-- ===== src/Scanner/Hardlink/Report.antt =====
-- internal/scanner/hardlink.go: the items that a consolidation request reports.
use twin_tidy.Base.{ℕ, ◌≡◌, Bool, some, List, [], ◌∷◌, map}
use twin_tidy.Scanner.Types.{FileRecord, RecycleRequest, Err}
use twin_tidy.Scanner.Platform.{Platform}
use twin_tidy.Scanner.Io.{Os}
use twin_tidy.Scanner.Recycle.{ValidatedRecycleRequest}
use twin_tidy.Scanner.Hardlink.{HardlinkResult}
use twin_tidy.Scanner.Hardlink.Windows.{
  Links, HardlinkItemResult, hardlink_item, consolidated, failed,
}
use twin_tidy.Scanner.Hardlink.Outcome.{IsConsolidated}

module _ (is_windows : Bool) (p : Platform) {W Handle : Type 0} (os : Os W Handle)
    (links : Links W Handle) where
  -- One item for each target, in order: it names the target's path, and says "consolidated" only
  -- with the evidence.
  abbrev pub Accounts :
      ℕ → ValidatedRecycleRequest → List FileRecord → List HardlinkItemResult → Type 0
  Accounts fuel request [] [] = Unit
  Accounts fuel request (t ∷ targets) (item ∷ items) =
      (item.path ≡ t.path)
      × (item.status ≡ consolidated
          → (last : W) × IsConsolidated is_windows p os fuel links request t last)
      × Accounts fuel request targets items
  Accounts fuel request _ _ = ⊥

  -- The request is refused: nothing changes, and each selected path has a failed item.
  abbrev pub IsRefused : RecycleRequest → W → Err → HardlinkResult × W → Type 0
  IsRefused request w e r =
      (r.1 ≡ w)
      × (r.0.items ≡ map (λ s. hardlink_item s.path failed (some e)) request.selected)
      × (r.0.request_error ≡ some e)
