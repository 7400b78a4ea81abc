-- ===== src/Scanner/Groups/Completion.antt =====
-- internal/scanner/engine.go: how a scan of the size groups ends.
use twin_tidy.Base.{
  sort_slice, ℕ, ◌≡◌, refl, false, none, List, [], ◌∷◌, map, inl, inr, Eq, All, Text, filter_by,
  arith,
}
use twin_tidy.Scanner.Types.{FileRecord, DuplicateGroup, Err, Result-cases, ok, err}
use twin_tidy.Scanner.Groups.{
  larger, duplicate_group, Arrival, Stage, Workers, boundary_eq, full_eq, is_shared, is_fatal,
  keyed, add_arrival, collect, collected, at_end, map_by_boundary_hash, map_by_full_hash,
  files_from_duplicate_size_groups, files_from_boundary_groups, full_stage, boundary_stage,
  scan_size_groups,
}

-- The result arrives before the context ends, and it is no fatal error.
pub record IsCalm {K : Type 0} (a : Arrival K) : Type 0 where
  pub running : a.ctx ≡ none
  pub harmless : (e : Err) → a.outcome ≡ err e → is_fatal e ≡ false

-- Nothing stops the scan.
pub record IsUnstopped (w : Workers) : Type 0 where
  pub start : w.start ≡ none
  pub boundary : (files : List FileRecord) → All IsCalm (w.boundary files)
  pub boundary_end : w.boundary_end ≡ none
  pub full : (files : List FileRecord) → All IsCalm (w.full files)
  pub full_end : w.full_end ≡ none

module _ {K : Type 0} ⦃i : Eq K⦄ where
  add_arrival-fatal :
      (a : Arrival K) (s : Stage K) → IsCalm a → s.fatal ≡ none → (add_arrival a s).fatal ≡ none
  unfolding add_arrival
  add_arrival-fatal a s calm clean = elim (Result-cases a.outcome) [
    | inl (e, q) ↦ let h = calm.harmless e q in ground arith
    | inr (k, q) ↦ ground arith
  ]

  collect_total :
      (arrivals : List (Arrival K)) (s : Stage K)
      → All IsCalm arrivals
      → s.fatal ≡ none
      → (s' : Stage K) × (collect arrivals s ≡ ok s') × (s'.fatal ≡ none)
  unfolding collect
  collect_total [] s calm clean = (s, refl, clean)
  collect_total (a ∷ arrivals) s calm clean =
      let (s', q, clean') =
        collect_total arrivals (add_arrival a s) calm.1 (add_arrival-fatal a s calm.0 clean) in
      (s', ground (arith, calm.0.running), clean')

  collected_total :
      (arrivals : List (Arrival K)) (ignored : ℕ)
      → All IsCalm arrivals
      → (s : Stage K) × (collected arrivals ignored ≡ ok s)
  unfolding collected
  collected_total arrivals ignored calm =
      let (s, q, clean) =
        collect_total arrivals (record { groups = []; fatal = none; ignored = ignored }) calm
          refl in
      (s, ground arith)

keyed-IsCalm :
    (arrivals : List (Arrival Text)) → All IsCalm arrivals → All IsCalm (map keyed arrivals)
unfolding keyed
keyed-IsCalm [] calm = tt
keyed-IsCalm (a ∷ arrivals) calm = (
  record {
    running = calm.0.running;
    harmless = λ e q. elim (Result-cases a.outcome) [
      | inl (e', q') ↦ calm.0.harmless e (ground arith)
      | inr (hash, q') ↦ absurd (ground arith)
    ];
  },
  keyed-IsCalm arrivals calm.1,
)

full_stage_total :
    (w : Workers) (ignored : ℕ) (files : List FileRecord)
    → IsUnstopped w
    → (ds : List DuplicateGroup) × (full_stage w ignored files ≡ ok ds)
unfolding full_stage map_by_full_hash at_end
full_stage_total w ignored [] u = ([], refl)
full_stage_total w ignored (f ∷ files) u =
    let (s, q) =
      collected_total (map keyed (w.full (f ∷ files))) ignored
        (keyed-IsCalm (w.full (f ∷ files)) (u.full (f ∷ files))) in
    let all : map_by_full_hash (w.full (f ∷ files)) ignored w.full_end
        ≡ ok (sort_slice larger (map duplicate_group (filter_by is_shared s.groups)), s.ignored) =
      ground (arith, u.full_end) in
    (sort_slice larger (map duplicate_group (filter_by is_shared s.groups)), ground arith)

boundary_stage_total :
    (w : Workers) (ignored : ℕ) (files : List FileRecord)
    → IsUnstopped w
    → (ds : List DuplicateGroup) × (boundary_stage w ignored files ≡ ok ds)
unfolding boundary_stage map_by_boundary_hash at_end
boundary_stage_total w ignored [] u = ([], refl)
boundary_stage_total w ignored (f ∷ files) u =
    let (s, q) = collected_total (w.boundary (f ∷ files)) ignored (u.boundary (f ∷ files)) in
    let found = filter_by is_shared s.groups in
    let (ds, r) = full_stage_total w s.ignored (files_from_boundary_groups found) u in
    let all : map_by_boundary_hash (w.boundary (f ∷ files)) ignored w.boundary_end
        ≡ ok (found, s.ignored) =
      ground (arith, u.boundary_end) in
    (ds, ground arith)

-- A scan returns its groups when the context does not end and no worker meets a changed root or a
-- missing scope: a file that cannot be hashed for another reason is left out and does not stop it.
pub scan_size_groups_total :
    (w : Workers) (size_groups : List (ℕ × List FileRecord)) (ignored : ℕ)
    → IsUnstopped w
    → (ds : List DuplicateGroup) × (scan_size_groups w size_groups ignored ≡ ok ds)
unfolding scan_size_groups
scan_size_groups_total w size_groups ignored u =
    let (ds, r) = boundary_stage_total w ignored (files_from_duplicate_size_groups size_groups) u in
    (ds, ground (arith, u.start))
