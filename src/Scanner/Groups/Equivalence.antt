-- ===== src/Scanner/Groups/Equivalence.antt =====
-- internal/scanner/engine.go: the groups of a scan, against the grouping of all its files.
use mathlib.Core.List.Perm
use twin_tidy.Base.{
  ℕ, ◌≤◌, ◌≡◌, sym, subst, List, [], ◌∷◌, map, Memᴰ, Perm, length, filter_by, All, All-map,
  filter_by-Perm, length-Perm, Text, arith,
}
use twin_tidy.Scanner.Types.{FileRecord, DuplicateGroup, Result, ok, >>=-eq-ok}
use twin_tidy.Scanner.Groups.{
  Arrival, Workers, BoundaryKey, FullKey, full_eq, is_shared, keyed, at_end, map_by_boundary_hash,
  size_groups_from_records, files_from_duplicate_size_groups, files_from_boundary_groups,
  full_stage, boundary_stage, scan_size_groups,
}
use twin_tidy.Scanner.Groups.Duplicates.{class_of, IsGroupOf, map_by_full_hash-IsGroupOf}
use twin_tidy.Scanner.Groups.Staged.{
  IsKept, IsKept-trans, IsKept-Perm, many-IsKept, files_at-filter_by,
}
use twin_tidy.Scanner.Groups.Pipeline.{
  IsAnswered, IsConsistent, full_outcome, is_twin, keyed-same, file-keyed, size_stage-IsKept,
  boundary_stage-IsKept,
}

-- The files with the size and the full hash of the key.
unfoldable pub twins : (FileRecord → Result Text) → List FileRecord → FullKey → List FileRecord
twins hash_of files k = filter_by (is_twin hash_of k) files

-- The group shows the size and hash of the key and all files that have them, the newest first.
pub record IsClassOf (hash_of : FileRecord → Result Text) (files : List FileRecord) (k : FullKey)
    (d : DuplicateGroup) : Type 0 where
  pub size : d.size ≡ k.size
  pub hash : d.hash ≡ k.hash
  pub listed : Perm d.files (twins hash_of files k)
  pub many : 2 ≤ length (twins hash_of files k)

-- The groups are the classes of at least two files.
pub record IsGrouping (hash_of : FileRecord → Result Text) (files : List FileRecord)
    (ds : List DuplicateGroup) : Type 0 where
  pub sound : All (λ d. (k : FullKey) × IsClassOf hash_of files k d) ds
  pub complete :
      (k : FullKey)
      → 2 ≤ length (twins hash_of files k)
      → (d : DuplicateGroup) × Memᴰ d ds × IsClassOf hash_of files k d

-- The workers answer for each file that is sent to them.
pub record IsWorking (boundary_of : FileRecord → Result BoundaryKey)
    (hash_of : FileRecord → Result Text) (w : Workers) : Type 0 where
  pub boundary : (files : List FileRecord) → IsAnswered boundary_of files (w.boundary files)
  pub full : (files : List FileRecord) → IsAnswered hash_of files (w.full files)

module _ (boundary_of : FileRecord → Result BoundaryKey) (hash_of : FileRecord → Result Text) where
  class_of-Perm :
      (files : List FileRecord) (arrivals : List (Arrival Text)) (k : FullKey)
      → IsAnswered hash_of files arrivals
      → Perm (class_of arrivals k) (twins hash_of files k)
  unfolding class_of twins is_twin
  class_of-Perm files arrivals k answered =
      subst (λ fs. Perm fs (filter_by (is_twin hash_of k) files))
        (sym (
          files_at-filter_by (full_outcome hash_of) k (map keyed arrivals)
            (keyed-same hash_of arrivals answered.same)))
        (filter_by-Perm (is_twin hash_of k)
          (subst (λ fs. Perm fs files) (sym (file-keyed arrivals)) answered.each))

  -- What follows from a list that holds every duplicate of the files.
  no_files-IsGrouping :
      (files : List FileRecord)
      → ((k : FullKey) → IsKept (is_twin hash_of k) files [])
      → IsGrouping hash_of files []
  unfolding twins filter_by
  no_files-IsGrouping files kept = record {
    sound = tt;
    complete = λ k many.
        let none = length-Perm (IsKept-Perm (is_twin hash_of k) files [] (kept k) many) in
        absurd (ground arith);
  }

  -- A group of the last stage is a class of all files.
  group-IsClassOf :
      (files candidates : List FileRecord) (arrivals : List (Arrival Text)) (k : FullKey)
      (d : DuplicateGroup)
      → IsAnswered hash_of candidates arrivals
      → IsKept (is_twin hash_of k) files candidates
      → IsGroupOf arrivals k d
      → IsClassOf hash_of files k d
  unfolding twins
  group-IsClassOf files candidates arrivals k d answered kept g =
      let class = class_of-Perm candidates arrivals k answered in
      let all =
        many-IsKept (is_twin hash_of k) files candidates kept
          (subst (λ n. 2 ≤ n) (length-Perm class) g.many) in
      let listed = Perm.trans class all in
      record {
        size = g.size;
        hash = g.hash;
        listed = Perm.trans g.files listed;
        many = subst (λ n. 2 ≤ n) (length-Perm listed) g.many;
      }

  full_stage-IsGrouping :
      (w : Workers) (ignored : ℕ) (files candidates : List FileRecord) (ds : List DuplicateGroup)
      → IsWorking boundary_of hash_of w
      → ((k : FullKey) → IsKept (is_twin hash_of k) files candidates)
      → full_stage w ignored candidates ≡ ok ds
      → IsGrouping hash_of files ds
  unfolding full_stage twins
  full_stage-IsGrouping w ignored files [] ds working kept h =
      subst (IsGrouping hash_of files) (ground arith) (no_files-IsGrouping files kept)
  full_stage-IsGrouping w ignored files (f ∷ fs) ds working kept h =
      let (found, q, rest) = >>=-eq-ok _ _ h in
      let result : found.0 ≡ ds = ground arith in
      let arrivals = w.full (f ∷ fs) in
      let answered = working.full (f ∷ fs) in
      let (sound, complete, _) =
        map_by_full_hash-IsGroupOf arrivals ignored w.full_end found.0 found.1 q in
      subst (IsGrouping hash_of files) result (record {
        sound =
            All-map _ _
              (λ d g. (g.0, group-IsClassOf files (f ∷ fs) arrivals g.0 d answered (kept g.0) g.1))
              found.0 sound;
        complete = λ k many.
            let handed = IsKept-Perm (is_twin hash_of k) files (f ∷ fs) (kept k) many in
            let class = Perm.trans (class_of-Perm (f ∷ fs) arrivals k answered) handed in
            let (d, m, g) = complete k (subst (λ n. 2 ≤ n) (sym (length-Perm class)) many) in
            (d, m, group-IsClassOf files (f ∷ fs) arrivals k d answered (kept k) g);
      })

  boundary_stage-IsGrouping :
      (w : Workers) (ignored : ℕ) (files candidates : List FileRecord) (ds : List DuplicateGroup)
      → IsConsistent boundary_of hash_of
      → IsWorking boundary_of hash_of w
      → ((k : FullKey) → IsKept (is_twin hash_of k) files candidates)
      → boundary_stage w ignored candidates ≡ ok ds
      → IsGrouping hash_of files ds
  unfolding boundary_stage map_by_boundary_hash at_end
  boundary_stage-IsGrouping w ignored files [] ds c working kept h =
      subst (IsGrouping hash_of files) (ground arith) (no_files-IsGrouping files kept)
  boundary_stage-IsGrouping w ignored files (f ∷ fs) ds c working kept h =
      let (found, q, rest) = >>=-eq-ok _ _ h in
      let (s, r, ended) = >>=-eq-ok _ _ q in
      let groups : filter_by is_shared s.groups ≡ found.0 = ground arith in
      full_stage-IsGrouping w found.1 files (files_from_boundary_groups found.0) ds working
        (λ k.
          IsKept-trans (is_twin hash_of k) files (f ∷ fs) (files_from_boundary_groups found.0)
            (kept k)
            (subst (λ g. IsKept (is_twin hash_of k) (f ∷ fs) (files_from_boundary_groups g)) groups
              (boundary_stage-IsKept boundary_of hash_of c k (f ∷ fs) (w.boundary (f ∷ fs)) ignored
                s (working.boundary (f ∷ fs)) r)))
        rest

  -- When a scan of the files returns groups, they are exactly the classes of at least two files
  -- with the same size and full hash among all the files, under two conditions. The workers answer
  -- for each file that is sent to them, in any order, as the two hashes of the file say; and a file
  -- whose full hash succeeds has a boundary hash, which its size and full hash determine.
  pub scan_size_groups-IsGrouping :
      (w : Workers) (files : List FileRecord) (ignored : ℕ) (ds : List DuplicateGroup)
      → IsConsistent boundary_of hash_of
      → IsWorking boundary_of hash_of w
      → scan_size_groups w (size_groups_from_records [] files) ignored ≡ ok ds
      → IsGrouping hash_of files ds
  unfolding scan_size_groups
  scan_size_groups-IsGrouping w files ignored ds c working h =
      let run : boundary_stage w ignored
            (files_from_duplicate_size_groups (size_groups_from_records [] files))
          ≡ ok ds =
        ground arith in
      boundary_stage-IsGrouping w ignored files _ ds c working
        (λ k. size_stage-IsKept hash_of k files) run
