-- ===== src/Scanner/Groups/Pipeline.antt =====
-- internal/scanner/engine.go: the stages one after another, with the hashes as functions of the file.
use mathlib.Core.List.Perm
use twin_tidy.Base.{
  ltb, ==_refl, sort_slice, ℕ, ◌≡◌, refl, sym, ap, subst, ◌∙◌, Bool, true, List, [], ◌∷◌, ◌++◌, map,
  Memᴰ, Perm, inl, inr, Eq, ◌==◌, ==_iff, nat_eq, append-nil, append-snoc, IsDistinct, append_to,
  members, members-append_to, filter_by, All, filter_by-Perm, filter_by-filter_by, mem-filter_by,
  Text, arith,
}
use twin_tidy.Scanner.Types.{FileRecord, Result, Result-cases, ok, ◌>>=◌}
use twin_tidy.Scanner.Groups.{
  files_of, Arrival, BoundaryKey, boundary_eq, FullKey, full_eq, is_shared, keyed, collected,
  size_groups_from_records, Stage, boundary_before, files_from_duplicate_size_groups,
  files_from_boundary_groups,
}
use twin_tidy.Scanner.Groups.Collected.{keys, append_to-IsDistinct, members-mem, members-collected}
use twin_tidy.Scanner.Groups.Duplicates.{full_key}
use twin_tidy.Scanner.Groups.Staged.{
  IsKept, is_outcome, is_outcome_iff, is_outcome_unique, files_at-filter_by, candidates-IsKept,
}

members-size_groups :
    (s : ℕ) (groups : List (ℕ × List FileRecord)) (files : List FileRecord)
    → members s (size_groups_from_records groups files)
      ≡ members s groups ++ filter_by (λ f. f.size == s) files
unfolding size_groups_from_records filter_by
members-size_groups s groups [] = append-nil (members s groups)
members-size_groups s groups (f ∷ files) =
    members-size_groups s (append_to f.size f groups) files
    ∙ ground (
      arith,
      members-append_to f.size s f groups,
      append-snoc (members s groups) f (filter_by (λ g. g.size == s) files),
    )

size_groups-IsDistinct :
    (groups : List (ℕ × List FileRecord)) (files : List FileRecord)
    → IsDistinct (keys groups)
    → IsDistinct (keys (size_groups_from_records groups files))
unfolding size_groups_from_records
size_groups-IsDistinct groups [] h = h
size_groups-IsDistinct groups (f ∷ files) h =
    size_groups-IsDistinct (append_to f.size f groups) files
      (append_to-IsDistinct f.size f groups h)

-- The results that arrive for the files: each file is answered once, in any order, and the answer
-- is the same whenever the file is hashed.
pub record IsAnswered {K : Type 0} (outcome : FileRecord → Result K) (files : List FileRecord)
    (arrivals : List (Arrival K)) : Type 0 where
  pub each : Perm (map (λ a. a.file) arrivals) files
  pub same : All (λ a. a.outcome ≡ outcome a.file) arrivals

members-answered :
    {K : Type 0} ⦃e : Eq K⦄ (outcome : FileRecord → Result K) (files : List FileRecord)
    (arrivals : List (Arrival K)) (ignored : ℕ) (s : Stage K)
    → IsAnswered outcome files arrivals
    → collected arrivals ignored ≡ ok s
    → (k : K)
    → members k s.groups ≡ filter_by (λ f. is_outcome k (outcome f)) (map (λ a. a.file) arrivals)
members-answered outcome files arrivals ignored s answered h k =
    (members-collected arrivals ignored s h k).0
    ∙ files_at-filter_by outcome k arrivals answered.same

unfoldable pub full_outcome : (FileRecord → Result Text) → FileRecord → Result FullKey
full_outcome hash_of f = hash_of f >>= λ hash. ok (full_key f.size hash)

pub keyed-same :
    (hash_of : FileRecord → Result Text) (arrivals : List (Arrival Text))
    → All (λ a. a.outcome ≡ hash_of a.file) arrivals
    → All (λ a. a.outcome ≡ full_outcome hash_of a.file) (map keyed arrivals)
unfolding keyed full_outcome
keyed-same hash_of [] h = tt
keyed-same hash_of (a ∷ arrivals) h =
    (ap (λ r. r >>= λ hash. ok (full_key a.file.size hash)) h.0, keyed-same hash_of arrivals h.1)

pub file-keyed :
    (arrivals : List (Arrival Text))
    → map (λ a. a.file) (map keyed arrivals) ≡ map (λ a. a.file) arrivals
unfolding keyed
file-keyed [] = refl
file-keyed (a ∷ arrivals) = ap (λ fs. a.file ∷ fs) (file-keyed arrivals)

-- The hashes of a scan, as functions of the file: two files with the same size and full hash have
-- the same boundary key.
pub record IsConsistent (boundary_of : FileRecord → Result BoundaryKey)
    (hash_of : FileRecord → Result Text) : Type 0 where
  pub boundary : FullKey → BoundaryKey
  pub agrees :
      (k : FullKey) (f : FileRecord)
      → full_outcome hash_of f ≡ ok k
      → boundary_of f ≡ ok (boundary k)

module _ (hash_of : FileRecord → Result Text) where
  -- The file has the size and the full hash of the key.
  unfoldable pub is_twin : FullKey → FileRecord → Bool
  is_twin k f = is_outcome k (full_outcome hash_of f)

  is_twin-size : (k : FullKey) (f : FileRecord) → is_twin k f ≡ true → f.size ≡ k.size
  unfolding is_twin full_outcome
  is_twin-size k f h = elim (Result-cases (hash_of f)) [
    | inl (e, q) ↦ let same = is_outcome_iff k _ h in ground arith
    | inr (hash, q) ↦ let same = is_outcome_iff k _ h in ground arith
  ]

  pub size_stage-IsKept :
      (k : FullKey) (files : List FileRecord)
      → IsKept
          (is_twin k)
          files
          (files_from_duplicate_size_groups (size_groups_from_records [] files))
  unfolding files_from_duplicate_size_groups keys members
  size_stage-IsKept k files =
      let m = size_groups_from_records [] files in
      let distinct = size_groups-IsDistinct [] files tt in
      let of_size = members-size_groups k.size [] files in
      candidates-IsKept (λ a b. ltb b.0 a.0) k.size (is_twin k) m files
        (λ s fs f i j twin.
          let (group, _) = members-mem s fs m distinct i in
          let there = subst (Memᴰ f) (sym group ∙ members-size_groups s [] files) j in
          let passes = (mem-filter_by (λ g. g.size == s) files there).1 in
          sym ((==_iff f.size s).0 passes) ∙ is_twin-size k f twin)
        distinct
        (subst (λ fs. Perm (filter_by (is_twin k) fs) (filter_by (is_twin k) files)) (sym of_size)
          (subst (λ fs. Perm fs (filter_by (is_twin k) files))
            (sym (
              filter_by-filter_by (is_twin k) (λ f. f.size == k.size) files
                (λ f twin. (==_iff f.size k.size).1 (is_twin-size k f twin))))
            (Perm.refl _)))

module _ (boundary_of : FileRecord → Result BoundaryKey) (hash_of : FileRecord → Result Text) where
  twin-tagged :
      (c : IsConsistent boundary_of hash_of) (k : FullKey) (f : FileRecord)
      → is_twin hash_of k f ≡ true
      → is_outcome (c.boundary k) (boundary_of f) ≡ true
  unfolding is_twin is_outcome
  twin-tagged c k f twin =
      let there = c.agrees k f (is_outcome_iff k _ twin) in ground (arith, ==_refl (c.boundary k))

  pub boundary_stage-IsKept :
      (c : IsConsistent boundary_of hash_of) (k : FullKey) (files : List FileRecord)
      (arrivals : List (Arrival BoundaryKey)) (ignored : ℕ) (s : Stage BoundaryKey)
      → IsAnswered boundary_of files arrivals
      → collected arrivals ignored ≡ ok s
      → IsKept (is_twin hash_of k) files (files_from_boundary_groups (filter_by is_shared s.groups))
  unfolding files_from_boundary_groups
  boundary_stage-IsKept c k files arrivals ignored s answered h =
      let (_, distinct) = members-collected arrivals ignored s h (c.boundary k) in
      let at = members-answered boundary_of files arrivals ignored s answered h in
      let arrived = map (λ (a : Arrival BoundaryKey). a.file) arrivals in
      subst (λ m. IsKept (is_twin hash_of k) files (files_of (sort_slice boundary_before m)))
        (sym (filter_by-filter_by is_shared is_shared s.groups (λ g shared. shared)))
        (candidates-IsKept boundary_before (c.boundary k) (is_twin hash_of k) s.groups files
          (λ j fs f i l twin.
            let (group, _) = members-mem j fs s.groups distinct i in
            let there = subst (Memᴰ f) (sym group ∙ at j) l in
            let passes = (mem-filter_by (λ g. is_outcome j (boundary_of g)) arrived there).1 in
            is_outcome_unique j (c.boundary k) (boundary_of f) passes (twin-tagged c k f twin))
          distinct
          (subst
            (λ fs. Perm (filter_by (is_twin hash_of k) fs) (filter_by (is_twin hash_of k) files))
            (sym (at (c.boundary k)))
            (subst (λ fs. Perm fs (filter_by (is_twin hash_of k) files))
              (sym (
                filter_by-filter_by (is_twin hash_of k)
                  (λ f. is_outcome (c.boundary k) (boundary_of f)) arrived (twin-tagged c k)))
              (filter_by-Perm (is_twin hash_of k) answered.each))))
