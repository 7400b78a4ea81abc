-- ===== src/Scanner/Groups.antt =====
-- internal/scanner/engine.go: how the files of a scan are put into groups. The workers hash the
-- files in any order; a stage sees their results as a list of arrivals.
pub mod Candidates
pub mod Collected
pub mod Duplicates
pub mod Shared
pub mod Staged
pub mod Pipeline
pub mod Completion
pub mod Equivalence
use twin_tidy.Base.{
  ℕ, ◌+◌, ◌≡◌, Bool, true, false, ◌&&◌, ◌||◌, not, Option, none, some, List, [], ◌∷◌, ◌++◌, map,
  Text, Eq, ◌==◌, nat_eq, text_eq, ℕ_discrete, List_ℕ-discrete, ltb, leb, if◌then◌else◌, length,
  filter_by, sort_slice, append_to, members, text_lt,
}
use twin_tidy.Scanner.Types.{
  FileRecord, DuplicateGroup, Err, root_changed, missing_scope, Result, ok, err, ◌>>=◌, ◌>>◌,
}

pub record BoundaryKey : Type 0 where
  pub size : ℕ
  pub hash : ℕ

unfoldable pub BoundaryKey-discrete : Discrete BoundaryKey
unfolding ℕ_discrete
BoundaryKey-discrete = hlevel ℕ_discrete

instance abbrev pub boundary_eq : Eq BoundaryKey
boundary_eq = record { discrete = BoundaryKey-discrete }

pub record FullKey : Type 0 where
  pub size : ℕ
  pub hash : Text

unfoldable pub FullKey-discrete : Discrete FullKey
unfolding ℕ_discrete List_ℕ-discrete
FullKey-discrete = hlevel (ℕ_discrete, List_ℕ-discrete)

instance abbrev pub full_eq : Eq FullKey
full_eq = record { discrete = FullKey-discrete }

-- A result that the collecting loop receives, with what `ctx.Err()` says at that moment.
pub record Arrival (K : Type 0) : Type 0 where
  pub ctx : Option Err
  pub file : FileRecord
  pub outcome : Result K

-- The variables of the collecting loop.
pub record Stage (K : Type 0) : Type 0 where
  pub groups : List (K × List FileRecord)
  pub fatal : Option Err
  pub ignored : ℕ

unfoldable pub is_fatal : Err → Bool
is_fatal root_changed = true
is_fatal missing_scope = true
is_fatal _ = false

unfoldable pub add_arrival : {K : Type 0} ⦃e : Eq K⦄ → Arrival K → Stage K → Stage K
unfolding append_to
add_arrival a s = elim a.outcome [
  | err e ↦ elim s.fatal [
    | none ↦
        if is_fatal e then record s { fatal = some e } else record s { ignored = s.ignored + 1 }
    | some _ ↦ record s { ignored = s.ignored + 1 }
  ]
  | ok key ↦ record s { groups = append_to key a.file s.groups }
]

-- `for result := range results`
unfoldable pub collect : {K : Type 0} ⦃e : Eq K⦄ → List (Arrival K) → Stage K → Result (Stage K)
collect [] s = ok s
collect (a ∷ arrivals) s = elim a.ctx [ some e ↦ err e | none ↦ collect arrivals (add_arrival a s) ]

-- `if fatalError != nil { return nil, fatalError }`
unfoldable pub collected : {K : Type 0} ⦃e : Eq K⦄ → List (Arrival K) → ℕ → Result (Stage K)
collected arrivals ignored = do
  s ← collect arrivals (record { groups = []; fatal = none; ignored = ignored })
  elim s.fatal [ some e ↦ err e | none ↦ ok s ]

unfoldable pub is_shared : {K : Type 0} → K × List FileRecord → Bool
is_shared (_, files) = ltb 1 (length files)

-- `return …, ctx.Err()`: an error of the context at the end, which discards the result.
unfoldable pub at_end : {A : Type 0} → Option Err → A → Result A
at_end none a = ok a
at_end (some e) a = err e

unfoldable pub map_by_boundary_hash :
    List (Arrival BoundaryKey) → ℕ → Option Err → Result (List (BoundaryKey × List FileRecord) × ℕ)
map_by_boundary_hash arrivals ignored ctx = do
  s ← collected arrivals ignored
  at_end ctx (filter_by is_shared s.groups, s.ignored)

-- The members of a group: the newest first, then by path.
unfoldable pub newer : FileRecord → FileRecord → Bool
newer a b =
    if not (a.modified_at == b.modified_at)
    then ltb b.modified_at a.modified_at
    else text_lt a.path b.path

-- The groups: the largest first, then by hash.
unfoldable pub larger : DuplicateGroup → DuplicateGroup → Bool
larger a b = if not (a.size == b.size) then ltb b.size a.size else text_lt a.hash b.hash

unfoldable pub duplicate_group : FullKey × List FileRecord → DuplicateGroup
duplicate_group (key, files) = record {
  size = key.size;
  hash = key.hash;
  files = sort_slice newer files;
}

-- `key := fullKey{size: result.file.Size, hash: result.hash}`
unfoldable pub keyed : Arrival Text → Arrival FullKey
keyed a = record {
  ctx = a.ctx;
  file = a.file;
  outcome = a.outcome >>= λ hash. ok (record { size = a.file.size; hash = hash });
}

unfoldable pub map_by_full_hash :
    List (Arrival Text) → ℕ → Option Err → Result (List DuplicateGroup × ℕ)
map_by_full_hash arrivals ignored ctx = do
  s ← collected (map keyed arrivals) ignored
  at_end ctx (sort_slice larger (map duplicate_group (filter_by is_shared s.groups)), s.ignored)

unfoldable pub size_groups_from_records :
    List (ℕ × List FileRecord) → List FileRecord → List (ℕ × List FileRecord)
size_groups_from_records groups [] = groups
size_groups_from_records groups (f ∷ files) =
    size_groups_from_records (append_to f.size f groups) files

unfoldable pub path_before : FileRecord → FileRecord → Bool
path_before a b = text_lt a.path b.path

-- The files of the groups, in the order of the groups' keys.
unfoldable pub files_of : {K : Type 0} → List (K × List FileRecord) → List FileRecord
files_of [] = []
files_of ((_, files) ∷ groups) = sort_slice path_before files ++ files_of groups

unfoldable pub files_from_duplicate_size_groups : List (ℕ × List FileRecord) → List FileRecord
files_from_duplicate_size_groups groups =
    files_of (sort_slice (λ a b. ltb b.0 a.0) (filter_by is_shared groups))

-- The keys of the second stage: the largest size first, then by hash.
unfoldable pub boundary_before :
    BoundaryKey × List FileRecord → BoundaryKey × List FileRecord → Bool
boundary_before a b =
    if not (a.0.size == b.0.size) then ltb b.0.size a.0.size else ltb a.0.hash b.0.hash

unfoldable pub files_from_boundary_groups : List (BoundaryKey × List FileRecord) → List FileRecord
files_from_boundary_groups groups =
    files_of (sort_slice boundary_before (filter_by is_shared groups))

-- The workers of the two hashing stages: what arrives for the files that are sent to them, and what
-- `ctx.Err()` says when a stage starts or ends.
pub record Workers : Type 0 where
  pub start : Option Err
  pub boundary : List FileRecord → List (Arrival BoundaryKey)
  pub boundary_end : Option Err
  pub full : List FileRecord → List (Arrival Text)
  pub full_end : Option Err

-- `mapByFullHash` and the end of `scanSizeGroups`, for the candidates of the last stage.
unfoldable pub full_stage : Workers → ℕ → List FileRecord → Result (List DuplicateGroup)
full_stage w ignored [] = ok []
full_stage w ignored (f ∷ files) = do
  found ← map_by_full_hash (w.full (f ∷ files)) ignored w.full_end
  ok found.0

-- `mapByBoundaryHash` and what follows it, for the candidates of the second stage.
unfoldable pub boundary_stage : Workers → ℕ → List FileRecord → Result (List DuplicateGroup)
boundary_stage w ignored [] = ok []
boundary_stage w ignored (f ∷ files) = do
  found ← map_by_boundary_hash (w.boundary (f ∷ files)) ignored w.boundary_end
  full_stage w found.1 (files_from_boundary_groups found.0)

unfoldable pub scan_size_groups :
    Workers → List (ℕ × List FileRecord) → ℕ → Result (List DuplicateGroup)
scan_size_groups w size_groups ignored = elim w.start [
  | some e ↦ err e
  | none ↦ boundary_stage w ignored (files_from_duplicate_size_groups size_groups)
]
