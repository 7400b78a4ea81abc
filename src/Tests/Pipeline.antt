-- ===== src/Tests/Pipeline.antt =====
-- A scan of three files of one size: two have the same contents.
use mathlib.Core.List.Perm
use twin_tidy.Base.{
  ◌≡◌, refl, none, List, [], ◌∷◌, map, Text, bytes, All, ◌==◌, text_eq, text_lt, if◌then◌else◌,
  filter_by, sort_slice, insert_by, append_to, List_ℕ-discrete, ℕ_discrete, arith,
}
use twin_tidy.Scanner.Types.{FileRecord, DuplicateGroup, Result, ok}
use twin_tidy.Scanner.Groups.{
  Arrival, Workers, BoundaryKey, FullKey-discrete, BoundaryKey-discrete, is_fatal, add_arrival,
  collect, collected, is_shared, at_end, newer, larger, duplicate_group, keyed, map_by_full_hash,
  map_by_boundary_hash, size_groups_from_records, path_before, files_of, boundary_before,
  files_from_boundary_groups, files_from_duplicate_size_groups, full_stage, boundary_stage,
  scan_size_groups,
}
use twin_tidy.Scanner.Groups.Pipeline.{IsAnswered, IsConsistent, full_outcome}
use twin_tidy.Scanner.Groups.Equivalence.{IsWorking, IsGrouping, scan_size_groups-IsGrouping}
use twin_tidy.Scanner.Groups.Completion.{IsCalm, IsUnstopped, scan_size_groups_total}
use twin_tidy.Tests.Sample.{photo, copy, download}

abbrev boundary_of : FileRecord → Result BoundaryKey
boundary_of f = ok (record { size = f.size; hash = if f.path == download.path then 1 else 0 })

abbrev hash_of : FileRecord → Result Text
hash_of f = if f.path == download.path then ok (bytes "g") else ok (bytes "h")

answers : {K : Type 0} → (FileRecord → Result K) → List FileRecord → List (Arrival K)
answers outcome = map (λ f. record { ctx = none; file = f; outcome = outcome f })

answers-IsAnswered :
    {K : Type 0} (outcome : FileRecord → Result K) (files : List FileRecord)
    → IsAnswered outcome files (answers outcome files)
unfolding answers
answers-IsAnswered outcome [] = record { each = Perm.refl []; same = tt }
answers-IsAnswered outcome (f ∷ files) =
    let later = answers-IsAnswered outcome files in
    record { each = Perm.cons f later.each; same = (refl, later.same) }

abbrev workers : Workers
workers = record {
  start = none;
  boundary = answers boundary_of;
  boundary_end = none;
  full = answers hash_of;
  full_end = none;
}

workers-IsWorking : IsWorking boundary_of hash_of workers
workers-IsWorking = record {
  boundary = answers-IsAnswered boundary_of;
  full = answers-IsAnswered hash_of;
}

hashes-IsConsistent : IsConsistent boundary_of hash_of
unfolding full_outcome
hashes-IsConsistent = record {
  boundary = λ k. record { size = k.size; hash = if k.hash == bytes "g" then 1 else 0 };
  agrees = λ k f h. ground arith;
}

abbrev files : List FileRecord
files = photo ∷ download ∷ copy ∷ []

abbrev found : List DuplicateGroup
found = record { size = 10; hash = bytes "h"; files = copy ∷ photo ∷ [] } ∷ []

finds : scan_size_groups workers (size_groups_from_records [] files) 0 ≡ ok found
unfolding scan_size_groups boundary_stage full_stage answers size_groups_from_records
    files_from_duplicate_size_groups files_from_boundary_groups files_of path_before boundary_before
    map_by_boundary_hash map_by_full_hash collected collect add_arrival keyed is_fatal is_shared
    at_end duplicate_group newer larger append_to filter_by sort_slice insert_by text_lt
    FullKey-discrete BoundaryKey-discrete List_ℕ-discrete ℕ_discrete
finds = refl

scan_size_groups-IsGrouping_example : IsGrouping hash_of files found
scan_size_groups-IsGrouping_example =
    scan_size_groups-IsGrouping boundary_of hash_of workers files 0 found hashes-IsConsistent
      workers-IsWorking finds

answers-IsCalm :
    {K : Type 0} (outcome : FileRecord → Result K) (k : FileRecord → K)
    → ((f : FileRecord) → outcome f ≡ ok (k f))
    → (files : List FileRecord) → All IsCalm (answers outcome files)
unfolding answers
answers-IsCalm outcome k h [] = tt
answers-IsCalm outcome k h (f ∷ files) = (
  record { running = refl; harmless = λ e q. absurd (ground (arith, h f)) },
  answers-IsCalm outcome k h files,
)

abbrev clean_workers : Workers
clean_workers = record {
  start = none;
  boundary = answers boundary_of;
  boundary_end = none;
  full = answers (λ f. ok f.path);
  full_end = none;
}

clean_workers-IsUnstopped : IsUnstopped clean_workers
clean_workers-IsUnstopped = record {
  start = refl;
  boundary =
      answers-IsCalm boundary_of
        (λ f. record { size = f.size; hash = if f.path == download.path then 1 else 0 })
        (λ f. refl);
  boundary_end = refl;
  full = answers-IsCalm (λ f. ok f.path) (λ f. f.path) (λ f. refl);
  full_end = refl;
}

scan_size_groups_total_example :
    (ds : List DuplicateGroup) × (scan_size_groups clean_workers ((10, files) ∷ []) 2 ≡ ok ds)
scan_size_groups_total_example =
    scan_size_groups_total clean_workers ((10, files) ∷ []) 2 clean_workers-IsUnstopped
