-- ===== src/Tests/Traversal.antt =====
-- A queue of one root, the default budget, and the filters on three files.
use twin_tidy.Base.{
  ◌≤◌, ◌≡◌, ◌↔◌, refl, true, false, List, [], ◌∷◌, Memᴰ, Text, bytes, pos, ℕ_discrete,
}
use twin_tidy.Scanner.Types.{FileRecord, ScanOptions, ScanLimits}
use twin_tidy.Scanner.Traversal.{
  stops, waits, last_first, new_directory_queue, next, normalize_scan_limits,
}
use twin_tidy.Scanner.Traversal.Idle.{System, takes, Reachable, starts, moves, next-idle}
use twin_tidy.Scanner.Traversal.Budget.{
  reserve_files, reserve_directories, new_budget, reserve_files_limit,
}
use twin_tidy.Scanner.Filters.{categorized, filter_records_by_options}
use twin_tidy.Scanner.Filters.Passing.{IsWanted, filter_records_by_options_iff}
use twin_tidy.Tests.Sample.{windows, photo, copy}

abbrev roots : List Text
roots = bytes "C:\\Docs" ∷ []

-- One worker holds the root and nothing waits.
abbrev busy : System Text
busy = record { queue = record { dirs = []; pending = 1; closed = false }; working = 1 }

reaches_busy : Reachable roots busy
unfolding new_directory_queue last_first next ℕ_discrete
reaches_busy = moves starts (takes (bytes "C:\\Docs") refl)

next-idle_example :
    (next busy.queue ≡ stops
      → busy.queue.closed ≡ false
      → (busy.queue.dirs ≡ []) × (busy.working ≡ 0))
    × (next busy.queue ≡ waits → 1 ≤ busy.working)
next-idle_example = next-idle roots busy reaches_busy

abbrev no_limits : ScanLimits
no_limits = record { max_roots = pos 0; max_directories = pos 0; max_files = pos 0 }

reserve_files_limit_example :
    ((normalize_scan_limits no_limits).max_roots ≡ pos 256)
    × ((reserve_files 3 (new_budget no_limits)).0 ≡ 3)
    × ((reserve_directories 3 (new_budget no_limits)).0 ≡ 3)
reserve_files_limit_example = reserve_files_limit no_limits 3

abbrev options : ScanOptions
options = record {
  categories = (bytes "text", true) ∷ [];
  user_files_only = true;
  min_file_size = pos 1;
  excluded_paths = bytes "C:\\Docs\\Photos" ∷ [];
  excluded_extensions = [];
}

filter_records_by_options_iff_example :
    Memᴰ copy (
      filter_records_by_options windows
        (λ path. true)
        (λ path. bytes "text")
        (photo ∷ copy ∷ [])
        options)
    ↔ ((f : FileRecord) × Memᴰ f (photo ∷ copy ∷ [])
        × (copy ≡ categorized windows (λ path. true) (λ path. bytes "text") f)
        × IsWanted windows (λ path. true) (λ path. bytes "text") options copy)
filter_records_by_options_iff_example =
    filter_records_by_options_iff windows (λ path. true) (λ path. bytes "text") options
      (photo ∷ copy ∷ []) 1 refl copy
