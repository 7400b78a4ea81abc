-- ===== src/Scanner/Traversal/Budget.antt =====
-- internal/scanner/engine.go: how many files and directories the budget of a scan lets through.
use twin_tidy.Base.{ℕ, zero, suc, ◌+◌, ◌≤◌, ◌≡◌, refl, ℤ, pos, negsuc, arith, ltb, if◌then◌else◌}
use twin_tidy.Scanner.Types.{ScanLimits, ok, err}
use twin_tidy.Scanner.Traversal.{
  reserve_cardinality, ScanBudget, reserve_file, reserve_directory, normalize_scan_limits,
  positive_or, default_scan_limits,
}

-- The budget after some attempts to reserve a file, with how many of them succeeded.
pub reserve_files : ℕ → ScanBudget → ℕ × ScanBudget
reserve_files zero b = (0, b)
reserve_files (suc n) b =
    let (r, b') = reserve_file b in
    let (count, b'') = reserve_files n b' in (elim r [ err _ ↦ count | ok _ ↦ suc count ], b'')

-- The budget after some attempts to reserve a directory, with how many of them succeeded.
pub reserve_directories : ℕ → ScanBudget → ℕ × ScanBudget
reserve_directories zero b = (0, b)
reserve_directories (suc n) b =
    let (r, b') = reserve_directory b in
    let (count, b'') = reserve_directories n b' in
    (elim r [ err _ ↦ count | ok _ ↦ suc count ], b'')

abbrev pub smaller : ℕ → ℕ → ℕ
smaller a b = if ltb a b then a else b

reserve_files-counts :
    (n l : ℕ) (b : ScanBudget)
    → b.limits.max_files ≡ pos l
    → b.files ≤ l
    → ((reserve_files n b).1.files ≡ smaller (b.files + n) l)
      × (b.files + (reserve_files n b).0 ≡ (reserve_files n b).1.files)
unfolding reserve_files reserve_file reserve_cardinality
reserve_files-counts zero l b e h = ground arith
reserve_files-counts (suc n) l b e h =
    ground (arith, reserve_files-counts n l (reserve_file b).1 (ground arith) (ground arith))

reserve_directories-counts :
    (n l : ℕ) (b : ScanBudget)
    → b.limits.max_directories ≡ pos l
    → b.directories ≤ l
    → ((reserve_directories n b).1.directories ≡ smaller (b.directories + n) l)
      × (b.directories + (reserve_directories n b).0 ≡ (reserve_directories n b).1.directories)
unfolding reserve_directories reserve_directory reserve_cardinality
reserve_directories-counts zero l b e h = ground arith
reserve_directories-counts (suc n) l b e h =
    ground
      (arith, reserve_directories-counts n l (reserve_directory b).1 (ground arith) (ground arith))

-- The limit in force: the one asked for where it is positive, and otherwise the default.
abbrev pub in_force : ℤ → ℕ → ℕ
in_force (pos zero) fallback = fallback
in_force (pos (suc l)) fallback = suc l
in_force (negsuc n) fallback = fallback

positive_or-in_force :
    (limit : ℤ) (fallback : ℕ) → positive_or limit (pos fallback) ≡ pos (in_force limit fallback)
unfolding positive_or
positive_or-in_force (pos zero) fallback = refl
positive_or-in_force (pos (suc l)) fallback = ground arith
positive_or-in_force (negsuc n) fallback = ground arith

-- The budget of a new scan.
abbrev pub new_budget : ScanLimits → ScanBudget
new_budget limits = record { limits = normalize_scan_limits limits; files = 0; directories = 0 }

-- A limit that is not positive is replaced by its default, 256 roots, 250000 directories and 500000
-- files, and any other is in force as it was asked for; of any number of attempts to reserve a file
-- exactly the first ones succeed, up to the limit of files in force, and of any number of attempts
-- to reserve a directory those up to the limit of directories.
pub reserve_files_limit :
    (limits : ScanLimits) (n : ℕ)
    → ((normalize_scan_limits limits).max_roots ≡ pos (in_force limits.max_roots 256))
      × ((reserve_files n (new_budget limits)).0 ≡ smaller n (in_force limits.max_files 500000))
      × ((reserve_directories n (new_budget limits)).0
          ≡ smaller n (in_force limits.max_directories 250000))
unfolding normalize_scan_limits default_scan_limits
reserve_files_limit limits n =
    let (files, count) =
      reserve_files-counts n (in_force limits.max_files 500000) (new_budget limits)
        (positive_or-in_force limits.max_files 500000) (omega arith) in
    let (directories, count') =
      reserve_directories-counts n (in_force limits.max_directories 250000) (new_budget limits)
        (positive_or-in_force limits.max_directories 250000) (omega arith) in
    (positive_or-in_force limits.max_roots 256, ground arith, ground arith)
