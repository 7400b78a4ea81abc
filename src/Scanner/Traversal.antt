-- ===== src/Scanner/Traversal.antt =====
-- internal/scanner/engine.go: the queue of directories that the workers share, the limits of a scan
-- and the budget that enforces them. Each method of the queue holds its lock, so it is one step.
pub mod Idle
pub mod Budget
use twin_tidy.Base.{
  ℕ, suc, ◌+◌, ◌-◌, ◌≡◌, Bool, true, false, ◌&&◌, ◌||◌, not, Option, none, some, List, [], ◌∷◌,
  ◌++◌, ◌==◌, nat_eq, ltb, leb, if◌then◌else◌, length, ℤ, pos, ltb_ℤ,
}
use twin_tidy.Scanner.Types.{ScanLimits, Err, scan_limit_exceeded, Result, ok, err}

-- The slice of directories with its last entry first: `next` takes the last.
pub record DirectoryQueue (A : Type 0) : Type 0 where
  pub dirs : List A
  pub pending : ℕ
  pub closed : Bool

-- What `next` does: it waits on the condition, it tells the worker to stop, or it hands out work.
pub data Next (A : Type 0) : Type 0 where
  waits stops : Next A
  hands_out : A → DirectoryQueue A → Next A

module _ {A : Type 0} where
  -- The directories from the last one on, which `next` takes first.
  unfoldable pub last_first : List A → List A → List A
  last_first [] taken = taken
  last_first (dir ∷ dirs) taken = last_first dirs (dir ∷ taken)

  unfoldable pub new_directory_queue : List A → DirectoryQueue A
  unfolding last_first
  new_directory_queue roots = record {
    dirs = last_first roots [];
    pending = length roots;
    closed = false;
  }

  -- `add`, with whether the directory was accepted.
  unfoldable pub add : DirectoryQueue A → A → DirectoryQueue A × Bool
  add q dir =
      if q.closed
      then (q, false)
      else (record q { pending = q.pending + 1; dirs = dir ∷ q.dirs }, true)

  unfoldable pub next : DirectoryQueue A → Next A
  next q =
      if q.closed || q.pending == 0
      then stops
      else elim q.dirs [ [] ↦ waits | ◌∷◌ dir dirs ↦ hands_out dir (record q { dirs = dirs }) ]

  unfoldable pub done : DirectoryQueue A → DirectoryQueue A
  done q = if ltb 0 q.pending then record q { pending = q.pending - 1 } else q

  unfoldable pub close_queue : DirectoryQueue A → DirectoryQueue A
  close_queue q = record q { closed = true }

-- The bounds of a scan: 256 roots, 250 000 directories and 500 000 files.
unfoldable pub default_scan_limits : ScanLimits
default_scan_limits = record {
  max_roots = pos 256;
  max_directories = pos 250000;
  max_files = pos 500000;
}

-- `if limit <= 0 { limit = fallback }`
unfoldable pub positive_or : ℤ → ℤ → ℤ
positive_or limit fallback = if ltb_ℤ (pos 0) limit then limit else fallback

unfoldable pub normalize_scan_limits : ScanLimits → ScanLimits
unfolding positive_or default_scan_limits
normalize_scan_limits limits = record {
  max_roots = positive_or limits.max_roots default_scan_limits.max_roots;
  max_directories = positive_or limits.max_directories default_scan_limits.max_directories;
  max_files = positive_or limits.max_files default_scan_limits.max_files;
}

-- A load and a compare-and-swap that succeeded: the counter with the limit not yet reached.
unfoldable pub reserve_cardinality : ℕ → ℤ → Result ℕ × ℕ
reserve_cardinality counter limit =
    if ltb_ℤ (pos counter) limit
    then (ok (counter + 1), counter + 1)
    else (err scan_limit_exceeded, counter)

pub record ScanBudget : Type 0 where
  pub limits : ScanLimits
  pub files : ℕ
  pub directories : ℕ

unfoldable pub reserve_file : ScanBudget → Result ℕ × ScanBudget
reserve_file b =
    let (r, n) = reserve_cardinality b.files b.limits.max_files in (r, record b { files = n })

unfoldable pub reserve_directory : ScanBudget → Result ℕ × ScanBudget
reserve_directory b =
    let (r, n) = reserve_cardinality b.directories b.limits.max_directories in
    (r, record b { directories = n })
