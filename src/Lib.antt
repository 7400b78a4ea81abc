-- ===== src/Lib.antt =====
-- TwinTidy finds files with equal contents, plans which copy of each group to keep, and moves the
-- others to the recycle bin or replaces them by hard links. This library is a model of the parts of
-- the program that decide what may be touched, in the language of the program's own functions.
--
-- Parts. `Scanner` models internal/scanner: Types the records of types.go, KeepRules the policy of
-- keeprules.go, Snapshot the handles bound to a scan root of file_snapshot.go, Traversal the queue
-- of directories and the limits of engine.go, Filters the options of filters.go and the filter of
-- engine.go, Hashing the two hashes of a file of engine.go, Groups the stages there that put hashed
-- files into groups, Recycle the request
-- and the removal of delete.go, with Verify for the verified handles and Items for the loop over
-- the selected files, and Hardlink the consolidation of hardlink.go and hardlink_windows.go, which
-- shares those checks. `Gui` models the parts of internal/gui that do not depend on the window
-- toolkit: Operation is operation_state.go, Preview is preview_state.go, and Table and Controls are
-- the rows and the controls of app_windows.go with the groups that app_report_windows.go reads back
-- from the rows. `Report` models internal/report/report.go: the document, its CSV form at once and
-- streamed, and the atomic write. The window fills an operation state with calls, the scanner fills
-- groups, the keep rules choose among them, and the checked rows become a recycle plan, whose
-- groups are the requests to recycle or to consolidate. `Base` holds what all parts share, `Tests`
-- the runs on concrete data.
--
-- Correspondence. A Go function keeps its name in snake case, and a struct its name. State is
-- passed explicitly: a method with a pointer receiver takes the state and returns it. A function
-- with an error result returns a `Result`, whose error is the sentinel that `errors.Is` finds. A
-- call of the operating system is an argument: `Os` (Scanner/Io.antt) is a record of the calls,
-- over a world that any call may change, so that the theorems hold for any interleaving with other
-- processes; a deferred close runs on every path. `Platform` (Scanner/Platform.antt) holds the
-- lexical functions of path/filepath and the case folding, which differ between systems.
--
-- Numbers. Sizes, times and generations are natural numbers. A 64-bit generation wraps round by `%
-- 2 ^ 64`. `sort.Slice` is an insertion sort, which agrees with it up to the order of equal
-- entries. Go maps are association lists whose order never shows. A loop over a slice is structural
-- recursion; `copyWithContext` runs on fuel, one unit for each read, and any fuel that covers the
-- reads of the file gives its result.
--
-- The result of hashing a file is an argument of the stages, as a list of arrivals in any order,
-- and so are the tables of internal/scanner/categories.go and internal/scanner/safety.go. What the
-- stages ask of these results is related to `boundaryHash` and `fullHash` in
-- Scanner/Hashing/Content/Consistent.antt.
--
-- Evidence. Where an operation promises that something was checked before it acts, the theorem
-- gives the calls that were made, each with the world before and the world after it. Where each call
-- starts in the world that the one before left, nothing else happened in between.
--
-- A report is written through `Sink` and `Files`, records of the calls of encoding/csv and package
-- os; a consolidation through `Links`, a record of the system calls that only it makes; the ends of
-- a file are hashed through `Hashes`, the reads at an offset and the sum of package xxhash. An `int64`
-- total of a report is its 64-bit pattern and wraps round.
--
-- Not modelled. The walk through the directories, the goroutines that hash the files, the
-- JSON form of a report, the window code around the table and its dialogs and thumbnails, the
-- preview worker, the command line, the files of settings and diagnostics, the start-up report, and
-- the wrappers of Windows system calls. Progress messages are left out: they are dropped when
-- nobody listens, and nothing depends on them.
pub mod Base
pub mod Scanner
pub mod Gui
pub mod Report
mod Tests
