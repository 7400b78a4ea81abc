-- ===== src/Tests/Report.antt =====
-- A report of one group, written row by row, and a file that is written at once.
use twin_tidy.Base.{
  ℕ, ◌≡◌, refl, sym, ap, none, Option, List, [], ◌∷◌, ◌++◌, Text, bytes, ◌==◌, nat_eq, pos, negsuc,
  ℕ_discrete, length, if◌then◌else◌, List_ℕ-discrete, arith,
}
use twin_tidy.Scanner.Types.{DuplicateGroup, Err, ok}
use twin_tidy.Scanner.Io.{Gives, return, ◌>>=◌, ◌>>◌}
use twin_tidy.Report.{
  Formats, Sink, Summary, wrap, reclaimable_bytes, format_timestamp, file_from_record, exported,
  add_group, add_groups, empty_document, build_document, check_sink, add_summary, summarize_each,
  summarize,
}
use twin_tidy.Report.Csv.{
  is_formula, is_control, csv_header, guard_spreadsheet_formula, csv_row, group_estimate,
  report_estimate, group_rows, document_rows, marshal_csv, write_files, write_groups, write_csv,
  write_csv_report,
}
use twin_tidy.Report.Formulas.{IsGuarded, guard-IsHarmless}
use twin_tidy.Report.Streaming.{IsLogging, write_csv_report-rows}
use twin_tidy.Report.Atomic.{Files, Writer, write_file_atomic}
use twin_tidy.Report.Atomic.Keeping.{IsSeparate}
use twin_tidy.Report.Atomic.Outcome.{IsConfined, IsAtomic, write_file_atomic-IsAtomic}
use twin_tidy.Tests.Sample.{photo, copy}

abbrev trim : Text → Text
trim [] = []
trim (c ∷ s) = let rest = trim s in if c == b' ' then rest else c ∷ s

guard-IsHarmless_example :
    IsGuarded trim (bytes " =1+1") (guard_spreadsheet_formula trim (bytes " =1+1"))
unfolding ℕ_discrete
guard-IsHarmless_example = guard-IsHarmless trim (λ s. refl) refl (bytes " =1+1")

-- Numbers and times are shown as one byte.
abbrev formats : Formats
formats = record {
  int = λ z. elim z [ pos n ↦ n ∷ [] | negsuc n ↦ b'-' ∷ n ∷ [] ];
  rfc3339 = λ t. t ∷ [];
}

-- The world is the rows so far.
abbrev sheet : Sink (List (List Text))
sheet = record {
  ctx_err = λ w. (none, w);
  write_row = λ row w. (ok tt, w ++ row ∷ []);
  flush = λ w. (ok tt, w);
}

sheet-IsLogging : IsLogging sheet (λ w. w)
sheet-IsLogging = record {
  looked = λ w. refl;
  wrote = λ row w w' h. sym (ap (λ r. r.1) h.run);
  flushed = λ w w' h. sym (ap (λ r. r.1) h.run);
}

abbrev groups : List DuplicateGroup
groups = record { size = 10; hash = bytes "h"; files = copy ∷ photo ∷ [] } ∷ []

abbrev folder : Text
folder = bytes "@Docs"

abbrev summary : Summary
summary = record { group_count = 1; file_count = 2; reclaimable_bytes = 10 }

writes :
    Gives
      (write_csv_report trim formats sheet folder groups 7)
      []
      summary
      (marshal_csv trim formats (build_document formats folder groups 7))
unfolding write_csv_report write_csv write_groups write_files summarize summarize_each add_summary
    check_sink marshal_csv document_rows group_rows group_estimate report_estimate csv_row
    csv_header guard_spreadsheet_formula is_formula is_control build_document empty_document
    add_groups add_group exported file_from_record format_timestamp reclaimable_bytes wrap return
    ◌>>=◌ ◌>>◌ ℕ_discrete List_ℕ-discrete
writes = record { run = refl }

write_csv_report-rows_example :
    let d = build_document formats folder groups 7 in
    (marshal_csv trim formats d ≡ [] ++ marshal_csv trim formats d)
    × (d.group_count ≡ 1)
    × (d.file_count ≡ 2)
    × (d.reclaimable_bytes ≡ 10)
write_csv_report-rows_example =
    write_csv_report-rows trim formats sheet (λ w. w) sheet-IsLogging folder groups 7 [] summary
      (marshal_csv trim formats (build_document formats folder groups 7)) writes

-- The contents of the destination and of the staging file.
record Disk : Type 0 where
  destination : Text
  staging : Text

abbrev report_path : Text
report_path = bytes "r.csv"

abbrev disk : Files Disk Unit
disk = record {
  ctx_err = λ w. (none, w);
  dir = λ path. [];
  create_temp = λ dir pattern w. (ok (tt, bytes "t"), record w { staging = [] });
  write = λ file content w. ((length content, none), record w { staging = w.staging ++ content });
  sync = λ file w. (ok tt, w);
  close = λ file w. (ok tt, w);
  remove = λ name w. (ok tt, record w { staging = [] });
  rename = λ name path w. (ok tt, record w { destination = w.staging });
}

abbrev IsOld : Disk → Type 0
IsOld w = w.destination ≡ bytes "old"

disk-IsSeparate : IsSeparate disk report_path IsOld
disk-IsSeparate = record {
  looked = λ w h. h;
  created = λ dir pattern w h. h;
  fresh = λ dir pattern w file name q same. absurd (ground arith);
  wrote = λ file content w h. h;
  synced = λ file w h. h;
  closed = λ file w h. h;
  removed = λ name w apart h. h;
  not_renamed = λ name w e q h. absurd (ground arith);
}

abbrev produce : Writer (Disk × ℕ) → Disk × ℕ → Option Err × (Disk × ℕ)
produce writer s = let (r, s') = writer (bytes "x") s in (r.1, s')

produce-IsConfined : IsConfined disk report_path IsOld produce
produce-IsConfined = record { confined = λ writer I keeps s i. keeps (bytes "x") s i }

abbrev old_disk : Disk
old_disk = record { destination = bytes "old"; staging = [] }

write_file_atomic-IsAtomic_example :
    IsAtomic disk report_path IsOld produce old_disk
      (write_file_atomic disk report_path produce old_disk)
write_file_atomic-IsAtomic_example =
    write_file_atomic-IsAtomic disk report_path IsOld disk-IsSeparate produce old_disk
      produce-IsConfined refl
