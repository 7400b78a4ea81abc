-- ===== src/Report/Csv.antt =====
-- internal/report/report.go: the rows of a CSV report, of a document at once and streamed.
use twin_tidy.Base.{
  ℕ, ◌+◌, Bool, true, false, ◌||◌, List, [], ◌∷◌, ◌++◌, Text, bytes, ◌==◌, nat_eq, text_eq,
  if◌then◌else◌, length, pos, to_int64,
}
use twin_tidy.Scanner.Types.{Time, FileRecord, DuplicateGroup}
use twin_tidy.Scanner.Io.{Io, ◌>>=◌, ◌>>◌, return}
use twin_tidy.Report.{
  Formats, File, Group, Document, Summary, Sink, check_sink, reclaimable_bytes, file_from_record,
  summarize,
}

-- A cell that a spreadsheet would take as a formula or a command.
unfoldable pub is_formula : Text → Bool
is_formula [] = false
is_formula (c ∷ s) = c == b'=' || c == b'+' || c == b'-' || c == b'@'

unfoldable pub is_control : Text → Bool
is_control [] = false
is_control (c ∷ s) = c == 9 || c == 13 || c == 10

unfoldable pub csv_header : List Text
csv_header =
    bytes "generatedAt"
    ∷ bytes "scanFolder"
    ∷ bytes "group"
    ∷ bytes "sha256"
    ∷ bytes "groupSize"
    ∷ bytes "groupReclaimableBytes"
    ∷ bytes "reportReclaimableBytes"
    ∷ bytes "path"
    ∷ bytes "fileSize"
    ∷ bytes "createdAt"
    ∷ bytes "modifiedAt"
    ∷ bytes "category"
    ∷ bytes "root"
    ∷ []

-- `trim` is `strings.TrimLeftFunc` for white space of Unicode and the byte order mark.
module _ (trim : Text → Text) where
  unfoldable pub guard_spreadsheet_formula : Text → Text
  unfolding is_formula is_control
  guard_spreadsheet_formula value =
      if value == []
      then value
      else if trim value == []
      then value
      else if is_formula (trim value)
      then b'\'' ∷ value
      else if is_control value
      then b'\'' ∷ value
      else value

  module _ (f : Formats) where
    unfoldable pub csv_row : Text → Text → ℕ → ℕ → Text → File → Text → Text → List Text
    csv_row at folder index size hash file group_estimate report_estimate =
        guard_spreadsheet_formula at
        ∷ guard_spreadsheet_formula folder
        ∷ f.int (pos (index + 1))
        ∷ guard_spreadsheet_formula hash
        ∷ f.int (pos size)
        ∷ group_estimate
        ∷ report_estimate
        ∷ guard_spreadsheet_formula file.path
        ∷ f.int (pos file.size)
        ∷ guard_spreadsheet_formula file.created_at
        ∷ guard_spreadsheet_formula file.modified_at
        ∷ guard_spreadsheet_formula file.category
        ∷ guard_spreadsheet_formula file.root
        ∷ []

    -- The estimates stand on the first row of a group, and of the report.
    unfoldable pub group_estimate : ℕ → ℕ → Text
    group_estimate file_index reclaimable =
        if file_index == 0 then f.int (to_int64 reclaimable) else []

    unfoldable pub report_estimate : Bool → ℕ → Text
    report_estimate written reclaimable = if written then [] else f.int (to_int64 reclaimable)

    -- The inner loop of `MarshalCSV`, with `reportTotalWritten`.
    unfoldable pub group_rows :
        Document → ℕ → Group → ℕ → Bool → List File → List (List Text) × Bool
    group_rows d index g file_index written [] = ([], written)
    group_rows d index g file_index written (file ∷ files) =
        let (rows, written') = group_rows d index g (file_index + 1) true files in
        (
          csv_row d.generated_at d.folder index g.size g.hash file
                (group_estimate file_index (reclaimable_bytes g.size (length g.files)))
                (report_estimate written d.reclaimable_bytes)
              ∷ rows,
          written',
        )

    unfoldable pub document_rows : Document → ℕ → Bool → List Group → List (List Text)
    document_rows d index written [] = []
    document_rows d index written (g ∷ groups) =
        let (rows, written') = group_rows d index g 0 written g.files in
        rows ++ document_rows d (index + 1) written' groups

    -- The rows that `MarshalCSV` gives to the writer.
    unfoldable pub marshal_csv : Document → List (List Text)
    marshal_csv d = csv_header ∷ document_rows d 0 false d.groups

    module _ {W : Type 0} (sink : Sink W) where
      -- The inner loop of `writeCSV`.
      unfoldable pub write_files :
          Text → Text → Summary → ℕ → DuplicateGroup → ℕ → Bool → List FileRecord → Io W Bool
      write_files at folder summary index g file_index written [] = return written
      write_files at folder summary index g file_index written (r ∷ records) = do
        check_sink sink
        sink.write_row (
            csv_row at folder index g.size g.hash (file_from_record f r)
              (group_estimate file_index (reclaimable_bytes g.size (length g.files)))
              (report_estimate written summary.reclaimable_bytes))
        write_files at folder summary index g (file_index + 1) true records

      unfoldable pub write_groups :
          Text → Text → Summary → ℕ → Bool → List DuplicateGroup → Io W (Unit {0})
      write_groups at folder summary index written [] = return tt
      write_groups at folder summary index written (g ∷ groups) = do
        check_sink sink
        written' ← write_files at folder summary index g 0 written g.files
        write_groups at folder summary (index + 1) written' groups

      unfoldable pub write_csv : Text → List DuplicateGroup → Time → Summary → Io W (Unit {0})
      write_csv folder groups at summary = do
        sink.write_row csv_header
        write_groups (f.rfc3339 at) folder summary 0 false groups
        check_sink sink
        sink.flush

      -- `Write` in the CSV format.
      unfoldable pub write_csv_report : Text → List DuplicateGroup → Time → Io W Summary
      write_csv_report folder groups at = do
        summary ← summarize sink groups
        write_csv folder groups at summary
        return summary
