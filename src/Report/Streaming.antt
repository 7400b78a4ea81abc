-- ===== src/Report/Streaming.antt =====
-- internal/report/report.go: the streamed report, against the document of the same groups.
use twin_tidy.Base.{
  ℕ, ◌+◌, ◌≡◌, refl, sym, ap, subst, ◌∙◌, Bool, true, false, Option, none, some, List, [], ◌∷◌,
  ◌++◌, map, Text, length, append-nil, append-snoc, arith,
}
use twin_tidy.Scanner.Types.{Result, Time, FileRecord, DuplicateGroup, Err, ok, err}
use twin_tidy.Scanner.Io.{Gives, Gives->>=, Gives->>, Gives-return, Gives-return-same}
use twin_tidy.Report.{
  Formats, Document, Summary, Sink, check_sink, reclaimable_bytes, file_from_record, exported,
  build_document, add_summary, summarize_each, summarize,
}
use twin_tidy.Report.Csv.{
  csv_header, csv_row, group_estimate, report_estimate, group_rows, document_rows, marshal_csv,
  write_files, write_groups, write_csv, write_csv_report,
}
use twin_tidy.Report.Totals.{totals, length-exported, IsDocument, build_document-IsDocument}

-- `rows w` are the rows that were written: a row that is written is the last, and a flush or a look
-- at the context writes none.
pub record IsLogging {W : Type 0} (sink : Sink W) (rows : W → List (List Text)) : Type 0 where
  pub looked : (w : W) → rows (sink.ctx_err w).1 ≡ rows w
  pub wrote :
      (row : List Text) (w w' : W)
      → Gives (sink.write_row row) w tt w'
      → rows w' ≡ rows w ++ row ∷ []
  pub flushed : (w w' : W) → Gives sink.flush w tt w' → rows w' ≡ rows w

-- Rows one after another.
row-then :
    (a b c d : List (List Text)) (row row' : List Text) (tail : List (List Text))
    → b ≡ a
    → c ≡ b ++ row ∷ []
    → row ≡ row'
    → d ≡ c ++ tail
    → d ≡ a ++ row' ∷ tail
row-then a b c d row row' tail p q r s =
    s
    ∙ ap (λ l. l ++ tail) q
    ∙ append-snoc b row tail
    ∙ ap (λ l. l ++ row ∷ tail) p
    ∙ ap (λ x. a ++ x ∷ tail) r

append_assoc : {A : Type 0} (xs ys zs : List A) → (xs ++ ys) ++ zs ≡ xs ++ (ys ++ zs)
append_assoc [] ys zs = refl
append_assoc (x ∷ xs) ys zs = ap (λ r. x ∷ r) (append_assoc xs ys zs)

rows-then :
    (a b c d : List (List Text)) (here tail : List (List Text))
    → b ≡ a
    → c ≡ b ++ here
    → d ≡ c ++ tail
    → d ≡ a ++ (here ++ tail)
rows-then a b c d here tail p q r =
    r ∙ ap (λ l. l ++ tail) q ∙ append_assoc b here tail ∙ ap (λ l. l ++ (here ++ tail)) p

module _ (trim : Text → Text) (f : Formats) {W : Type 0} (sink : Sink W)
    (rows : W → List (List Text)) (logging : IsLogging sink rows) where
  check_sink-rows : (w w' : W) → Gives (check_sink sink) w tt w' → rows w' ≡ rows w
  unfolding check_sink
  check_sink-rows w w' h = go (sink.ctx_err w) h.run ∙ logging.looked w
    where
      go :
          (r : Option Err × W)
          → ◌≡◌ {A = Result (Unit {0}) × W}
              (elim r.0 [ none ↦ (ok tt, r.1) | some e' ↦ (err e', r.1) ])
              (ok tt, w')
          → rows w' ≡ rows r.1
      go (none, v) e = ap rows (sym (ap (λ t. t.1) e))
      go (some e', v) e = absurd (ground arith)

  -- The document that is streamed.
  record Describes (d : Document) (at folder : Text) (s : Summary) : Type 0 where
    generated_at : d.generated_at ≡ at
    same_folder : d.folder ≡ folder
    total : d.reclaimable_bytes ≡ s.reclaimable_bytes

  row-same :
      (d : Document) (at folder : Text) (s : Summary) (index file_index : ℕ) (written : Bool)
      (g : DuplicateGroup) (r : FileRecord)
      → Describes d at folder s
      → csv_row trim f at folder index g.size g.hash
          (file_from_record f r)
          (group_estimate trim f file_index (reclaimable_bytes g.size (length g.files)))
          (report_estimate trim f written s.reclaimable_bytes)
        ≡ csv_row trim f d.generated_at d.folder index
            (exported f g).size
            (exported f g).hash
            (file_from_record f r)
            (group_estimate trim f file_index
              (reclaimable_bytes (exported f g).size (length (exported f g).files)))
            (report_estimate trim f written d.reclaimable_bytes)
  unfolding exported
  row-same d at folder s index file_index written g r h =
      let at' = h.generated_at in
      let folder' = h.same_folder in
      let total = h.total in
      let count : length (map (file_from_record f) g.files) ≡ length g.files =
        length-exported f g in
      cc

  write_files-rows :
      (d : Document) (at folder : Text) (s : Summary) (index : ℕ) (g : DuplicateGroup)
      (file_index : ℕ) (written : Bool) (records : List FileRecord) (w w' : W) (written' : Bool)
      → Describes d at folder s
      → Gives (write_files trim f sink at folder s index g file_index written records) w written' w'
      → let (all, after) =
          group_rows trim f d index
            (exported f g)
            file_index
            written
            (map (file_from_record f) records) in
        (rows w' ≡ rows w ++ all) × (written' ≡ after)
  unfolding write_files group_rows
  write_files-rows d at folder s index g i written [] w w' written' des h = (
    ap rows (sym (Gives-return-same written h)) ∙ append-nil (rows w),
    sym (Gives-return written h),
  )
  write_files-rows d at folder s index g i written (r ∷ records) w w' written' des h =
      let (w1, c, h1) = Gives->> _ _ h in
      let (w2, o, h2) = Gives->> _ _ h1 in
      let (rest, after) =
        write_files-rows d at folder s index g (i + 1) true records w2 w' written' des h2 in
      let row = logging.wrote _ w1 w2 o in
      let looked = check_sink-rows w w1 c in
      (
        row-then (rows w) (rows w1) (rows w2) (rows w') _ _ _ looked row
            (row-same d at folder s index i written g r des) rest,
        after,
      )

  write_groups-rows :
      (d : Document) (at folder : Text) (s : Summary) (index : ℕ) (written : Bool)
      (groups : List DuplicateGroup) (w w' : W)
      → Describes d at folder s
      → Gives (write_groups trim f sink at folder s index written groups) w tt w'
      → rows w' ≡ rows w ++ document_rows trim f d index written (map (exported f) groups)
  unfolding write_groups document_rows exported
  write_groups-rows d at folder s index written [] w w' des h =
      ap rows (sym (Gives-return-same tt h)) ∙ append-nil (rows w)
  write_groups-rows d at folder s index written (g ∷ groups) w w' des h =
      let (w1, c, h1) = Gives->> _ _ h in
      let (written', w2, o, h2) = Gives->>= _ _ h1 in
      let (here, after) =
        write_files-rows d at folder s index g 0 written g.files w1 w2 written' des o in
      let rest = write_groups-rows d at folder s (index + 1) written' groups w2 w' des h2 in
      let rest' =
        subst
          (λ b. rows w' ≡ rows w2 ++ document_rows trim f d (index + 1) b (map (exported f) groups))
          after rest in
      rows-then (rows w) (rows w1) (rows w2) (rows w') _ _ (check_sink-rows w w1 c) here rest'

  summarize_each-totals :
      (s : Summary) (groups : List DuplicateGroup) (w : W) (s' : Summary) (w' : W)
      → Gives (summarize_each sink s groups) w s' w'
      → (s' ≡ totals s groups) × (rows w' ≡ rows w)
  unfolding summarize_each totals
  summarize_each-totals s [] w s' w' h =
      (sym (Gives-return s h), ap rows (sym (Gives-return-same s h)))
  summarize_each-totals s (g ∷ groups) w s' w' h =
      let (w1, c, h1) = Gives->> _ _ h in
      let (total, same) = summarize_each-totals (add_summary s g) groups w1 s' w' h1 in
      (total, same ∙ check_sink-rows w w1 c)

  -- A CSV report that is streamed without an error has written exactly the rows of the document of
  -- the same groups, in their order, and its summary has the document's totals, which wrap round at
  -- 64 bits. A row that the writer takes is written after those before it.
  pub write_csv_report-rows :
      (folder : Text) (groups : List DuplicateGroup) (at : Time) (w : W) (s : Summary) (w' : W)
      → Gives (write_csv_report trim f sink folder groups at) w s w'
      → let d = build_document f folder groups at in
        (rows w' ≡ rows w ++ marshal_csv trim f d)
        × (d.group_count ≡ s.group_count)
        × (d.file_count ≡ s.file_count)
        × (d.reclaimable_bytes ≡ s.reclaimable_bytes)
  unfolding write_csv_report write_csv summarize marshal_csv
  write_csv_report-rows folder groups at w s w' h =
      let d = build_document f folder groups at in
      let (s1, w1, counted, h1) = Gives->>= _ _ h in
      let (w2, written, h2) = Gives->> _ _ h1 in
      let (w3, header, h3) = Gives->> _ _ written in
      let (w4, body, h4) = Gives->> _ _ h3 in
      let (w5, looked, flushed) = Gives->> _ _ h4 in
      let (total, same) = summarize_each-totals _ groups w s1 w1 counted in
      let back = Gives-return s1 h2 in
      let described =
        subst (λ t. IsDocument f folder groups at t d) (sym total ∙ back)
          (build_document-IsDocument f folder groups at) in
      let described1 =
        subst (λ t. IsDocument f folder groups at t d) (sym total)
          (build_document-IsDocument f folder groups at) in
      let all =
        write_groups-rows d (f.rfc3339 at) folder s1 0 false groups w3 w4
          (record {
            generated_at = described1.generated_at;
            same_folder = described1.same_folder;
            total = described1.total;
          })
          body in
      let all' =
        subst (λ gs. rows w4 ≡ rows w3 ++ document_rows trim f d 0 false gs) (sym described1.listed)
          all in
      let first = logging.wrote csv_header w1 w3 header in
      let ended =
        ap rows (sym (Gives-return-same s1 h2))
        ∙ logging.flushed w5 w2 flushed
        ∙ check_sink-rows w4 w5 looked in
      (
        ended
            ∙ row-then (rows w) (rows w1) (rows w3) (rows w4) csv_header csv_header _ same first
                refl all',
        described.group_count,
        described.count,
        described.total,
      )
