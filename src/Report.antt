-- ===== src/Report.antt =====
-- internal/report/report.go: the document of a report and its totals. An `int64` that may wrap round
-- is its 64-bit pattern.
pub mod Atomic
pub mod Csv
pub mod Formulas
pub mod Streaming
pub mod Totals
use twin_tidy.Base.{
  ℕ, ◌+◌, ◌-◌, ◌*◌, ◌%◌, ◌^◌, ◌≡◌, Bool, Option, none, some, List, [], ◌∷◌, ◌++◌, map, Text, bytes,
  ◌==◌, nat_eq, if◌then◌else◌, length, ltb, ℤ,
}
use twin_tidy.Scanner.Types.{Time, FileRecord, DuplicateGroup, Err, ok, err}
use twin_tidy.Scanner.Io.{Io, ◌>>=◌, ◌>>◌, return}

-- `strconv.FormatInt(n, 10)`, and a time in UTC as RFC 3339.
pub record Formats : Type 0 where
  pub int : ℤ → Text
  pub rfc3339 : Time → Text

pub record File : Type 0 where
  pub path : Text
  pub size : ℕ
  pub created_at : Text
  pub modified_at : Text
  pub category : Text
  pub root : Text

pub record Group : Type 0 where
  pub size : ℕ
  pub hash : Text
  pub files : List File

pub record Document : Type 0 where
  pub schema : Text
  pub generated_at : Text
  pub folder : Text
  pub group_count : ℕ
  pub file_count : ℕ
  pub reclaimable_bytes : ℕ
  pub groups : List Group

pub record Summary : Type 0 where
  pub group_count : ℕ
  pub file_count : ℕ
  pub reclaimable_bytes : ℕ

unfoldable pub wrap : ℕ → ℕ
wrap n = n % 2 ^ 64

unfoldable pub reclaimable_bytes : ℕ → ℕ → ℕ
reclaimable_bytes size count = if ltb 1 count then wrap ((count - 1) * size) else 0

module _ (f : Formats) where
  unfoldable pub format_timestamp : Time → Text
  format_timestamp t = if t == 0 then [] else f.rfc3339 t

  unfoldable pub file_from_record : FileRecord → File
  file_from_record r = record {
    path = r.path;
    size = r.size;
    created_at = format_timestamp r.created_at;
    modified_at = format_timestamp r.modified_at;
    category = r.category;
    root = r.scope.root_final_path;
  }

  unfoldable pub exported : DuplicateGroup → Group
  exported g = record { size = g.size; hash = g.hash; files = map file_from_record g.files }

  -- The body of the loop over the groups.
  unfoldable pub add_group : Document → DuplicateGroup → Document
  add_group d g = record d {
    groups = d.groups ++ exported g ∷ [];
    file_count = d.file_count + length (exported g).files;
    reclaimable_bytes =
        if ltb 1 (length (exported g).files)
        then wrap (d.reclaimable_bytes + wrap ((length (exported g).files - 1) * g.size))
        else d.reclaimable_bytes;
  }

  unfoldable pub add_groups : Document → List DuplicateGroup → Document
  add_groups d [] = d
  add_groups d (g ∷ groups) = add_groups (add_group d g) groups

  unfoldable pub empty_document : Text → Time → Document
  empty_document folder at = record {
    schema = bytes "twintidy.duplicate-report/v1";
    generated_at = f.rfc3339 at;
    folder = folder;
    group_count = 0;
    file_count = 0;
    reclaimable_bytes = 0;
    groups = [];
  }

  unfoldable pub build_document : Text → List DuplicateGroup → Time → Document
  build_document folder groups at =
      let d = add_groups (empty_document folder at) groups in
      record d { group_count = length d.groups }

-- Where a report goes: the context and the writer of package encoding/csv, which gives its error at
-- the latest when it is flushed.
pub record Sink (W : Type 0) : Type 0 where
  pub ctx_err : W → Option Err × W
  pub write_row : List Text → Io W (Unit {0})
  pub flush : Io W (Unit {0})

-- `if err := ctx.Err(); err != nil { return err }`
unfoldable pub check_sink : {W : Type 0} → Sink W → Io W (Unit {0})
check_sink sink w =
    let (e, w') = sink.ctx_err w in elim e [ none ↦ (ok tt, w') | some e' ↦ (err e', w') ]

unfoldable pub add_summary : Summary → DuplicateGroup → Summary
add_summary s g = record s {
  file_count = s.file_count + length g.files;
  reclaimable_bytes = wrap (s.reclaimable_bytes + reclaimable_bytes g.size (length g.files));
}

-- `for _, group := range groups`
unfoldable pub summarize_each : {W : Type 0} → Sink W → Summary → List DuplicateGroup → Io W Summary
summarize_each sink s [] = return s
summarize_each sink s (g ∷ groups) = do
  check_sink sink
  summarize_each sink (add_summary s g) groups

unfoldable pub summarize : {W : Type 0} → Sink W → List DuplicateGroup → Io W Summary
summarize sink groups =
    summarize_each sink
      (record { group_count = length groups; file_count = 0; reclaimable_bytes = 0 }) groups
