-- ===== src/Tests/Sample.antt =====
-- A platform with paths that are clean already, and records to run the model on.
use twin_tidy.Base.{
  ℕ, ◌+◌, false, ◌&&◌, ◌||◌, some, [], ◌∷◌, map, Text, bytes, ◌==◌, nat_eq, text_eq, leb,
  if◌then◌else◌,
}
use twin_tidy.Scanner.Types.{FileIdentity, AuthorizedScope, FileRecord}
use twin_tidy.Scanner.Platform.{Platform}

abbrev lower_byte : ℕ → ℕ
lower_byte c = if leb b'A' c && leb c b'Z' then c + 32 else c

abbrev pub lower_text : Text → Text
lower_text = map lower_byte

abbrev trim_left : Text → Text
trim_left [] = []
trim_left (c ∷ s) = let rest = trim_left s in if c == b' ' then rest else c ∷ s

abbrev pub windows : Platform
windows = record {
  separator = b'\\';
  is_separator = λ c. c == b'\\' || c == b'/';
  clean = λ s. s;
  abs = λ s. some s;
  rel = λ root path. some path;
  is_abs = λ s. false;
  dir = λ s. [];
  volume_name = λ s. [];
  lower = lower_text;
  equal_fold = λ s t. lower_text s == lower_text t;
  trim_space = trim_left;
}

abbrev pub identity : ℕ → FileIdentity
identity n = record { volume_serial = 7; file_id = n }

abbrev pub docs : AuthorizedScope
docs = record {
  root_final_path = bytes "C:\\Docs";
  root_identity = identity 1;
  root_is_file = false;
}

-- A file with its path, its identity and its time.
abbrev pub sample_file : Text → ℕ → ℕ → FileRecord
sample_file path id time = record {
  path = path;
  size = 10;
  created_at = time;
  modified_at = time;
  category = bytes "text";
  identity = identity id;
  link_count = 1;
  named_streams = 0;
  scope = docs;
}

abbrev pub photo : FileRecord
photo = sample_file (bytes "C:\\Docs\\Photos\\a.txt") 11 50

abbrev pub copy : FileRecord
copy = sample_file (bytes "C:\\Docs\\b.txt") 12 90

abbrev pub download : FileRecord
download = sample_file (bytes "C:\\Docs\\c.txt") 13 70
