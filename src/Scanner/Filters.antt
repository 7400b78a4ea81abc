-- ===== src/Scanner/Filters.antt =====
-- internal/scanner/filters.go, and the filter of internal/scanner/engine.go that uses it. The
-- tables of categories and of system paths are the parameters `category_for_path` and
-- `is_user_created_file_path`.
pub mod Passing
use twin_tidy.Base.{
  ℕ, ◌≡◌, Bool, true, false, ◌&&◌, ◌||◌, not, Option, none, some, List, [], ◌∷◌, ◌++◌, Text, bytes,
  ◌==◌, text_eq, if◌then◌else◌, length, contains, map_get, has_prefix, ℤ, pos, ltb_ℤ, leb,
}
use twin_tidy.Scanner.Types.{FileCategory, FileRecord, ScanOptions}
use twin_tidy.Scanner.Platform.{Platform, ext, path_within_fold}

module _ (p : Platform) where
  unfoldable pub normalize_extension : Text → Text
  normalize_extension extension =
      let e = p.lower (p.trim_space extension) in
      if has_prefix e (bytes ".") then e else bytes "." ++ e

  -- The loop over the extensions, with those that were seen.
  unfoldable pub normalize_extensions : List Text → List Text → List Text
  unfolding normalize_extension
  normalize_extensions seen [] = []
  normalize_extensions seen (extension ∷ rest) =
      let e = p.lower (p.trim_space extension) in
      let more = normalize_extensions (normalize_extension extension ∷ seen) rest in
      let without = normalize_extensions seen rest in
      if e == [] || e == bytes "."
      then without
      else if contains (normalize_extension extension) seen
      then without
      else normalize_extension extension ∷ more

  -- The loop over the paths, with the folded ones that were seen.
  unfoldable pub normalize_paths : List Text → List Text → List Text
  normalize_paths seen [] = []
  normalize_paths seen (path ∷ rest) =
      let without = normalize_paths seen rest in
      if p.trim_space path == [] then without else elim (p.abs (p.trim_space path)) [
        | none ↦ without
        | some absolute ↦
            let more = normalize_paths (p.lower (p.clean absolute) ∷ seen) rest in
            if contains (p.lower (p.clean absolute)) seen then without else p.clean absolute ∷ more
      ]

  unfoldable pub normalize_filter_options : ScanOptions → ScanOptions
  unfolding normalize_extensions normalize_paths
  normalize_filter_options options = record options {
    min_file_size = if ltb_ℤ options.min_file_size (pos 0) then pos 0 else options.min_file_size;
    excluded_extensions = normalize_extensions [] options.excluded_extensions;
    excluded_paths = normalize_paths [] options.excluded_paths;
  }

  -- `for _, excluded := range options.ExcludedPaths`
  unfoldable pub is_excluded : Text → List Text → Bool
  is_excluded path [] = false
  is_excluded path (excluded ∷ rest) =
      if path_within_fold p path excluded then true else is_excluded path rest

  unfoldable pub record_passes_filters : FileRecord → ScanOptions → Bool
  unfolding is_excluded
  record_passes_filters r options =
      if ltb_ℤ (pos 0) options.min_file_size && ltb_ℤ (pos r.size) options.min_file_size
      then false
      else if contains (p.lower (ext p r.path)) options.excluded_extensions
      then false
      else if is_excluded r.path options.excluded_paths
      then false
      else true

  module _ (is_user_created_file_path : Text → Bool) (category_for_path : Text → FileCategory) where
    -- The category of the record, found from its path where the record has none.
    unfoldable pub categorized : FileRecord → FileRecord
    categorized f = if f.category == [] then record f { category = category_for_path f.path } else f

    -- `options.Categories[category]`, where a missing category reads as false.
    unfoldable pub is_wanted : ScanOptions → FileCategory → Bool
    is_wanted options category = elim (map_get options.categories category) [
      | none ↦ false
      | some wanted ↦ wanted
    ]

    unfoldable pub filter_records_by_options : List FileRecord → ScanOptions → List FileRecord
    unfolding categorized is_wanted
    filter_records_by_options [] options = []
    filter_records_by_options (f ∷ files) options =
        let rest = filter_records_by_options files options in
        if options.user_files_only && not (is_user_created_file_path f.path)
        then rest
        else if not (is_wanted options (categorized f).category)
        then rest
        else if not (record_passes_filters (categorized f) options)
        then rest
        else categorized f ∷ rest
