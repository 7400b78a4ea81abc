-- ===== src/Scanner/Platform.antt =====
-- What depends on the operating system or on the Unicode tables: the lexical functions of
-- path/filepath, which differ between systems, and the case folding of package strings. A
-- development over any such functions holds for each system that the program is built for.
use mathlib.Core.List.{reverse}
use twin_tidy.Base.{
  ℕ, Bool, true, false, Option, none, some, [], ◌∷◌, not, Text, ◌==◌, text_eq, nat_eq, has_last,
  get_elem?, length, take, ltb, if◌then◌else◌,
}

pub record Platform : Type 0 where
  pub separator : ℕ
  pub is_separator : ℕ → Bool
  pub clean : Text → Text
  pub abs : Text → Option Text
  pub rel : Text → Text → Option Text
  pub is_abs : Text → Bool
  pub dir : Text → Text
  pub volume_name : Text → Text
  pub lower : Text → Text
  pub equal_fold : Text → Text → Bool
  pub trim_space : Text → Text

-- `filepath.Ext`: from the last dot of the last element, or nothing.
ext_from : (ℕ → Bool) → Text → Text → Text
ext_from sep seen [] = []
ext_from sep seen (c ∷ back) =
    let rest = ext_from sep (c ∷ seen) back in
    if sep c then [] else if c == b'.' then c ∷ seen else rest

module _ (p : Platform) where
  open p use {separator, is_separator, clean, equal_fold}

  unfoldable pub ext : Text → Text
  unfolding ext_from
  ext path = ext_from is_separator [] (reverse path)

  -- The comparison of `pathWithinFold` once both paths are clean.
  within_clean : Text → Text → Bool
  within_clean path prefix =
      if ltb (length path) (length prefix)
      then false
      else if not (equal_fold (take (length prefix) path) prefix)
      then false
      else if length path == length prefix
      then true
      else if has_last prefix separator
      then true
      else elim (get_elem? path (length prefix)) [ none ↦ false | some c ↦ c == separator ]

  unfoldable pub path_within_fold : Text → Text → Bool
  unfolding within_clean
  path_within_fold path prefix =
      if prefix == [] then false else within_clean (clean path) (clean prefix)
