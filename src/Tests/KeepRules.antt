-- ===== src/Tests/KeepRules.antt =====
-- The keep rules on a group of three.
use twin_tidy.Base.{
  ◌≡◌, refl, List, [], ◌∷◌, bytes, contains, All, map, filter_by, leb, length, List_ℕ-discrete,
  insert_by, sort_slice, has_last, text_lt,
}
use twin_tidy.Scanner.Types.{DuplicateGroup, ok}
use twin_tidy.Scanner.Platform.{path_within_fold}
use twin_tidy.Scanner.KeepRules.{
  SelectionPolicy, GroupSelection, unset, keep_newest, apply_selection_policy,
  normalize_selection_policy, select_in, validate_selection_invariant, keeps_before, enumerate,
  all_but, candidates,
}
use twin_tidy.Scanner.KeepRules.Safety.{
  Splits, apply_selection_policy-Splits, apply_selection_policy_total,
}
use twin_tidy.Scanner.KeepRules.Choice.{IsFirstChoice, apply_selection_policy-IsFirstChoice}
use twin_tidy.Tests.Sample.{windows, photo, copy, download}

abbrev trio : DuplicateGroup
trio = record { size = 10; hash = bytes "aa"; files = photo ∷ copy ∷ download ∷ [] }

-- The folder of the photos comes first; without it the newest copy would be kept.
abbrev photos_first : SelectionPolicy
photos_first = record { strategy = unset; priority_folders = bytes "C:\\docs\\PHOTOS" ∷ [] }

abbrev photos_first_normal : SelectionPolicy
photos_first_normal = record photos_first { strategy = keep_newest }

abbrev kept_photo : GroupSelection
kept_photo = record { group = trio; keep = photo; marked = copy ∷ download ∷ [] }

applied : apply_selection_policy windows (trio ∷ []) photos_first ≡ ok (kept_photo ∷ [])
unfolding apply_selection_policy normalize_selection_policy select_in validate_selection_invariant
    keeps_before enumerate all_but candidates path_within_fold contains insert_by sort_slice
    has_last text_lt filter_by List_ℕ-discrete
applied = refl

normalized : normalize_selection_policy windows photos_first ≡ ok photos_first_normal
unfolding normalize_selection_policy List_ℕ-discrete
normalized = refl

apply_selection_policy-Splits_example : All Splits (kept_photo ∷ [])
apply_selection_policy-Splits_example =
    apply_selection_policy-Splits windows (trio ∷ []) photos_first (kept_photo ∷ []) applied

apply_selection_policy_total_example :
    (ss : List GroupSelection) × (apply_selection_policy windows (trio ∷ []) photos_first ≡ ok ss)
    × (map (λ s. s.group) ss ≡ filter_by (λ g. leb 2 (length g.files)) (trio ∷ []))
unfolding contains List_ℕ-discrete
apply_selection_policy_total_example =
    apply_selection_policy_total windows (trio ∷ []) photos_first photos_first_normal normalized
      ((refl, (refl, (refl, tt))), tt)

apply_selection_policy-IsFirstChoice_example :
    All (λ s. All (IsFirstChoice windows photos_first_normal s) s.group.files) (kept_photo ∷ [])
apply_selection_policy-IsFirstChoice_example =
    apply_selection_policy-IsFirstChoice windows (trio ∷ []) photos_first photos_first_normal
      (kept_photo ∷ []) normalized applied
