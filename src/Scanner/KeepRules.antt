-- ===== src/Scanner/KeepRules.antt =====
-- internal/scanner/keeprules.go: which member of a duplicate group a rule keeps.
pub mod Choice
pub mod Partition
pub mod Safety
use twin_tidy.Base.{
  ℕ, suc, ◌≡◌, Bool, true, false, ◌&&◌, not, Option, none, some, List, [], ◌∷◌, ◌++◌, map, Text,
  ◌==◌, text_eq, nat_eq, ltb, leb, if◌then◌else◌, length, contains, sort_slice, first, filter_by,
  text_lt, text_lt_trans,
}
use twin_tidy.Scanner.Types.{
  FileRecord, DuplicateGroup, Err, Result, ok, err, ◌>>=◌, ◌>>◌, invalid_selection_policy, other,
}
use twin_tidy.Scanner.Platform.{Platform, path_within_fold}

-- A strategy is a string: the two that are known, the empty one, and any other.
pub data KeepStrategy : Type 0 where
  keep_newest keep_oldest unset : KeepStrategy
  unknown : Text → KeepStrategy

pub record SelectionPolicy : Type 0 where
  pub strategy : KeepStrategy
  pub priority_folders : List Text

pub record GroupSelection : Type 0 where
  pub group : DuplicateGroup
  pub keep : FileRecord
  pub marked : List FileRecord

-- A candidate is an index with the file that stands there.
abbrev pub Candidate : Type 0
Candidate = ℕ × FileRecord

abbrev pub file : Candidate → FileRecord
file c = c.1

-- The comparison that sorts the candidates.
unfoldable pub keeps_before : KeepStrategy → FileRecord → FileRecord → Bool
keeps_before strategy a b =
    if not (a.modified_at == b.modified_at)
    then elim strategy [
      | keep_oldest ↦ ltb a.modified_at b.modified_at
      | _ ↦ ltb b.modified_at a.modified_at
    ]
    else text_lt a.path b.path

-- `for index, file := range files`
unfoldable pub enumerate : ℕ → List FileRecord → List Candidate
enumerate i [] = []
enumerate i (f ∷ files) = (i, f) ∷ enumerate (suc i) files

abbrev pub paths : List FileRecord → List Text
paths = map (λ f. f.path)

-- `for index, file := range group.Files { if index == keeperIndex { continue }; … }`
unfoldable pub all_but : ℕ → List Candidate → List FileRecord
all_but keeper [] = []
all_but keeper ((i, f) ∷ rest) =
    let others = all_but keeper rest in if i == keeper then others else f ∷ others

abbrev invalid_selection : Err
invalid_selection = other []

-- The loop over the marked files.
check_marked : List Text → Text → List FileRecord → Result (Unit {0})
check_marked members keeper [] = ok tt
check_marked members keeper (f ∷ marked) =
    let rest = check_marked members keeper marked in
    if not (contains f.path members)
    then err invalid_selection
    else if f.path == keeper
    then err invalid_selection
    else rest

unfoldable pub validate_selection_invariant : GroupSelection → Result (Unit {0})
unfolding check_marked
validate_selection_invariant s =
    if ltb (length s.group.files) 2
    then err invalid_selection
    else if leb (length s.group.files) (length s.marked)
    then err invalid_selection
    else if not (contains s.keep.path (paths s.group.files))
    then err invalid_selection
    else check_marked (paths s.group.files) s.keep.path s.marked

normalize_strategy : KeepStrategy → Result KeepStrategy
normalize_strategy keep_newest = ok keep_newest
normalize_strategy keep_oldest = ok keep_oldest
normalize_strategy unset = ok keep_newest
normalize_strategy (unknown name) = err invalid_selection_policy

-- `if len(candidates) > 0 { break }`
abbrev prefer : List Candidate → List Candidate → List Candidate
prefer [] rest = rest
prefer (c ∷ cs) rest = c ∷ cs

module _ (p : Platform) where
  -- The loop over the priority folders, each entry trimmed, made absolute and cleaned.
  normalize_folders : List Text → Result (List Text)
  normalize_folders [] = ok []
  normalize_folders (folder ∷ folders) =
      let rest = normalize_folders folders in
      if p.trim_space folder == [] then rest else elim (p.abs (p.trim_space folder)) [
        | none ↦ err invalid_selection_policy
        | some absolute ↦ (rest >>= λ more. ok (p.clean absolute ∷ more))
      ]

  unfoldable pub normalize_selection_policy : SelectionPolicy → Result SelectionPolicy
  unfolding normalize_folders normalize_strategy
  normalize_selection_policy policy = do
    strategy ← normalize_strategy policy.strategy
    folders ← normalize_folders policy.priority_folders
    ok (record { strategy = strategy; priority_folders = folders })

  -- The members below one folder.
  abbrev members_below : Text → List Candidate → List Candidate
  members_below folder = filter_by (λ c. path_within_fold p (file c).path folder)

  -- The members below the first folder that has any, or all of them.
  unfoldable pub candidates : List Text → List Candidate → List Candidate
  candidates [] cs = cs
  candidates (folder ∷ folders) cs =
      let rest = candidates folders cs in prefer (members_below folder cs) rest

  -- `candidates[0]` after the sort. There is none only in an empty group.
  unfoldable pub select_keeper : List FileRecord → SelectionPolicy → Option Candidate
  select_keeper files policy = first (
      sort_slice (λ a b. keeps_before policy.strategy (file a) (file b))
        (candidates policy.priority_folders (enumerate 0 files)))

  -- The body of the loop over the groups with two members or more.
  unfoldable pub select_in : SelectionPolicy → DuplicateGroup → Result GroupSelection
  unfolding select_keeper
  select_in policy group = elim (select_keeper group.files policy) [
    | none ↦ err invalid_selection
    | some (i, keep) ↦ do
      let s : GroupSelection = record {
        group = group;
        keep = keep;
        marked = all_but i (enumerate 0 group.files);
      }
      validate_selection_invariant s
      ok s
  ]

  unfoldable pub select_groups :
      SelectionPolicy → List DuplicateGroup → Result (List GroupSelection)
  select_groups policy [] = ok []
  select_groups policy (group ∷ groups) =
      let rest = select_groups policy groups in
      if ltb (length group.files) 2
      then rest
      else (select_in policy group >>= λ s. rest >>= λ more. ok (s ∷ more))

  unfoldable pub apply_selection_policy :
      List DuplicateGroup → SelectionPolicy → Result (List GroupSelection)
  unfolding select_groups
  apply_selection_policy groups policy = do
    policy' ← normalize_selection_policy policy
    select_groups policy' groups
