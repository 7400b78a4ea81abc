-- ===== src/Scanner/KeepRules/Safety.antt =====
-- internal/scanner/keeprules.go: what `ApplySelectionPolicy` proposes, and the fail-closed check.
use twin_tidy.Base.{
  ℕ, ◌≤◌, ◌≡◌, refl, sym, subst, inl, inr, true, some, List, [], ◌∷◌, map, Perm, arith, text_eq,
  ltb, leb, leb→le, length, filter_by, All, Option-cases, Bool-cases, contains, IsDistinct,
}
use twin_tidy.Scanner.Types.{FileRecord, DuplicateGroup, ok, >>=-eq-ok}
use twin_tidy.Scanner.Platform.{Platform}
use twin_tidy.Scanner.KeepRules.{
  SelectionPolicy, GroupSelection, Candidate, file, enumerate, paths, all_but, check_marked,
  validate_selection_invariant, select_keeper, select_in, select_groups, apply_selection_policy,
  normalize_selection_policy,
}
use twin_tidy.Scanner.KeepRules.Partition.{
  all_but-perm, length-all_but, candidates-mem, select_keeper-mem, select_keeper-some,
  contains-path, all_but-All, all_but-IsElsewhere, IsElsewhere, IsMember, members-IsMember,
}

-- What the code builds for a keeper.
abbrev pub selection : DuplicateGroup → Candidate → GroupSelection
selection group c = record {
  group = group;
  keep = file c;
  marked = all_but c.0 (enumerate 0 group.files);
}

pub select_in_inv :
    (p : Platform) (policy : SelectionPolicy) (group : DuplicateGroup) (s : GroupSelection)
    → select_in p policy group ≡ ok s
    → (c : Candidate) × (select_keeper p group.files policy ≡ some c)
      × (s ≡ selection group c)
      × (validate_selection_invariant s ≡ ok tt)
unfolding select_in
select_in_inv p policy group s h = elim (Option-cases (select_keeper p group.files policy)) [
  | inl e ↦ absurd (ground arith)
  | inr (c, e) ↦ (c, e, ground arith, ground arith)
]

pub select_groups-All :
    (p : Platform) (policy : SelectionPolicy) (P : GroupSelection → Type 0)
    → ((g : DuplicateGroup) (s : GroupSelection) → select_in p policy g ≡ ok s → P s)
    → (groups : List DuplicateGroup) (ss : List GroupSelection)
    → select_groups p policy groups ≡ ok ss
    → All P ss
unfolding select_groups
select_groups-All p policy P f [] ss h = rw (let e : ss ≡ [] = cc in e) tt
select_groups-All p policy P f (g ∷ groups) ss h = elim (Bool-cases (ltb (length g.files) 2)) [
  | inl small ↦ select_groups-All p policy P f groups ss (rw (small, select_groups) at h)
  | inr large ↦
      let (s, first, then_rest) =
        >>=-eq-ok (select_in p policy g) _ (rw (large, select_groups) at h) in
      let (more, rest, last) = >>=-eq-ok (select_groups p policy groups) _ then_rest in
      let e : s ∷ more ≡ ss = cc in
      rw (← e) (f g s first, select_groups-All p policy P f groups more rest)
]

check_marked-All :
    (members : List (List ℕ)) (keep : FileRecord) (marked : List FileRecord)
    → check_marked members keep.path marked ≡ ok tt
    → All (IsElsewhere keep) marked
unfolding check_marked
check_marked-All members keep [] h = tt
check_marked-All members keep (f ∷ marked) h =
    (ground arith, check_marked-All members keep marked (ground arith))

check_marked_ok :
    (members : List (List ℕ)) (keep : FileRecord) (marked : List FileRecord)
    → All (IsElsewhere keep) marked
    → All (λ f. contains f.path members ≡ true) marked
    → check_marked members keep.path marked ≡ ok tt
unfolding check_marked
check_marked_ok members keep [] h k = refl
check_marked_ok members keep (f ∷ marked) h k =
    ground (arith, h.0, k.0, check_marked_ok members keep marked h.1 k.1)

-- A selection that passes the check marks nothing under the keeper's path.
pub validate-IsElsewhere :
    (s : GroupSelection)
    → validate_selection_invariant s ≡ ok tt
    → (2 ≤ length s.group.files) × All (IsElsewhere s.keep) s.marked
unfolding validate_selection_invariant
validate-IsElsewhere s h =
    (ground arith, check_marked-All (paths s.group.files) s.keep s.marked (ground arith))

abbrev pub Splits : GroupSelection → Type 0
Splits s =
    Perm (s.keep ∷ s.marked) s.group.files
    × (2 ≤ length s.group.files)
    × All (IsElsewhere s.keep) s.marked

select_in-Splits :
    (p : Platform) (policy : SelectionPolicy) (group : DuplicateGroup) (s : GroupSelection)
    → select_in p policy group ≡ ok s
    → Splits s
select_in-Splits p policy group s h =
    let (c, found, e, valid) = select_in_inv p policy group s h in
    let (two, apart) = validate-IsElsewhere s valid in
    let m =
      candidates-mem p policy.priority_folders _ (select_keeper-mem p group.files policy c found) in
    (
      subst (λ (t : GroupSelection). Perm (t.keep ∷ t.marked) t.group.files) (sym e)
          (all_but-perm 0 group.files c m),
      two,
      apart,
    )

-- Whenever a selection is returned, each of its groups has two members or more, its keeper and its
-- marked members are together a permutation of the members, and no marked member has the keeper's
-- path.
pub apply_selection_policy-Splits :
    (p : Platform) (groups : List DuplicateGroup) (policy : SelectionPolicy)
    (ss : List GroupSelection)
    → apply_selection_policy p groups policy ≡ ok ss
    → All Splits ss
unfolding apply_selection_policy
apply_selection_policy-Splits p groups policy ss h =
    let (normal, _, rest) = >>=-eq-ok (normalize_selection_policy p policy) _ h in
    select_groups-All p normal Splits (select_in-Splits p normal) groups ss rest

abbrev pub HasDistinctPaths : DuplicateGroup → Type 0
HasDistinctPaths g = IsDistinct (paths g.files)

select_in_total :
    (p : Platform) (policy : SelectionPolicy) (group : DuplicateGroup)
    → 2 ≤ length group.files
    → HasDistinctPaths group
    → (s : GroupSelection) × (select_in p policy group ≡ ok s) × (s.group ≡ group)
unfolding select_in validate_selection_invariant
select_in_total p policy group two distinct =
    let (c, found) = select_keeper-some p group.files policy two in
    let m =
      candidates-mem p policy.priority_folders _ (select_keeper-mem p group.files policy c found) in
    let rest = all_but c.0 (enumerate 0 group.files) in
    let fine =
      check_marked_ok (paths group.files) (file c) rest
        (all_but-IsElsewhere 0 group.files c distinct m)
        (all_but-All (IsMember group.files) c.0 0 group.files (members-IsMember group.files)) in
    (
      selection group c,
      ground
          (arith, found, fine, length-all_but 0 group.files c m, contains-path 0 group.files c m),
      refl,
    )

select_groups_total :
    (p : Platform) (policy : SelectionPolicy) (groups : List DuplicateGroup)
    → All HasDistinctPaths groups
    → (ss : List GroupSelection) × (select_groups p policy groups ≡ ok ss)
      × (map (λ s. s.group) ss ≡ filter_by (λ g. leb 2 (length g.files)) groups)
unfolding select_groups filter_by
select_groups_total p policy [] d = ([], refl, refl)
select_groups_total p policy (g ∷ groups) d = elim (Bool-cases (leb 2 (length g.files))) [
  | inl large ↦
      let (more, rest, same) = select_groups_total p policy groups d.1 in
      let (s, found, e) = select_in_total p policy g (leb→le _ _ large) d.0 in
      (s ∷ more, ground (arith, rest, found), ground (arith, same, e))
  | inr small ↦
      let (more, rest, same) = select_groups_total p policy groups d.1 in
      (more, ground (arith, rest), ground (arith, same))
]

-- Under a policy that normalizes, groups whose members have distinct paths are never refused: there
-- is one selection for each group with two members or more, in order.
pub apply_selection_policy_total :
    (p : Platform) (groups : List DuplicateGroup) (policy normal : SelectionPolicy)
    → normalize_selection_policy p policy ≡ ok normal
    → All HasDistinctPaths groups
    → (ss : List GroupSelection) × (apply_selection_policy p groups policy ≡ ok ss)
      × (map (λ s. s.group) ss ≡ filter_by (λ g. leb 2 (length g.files)) groups)
unfolding apply_selection_policy
apply_selection_policy_total p groups policy normal h d =
    rw (h, apply_selection_policy) (select_groups_total p normal groups d)
