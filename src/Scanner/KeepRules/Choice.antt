-- ===== src/Scanner/KeepRules/Choice.antt =====
-- internal/scanner/keeprules.go: the keeper of a selection, against one order of the members.
use twin_tidy.Base.{
  ℕ, suc, ◌≤◌, ◌≡◌, refl, sym, subst, inl, inr, Bool, false, List, [], ◌∷◌, Memᴰ, arith, Text,
  text_eq, nat_eq, if◌then◌else◌, All, All-of_mem, Bool-cases, mem-filter_by, mem-filter_by_of,
  text_lt, IsStrictWeak, first-sort_slice_least, text_lt_asym, text_lt_trans,
}
use twin_tidy.Scanner.Types.{FileRecord, DuplicateGroup, ok}
use twin_tidy.Scanner.Platform.{Platform, path_within_fold}
use twin_tidy.Scanner.KeepRules.{
  KeepStrategy, keep_newest, keep_oldest, unset, unknown, SelectionPolicy, GroupSelection,
  Candidate, file, keeps_before, enumerate, prefer, candidates, members_below, select_keeper,
  select_in, apply_selection_policy, normalize_selection_policy,
}
use twin_tidy.Scanner.KeepRules.Partition.{candidates-mem, select_keeper-mem}
use twin_tidy.Scanner.KeepRules.Safety.{select_in_inv, select_groups-All, selection}

pub keeps_before-IsStrictWeak : (strategy : KeepStrategy) → IsStrictWeak (keeps_before strategy)
unfolding keeps_before
keeps_before-IsStrictWeak strategy = record {
  asym = λ a b h. ground (arith, text_lt_asym a.path b.path);
  trans = λ a b c h k. ground (arith, text_lt_trans a.path b.path c.path);
}

-- How many priority folders come before the first that holds the file.
abbrev pub rank : Platform → List Text → FileRecord → ℕ
rank p [] f = 0
rank p (folder ∷ folders) f =
    let later = suc (rank p folders f) in if path_within_fold p f.path folder then 0 else later

abbrev is_below : Platform → Text → Candidate → Bool
is_below p folder c = path_within_fold p (file c).path folder

none_below :
    (p : Platform) (folder : Text) (cs : List Candidate) (c : Candidate)
    → members_below p folder cs ≡ []
    → Memᴰ c cs
    → is_below p folder c ≡ false
none_below p folder cs c e m = elim (Bool-cases (is_below p folder c)) [
  | inl below ↦ absurd (empty (subst (Memᴰ c) e (mem-filter_by_of (is_below p folder) cs m below)))
  | inr apart ↦ apart
]
  where
    empty : Memᴰ c [] → ⊥
    empty k = elim k [ ]

-- `c` is of the least rank, and whatever is of its rank is a candidate.
abbrev IsLeast : Platform → List Text → List Candidate → Candidate → Candidate → Type 0
IsLeast p folders tier c d =
    (rank p folders (file c) ≤ rank p folders (file d))
    × (rank p folders (file d) ≡ rank p folders (file c) → Memᴰ d tier)

prefer-IsLeast :
    (p : Platform) (folder : Text) (folders : List Text) (cs rest : List Candidate)
    (c d : Candidate) (l : List Candidate)
    → members_below p folder cs ≡ l
    → (Memᴰ c rest → Memᴰ c cs × IsLeast p folders rest c d)
    → Memᴰ c (prefer l rest)
    → Memᴰ d cs
    → IsLeast p (folder ∷ folders) (prefer l rest) c d
prefer-IsLeast p folder folders cs rest c d [] e ih m k =
    let (member, here) = ih m in
    let (least, tier) = here in
    let apart_c = none_below p folder cs c e member in
    let apart_d = none_below p folder cs d e k in (ground arith, λ same. tier (ground arith))
prefer-IsLeast p folder folders cs rest c d (x ∷ l) e ih m k =
    let below_c = (mem-filter_by (is_below p folder) cs (subst (Memᴰ c) (sym e) m)).1 in
    (
      ground arith,
      λ same. subst (Memᴰ d) e (mem-filter_by_of (is_below p folder) cs k (ground arith)),
    )

candidates-IsLeast :
    (p : Platform) (folders : List Text) (cs : List Candidate) (c d : Candidate)
    → Memᴰ c (candidates p folders cs)
    → Memᴰ d cs
    → IsLeast p folders (candidates p folders cs) c d
unfolding candidates
candidates-IsLeast p [] cs c d m k = (omega arith, λ e. k)
candidates-IsLeast p (folder ∷ folders) cs c d m k =
    prefer-IsLeast p folder folders cs (candidates p folders cs) c d (members_below p folder cs)
      refl (λ n. (candidates-mem p folders cs n, candidates-IsLeast p folders cs c d n k)) m k

-- The oldest strategy wants an early time, the others a late one.
abbrev IsTimely : KeepStrategy → FileRecord → FileRecord → Type 0
IsTimely keep_oldest keep f = keep.modified_at ≤ f.modified_at
IsTimely _ keep f = f.modified_at ≤ keep.modified_at

-- The time suits the strategy, and of equal times the first path is kept.
abbrev pub IsPreferred : KeepStrategy → FileRecord → FileRecord → Type 0
IsPreferred strategy keep f =
    IsTimely strategy keep f × (f.modified_at ≡ keep.modified_at → text_lt f.path keep.path ≡ false)

keeps_before-IsPreferred :
    (strategy : KeepStrategy) (keep f : FileRecord)
    → keeps_before strategy f keep ≡ false
    → IsPreferred strategy keep f
unfolding keeps_before
keeps_before-IsPreferred keep_oldest keep f h = (ground arith, λ e. ground arith)
keeps_before-IsPreferred keep_newest keep f h = (ground arith, λ e. ground arith)
keeps_before-IsPreferred unset keep f h = (ground arith, λ e. ground arith)
keeps_before-IsPreferred (unknown name) keep f h = (ground arith, λ e. ground arith)

-- No member comes before the keeper.
abbrev pub IsFirstChoice : Platform → SelectionPolicy → GroupSelection → FileRecord → Type 0
IsFirstChoice p policy s f =
    (rank p policy.priority_folders s.keep ≤ rank p policy.priority_folders f)
    × (rank p policy.priority_folders f ≡ rank p policy.priority_folders s.keep
        → IsPreferred policy.strategy s.keep f)

All-enumerate :
    (P : FileRecord → Type 0) (n : ℕ) (files : List FileRecord)
    → All (λ c. P (file c)) (enumerate n files)
    → All P files
unfolding enumerate
All-enumerate P n [] h = tt
All-enumerate P n (f ∷ files) h = (h.0, All-enumerate P (suc n) files h.1)

select_in-IsFirstChoice :
    (p : Platform) (policy : SelectionPolicy) (group : DuplicateGroup) (s : GroupSelection)
    → select_in p policy group ≡ ok s
    → All (IsFirstChoice p policy s) s.group.files
unfolding select_keeper
select_in-IsFirstChoice p policy group s h =
    let (c, found, e, _) = select_in_inv p policy group s h in
    let folders = policy.priority_folders in
    let cs = enumerate 0 group.files in
    let m = select_keeper-mem p group.files policy c found in
    let order : IsStrictWeak {A = Candidate}
        (λ a b. keeps_before policy.strategy (file a) (file b)) =
      record {
        asym = λ a b. (keeps_before-IsStrictWeak policy.strategy).asym (file a) (file b);
        trans =
            λ a b d. (keeps_before-IsStrictWeak policy.strategy).trans (file a) (file b) (file d);
      } in
    subst (λ (t : GroupSelection). All (IsFirstChoice p policy t) t.group.files) (sym e)
      (All-enumerate (IsFirstChoice p policy (selection group c)) 0 group.files (
        All-of_mem _ cs (λ d k.
          let (least, tier) = candidates-IsLeast p folders cs c d m k in
          (
            least,
            λ same.
                keeps_before-IsPreferred policy.strategy (file c) (file d)
                  (first-sort_slice_least _ (candidates p folders cs) c order found (tier same)),
          ))))

-- In each selection, no member stands in an earlier priority folder than the keeper, and none that
-- stands in the same one comes before it by the strategy, with the path as tie break.
pub apply_selection_policy-IsFirstChoice :
    (p : Platform) (groups : List DuplicateGroup) (policy normal : SelectionPolicy)
    (ss : List GroupSelection)
    → normalize_selection_policy p policy ≡ ok normal
    → apply_selection_policy p groups policy ≡ ok ss
    → All (λ s. All (IsFirstChoice p normal s) s.group.files) ss
unfolding apply_selection_policy
apply_selection_policy-IsFirstChoice p groups policy normal ss n h =
    select_groups-All p normal _ (select_in-IsFirstChoice p normal) groups ss
      (rw (n, apply_selection_policy) at h)
