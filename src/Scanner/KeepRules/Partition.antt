-- ===== src/Scanner/KeepRules/Partition.antt =====
-- internal/scanner/keeprules.go: the keeper and the marked members of a selection.
use mathlib.Core.List.Perm
use twin_tidy.Base.{
  ℕ, suc, ◌≤◌, ◌<◌, ◌≡◌, refl, sym, ap, ◌⊎◌, subst, inl, inr, true, false, some, List, [], ◌∷◌,
  Memᴰ, Perm, arith, Text, text_eq, nat_eq, ◌==◌, length, All, Bool-cases, contains, IsDistinct,
  first-sort_slice, first-sort_slice-some, ==_refl, mem-filter_by,
}
use twin_tidy.Scanner.Types.{FileRecord}
use twin_tidy.Scanner.Platform.{Platform}
use twin_tidy.Scanner.KeepRules.{
  SelectionPolicy, Candidate, file, enumerate, paths, all_but, prefer, candidates, members_below,
  select_keeper,
}

index-ge : (n : ℕ) (files : List FileRecord) {c : Candidate} → Memᴰ c (enumerate n files) → n ≤ c.0
unfolding enumerate
index-ge n [] m = elim m [ ]
index-ge n (f ∷ files) (Memᴰ.head e) = rw e (omega arith)
index-ge n (f ∷ files) (Memᴰ.tail m) = omega (arith, index-ge (suc n) files m)

all_but_below : (i n : ℕ) (files : List FileRecord) → i < n → all_but i (enumerate n files) ≡ files
unfolding all_but enumerate
all_but_below i n [] h = refl
all_but_below i n (f ∷ files) h = ground (arith, all_but_below i (suc n) files (omega arith))

-- The keeper and the rest of an enumerated list are a permutation of it.
pub all_but-perm :
    (n : ℕ) (files : List FileRecord) (c : Candidate)
    → Memᴰ c (enumerate n files)
    → Perm (file c ∷ all_but c.0 (enumerate n files)) files
unfolding all_but enumerate
all_but-perm n [] c m = elim m [ ]
all_but-perm n (f ∷ files) c (Memᴰ.head e) =
    subst (λ d. Perm (file d ∷ all_but d.0 (enumerate n (f ∷ files))) (f ∷ files)) (sym e)
      (rw (==_refl n, all_but_below n (suc n) files (omega arith)) (Perm.refl _))
all_but-perm n (f ∷ files) c (Memᴰ.tail m) =
    let apart : (n == c.0) ≡ false = ground (arith, index-ge (suc n) files m) in
    rw apart (Perm.trans (Perm.swap f (file c) _) (Perm.cons f (all_but-perm (suc n) files c m)))

pub length-all_but :
    (n : ℕ) (files : List FileRecord) (c : Candidate)
    → Memᴰ c (enumerate n files)
    → suc (length (all_but c.0 (enumerate n files))) ≡ length files
unfolding all_but enumerate
length-all_but n [] c m = elim m [ ]
length-all_but n (f ∷ files) c (Memᴰ.head e) =
    subst (λ d. suc (length (all_but d.0 (enumerate n (f ∷ files)))) ≡ suc (length files)) (sym e)
      (rw (==_refl n, all_but_below n (suc n) files (omega arith)))
length-all_but n (f ∷ files) c (Memᴰ.tail m) =
    let apart : (n == c.0) ≡ false = ground (arith, index-ge (suc n) files m) in
    rw apart (ap suc (length-all_but (suc n) files c m))

prefer-mem :
    {c : Candidate} (cs ds : List Candidate) → Memᴰ c (prefer cs ds) → Memᴰ c cs ⊎ Memᴰ c ds
prefer-mem [] ds m = inr m
prefer-mem (c ∷ cs) ds m = inl m

-- The candidates are members.
pub candidates-mem :
    {c : Candidate} (p : Platform) (folders : List Text) (cs : List Candidate)
    → Memᴰ c (candidates p folders cs)
    → Memᴰ c cs
unfolding candidates
candidates-mem p [] cs m = m
candidates-mem p (folder ∷ folders) cs m = elim (prefer-mem (members_below p folder cs) _ m) [
  | inl k ↦ (mem-filter_by _ cs k).0
  | inr k ↦ candidates-mem p folders cs k
]

pub select_keeper-mem :
    (p : Platform) (files : List FileRecord) (policy : SelectionPolicy) (c : Candidate)
    → select_keeper p files policy ≡ some c
    → Memᴰ c (candidates p policy.priority_folders (enumerate 0 files))
unfolding select_keeper
select_keeper-mem p files policy c h = first-sort_slice _ _ c h

-- No other member of a group with distinct paths has the keeper's path.
abbrev pub IsElsewhere : FileRecord → FileRecord → Type 0
IsElsewhere keep f = (f.path == keep.path) ≡ false

pub contains-path :
    (n : ℕ) (files : List FileRecord) (c : Candidate)
    → Memᴰ c (enumerate n files)
    → contains (file c).path (paths files) ≡ true
unfolding enumerate contains
contains-path n [] c m = elim m [ ]
contains-path n (f ∷ files) c (Memᴰ.head e) =
    subst (λ d. contains (file d).path (paths (f ∷ files)) ≡ true) (sym e) (rw (==_refl f.path))
contains-path n (f ∷ files) c (Memᴰ.tail m) = ground (arith, contains-path (suc n) files c m)

pub all_but-All :
    (P : FileRecord → Type 0) (i n : ℕ) (files : List FileRecord)
    → All P files
    → All P (all_but i (enumerate n files))
unfolding all_but enumerate
all_but-All P i n [] h = tt
all_but-All P i n (f ∷ files) h = elim (Bool-cases (n == i)) [
  | inl e ↦ rw (e, all_but) (all_but-All P i (suc n) files h.1)
  | inr e ↦ rw (e, all_but) (h.0, all_but-All P i (suc n) files h.1)
]

IsElsewhere-of_contains :
    (keep : FileRecord) (files : List FileRecord)
    → contains keep.path (paths files) ≡ false
    → All (IsElsewhere keep) files
unfolding contains
IsElsewhere-of_contains keep [] h = tt
IsElsewhere-of_contains keep (f ∷ files) h =
    (ground arith, IsElsewhere-of_contains keep files (ground arith))

pub all_but-IsElsewhere :
    (n : ℕ) (files : List FileRecord) (c : Candidate)
    → IsDistinct (paths files)
    → Memᴰ c (enumerate n files)
    → All (IsElsewhere (file c)) (all_but c.0 (enumerate n files))
unfolding all_but enumerate
all_but-IsElsewhere n [] c d m = elim m [ ]
all_but-IsElsewhere n (f ∷ files) c d (Memᴰ.head e) =
    subst (λ b. All (IsElsewhere (file b)) (all_but b.0 (enumerate n (f ∷ files)))) (sym e)
      (rw (==_refl n, all_but_below n (suc n) files (omega arith))
        (IsElsewhere-of_contains f files d.0))
all_but-IsElsewhere n (f ∷ files) c d (Memᴰ.tail m) =
    let apart : (n == c.0) ≡ false = ground (arith, index-ge (suc n) files m) in
    rw apart (
      ground (arith, d.0, contains-path (suc n) files c m),
      all_but-IsElsewhere (suc n) files c d.1 m,
    )

abbrev pub IsMember : List FileRecord → FileRecord → Type 0
IsMember files f = contains f.path (paths files) ≡ true

IsMember-cons :
    (g : FileRecord) (files fs : List FileRecord)
    → All (IsMember files) fs
    → All (IsMember (g ∷ files)) fs
unfolding contains
IsMember-cons g files [] h = tt
IsMember-cons g files (f ∷ fs) h = (ground (arith, h.0), IsMember-cons g files fs h.1)

pub members-IsMember : (files : List FileRecord) → All (IsMember files) files
unfolding contains
members-IsMember [] = tt
members-IsMember (f ∷ files) =
    (rw (==_refl f.path), IsMember-cons f files files (members-IsMember files))

candidates-some :
    (p : Platform) (folders : List Text) (c : Candidate) (cs : List Candidate)
    → (d : Candidate) × (ds : List Candidate) × (candidates p folders (c ∷ cs) ≡ d ∷ ds)
unfolding candidates
candidates-some p [] c cs = (c, cs, refl)
candidates-some p (folder ∷ folders) c cs =
    go (members_below p folder (c ∷ cs)) (candidates-some p folders c cs)
  where
    go :
        (l : List Candidate)
        → (d : Candidate) × (ds : List Candidate) × (candidates p folders (c ∷ cs) ≡ d ∷ ds)
        → (d : Candidate) × (ds : List Candidate) × (prefer l (candidates p folders (c ∷ cs))
            ≡ d ∷ ds)
    go [] rest = rest
    go (d ∷ ds) rest = (d, ds, refl)

-- A group that is not empty has a keeper.
pub select_keeper-some :
    (p : Platform) (files : List FileRecord) (policy : SelectionPolicy)
    → 2 ≤ length files
    → (c : Candidate) × (select_keeper p files policy ≡ some c)
unfolding select_keeper enumerate
select_keeper-some p [] policy h = absurd (omega arith)
select_keeper-some p (f ∷ files) policy h =
    let (d, ds, e) = candidates-some p policy.priority_folders (0, f) (enumerate 1 files) in
    rw e (first-sort_slice-some _ d ds)
