-- ===== src/Scanner/Groups/Staged.antt =====
-- internal/scanner/engine.go: what a stage hands on, against what it is given.
use mathlib.Core.List.Perm
use twin_tidy.Base.{
  ◌≤◌, ◌≡◌, ◌⊎◌, refl, ap, subst, ◌∙◌, Bool, Bool-cases, true, false, List, [], ◌∷◌, map, Perm, inl,
  inr, Eq, ◌==◌, ==_iff, length, IsDistinct, members, filter_by, All, length-Perm,
  length-filter_by-le, sort_slice, if◌then◌else◌, ltb, arith,
}
use twin_tidy.Scanner.Types.{FileRecord, Result, ok, err, Result-cases}
use twin_tidy.Scanner.Groups.{Arrival, is_shared, files_of}
use twin_tidy.Scanner.Groups.Collected.{files_at, keys}
use twin_tidy.Scanner.Groups.Shared.{Entries}
use twin_tidy.Scanner.Groups.Candidates.{OnlyAt, candidates-Perm}

-- Of the files that pass the test, all are handed on or, where there are fewer than two, none.
abbrev pub IsKept : (FileRecord → Bool) → List FileRecord → List FileRecord → Type 0
IsKept p from to =
    Perm (filter_by p to) (filter_by p from)
    ⊎ ((filter_by p to ≡ []) × (length (filter_by p from) ≤ 1))

pub IsKept-trans :
    (p : FileRecord → Bool) (a b c : List FileRecord) → IsKept p a b → IsKept p b c → IsKept p a c
IsKept-trans p a b c (inl h) (inl k) = inl (Perm.trans k h)
IsKept-trans p a b c (inl h) (inr k) = inr (k.0, subst (λ n. n ≤ 1) (length-Perm h) k.1)
IsKept-trans p a b c (inr h) (inl k) = inr (Perm.eq-nil (subst (Perm (filter_by p c)) h.0 k), h.1)
IsKept-trans p a b c (inr h) (inr k) = inr (k.0, h.1)

-- Where at least two files pass the test, they are all handed on.
pub IsKept-Perm :
    (p : FileRecord → Bool) (from to : List FileRecord)
    → IsKept p from to
    → 2 ≤ length (filter_by p from)
    → Perm (filter_by p to) (filter_by p from)
IsKept-Perm p from to (inl h) many = h
IsKept-Perm p from to (inr h) many = absurd (ground arith)

pub many-IsKept :
    (p : FileRecord → Bool) (from to : List FileRecord)
    → IsKept p from to
    → 2 ≤ length (filter_by p to)
    → Perm (filter_by p to) (filter_by p from)
many-IsKept p from to (inl h) many = h
many-IsKept p from to (inr h) many = absurd (ground arith)

module _ {K : Type 0} ⦃e : Eq K⦄ where
  -- The outcome is the key.
  unfoldable pub is_outcome : K → Result K → Bool
  is_outcome k (ok key) = key == k
  is_outcome k (err _) = false

  pub is_outcome_iff : (k : K) (r : Result K) → is_outcome k r ≡ true → r ≡ ok k
  unfolding is_outcome
  is_outcome_iff k r h = elim (Result-cases r) [
    | inl (e', q) ↦ absurd (ground arith)
    | inr (key, q) ↦ q ∙ ap (λ j. ok j) ((==_iff key k).0 (ground arith))
  ]

  pub is_outcome_unique :
      (j k : K) (r : Result K) → is_outcome j r ≡ true → is_outcome k r ≡ true → j ≡ k
  unfolding is_outcome
  is_outcome_unique j k r h h' = elim (Result-cases r) [
    | inl (e', q) ↦ absurd (ground arith)
    | inr (key, q) ↦ ground (arith, ==_iff key j, ==_iff key k)
  ]

  pub files_at-filter_by :
      (outcome : FileRecord → Result K) (k : K) (arrivals : List (Arrival K))
      → All (λ a. a.outcome ≡ outcome a.file) arrivals
      → files_at k arrivals ≡ filter_by (λ f. is_outcome k (outcome f)) (map (λ a. a.file) arrivals)
  unfolding files_at filter_by is_outcome
  files_at-filter_by outcome k [] h = refl
  files_at-filter_by outcome k (a ∷ arrivals) h =
      let later = files_at-filter_by outcome k arrivals h.1 in
      elim (Result-cases a.outcome) [
        | inl (e', q) ↦ ground (arith, h.0)
        | inr (key, q) ↦ ground (arith, h.0)
      ]

  pub candidates-IsKept :
      (less : K × List FileRecord → K × List FileRecord → Bool) (key : K) (p : FileRecord → Bool)
      (m : Entries K) (files : List FileRecord)
      → OnlyAt key p m
      → IsDistinct (keys m)
      → Perm (filter_by p (members key m)) (filter_by p files)
      → IsKept p files (files_of (sort_slice less (filter_by is_shared m)))
  unfolding filter_by
  candidates-IsKept less key p m files only distinct same =
      let handed = candidates-Perm less key p m only distinct in
      let next = filter_by p (files_of (sort_slice less (filter_by is_shared m))) in
      elim (Bool-cases (ltb 1 (length (members key m)))) [
        | inl many ↦ inl (
            Perm.trans
              (subst (λ b. Perm next (filter_by p (if b then members key m else []))) many handed)
              same)
        | inr few ↦ inr (
          Perm.eq-nil
              (subst (λ b. Perm next (filter_by p (if b then members key m else []))) few handed),
          subst (λ n. n ≤ 1) (length-Perm same)
              (let small = length-filter_by-le p (members key m) in ground arith),
        )
      ]
