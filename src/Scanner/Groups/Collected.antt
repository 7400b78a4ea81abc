-- ===== src/Scanner/Groups/Collected.antt =====
-- internal/scanner/engine.go: the files that a stage collects under each key.
use twin_tidy.Base.{
  ℕ, ◌≤◌, ◌≡◌, ◌↔◌, refl, sym, ap, subst, ◌∙◌, Bool-cases, true, ◌||◌, List, [], ◌∷◌, ◌++◌, map,
  Memᴰ, inl, inr, Eq, ◌==◌, ==_iff, ==_refl, length, append-nil, append-snoc, contains, IsDistinct,
  append_to, members, members-append_to, filter_by, mem-filter_by, mem-filter_by_of, if◌then◌else◌,
  arith,
}
use twin_tidy.Scanner.Types.{FileRecord, Result-cases, ok, err, >>=-eq-ok}
use twin_tidy.Scanner.Groups.{Arrival, Stage, add_arrival, collect, collected, is_shared}

module _ {K : Type 0} ⦃e : Eq K⦄ where
  -- The files that arrive with the key.
  unfoldable pub files_at : K → List (Arrival K) → List FileRecord
  files_at k [] = []
  files_at k (a ∷ arrivals) =
      let rest = files_at k arrivals in
      elim a.outcome [ err _ ↦ rest | ok key ↦ if key == k then a.file ∷ rest else rest ]

  unfoldable pub keys : List (K × List FileRecord) → List K
  keys = map (λ entry. entry.0)

  contains-append_to :
      (k j : K) (f : FileRecord) (m : List (K × List FileRecord))
      → contains j (keys (append_to k f m)) ≡ (contains j (keys m) || k == j)
  unfolding keys contains append_to
  contains-append_to k j f [] = ground arith
  contains-append_to k j f ((i, fs) ∷ m) = ground (arith, contains-append_to k j f m, ==_iff i k)

  pub append_to-IsDistinct :
      (k : K) (f : FileRecord) (m : List (K × List FileRecord))
      → IsDistinct (keys m)
      → IsDistinct (keys (append_to k f m))
  unfolding keys contains append_to
  append_to-IsDistinct k f [] h = (refl, tt)
  append_to-IsDistinct k f ((i, fs) ∷ m) h =
      ground
        (arith, append_to-IsDistinct k f m h.1, contains-append_to k i f m, ==_iff i k, ==_iff k i)

  pub members-mem :
      (k : K) (fs : List FileRecord) (m : List (K × List FileRecord))
      → IsDistinct (keys m)
      → Memᴰ (k, fs) m
      → (members k m ≡ fs) × (contains k (keys m) ≡ true)
  unfolding keys contains members
  members-mem k fs [] h i = elim i [ ]
  members-mem k fs ((j, gs) ∷ m) h (Memᴰ.head same) =
      let key : k ≡ j = ap (λ (t : K × List FileRecord). t.0) same in
      let group : fs ≡ gs = ap (λ (t : K × List FileRecord). t.1) same in
      ground (arith, ==_refl k, ==_refl j)
  members-mem k fs ((j, gs) ∷ m) h (Memᴰ.tail i) =
      let (found, known) = members-mem k fs m h.1 i in ground (arith, ==_iff j k)

  mem-members :
      (k : K) (m : List (K × List FileRecord)) → 1 ≤ length (members k m) → Memᴰ (k, members k m) m
  unfolding members
  mem-members k [] h = absurd (ground arith)
  mem-members k ((j, gs) ∷ m) h = elim (Bool-cases (j == k)) [
    | inl same ↦
        let key = (==_iff j k).0 same in
        let entry : ◌≡◌ {A = K × List FileRecord} (k, members k ((j, gs) ∷ m)) (j, gs) =
          ground arith in
        Memᴰ.head entry
    | inr other ↦
        let rest : members k ((j, gs) ∷ m) ≡ members k m = ground arith in
        subst (λ fs. Memᴰ (k, fs) ((j, gs) ∷ m)) (sym rest)
          (Memᴰ.tail (mem-members k m (ground arith)))
  ]

  members-add_arrival :
      (k : K) (a : Arrival K) (s : Stage K)
      → members k (add_arrival a s).groups ≡ members k s.groups ++ files_at k (a ∷ [])
  unfolding add_arrival files_at
  members-add_arrival k a s = elim (Result-cases a.outcome) [
    | inl (e', q) ↦ ground (arith, append-nil (members k s.groups))
    | inr (key, q) ↦
        ground (arith, members-append_to key k a.file s.groups, append-nil (members k s.groups))
  ]

  add_arrival-IsDistinct :
      (a : Arrival K) (s : Stage K)
      → IsDistinct (keys s.groups)
      → IsDistinct (keys (add_arrival a s).groups)
  unfolding add_arrival
  add_arrival-IsDistinct a s d = elim (Result-cases a.outcome) [
    | inl (e', q) ↦
        let same : (add_arrival a s).groups ≡ s.groups = ground arith in
        subst (λ g. IsDistinct (keys g)) (sym same) d
    | inr (key, q) ↦
        let same : (add_arrival a s).groups ≡ append_to key a.file s.groups = ground arith in
        subst (λ g. IsDistinct (keys g)) (sym same) (append_to-IsDistinct key a.file s.groups d)
  ]

  files_at-cons :
      (k : K) (a : Arrival K) (arrivals : List (Arrival K)) (before : List FileRecord)
      → (before ++ files_at k (a ∷ [])) ++ files_at k arrivals ≡ before ++ files_at k (a ∷ arrivals)
  unfolding files_at
  files_at-cons k a arrivals before = elim (Result-cases a.outcome) [
    | inl (e', q) ↦ ground (arith, append-nil before)
    | inr (key, q) ↦
        ground (arith, append-nil before, append-snoc before a.file (files_at k arrivals))
  ]

  members-collect :
      (k : K) (arrivals : List (Arrival K)) (s s' : Stage K)
      → collect arrivals s ≡ ok s'
      → IsDistinct (keys s.groups)
      → (members k s'.groups ≡ members k s.groups ++ files_at k arrivals)
        × IsDistinct (keys s'.groups)
  unfolding collect files_at
  members-collect k [] s s' h d =
      let same : s ≡ s' = ground arith in
      subst
        (λ (t : Stage K).
          (members k t.groups ≡ members k s.groups ++ []) × IsDistinct (keys t.groups))
        same (append-nil (members k s.groups), d)
  members-collect k (a ∷ arrivals) s s' h d =
      let next : collect arrivals (add_arrival a s) ≡ ok s' = ground arith in
      let (found, distinct) =
        members-collect k arrivals (add_arrival a s) s' next (add_arrival-IsDistinct a s d) in
      (
        found
            ∙ ap (λ fs. fs ++ files_at k arrivals) (members-add_arrival k a s)
            ∙ files_at-cons k a arrivals (members k s.groups),
        distinct,
      )

  -- After the collecting loop, a key has the files that arrived with it.
  pub members-collected :
      (arrivals : List (Arrival K)) (ignored : ℕ) (s : Stage K)
      → collected arrivals ignored ≡ ok s
      → (k : K) → (members k s.groups ≡ files_at k arrivals) × IsDistinct (keys s.groups)
  unfolding collected members keys
  members-collected arrivals ignored s h k =
      let (s', c, rest) = >>=-eq-ok _ _ h in
      let same : s' ≡ s = ground arith in
      members-collect k arrivals _ s (c ∙ ap (λ t. ok t) same) tt

  is_shared-many : (fs : List FileRecord) (k : K) → is_shared (k, fs) ≡ true → 2 ≤ length fs
  unfolding is_shared
  is_shared-many fs k h = ground arith

  -- A group that is kept is exactly the files that arrived with its key, at least two of them, and
  -- each key that two files share has its group.
  pub collected_iff :
      (arrivals : List (Arrival K)) (ignored : ℕ) (s : Stage K)
      → collected arrivals ignored ≡ ok s
      → (k : K) (fs : List FileRecord)
      → Memᴰ (k, fs) (filter_by is_shared s.groups) ↔ ((fs ≡ files_at k arrivals) × (2 ≤ length fs))
  unfolding collected is_shared members keys
  collected_iff arrivals ignored s h k fs =
      let (found, distinct) = members-collected arrivals ignored s h k in
      (
        (λ i.
            let (listed, shared) = mem-filter_by is_shared s.groups i in
            let (group, _) = members-mem k fs s.groups distinct listed in
            (sym group ∙ found, is_shared-many fs k shared)),
        (λ i.
            let group : members k s.groups ≡ fs = found ∙ sym i.0 in
            let listed = mem-members k s.groups (ground arith) in
            mem-filter_by_of is_shared s.groups (subst (λ gs. Memᴰ (k, gs) s.groups) group listed)
              (ground arith)),
      )
