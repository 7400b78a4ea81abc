-- ===== src/Scanner/Groups/Candidates.antt =====
-- internal/scanner/engine.go: the files that a stage hands on to the next.
use mathlib.Core.List.Perm
use twin_tidy.Base.{
  ◌≡◌, refl, sym, ap, subst, ◌∙◌, Bool, Bool-cases, true, false, List, [], ◌∷◌, ◌++◌, Memᴰ, Perm,
  inl, inr, Eq, ◌==◌, ==_iff, ==_false, length, append-nil, contains, IsDistinct, members,
  filter_by, filter_by-append, filter_by-none, filter_by-Perm, sort_slice, sort_slice-perm,
  mem-filter_by, mem-of_sort_slice, if◌then◌else◌, ltb, arith,
}
use twin_tidy.Scanner.Types.{FileRecord}
use twin_tidy.Scanner.Groups.{is_shared, files_of, path_before}
use twin_tidy.Scanner.Groups.Collected.{keys}
use twin_tidy.Scanner.Groups.Shared.{
  Entries, filter_by-IsDistinct, members-shared, sort_slice-IsDistinct, members-sort_slice,
}

sorted-Perm :
    (p : FileRecord → Bool) (fs : List FileRecord)
    → Perm (filter_by p (sort_slice path_before fs)) (filter_by p fs)
sorted-Perm p fs = filter_by-Perm p (sort_slice-perm path_before fs)

module _ {K : Type 0} ⦃e : Eq K⦄ where
  -- The files that pass the test stand under one key.
  abbrev pub OnlyAt : K → (FileRecord → Bool) → Entries K → Type 0
  OnlyAt key p m =
      (k : K) (fs : List FileRecord) (f : FileRecord)
      → Memᴰ (k, fs) m
      → Memᴰ f fs
      → p f ≡ true
      → k ≡ key

  strangers :
      (key k : K) (p : FileRecord → Bool) (fs : List FileRecord)
      → ((f : FileRecord) → Memᴰ f fs → p f ≡ true → k ≡ key)
      → (k == key) ≡ false
      → filter_by p (sort_slice path_before fs) ≡ []
  strangers key k p fs only other =
      let nobody : filter_by p fs ≡ [] = filter_by-none p fs (λ f m. elim (Bool-cases (p f)) [
        | inl passes ↦ let same = (==_iff k key).1 (only f m passes) in cc
        | inr fails ↦ fails
      ]) in
      Perm.eq-nil (subst (Perm (filter_by p (sort_slice path_before fs))) nobody (sorted-Perm p fs))

  files_of-none :
      (key : K) (p : FileRecord → Bool) (m : Entries K)
      → OnlyAt key p m
      → contains key (keys m) ≡ false
      → filter_by p (files_of m) ≡ []
  unfolding keys contains files_of filter_by
  files_of-none key p [] only h = refl
  files_of-none key p ((k, fs) ∷ m) only h =
      let here = strangers key k p fs (λ f. only k fs f (Memᴰ.head refl)) (ground arith) in
      let later = files_of-none key p m (λ j gs f i. only j gs f (Memᴰ.tail i)) (ground arith) in
      ground (arith, filter_by-append p (sort_slice path_before fs) (files_of m))

  files_of-Perm :
      (key : K) (p : FileRecord → Bool) (m : Entries K)
      → OnlyAt key p m
      → IsDistinct (keys m)
      → Perm (filter_by p (files_of m)) (filter_by p (members key m))
  unfolding keys contains files_of members filter_by
  files_of-Perm key p [] only h = Perm.refl _
  files_of-Perm key p ((k, fs) ∷ m) only h =
      let only' : OnlyAt key p m = λ j gs f i. only j gs f (Memᴰ.tail i) in
      let split = filter_by-append p (sort_slice path_before fs) (files_of m) in
      elim (e.discrete k key) [
        | yes same ↦
            let later =
              files_of-none key p m only' (subst (λ j. contains j (keys m) ≡ false) same h.0) in
            let here : filter_by p (files_of ((k, fs) ∷ m))
                ≡ filter_by p (sort_slice path_before fs) =
              split
              ∙ ap (λ r. filter_by p (sort_slice path_before fs) ++ r) later
              ∙ sym (append-nil _) in
            let group : members key ((k, fs) ∷ m) ≡ fs = ground (arith, ==_iff k key) in
            subst (λ l. Perm l (filter_by p (members key ((k, fs) ∷ m)))) (sym here)
              (subst (λ l. Perm (filter_by p (sort_slice path_before fs)) (filter_by p l))
                (sym group) (sorted-Perm p fs))
        | no other ↦
            let none =
              strangers key k p fs (λ f. only k fs f (Memᴰ.head refl)) (==_false k key other) in
            let here : filter_by p (files_of ((k, fs) ∷ m)) ≡ filter_by p (files_of m) =
              split ∙ ap (λ l. l ++ filter_by p (files_of m)) none in
            let group : members key ((k, fs) ∷ m) ≡ members key m = ground (arith, ==_iff k key) in
            subst (λ l. Perm l (filter_by p (members key ((k, fs) ∷ m)))) (sym here)
              (subst (λ l. Perm (filter_by p (files_of m)) (filter_by p l)) (sym group)
                (files_of-Perm key p m only' h.1))
      ]

  -- Of the files that pass the test, a stage hands on all or, where fewer than two share the key,
  -- none.
  pub candidates-Perm :
      (less : K × List FileRecord → K × List FileRecord → Bool) (key : K) (p : FileRecord → Bool)
      (m : Entries K)
      → OnlyAt key p m
      → IsDistinct (keys m)
      → Perm
          (filter_by p (files_of (sort_slice less (filter_by is_shared m))))
          (filter_by p (if ltb 1 (length (members key m)) then members key m else []))
  candidates-Perm less key p m only distinct =
      let shared = filter_by is_shared m in
      let distinct' = filter_by-IsDistinct is_shared m distinct in
      let group = members-sort_slice less key shared distinct' ∙ members-shared key m distinct in
      subst (λ l. Perm (filter_by p (files_of (sort_slice less shared))) (filter_by p l)) group
        (files_of-Perm key p (sort_slice less shared)
          (λ k fs f i. only k fs f (mem-filter_by is_shared m (mem-of_sort_slice less shared i)).0)
          (sort_slice-IsDistinct less shared distinct'))
