-- ===== src/Scanner/Groups/Shared.antt =====
-- internal/scanner/engine.go: the groups that at least two files share, filtered and sorted.
use twin_tidy.Base.{
  ◌≡◌, refl, ap, subst, ◌∙◌, Bool, false, List, [], ◌∷◌, Eq, ◌==◌, ==_iff, length, contains,
  IsDistinct, members, filter_by, insert_by, sort_slice, if◌then◌else◌, ltb, arith,
}
use twin_tidy.Scanner.Types.{FileRecord}
use twin_tidy.Scanner.Groups.{is_shared}
use twin_tidy.Scanner.Groups.Collected.{keys}

abbrev pub Entries : Type 0 → Type 0
Entries K = List (K × List FileRecord)

module _ {K : Type 0} ⦃e : Eq K⦄ where
  contains-filter_by :
      (k : K) (p : K × List FileRecord → Bool) (m : Entries K)
      → contains k (keys m) ≡ false
      → contains k (keys (filter_by p m)) ≡ false
  unfolding keys contains filter_by
  contains-filter_by k p [] h = refl
  contains-filter_by k p ((j, fs) ∷ m) h = ground (arith, contains-filter_by k p m)

  pub filter_by-IsDistinct :
      (p : K × List FileRecord → Bool) (m : Entries K)
      → IsDistinct (keys m)
      → IsDistinct (keys (filter_by p m))
  unfolding keys filter_by
  filter_by-IsDistinct p [] h = tt
  filter_by-IsDistinct p ((j, fs) ∷ m) h =
      ground (arith, filter_by-IsDistinct p m h.1, contains-filter_by j p m h.0)

  members-absent : (k : K) (m : Entries K) → contains k (keys m) ≡ false → members k m ≡ []
  unfolding keys contains members
  members-absent k [] h = refl
  members-absent k ((j, fs) ∷ m) h = ground (arith, members-absent k m)

  -- Under each key, the groups that are shared keep their files, and the others have none.
  pub members-shared :
      (k : K) (m : Entries K)
      → IsDistinct (keys m)
      → members k (filter_by is_shared m)
        ≡ (if ltb 1 (length (members k m)) then members k m else [])
  unfolding keys members filter_by is_shared
  members-shared k [] h = refl
  members-shared k ((j, fs) ∷ m) h =
      let absent =
        members-absent j (filter_by is_shared m) (contains-filter_by j is_shared m h.0) in
      let later = members-shared k m h.1 in
      elim (e.discrete j k) [
        | yes same ↦
            let absent' = subst (λ i. members i (filter_by is_shared m) ≡ []) same absent in
            ground (arith, ==_iff j k)
        | no other ↦ ground (arith, ==_iff j k)
      ]

  contains-insert_by :
      (less : K × List FileRecord → K × List FileRecord → Bool) (k : K) (x : K × List FileRecord)
      (m : Entries K)
      → contains k (keys (insert_by less x m)) ≡ contains k (keys (x ∷ m))
  unfolding keys contains insert_by
  contains-insert_by less k x [] = refl
  contains-insert_by less k x (y ∷ m) = ground (arith, contains-insert_by less k x m)

  insert_by-IsDistinct :
      (less : K × List FileRecord → K × List FileRecord → Bool) (x : K × List FileRecord)
      (m : Entries K)
      → IsDistinct (keys (x ∷ m))
      → IsDistinct (keys (insert_by less x m))
  unfolding keys contains insert_by
  insert_by-IsDistinct less x [] h = h
  insert_by-IsDistinct less x (y ∷ m) h = ground (
    arith,
    λ (d : IsDistinct (keys (x ∷ m))). insert_by-IsDistinct less x m d,
    contains-insert_by less y.0 x m,
    ==_iff x.0 y.0,
    ==_iff y.0 x.0,
  )

  members-insert_by :
      (less : K × List FileRecord → K × List FileRecord → Bool) (k : K) (x : K × List FileRecord)
      (m : Entries K)
      → IsDistinct (keys (x ∷ m))
      → members k (insert_by less x m) ≡ members k (x ∷ m)
  unfolding keys contains members insert_by
  members-insert_by less k x [] h = refl
  members-insert_by less k x (y ∷ m) h = ground (
    arith,
    λ (d : IsDistinct (keys (x ∷ m))). members-insert_by less k x m d,
    ==_iff x.0 k,
    ==_iff y.0 k,
    ==_iff y.0 x.0,
  )

  contains-sort_slice :
      (less : K × List FileRecord → K × List FileRecord → Bool) (k : K) (m : Entries K)
      → contains k (keys (sort_slice less m)) ≡ contains k (keys m)
  unfolding keys contains sort_slice
  contains-sort_slice less k [] = refl
  contains-sort_slice less k (x ∷ m) =
      ground (arith, contains-insert_by less k x (sort_slice less m), contains-sort_slice less k m)

  pub sort_slice-IsDistinct :
      (less : K × List FileRecord → K × List FileRecord → Bool) (m : Entries K)
      → IsDistinct (keys m)
      → IsDistinct (keys (sort_slice less m))
  unfolding keys sort_slice
  sort_slice-IsDistinct less [] h = h
  sort_slice-IsDistinct less (x ∷ m) h =
      insert_by-IsDistinct less x (sort_slice less m)
        (contains-sort_slice less x.0 m ∙ h.0, sort_slice-IsDistinct less m h.1)

  pub members-sort_slice :
      (less : K × List FileRecord → K × List FileRecord → Bool) (k : K) (m : Entries K)
      → IsDistinct (keys m)
      → members k (sort_slice less m) ≡ members k m
  unfolding keys members sort_slice
  members-sort_slice less k [] h = refl
  members-sort_slice less k (x ∷ m) h =
      members-insert_by less k x (sort_slice less m)
        (contains-sort_slice less x.0 m ∙ h.0, sort_slice-IsDistinct less m h.1)
      ∙ ap (λ fs. if x.0 == k then x.1 else fs) (members-sort_slice less k m h.1)
