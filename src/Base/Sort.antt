-- ===== src/Base/Sort.antt =====
-- `sort.Slice` by a Boolean `less`. It is modelled as a stable insertion sort: where `less` leaves a
-- tie, Go promises no order at all, and the theorems use only that the result is an ordered
-- permutation.
use mathlib.Core.Path.{◌≡◌, refl, subst}
use mathlib.Core.Bool.{Bool, true, false}
use mathlib.Core.Logic.{◌⊎◌, inl, inr}
use mathlib.Core.Option.{Option, none, some}
use mathlib.Core.List.{List, [], ◌∷◌, Perm, Memᴰ}
use mathlib.Core.List.Perm
use twin_tidy.Base.Tests.{Bool-cases}
use twin_tidy.Base.Lists.{All, All-map, All-mem, All-of_mem}

module _ {ℓ} {A : Type ℓ} where
  unfoldable pub insert_by : (A → A → Bool) → A → List A → List A
  insert_by less a [] = a ∷ []
  insert_by less a (x ∷ xs) =
      let rest = insert_by less a xs in elim (less x a) [ true ↦ x ∷ rest | false ↦ a ∷ x ∷ xs ]

  unfoldable pub sort_slice : (A → A → Bool) → List A → List A
  unfolding insert_by
  sort_slice less [] = []
  sort_slice less (x ∷ xs) = insert_by less x (sort_slice less xs)

  -- What `sort.Slice` asks of `less`: a strict weak order.
  pub record IsStrictWeak (less : A → A → Bool) : Type ℓ where
    pub asym : (a b : A) → less a b ≡ true → less b a ≡ false
    pub trans : (a b c : A) → less b a ≡ false → less c b ≡ false → less c a ≡ false

  -- No entry is less than one before it.
  abbrev pub IsSortedBy : (A → A → Bool) → List A → Type 0
  IsSortedBy less [] = Unit
  IsSortedBy less (x ∷ xs) = All (λ y. less y x ≡ false) xs × IsSortedBy less xs

  insert_by-perm : (less : A → A → Bool) (a : A) (xs : List A) → Perm (insert_by less a xs) (a ∷ xs)
  unfolding insert_by
  insert_by-perm less a [] = Perm.refl _
  insert_by-perm less a (x ∷ xs) = elim (Bool-cases (less x a)) [
    | inl e ↦
        rw (e, insert_by) (Perm.trans (Perm.cons x (insert_by-perm less a xs)) (Perm.swap a x xs))
    | inr e ↦ rw (e, insert_by) (Perm.refl _)
  ]

  pub sort_slice-perm : (less : A → A → Bool) (xs : List A) → Perm (sort_slice less xs) xs
  unfolding sort_slice
  sort_slice-perm less [] = Perm.refl _
  sort_slice-perm less (x ∷ xs) =
      Perm.trans (insert_by-perm less x (sort_slice less xs))
        (Perm.cons x (sort_slice-perm less xs))

  -- A predicate of every entry survives the sort.
  insert_by-All {κ} :
      (P : A → Type κ) (less : A → A → Bool) (a : A) (xs : List A)
      → P a
      → All P xs
      → All P (insert_by less a xs)
  unfolding insert_by
  insert_by-All P less a [] p h = (p, tt)
  insert_by-All P less a (x ∷ xs) p h = elim (Bool-cases (less x a)) [
    | inl e ↦ rw (e, insert_by) (h.0, insert_by-All P less a xs p h.1)
    | inr e ↦ rw (e, insert_by) (p, h)
  ]

  pub sort_slice-All {κ} :
      (P : A → Type κ) (less : A → A → Bool) (xs : List A) → All P xs → All P (sort_slice less xs)
  unfolding sort_slice
  sort_slice-All P less [] h = tt
  sort_slice-All P less (x ∷ xs) h =
      insert_by-All P less x (sort_slice less xs) h.0 (sort_slice-All P less xs h.1)

  insert_by-IsSortedBy :
      (less : A → A → Bool)
      → IsStrictWeak less
      → (a : A) (xs : List A) → IsSortedBy less xs
      → IsSortedBy less (insert_by less a xs)
  unfolding insert_by
  insert_by-IsSortedBy less o a [] s = (tt, tt)
  insert_by-IsSortedBy less o a (x ∷ xs) s = elim (Bool-cases (less x a)) [
    | inl e ↦
        rw (e, insert_by)
          (
            insert_by-All (λ y. less y x ≡ false) less a xs (o.asym x a e) s.0,
            insert_by-IsSortedBy less o a xs s.1,
          )
    | inr e ↦
        rw (e, insert_by)
          ((e, All-map (λ y. less y x ≡ false) _ (λ y h. o.trans a x y e h) xs s.0), s)
  ]

  pub sort_slice-IsSortedBy :
      (less : A → A → Bool)
      → IsStrictWeak less
      → (xs : List A) → IsSortedBy less (sort_slice less xs)
  unfolding sort_slice
  sort_slice-IsSortedBy less o [] = tt
  sort_slice-IsSortedBy less o (x ∷ xs) =
      insert_by-IsSortedBy less o x (sort_slice less xs) (sort_slice-IsSortedBy less o xs)

  mem-past :
      {b a x : A} {xs ys : List A}
      → (Memᴰ b (a ∷ xs) → Memᴰ b ys)
      → Memᴰ b (a ∷ x ∷ xs)
      → Memᴰ b (x ∷ ys)
  mem-past later (Memᴰ.head e) = Memᴰ.tail (later (Memᴰ.head e))
  mem-past later (Memᴰ.tail (Memᴰ.head e)) = Memᴰ.head e
  mem-past later (Memᴰ.tail (Memᴰ.tail m)) = Memᴰ.tail (later (Memᴰ.tail m))

  mem-insert_by :
      {b : A} (less : A → A → Bool) (a : A) (xs : List A)
      → Memᴰ b (a ∷ xs)
      → Memᴰ b (insert_by less a xs)
  unfolding insert_by
  mem-insert_by less a [] m = m
  mem-insert_by {b} less a (x ∷ xs) m = elim (Bool-cases (less x a)) [
    | inl e ↦ rw (e, insert_by) (mem-past (λ k. mem-insert_by less a xs k) m)
    | inr e ↦ rw (e, insert_by) m
  ]

  pub mem-sort_slice :
      {b : A} (less : A → A → Bool) (xs : List A) → Memᴰ b xs → Memᴰ b (sort_slice less xs)
  unfolding sort_slice
  mem-sort_slice less [] m = m
  mem-sort_slice less (x ∷ xs) (Memᴰ.head e) =
      mem-insert_by less x (sort_slice less xs) (Memᴰ.head e)
  mem-sort_slice less (x ∷ xs) (Memᴰ.tail m) =
      mem-insert_by less x (sort_slice less xs) (Memᴰ.tail (mem-sort_slice less xs m))

  mem-under : {b a x : A} {xs : List A} → Memᴰ b (a ∷ xs) → Memᴰ b (a ∷ x ∷ xs)
  mem-under (Memᴰ.head e) = Memᴰ.head e
  mem-under (Memᴰ.tail m) = Memᴰ.tail (Memᴰ.tail m)

  mem-after :
      {b x : A} {xs ys : List A} → (Memᴰ b ys → Memᴰ b xs) → Memᴰ b (x ∷ ys) → Memᴰ b (x ∷ xs)
  mem-after later (Memᴰ.head e) = Memᴰ.head e
  mem-after later (Memᴰ.tail m) = Memᴰ.tail (later m)

  mem-swap :
      {b a x : A} {xs ys : List A}
      → (Memᴰ b ys → Memᴰ b (a ∷ xs))
      → Memᴰ b (x ∷ ys)
      → Memᴰ b (a ∷ x ∷ xs)
  mem-swap later (Memᴰ.head e) = Memᴰ.tail (Memᴰ.head e)
  mem-swap {a} later (Memᴰ.tail m) = mem-under (later m)

  mem-of_insert_by :
      {b : A} (less : A → A → Bool) (a : A) (xs : List A)
      → Memᴰ b (insert_by less a xs)
      → Memᴰ b (a ∷ xs)
  unfolding insert_by
  mem-of_insert_by less a [] m = m
  mem-of_insert_by {b} less a (x ∷ xs) m = elim (Bool-cases (less x a)) [
    | inl e ↦ mem-swap (λ k. mem-of_insert_by less a xs k) (rw (e, insert_by) at m)
    | inr e ↦ rw (e, insert_by) at m
  ]

  pub mem-of_sort_slice :
      {b : A} (less : A → A → Bool) (xs : List A) → Memᴰ b (sort_slice less xs) → Memᴰ b xs
  unfolding sort_slice
  mem-of_sort_slice less [] m = m
  mem-of_sort_slice less (x ∷ xs) m =
      mem-after (λ k. mem-of_sort_slice less xs k) (mem-of_insert_by less x (sort_slice less xs) m)

  -- `s[0]`
  abbrev pub first : List A → Option A
  first [] = none
  first (x ∷ xs) = some x

  pub first-IsSortedBy :
      (less : A → A → Bool) (xs : List A) (c : A)
      → IsStrictWeak less
      → IsSortedBy less xs
      → first xs ≡ some c
      → All (λ y. less y c ≡ false) xs
  first-IsSortedBy less [] c o s h = tt
  first-IsSortedBy less (x ∷ xs) c o s h =
      subst (λ d. All (λ y. less y d ≡ false) (x ∷ xs)) (cc) (irrefl (Bool-cases (less x x)), s.0)
    where
      irrefl : (less x x ≡ true) ⊎ (less x x ≡ false) → less x x ≡ false
      irrefl (inl t) = o.asym x x t
      irrefl (inr f) = f

  first-mem : (xs : List A) (c : A) → first xs ≡ some c → Memᴰ c xs
  first-mem [] c h = cc
  first-mem (x ∷ xs) c h = Memᴰ.head (cc)

  -- The first entry of the sorted list is an entry, and none is less.
  pub first-sort_slice :
      (less : A → A → Bool) (xs : List A) (c : A) → first (sort_slice less xs) ≡ some c → Memᴰ c xs
  first-sort_slice less xs c h =
      All-mem (λ a. Memᴰ a xs) (sort_slice less xs)
        (sort_slice-All (λ a. Memᴰ a xs) less xs (All-of_mem _ xs (λ a m. m)))
        (first-mem (sort_slice less xs) c h)

  pub first-sort_slice_least :
      (less : A → A → Bool) (xs : List A) (c : A)
      → IsStrictWeak less
      → first (sort_slice less xs) ≡ some c
      → {y : A} → Memᴰ y xs
      → less y c ≡ false
  first-sort_slice_least less xs c o h m =
      All-mem (λ y. less y c ≡ false) (sort_slice less xs)
        (first-IsSortedBy less (sort_slice less xs) c o (sort_slice-IsSortedBy less o xs) h)
        (mem-sort_slice less xs m)

  pub first-sort_slice-some :
      (less : A → A → Bool) (x : A) (xs : List A)
      → (c : A) × (first (sort_slice less (x ∷ xs)) ≡ some c)
  first-sort_slice-some less x xs =
      go (sort_slice less (x ∷ xs)) (mem-sort_slice less (x ∷ xs) (Memᴰ.head refl))
    where
      go : (ys : List A) → Memᴰ x ys → (c : A) × (first ys ≡ some c)
      go [] m = elim m [ ]
      go (y ∷ ys) m = (y, refl)
