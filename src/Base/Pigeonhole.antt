-- ===== src/Base/Pigeonhole.antt =====
-- A list without repetitions is no longer than a list that holds all of it.
use Prim.Native.Nat.{suc, ◌≤◌}
use mathlib.Core.Path.{◌≡◌, refl}
use mathlib.Core.Bool.{true, false}
use mathlib.Core.Logic.{◌⊎◌, inl, inr}
use mathlib.Core.List.{List, [], ◌∷◌, Memᴰ}
use native.Mathlib.Omega.{arith}
use twin_tidy.Base.Tests.{if◌then◌else◌, Bool-cases}
use twin_tidy.Base.Equality.{Eq, ◌==◌, ==_iff}
use twin_tidy.Base.Lists.{length}
use twin_tidy.Base.Maps.{contains, IsDistinct}

module _ {K : Type 0} ⦃e : Eq K⦄ where
  erase : K → List K → List K
  erase x [] = []
  erase x (y ∷ ys) = if y == x then ys else y ∷ erase x ys

  length-erase :
      (x : K) (ys : List K) → contains x ys ≡ true → length ys ≡ suc (length (erase x ys))
  unfolding contains erase
  length-erase x [] h = absurd (ground arith)
  length-erase x (y ∷ ys) h = ground (arith, length-erase x ys)

  contains-erase :
      (x z : K) (ys : List K)
      → (z == x) ≡ false
      → contains z ys ≡ true
      → contains z (erase x ys) ≡ true
  unfolding contains erase
  contains-erase x z [] d h = absurd (ground arith)
  contains-erase x z (y ∷ ys) d h =
      ground (arith, contains-erase x z ys d, ==_iff y x, ==_iff y z, ==_iff z x)

  -- Every entry stands in the other list.
  AllContained : List K → List K → Type 0
  AllContained [] ys = Unit
  AllContained (x ∷ xs) ys = (contains x ys ≡ true) × AllContained xs ys

  contained-erase :
      (x : K) (xs ys : List K)
      → contains x xs ≡ false
      → AllContained xs ys
      → AllContained xs (erase x ys)
  unfolding contains AllContained
  contained-erase x [] ys d h = tt
  contained-erase x (z ∷ xs) ys d h =
      (contains-erase x z ys (ground arith) h.0, contained-erase x xs ys (ground arith) h.1)

  contained_le : (xs ys : List K) → IsDistinct xs → AllContained xs ys → length xs ≤ length ys
  unfolding AllContained
  contained_le [] ys d h = omega arith
  contained_le (x ∷ xs) ys d h =
      let rest = contained_le xs (erase x ys) d.1 (contained-erase x xs ys d.0 h.1) in
      let more = length-erase x ys h.0 in omega arith

  search : (xs ys : List K) → AllContained xs ys ⊎ ((x : K) × Memᴰ x xs × (contains x ys ≡ false))
  unfolding AllContained
  search [] ys = inl tt
  search (x ∷ xs) ys = elim (Bool-cases (contains x ys)) [
    | inr absent ↦ inr (x, Memᴰ.head refl, absent)
    | inl present ↦ elim (search xs ys) [
      | inl all ↦ inl (present, all)
      | inr (z, m, absent) ↦ inr (z, Memᴰ.tail m, absent)
    ]
  ]

  -- A longer list without repetitions has an entry that the other list lacks.
  pub spare_entry :
      (xs ys : List K)
      → IsDistinct xs
      → suc (length ys) ≤ length xs
      → (x : K) × Memᴰ x xs × (contains x ys ≡ false)
  spare_entry xs ys d h = elim (search xs ys) [
    | inr found ↦ found
    | inl all ↦ let le = contained_le xs ys d all in absurd (omega arith)
  ]
