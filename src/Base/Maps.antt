-- ===== src/Base/Maps.antt =====
-- Go maps as association lists in the order of insertion. The program never lets the order of a
-- map's traversal show: it sorts what it reads.
use mathlib.Core.Path.{◌≡◌, refl, sym}
use mathlib.Core.Bool.{Bool, true, false, ◌||◌}
use mathlib.Core.Option.{Option, none, some}
use mathlib.Core.List.{List, [], ◌∷◌, ◌++◌, Memᴰ}
use native.Mathlib.Omega.{arith}
use twin_tidy.Base.Tests.{if◌then◌else◌}
use twin_tidy.Base.Equality.{Eq, ◌==◌}

module _ {ℓ} {K : Type ℓ} ⦃e : Eq K⦄ where
  -- `_, ok := set[k]` for a `map[K]struct{}`, as the list of its keys.
  unfoldable pub contains : K → List K → Bool
  contains k [] = false
  contains k (j ∷ ks) = j == k || contains k ks

  -- No key stands twice.
  abbrev pub IsDistinct : List K → Type 0
  IsDistinct [] = Unit
  IsDistinct (k ∷ ks) = (contains k ks ≡ false) × IsDistinct ks

  pub contains_of_mem : (k : K) (ks : List K) → Memᴰ k ks → contains k ks ≡ true
  unfolding contains
  contains_of_mem k [] m = elim m [ ]
  contains_of_mem k (j ∷ ks) (Memᴰ.head h) = ground arith
  contains_of_mem k (j ∷ ks) (Memᴰ.tail m) = ground (arith, contains_of_mem k ks m)

  pub mem_of_contains : (k : K) (ks : List K) → contains k ks ≡ true → Memᴰ k ks
  unfolding contains
  mem_of_contains k [] h = cc
  mem_of_contains k (j ∷ ks) h = elim (e.discrete j k) [
    | yes same ↦ Memᴰ.head (sym same)
    | no other ↦ Memᴰ.tail (mem_of_contains k ks (ground arith))
  ]

  module _ {κ} {V : Type κ} where
    -- `m[k]`, and whether it is there.
    unfoldable pub map_get : List (K × V) → K → Option V
    map_get [] key = none
    map_get ((j, found) ∷ rest) key = if j == key then some found else map_get rest key

    -- `m[k] = v`
    unfoldable pub map_set : List (K × V) → K → V → List (K × V)
    map_set [] key new = (key, new) ∷ []
    map_set ((j, old) ∷ rest) key new =
        if j == key then (j, new) ∷ rest else (j, old) ∷ map_set rest key new

    pub map_get-map_set :
        (entries : List (K × V)) (key new_key : K) (new : V)
        → map_get (map_set entries new_key new) key
          ≡ (if new_key == key then some new else map_get entries key)
    unfolding map_get map_set
    map_get-map_set [] key new_key new = refl
    map_get-map_set ((j, old) ∷ rest) key new_key new =
        ground (arith, map_get-map_set rest key new_key new)

    -- `m[k] = append(m[k], v)`
    unfoldable pub append_to : K → V → List (K × List V) → List (K × List V)
    append_to k v [] = (k, v ∷ []) ∷ []
    append_to k v ((j, vs) ∷ m) =
        if j == k then (j, vs ++ v ∷ []) ∷ m else (j, vs) ∷ append_to k v m

    -- `m[k]` of a map of slices, where a missing key reads as the empty slice.
    unfoldable pub members : K → List (K × List V) → List V
    members k [] = []
    members k ((j, vs) ∷ m) = if j == k then vs else members k m

    pub members-append_to :
        (k j : K) (v : V) (m : List (K × List V))
        → members j (append_to k v m) ≡ (if k == j then members j m ++ v ∷ [] else members j m)
    unfolding members append_to
    members-append_to k j v [] = ground arith
    members-append_to k j v ((i, vs) ∷ m) = ground (arith, members-append_to k j v m)
