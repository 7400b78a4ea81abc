-- ===== src/Base/Filter.antt =====
-- Filters under permutations, appends and each other.
use Prim.Native.Nat.{suc, ◌≤◌}
use mathlib.Core.Path.{◌≡◌, refl, ap, ◌∙◌}
use mathlib.Core.Bool.{Bool, true, false}
use mathlib.Core.Option.{Option, none, some}
use mathlib.Core.Logic.{∥∥₁_elim}
use mathlib.Core.List
use mathlib.Core.List.{List, [], ◌∷◌, ◌++◌, Memᴰ, Perm, Permᴰ}
use native.Mathlib.Nat.{ℕ_set}
use mathlib.Core.Option.{Option-elim}
use mathlib.Core.List.Perm
use native.Mathlib.Omega.{arith}
use twin_tidy.Base.Lists.{length, filter_by}

module _ {A : Type 0} where
  pub filter_by-append :
      (p : A → Bool) (xs ys : List A) → filter_by p (xs ++ ys) ≡ filter_by p xs ++ filter_by p ys
  unfolding filter_by
  filter_by-append p [] ys = refl
  filter_by-append p (x ∷ xs) ys = ground (arith, filter_by-append p xs ys)

  pub filter_by-none :
      (p : A → Bool) (xs : List A) → ((a : A) → Memᴰ a xs → p a ≡ false) → filter_by p xs ≡ []
  unfolding filter_by
  filter_by-none p [] h = refl
  filter_by-none p (x ∷ xs) h =
      ground (arith, h x (Memᴰ.head refl), filter_by-none p xs (λ a m. h a (Memᴰ.tail m)))

  -- A filter that asks more makes the other needless.
  pub filter_by-filter_by :
      (p q : A → Bool) (xs : List A)
      → ((a : A) → p a ≡ true → q a ≡ true)
      → filter_by p (filter_by q xs) ≡ filter_by p xs
  unfolding filter_by
  filter_by-filter_by p q [] h = refl
  filter_by-filter_by p q (x ∷ xs) h = ground (arith, h x, filter_by-filter_by p q xs h)

  pub filter_by_le :
      (p q : A → Bool) (xs : List A)
      → ((a : A) → p a ≡ true → q a ≡ true)
      → length (filter_by p xs) ≤ length (filter_by q xs)
  unfolding filter_by
  filter_by_le p q [] h = omega arith
  filter_by_le p q (x ∷ xs) h = ground (arith, h x, filter_by_le p q xs h)

  chosen : (A → Bool) → A → Option A
  chosen p a = elim (p a) [ true ↦ some a | false ↦ none ]

  filter_by-filter_map :
      (p : A → Bool) (xs : List A) → filter_by p xs ≡ List.filter_map (chosen p) xs
  unfolding filter_by List.filter_map chosen Option-elim
  filter_by-filter_map p [] = refl
  filter_by-filter_map p (x ∷ xs) = ground (arith, filter_by-filter_map p xs)

  pub filter_by-Perm :
      (p : A → Bool) {xs ys : List A} → Perm xs ys → Perm (filter_by p xs) (filter_by p ys)
  filter_by-Perm p {xs} {ys} h =
      rw (filter_by-filter_map p xs, filter_by-filter_map p ys) (Perm.filter_map (chosen p) h)

  length-Permᴰ : {xs ys : List A} → Permᴰ xs ys → length xs ≡ length ys
  length-Permᴰ Permᴰ.nil = refl
  length-Permᴰ (Permᴰ.cons e h) = ap suc (length-Permᴰ h)
  length-Permᴰ (Permᴰ.swap e₁ e₂) = refl
  length-Permᴰ (Permᴰ.trans h k) = length-Permᴰ h ∙ length-Permᴰ k

  pub length-Perm : {xs ys : List A} → Perm xs ys → length xs ≡ length ys
  length-Perm h = ∥∥₁_elim h (ℕ_set _ _) length-Permᴰ
