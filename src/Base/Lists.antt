-- ===== src/Base/Lists.antt =====
-- Lists measured by native numbers, and the predicates on lists that the components use.
use Prim.Native.Nat.{ℕ, zero, suc, ◌+◌, ◌≤◌}
use mathlib.Core.Path.{◌≡◌, refl, ap}
use mathlib.Core.List.{List, [], ◌∷◌, ◌++◌, Memᴰ}
use mathlib.Core.Option.{Option, none, some}
use mathlib.Core.Logic.{inl, inr}
use native.Mathlib.Omega.{arith}
use twin_tidy.Base.Tests.{Bool-cases}
use mathlib.Core.Bool.{Bool, true, false}

module _ {ℓ} {A : Type ℓ} where
  abbrev pub length : List A → ℕ
  length [] = 0
  length (x ∷ xs) = suc (length xs)

  abbrev pub get_elem? : List A → ℕ → Option A
  get_elem? [] i = none
  get_elem? (x ∷ xs) zero = some x
  get_elem? (x ∷ xs) (suc i) = get_elem? xs i

  abbrev pub take : ℕ → List A → List A
  take zero xs = []
  take (suc n) [] = []
  take (suc n) (x ∷ xs) = x ∷ take n xs

  abbrev pub drop : ℕ → List A → List A
  drop zero xs = xs
  drop (suc n) [] = []
  drop (suc n) (x ∷ xs) = drop n xs

  pub length-append : (xs ys : List A) → length (xs ++ ys) ≡ length xs + length ys
  length-append [] ys = omega arith
  length-append (x ∷ xs) ys = omega (arith, length-append xs ys)

  pub append-nil : (xs : List A) → xs ≡ xs ++ []
  append-nil [] = refl
  append-nil (x ∷ xs) = ap (λ r. x ∷ r) (append-nil xs)

  pub append-snoc : (xs : List A) (y : A) (zs : List A) → (xs ++ y ∷ []) ++ zs ≡ xs ++ y ∷ zs
  append-snoc [] y zs = refl
  append-snoc (x ∷ xs) y zs = ap (λ r. x ∷ r) (append-snoc xs y zs)

  pub append-cons :
      (xs : List A) (y : A) (ys zs : List A) → (xs ++ y ∷ ys) ++ zs ≡ xs ++ y ∷ (ys ++ zs)
  append-cons [] y ys zs = refl
  append-cons (x ∷ xs) y ys zs = ap (λ r. x ∷ r) (append-cons xs y ys zs)

  pub append_assoc : (xs ys zs : List A) → (xs ++ ys) ++ zs ≡ xs ++ (ys ++ zs)
  append_assoc [] ys zs = refl
  append_assoc (x ∷ xs) ys zs = ap (λ r. x ∷ r) (append_assoc xs ys zs)

  -- A predicate of every entry, which computes to a tuple.
  abbrev pub All {κ} : (A → Type κ) → List A → Type κ
  All P [] = Unit
  All P (x ∷ xs) = P x × All P xs

  pub All-map {κ μ} :
      (P : A → Type κ) (Q : A → Type μ)
      → ((a : A) → P a → Q a)
      → (xs : List A) → All P xs
      → All Q xs
  All-map P Q f [] h = tt
  All-map P Q f (x ∷ xs) h = (f x h.0, All-map P Q f xs h.1)

  pub All-mem {κ} : (P : A → Type κ) (xs : List A) → All P xs → {a : A} → Memᴰ a xs → P a
  All-mem P [] h m = elim m [ ]
  All-mem P (x ∷ xs) h (Memᴰ.head e) = rw e h.0
  All-mem P (x ∷ xs) h (Memᴰ.tail m) = All-mem P xs h.1 m

  -- The entries that pass a test, in order.
  unfoldable pub filter_by : (A → Bool) → List A → List A
  filter_by p [] = []
  filter_by p (x ∷ xs) = let rest = filter_by p xs in elim (p x) [ true ↦ x ∷ rest | false ↦ rest ]

  pub length-filter_by-le : (p : A → Bool) (xs : List A) → length (filter_by p xs) ≤ length xs
  unfolding filter_by
  length-filter_by-le p [] = omega arith
  length-filter_by-le p (x ∷ xs) = ground (arith, length-filter_by-le p xs)

  pub filter_by-All {κ} :
      (P : A → Type κ) (p : A → Bool) (xs : List A)
      → ((a : A) → p a ≡ true → P a)
      → All P (filter_by p xs)
  unfolding filter_by
  filter_by-All P p [] h = tt
  filter_by-All P p (x ∷ xs) h = elim (Bool-cases (p x)) [
    | inl e ↦ rw (e, filter_by) (h x e, filter_by-All P p xs h)
    | inr e ↦ rw (e, filter_by) (filter_by-All P p xs h)
  ]

  mem-filter_by_head :
      {a x : A} (p : A → Bool) {xs ys : List A}
      → (Memᴰ a ys → Memᴰ a xs × (p a ≡ true))
      → Memᴰ a (x ∷ ys)
      → p x ≡ true
      → Memᴰ a (x ∷ xs) × (p a ≡ true)
  mem-filter_by_head p rest (Memᴰ.head e) t = (Memᴰ.head e, rw e t)
  mem-filter_by_head p rest (Memᴰ.tail k) t = let (k', h) = rest k in (Memᴰ.tail k', h)

  pub mem-filter_by :
      {a : A} (p : A → Bool) (xs : List A) → Memᴰ a (filter_by p xs) → Memᴰ a xs × (p a ≡ true)
  unfolding filter_by
  mem-filter_by p [] m = elim m [ ]
  mem-filter_by {a} p (x ∷ xs) m = elim (Bool-cases (p x)) [
    | inl e ↦ mem-filter_by_head p (λ k. mem-filter_by p xs k) (rw (e, filter_by) at m) e
    | inr e ↦ let (k, h) = mem-filter_by p xs (rw (e, filter_by) at m) in (Memᴰ.tail k, h)
  ]

  pub mem-filter_by_of :
      {a : A} (p : A → Bool) (xs : List A) → Memᴰ a xs → p a ≡ true → Memᴰ a (filter_by p xs)
  unfolding filter_by
  mem-filter_by_of p [] m h = elim m [ ]
  mem-filter_by_of p (x ∷ xs) (Memᴰ.head e) h =
      rw (let t : p x ≡ true = rw (← e) h in t, filter_by) (Memᴰ.head e)
  mem-filter_by_of p (x ∷ xs) (Memᴰ.tail m) h = elim (Bool-cases (p x)) [
    | inl e ↦ rw (e, filter_by) (Memᴰ.tail (mem-filter_by_of p xs m h))
    | inr e ↦ rw (e, filter_by) (mem-filter_by_of p xs m h)
  ]

  pub All-of_mem {κ} : (P : A → Type κ) (xs : List A) → ((a : A) → Memᴰ a xs → P a) → All P xs
  All-of_mem P [] h = tt
  All-of_mem P (x ∷ xs) h = (h x (Memᴰ.head refl), All-of_mem P xs (λ a m. h a (Memᴰ.tail m)))
