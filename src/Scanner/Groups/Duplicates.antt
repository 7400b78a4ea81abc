-- ===== src/Scanner/Groups/Duplicates.antt =====
-- internal/scanner/engine.go: the groups of mapByFullHash, against the classes of the arrivals.
use twin_tidy.Base.{
  ℕ, ◌≤◌, ◌≡◌, refl, sym, ap, subst, Bool-cases, inl, inr, Option, List, [], ◌∷◌, map, Memᴰ, Perm,
  Text, ◌==◌, nat_eq, text_eq, text_lt_asym, text_lt_trans, length, All, All-of_mem, filter_by,
  sort_slice, sort_slice-perm, sort_slice-All, mem-sort_slice, IsSortedBy, IsStrictWeak,
  sort_slice-IsSortedBy, arith,
}
use twin_tidy.Scanner.Types.{FileRecord, DuplicateGroup, Err, Result-cases, ok, >>=-eq-ok}
use twin_tidy.Scanner.Groups.{
  Arrival, FullKey, full_eq, is_shared, at_end, newer, larger, duplicate_group, keyed,
  map_by_full_hash,
}
use twin_tidy.Scanner.Groups.Collected.{files_at, collected_iff}

-- The files whose size and full hash are the key's, as the workers reported them.
unfoldable pub class_of : List (Arrival Text) → FullKey → List FileRecord
class_of arrivals k = files_at k (map keyed arrivals)

abbrev pub full_key : ℕ → Text → FullKey
full_key size hash = record { size = size; hash = hash }

-- Every file of a class has the size of its key.
pub class_of-size :
    (arrivals : List (Arrival Text)) (k : FullKey)
    → All (λ f. f.size ≡ k.size) (class_of arrivals k)
unfolding class_of files_at keyed
class_of-size [] k = tt
class_of-size (a ∷ arrivals) k = elim (Result-cases a.outcome) [
  | inl (e, q) ↦ rw (q) (class_of-size arrivals k)
  | inr (hash, q) ↦ elim (Bool-cases (full_key a.file.size hash == k)) [
    | inl same ↦
        let group : class_of (a ∷ arrivals) k ≡ a.file ∷ class_of arrivals k = ground arith in
        let size : a.file.size ≡ k.size = ground arith in
        subst (All (λ f. f.size ≡ k.size)) (sym group) (size, class_of-size arrivals k)
    | inr other ↦
        let group : class_of (a ∷ arrivals) k ≡ class_of arrivals k = ground arith in
        subst (All (λ f. f.size ≡ k.size)) (sym group) (class_of-size arrivals k)
  ]
]

newer-IsStrictWeak : IsStrictWeak newer
unfolding newer
newer-IsStrictWeak = record {
  asym = λ a b h. ground (arith, text_lt_asym a.path b.path);
  trans = λ a b c h k. ground (arith, text_lt_trans a.path b.path c.path);
}

larger-IsStrictWeak : IsStrictWeak larger
unfolding larger
larger-IsStrictWeak = record {
  asym = λ a b h. ground (arith, text_lt_asym a.hash b.hash);
  trans = λ a b c h k. ground (arith, text_lt_trans a.hash b.hash c.hash);
}

-- The group shows the class of the key: its size and hash, and the files of the class, at least
-- two, the newest first.
pub record IsGroupOf (arrivals : List (Arrival Text)) (k : FullKey) (d : DuplicateGroup)
    : Type 0 where
  pub size : d.size ≡ k.size
  pub hash : d.hash ≡ k.hash
  pub files : Perm d.files (class_of arrivals k)
  pub many : 2 ≤ length (class_of arrivals k)
  pub sorted : IsSortedBy newer d.files

mem-map :
    {A B : Type 0} (f : A → B) (xs : List A) {b : B}
    → Memᴰ b (map f xs)
    → (a : A) × Memᴰ a xs × (b ≡ f a)
mem-map f [] m = elim m [ ]
mem-map f (x ∷ xs) (Memᴰ.head e) = (x, Memᴰ.head refl, e)
mem-map f (x ∷ xs) (Memᴰ.tail m) = let (a, i, e) = mem-map f xs m in (a, Memᴰ.tail i, e)

map-mem : {A B : Type 0} (f : A → B) (xs : List A) {a : A} → Memᴰ a xs → Memᴰ (f a) (map f xs)
map-mem f [] m = elim m [ ]
map-mem f (x ∷ xs) (Memᴰ.head e) = Memᴰ.head (ap f e)
map-mem f (x ∷ xs) (Memᴰ.tail m) = Memᴰ.tail (map-mem f xs m)

entry-IsGroupOf :
    (arrivals : List (Arrival Text)) (k : FullKey) (fs : List FileRecord)
    → fs ≡ class_of arrivals k
    → 2 ≤ length fs
    → IsGroupOf arrivals k (duplicate_group (k, fs))
unfolding duplicate_group
entry-IsGroupOf arrivals k fs same many = record {
  size = refl;
  hash = refl;
  files = subst (λ gs. Perm (sort_slice newer fs) gs) same (sort_slice-perm newer fs);
  many = subst (λ gs. 2 ≤ length gs) same many;
  sorted = sort_slice-IsSortedBy newer newer-IsStrictWeak fs;
}

-- When the last stage returns groups, each group is a class, each class of at least two files has
-- its group, and the groups come by falling size and then by hash.
pub map_by_full_hash-IsGroupOf :
    (arrivals : List (Arrival Text)) (ignored : ℕ) (ctx : Option Err) (ds : List DuplicateGroup)
    (n : ℕ)
    → map_by_full_hash arrivals ignored ctx ≡ ok (ds, n)
    → All (λ d. (k : FullKey) × IsGroupOf arrivals k d) ds
      × ((k : FullKey)
          → 2 ≤ length (class_of arrivals k)
          → (d : DuplicateGroup) × Memᴰ d ds × IsGroupOf arrivals k d)
      × IsSortedBy larger ds
unfolding map_by_full_hash at_end class_of
map_by_full_hash-IsGroupOf arrivals ignored ctx ds n h =
    let (s, c, rest) = >>=-eq-ok _ _ h in
    let shared = filter_by is_shared s.groups in
    let groups = map duplicate_group shared in
    let result : sort_slice larger groups ≡ ds = ground arith in
    let exact = collected_iff (map keyed arrivals) ignored s c in
    let sound : All (λ d. (k : FullKey) × IsGroupOf arrivals k d) groups =
      All-of_mem _ groups (λ d m.
        let (entry, i, same) = mem-map duplicate_group shared m in
        let (class, many) = (exact entry.0 entry.1).0 i in
        (
          entry.0,
          subst (IsGroupOf arrivals entry.0) (sym same)
              (entry-IsGroupOf arrivals entry.0 entry.1 class many),
        )) in
    (
      subst (All (λ d. (k : FullKey) × IsGroupOf arrivals k d)) result
          (sort_slice-All _ larger groups sound),
      (λ k many.
          let i = (exact k (class_of arrivals k)).1 (refl, many) in
          (
            duplicate_group (k, class_of arrivals k),
            subst (λ l. Memᴰ (duplicate_group (k, class_of arrivals k)) l) result
                (mem-sort_slice larger groups (map-mem duplicate_group shared i)),
            entry-IsGroupOf arrivals k (class_of arrivals k) refl many,
          )),
      subst (IsSortedBy larger) result (sort_slice-IsSortedBy larger larger-IsStrictWeak groups),
    )
