-- ===== src/Scanner/Recycle/Validation.antt =====
-- internal/scanner/delete.go: the members of a request after the checks.
use twin_tidy.Base.{
  ℕ, ◌≡◌, refl, sym, ap, subst, ◌+◌, Bool, true, false, Bool-cases, some, List, [], ◌∷◌, map, Memᴰ,
  Text, ◌==◌, text_eq, nat_eq, length, All, All-map, contains, IsDistinct, map_get, map_set,
  map_get-map_set, inl, inr, arith,
}
use twin_tidy.Scanner.Types.{
  identity_eq, scope_eq, no_identity, FileRecord, Result, ok, ◌>>◌, >>=-eq-ok,
}
use twin_tidy.Scanner.Platform.{Platform}
use twin_tidy.Scanner.Recycle.{Members, reject, canonical_record_path, check_member, check_members}

pub reject-then :
    {A : Type 0} (test : Bool) (message : Text) (next : Result A) {a : A}
    → reject test message >> next ≡ ok a
    → (test ≡ false) × (next ≡ ok a)
unfolding reject
reject-then true message next h = absurd (ground arith)
reject-then false message next h = (refl, h)

-- A member that is safe to act on: it has an identity, it is as long as the group says, and
-- neither a hard link nor a named stream shares its bytes.
pub record IsSound (size : ℕ) (member : FileRecord) : Type 0 where
  pub identified : (member.identity == no_identity) ≡ false
  pub sized : member.size ≡ size
  pub single : member.link_count ≡ 1
  pub plain : member.named_streams ≡ 0

module _ (p : Platform) where
  check_member-IsSound :
      (size : ℕ) (member : FileRecord) (seen seen' : Members)
      → check_member p size member seen ≡ ok seen'
      → IsSound size member
        × (contains member.identity seen.identities ≡ false)
        × (seen'.identities ≡ member.identity ∷ seen.identities)
        × (seen'.by_path ≡ map_set seen.by_path (canonical_record_path p member.path) member)
  unfolding check_member
  check_member-IsSound size member seen seen' h =
      let (a, h1) = reject-then _ _ _ h in
      let (b, h2) = reject-then _ _ _ h1 in
      let (c, h3) = reject-then _ _ _ h2 in
      let (d, h4) = reject-then _ _ _ h3 in
      let (e, h5) = reject-then _ _ _ h4 in
      (
        record {
          identified = ground arith;
          sized = ground arith;
          single = ground arith;
          plain = ground arith;
        },
        e,
        ground arith,
        ground arith,
      )

  -- The group's members that pass the first loop: each is sound, and no two are the same file.
  pub check_members-IsSound :
      (size : ℕ) (files : List FileRecord) (seen seen' : Members)
      → check_members p size files seen ≡ ok seen'
      → All (IsSound size) files
        × IsDistinct (map (λ f. f.identity) files)
        × All (λ f. contains f.identity seen.identities ≡ false) files
        × (length seen'.identities ≡ length seen.identities + length files)
  unfolding check_members contains
  check_members-IsSound size [] seen seen' h = (tt, tt, tt, ground arith)
  check_members-IsSound size (f ∷ files) seen seen' h =
      let (next, c, rest) = >>=-eq-ok _ _ h in
      let (sound, fresh, ids, _) = check_member-IsSound size f seen next c in
      let (sounds, distinct, freshes, count) = check_members-IsSound size files next seen' rest in
      (
        (sound, sounds),
        (
          apart f files (All-map _ _ (λ g k. first_fresh f g seen next ids k) files freshes),
          distinct,
        ),
        (fresh, All-map _ _ (λ g k. rest_fresh f g seen next ids k) files freshes),
        ground (arith, ap length ids),
      )
    where
      first_fresh :
          (f g : FileRecord) (seen next : Members)
          → next.identities ≡ f.identity ∷ seen.identities
          → contains g.identity next.identities ≡ false
          → (g.identity == f.identity) ≡ false
      first_fresh f g seen next e k = let k' = rw e at k in ground arith

      rest_fresh :
          (f g : FileRecord) (seen next : Members)
          → next.identities ≡ f.identity ∷ seen.identities
          → contains g.identity next.identities ≡ false
          → contains g.identity seen.identities ≡ false
      rest_fresh f g seen next e k = let k' = rw e at k in ground arith

      apart :
          (f : FileRecord) (files : List FileRecord)
          → All (λ g. (g.identity == f.identity) ≡ false) files
          → contains f.identity (map (λ f. f.identity) files) ≡ false
      apart f [] h = refl
      apart f (g ∷ files) h = ground (arith, apart f files h.1)

  -- What the map of paths holds are files of the group.
  abbrev pub IsFrom : List FileRecord → List (Text × FileRecord) → Type 0
  IsFrom group entries = (key : Text) (f : FileRecord) → map_get entries key ≡ some f → Memᴰ f group

  map_set-IsFrom :
      (group : List FileRecord) (entries : List (Text × FileRecord)) (key : Text) (f : FileRecord)
      → IsFrom group entries
      → Memᴰ f group
      → IsFrom group (map_set entries key f)
  map_set-IsFrom group entries key f h m j g e =
      let e' = rw map_get-map_set at e in
      elim (Bool-cases (key == j)) [
        | inl same ↦
            let found : some f ≡ some g = ground arith in
            let equal : f ≡ g = ground arith in subst (λ x. Memᴰ x group) equal m
        | inr apart ↦ h j g (ground arith)
      ]

  pub check_members-IsFrom :
      (group : List FileRecord) (size : ℕ) (files : List FileRecord) (seen seen' : Members)
      → ((f : FileRecord) → Memᴰ f files → Memᴰ f group)
      → IsFrom group seen.by_path
      → check_members p size files seen ≡ ok seen'
      → IsFrom group seen'.by_path
  unfolding check_members
  check_members-IsFrom group size [] seen seen' sub h e =
      let same : seen ≡ seen' = ground arith in
      subst (λ (s : Members). IsFrom group s.by_path) same h
  check_members-IsFrom group size (f ∷ files) seen seen' sub h e =
      let (next, c, rest) = >>=-eq-ok _ _ e in
      let (_, _, _, set) = check_member-IsSound size f seen next c in
      let kept = map_set-IsFrom group seen.by_path _ f h (sub f (Memᴰ.head refl)) in
      check_members-IsFrom group size files next seen' (λ g m. sub g (Memᴰ.tail m))
        (subst (IsFrom group) (sym set) kept) rest
