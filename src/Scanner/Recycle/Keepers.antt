-- ===== src/Scanner/Recycle/Keepers.antt =====
-- internal/scanner/delete.go: the selected and the retained members of a request.
use twin_tidy.Base.{
  ◌≡◌, refl, sym, ap, subst, ◌∙◌, ◌≤◌, ◌↔◌, true, false, ◌||◌, some, List, [], ◌∷◌, ◌++◌, map, Memᴰ,
  Text, text_eq, nat_eq, length, append-nil, append-snoc, All, contains, IsDistinct, map_get,
  mem-filter_by, mem-filter_by_of, arith,
}
use twin_tidy.Scanner.Types.{
  FileIdentity, identity_eq, scope_eq, FileRecord, RecycleRequest, ok, >>=-eq-ok,
}
use twin_tidy.Scanner.Platform.{Platform}
use twin_tidy.Scanner.Recycle.{
  ValidatedRecycleRequest, Selection, canonical_record_path, same_scanned_record, exact_member,
  check_candidate, check_selected, no_members, no_selection, keepers_of, validate_recycle_request,
}
use twin_tidy.Scanner.Recycle.Validation.{
  IsSound, reject-then, check_members-IsSound, check_members-IsFrom, IsFrom,
}

module _ (p : Platform) where
  ok-inj : {A : Type 0} {a b : A} → ok a ≡ ok b → a ≡ b
  ok-inj h = ground arith

  -- The picked members are, one by one, the records that the caller holds.
  abbrev Matches : List FileRecord → List FileRecord → Type 0
  Matches [] [] = Unit
  Matches (m ∷ picked) (c ∷ candidates) =
      (same_scanned_record p m c ≡ true) × Matches picked candidates
  Matches _ _ = ⊥

  exact_member-ok :
      (by_path : List (Text × FileRecord)) (candidate member : FileRecord)
      → exact_member p by_path candidate ≡ ok member
      → (map_get by_path (canonical_record_path p candidate.path) ≡ some member)
        × (same_scanned_record p member candidate ≡ true)
  unfolding exact_member
  exact_member-ok by_path candidate member h = ground arith

  same_scanned_record-identity :
      (m c : FileRecord) → same_scanned_record p m c ≡ true → m.identity ≡ c.identity
  unfolding same_scanned_record
  same_scanned_record-identity m c h = ground arith

  check_candidate-ok :
      (by_path : List (Text × FileRecord)) (candidate : FileRecord) (seen seen' : Selection)
      → check_candidate p by_path candidate seen ≡ ok seen'
      → (member : FileRecord) × (map_get by_path (canonical_record_path p candidate.path)
          ≡ some member)
        × (same_scanned_record p member candidate ≡ true)
        × (contains member.identity seen.identities ≡ false)
        × (seen'.identities ≡ member.identity ∷ seen.identities)
        × (seen'.selected ≡ seen.selected ++ member ∷ [])
  unfolding check_candidate
  check_candidate-ok by_path candidate seen seen' h =
      let (member, e, h1) = >>=-eq-ok _ _ h in
      let (_, h2) = reject-then _ _ _ h1 in
      let (fresh, h3) = reject-then _ _ _ h2 in
      let (found, same) = exact_member-ok by_path candidate member e in
      let identity = same_scanned_record-identity member candidate same in
      (member, found, same, rw identity fresh, rw identity (ground arith), ground arith)

  -- What the second loop adds, for the candidates that it reads.
  record Picked (group candidates : List FileRecord) (seen seen' : Selection) : Type 0 where
    picked : List FileRecord
    appended : seen'.selected ≡ seen.selected ++ picked
    members : All (λ m. Memᴰ m group) picked
    matches : Matches picked candidates
    fresh : All (λ m. contains m.identity seen.identities ≡ false) picked
    once : IsDistinct (map (λ m. m.identity) picked)
    chosen :
        (i : FileIdentity)
        → contains i seen'.identities
          ≡ (contains i seen.identities || contains i (map (λ m. m.identity) picked))

  others_fresh :
      (i : FileIdentity) (ids next : List FileIdentity) (ms : List FileRecord)
      → next ≡ i ∷ ids
      → All (λ m. contains m.identity next ≡ false) ms
      → All (λ m. contains m.identity ids ≡ false) ms
        × (contains i (map (λ m. m.identity) ms) ≡ false)
  unfolding contains
  others_fresh i ids next [] e h = (tt, refl)
  others_fresh i ids next (m ∷ ms) e h =
      let (rest, apart) = others_fresh i ids next ms e h.1 in
      let here : contains m.identity (i ∷ ids) ≡ false =
        subst (λ l. contains m.identity l ≡ false) e h.0 in
      ((ground arith, rest), ground arith)

  check_selected-Picked :
      (group : List FileRecord) (by_path : List (Text × FileRecord)) (candidates : List FileRecord)
      (seen seen' : Selection)
      → IsFrom p group by_path
      → check_selected p by_path candidates seen ≡ ok seen'
      → Picked group candidates seen seen'
  unfolding check_selected contains
  check_selected-Picked group by_path [] seen seen' from h =
      let same : seen ≡ seen' = ground arith in
      record {
        picked = [];
        appended = sym (ap (λ (s : Selection). s.selected) same) ∙ append-nil seen.selected;
        members = tt;
        matches = tt;
        fresh = tt;
        once = tt;
        chosen = λ i. ground arith;
      }
  check_selected-Picked group by_path (c ∷ candidates) seen seen' from h =
      let (next, e, rest) = >>=-eq-ok _ _ h in
      let (m, found, same, new, ids, selected) = check_candidate-ok by_path c seen next e in
      let r = check_selected-Picked group by_path candidates next seen' from rest in
      let (fresh, apart) =
        others_fresh m.identity seen.identities next.identities r.picked ids r.fresh in
      record {
        picked = m ∷ r.picked;
        appended =
            r.appended ∙ ap (λ s. s ++ r.picked) selected ∙ append-snoc seen.selected m r.picked;
        members = (from _ m found, r.members);
        matches = (same, r.matches);
        fresh = (new, fresh);
        once = (apart, r.once);
        chosen = λ i. let k = r.chosen i in let k' = rw ids at k in ground arith;
      }

  -- A request whose selected files may be recycled: the keepers are exactly the members whose file
  -- is not selected, at least one of them is left, and every file is acted on at most once.
  pub record IsSafe (request : RecycleRequest) (v : ValidatedRecycleRequest) : Type 0 where
    pub sound : All (IsSound request.group.size) request.group.files
    pub distinct : IsDistinct (map (λ f. f.identity) request.group.files)
    pub members : All (λ m. Memᴰ m request.group.files) v.selected
    pub matches : Matches v.selected request.selected
    pub once : IsDistinct (map (λ m. m.identity) v.selected)
    pub retained : 1 ≤ length v.keepers
    pub keeps :
        (m : FileRecord)
        → Memᴰ m v.keepers ↔ (
            Memᴰ m request.group.files
            × (contains m.identity (map (λ s. s.identity) v.selected) ≡ false))

  empty-IsFrom : {group : List FileRecord} → IsFrom p group no_members.by_path
  unfolding no_members map_get
  empty-IsFrom key f k = absurd (ground arith)

  keepers_of_iff :
      (files : List FileRecord) (chosen ids : List FileIdentity) (m : FileRecord)
      → ((i : FileIdentity) → contains i chosen ≡ contains i ids)
      → Memᴰ m (keepers_of files chosen) ↔ (Memᴰ m files × (contains m.identity ids ≡ false))
  unfolding keepers_of
  keepers_of_iff files chosen ids m same = (
    (λ k. let (k', t) = mem-filter_by _ files k in (k', sym (same m.identity) ∙ ground arith)),
    (λ k. let e = same m.identity ∙ k.1 in mem-filter_by_of _ files k.0 (ground arith)),
  )

  -- A request that passes the checks is safe, with the validated request that the checks return.
  pub validate_recycle_request-IsSafe :
      (request : RecycleRequest) (v : ValidatedRecycleRequest)
      → validate_recycle_request p request ≡ ok v
      → IsSafe request v
  unfolding validate_recycle_request no_members no_selection contains map_get
  validate_recycle_request-IsSafe request v h =
      let group = request.group.files in
      let (_, h1) = reject-then _ _ _ h in
      let (_, h2) = reject-then _ _ _ h1 in
      let (_, h3) = reject-then _ _ _ h2 in
      let (seen, e, h4) = >>=-eq-ok _ _ h3 in
      let (chosen, e', h5) = >>=-eq-ok _ _ h4 in
      let (_, h6) = reject-then _ _ _ h5 in
      let (left, h7) = reject-then _ _ _ h6 in
      let (sound, distinct, _, _) =
        check_members-IsSound p request.group.size group no_members seen e in
      let from : IsFrom p group seen.by_path =
        check_members-IsFrom p group request.group.size group no_members seen (λ f m. m)
          empty-IsFrom e in
      let r =
        check_selected-Picked group seen.by_path request.selected no_selection chosen from e' in
      subst (λ v. IsSafe request v) (ok-inj h7)
        (record {
          sound = sound;
          distinct = distinct;
          members = subst (All (λ m. Memᴰ m group)) (sym r.appended) r.members;
          matches = subst (λ l. Matches l request.selected) (sym r.appended) r.matches;
          once = subst (λ l. IsDistinct (map (λ m. m.identity) l)) (sym r.appended) r.once;
          retained = ground arith;
          keeps = λ m.
              keepers_of_iff group chosen.identities _ m
                (λ i. r.chosen i ∙ ap (λ l. contains i (map (λ m. m.identity) l)) (sym r.appended));
        })
