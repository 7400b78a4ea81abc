-- ===== src/Report/Totals.antt =====
-- internal/report/report.go: the totals that the streaming write and the document count.
use twin_tidy.Base.{
  ℕ, ◌+◌, ◌-◌, ◌*◌, ◌^◌, ◌<◌, ◌≡◌, refl, sym, ap, ◌∙◌, Bool-cases, inl, inr, List, [], ◌∷◌, ◌++◌,
  map, Text, length, append-nil, append-snoc, ltb, if◌then◌else◌, arith,
}
use twin_tidy.Scanner.Types.{Time, DuplicateGroup}
use twin_tidy.Report.{
  Formats, Document, Summary, wrap, reclaimable_bytes, file_from_record, exported, add_group,
  add_groups, empty_document, build_document, add_summary,
}

-- What `summarize` counts.
unfoldable pub totals : Summary → List DuplicateGroup → Summary
totals s [] = s
totals s (g ∷ groups) = totals (add_summary s g) groups

length-map : {A B : Type 0} (f : A → B) (xs : List A) → length (map f xs) ≡ length xs
length-map f [] = refl
length-map f (x ∷ xs) = omega (arith, length-map f xs)

-- The two ways to add the reclaimable bytes of a group.
add_reclaimable :
    (n size t : ℕ)
    → t < 2 ^ 64
    → ((if ltb 1 n then wrap (t + wrap ((n - 1) * size)) else t)
        ≡ wrap (t + reclaimable_bytes size n))
      × ((if ltb 1 n then wrap (t + wrap ((n - 1) * size)) else t) < 2 ^ 64)
unfolding wrap reclaimable_bytes
add_reclaimable n size t small = elim (Bool-cases (ltb 1 n)) [
  | inl many ↦ rw (many) (refl, omega arith)
  | inr few ↦ rw (few) (omega (arith, small), small)
]

module _ (f : Formats) where
  pub length-exported : (g : DuplicateGroup) → length (exported f g).files ≡ length g.files
  unfolding exported
  length-exported g = length-map (file_from_record f) g.files

  add_groups-groups :
      (d : Document) (groups : List DuplicateGroup)
      → ((add_groups f d groups).groups ≡ d.groups ++ map (exported f) groups)
        × ((add_groups f d groups).generated_at ≡ d.generated_at)
        × ((add_groups f d groups).folder ≡ d.folder)
  unfolding add_groups add_group
  add_groups-groups d [] = (append-nil d.groups, refl, refl)
  add_groups-groups d (g ∷ groups) =
      let (all, at, folder) = add_groups-groups (add_group f d g) groups in
      (all ∙ append-snoc d.groups (exported f g) (map (exported f) groups), at, folder)

  -- The totals agree so far.
  record Agree (d : Document) (s : Summary) : Type 0 where
    count : d.file_count ≡ s.file_count
    total : d.reclaimable_bytes ≡ s.reclaimable_bytes
    small : d.reclaimable_bytes < 2 ^ 64

  add_group-Agree :
      (d : Document) (s : Summary) (g : DuplicateGroup)
      → Agree d s
      → Agree (add_group f d g) (add_summary s g)
  unfolding add_group add_summary reclaimable_bytes wrap
  add_group-Agree d s g h =
      let n = length (exported f g).files in
      let same : n ≡ length g.files = length-exported g in
      let (total, small) = add_reclaimable n g.size d.reclaimable_bytes h.small in
      record {
        count = ap (λ c. c + n) h.count ∙ ap (λ c. s.file_count + c) same;
        total =
            total
            ∙ ap (λ t. wrap (t + reclaimable_bytes g.size n)) h.total
            ∙ ap (λ c. wrap (s.reclaimable_bytes + reclaimable_bytes g.size c)) same;
        small = small;
      }

  add_groups-Agree :
      (d : Document) (s : Summary) (groups : List DuplicateGroup)
      → Agree d s
      → Agree (add_groups f d groups) (totals s groups)
  unfolding add_groups totals
  add_groups-Agree d s [] h = h
  add_groups-Agree d s (g ∷ groups) h =
      add_groups-Agree (add_group f d g) (add_summary s g) groups (add_group-Agree d s g h)

  -- The document's totals are those of the summary, its groups are the scan's in their order.
  pub record IsDocument (folder : Text) (groups : List DuplicateGroup) (at : Time) (s : Summary)
      (d : Document) : Type 0 where
    pub listed : d.groups ≡ map (exported f) groups
    pub generated_at : d.generated_at ≡ f.rfc3339 at
    pub same_folder : d.folder ≡ folder
    pub count : d.file_count ≡ s.file_count
    pub total : d.reclaimable_bytes ≡ s.reclaimable_bytes
    pub group_count : d.group_count ≡ s.group_count

  totals-group_count :
      (s : Summary) (groups : List DuplicateGroup) → (totals s groups).group_count ≡ s.group_count
  unfolding totals add_summary
  totals-group_count s [] = refl
  totals-group_count s (g ∷ groups) = totals-group_count (add_summary s g) groups

  pub build_document-IsDocument :
      (folder : Text) (groups : List DuplicateGroup) (at : Time)
      → IsDocument folder groups at
          (totals
            (record { group_count = length groups; file_count = 0; reclaimable_bytes = 0 })
            groups)
          (build_document f folder groups at)
  unfolding build_document empty_document
  build_document-IsDocument folder groups at =
      let start : Summary = record {
        group_count = length groups;
        file_count = 0;
        reclaimable_bytes = 0;
      } in
      let d = empty_document f folder at in
      let (all, generated, same) = add_groups-groups d groups in
      let agree =
        add_groups-Agree d start groups
          (record { count = refl; total = refl; small = omega arith }) in
      record {
        listed = all;
        generated_at = generated;
        same_folder = same;
        count = agree.count;
        total = agree.total;
        group_count =
            ap length all ∙ length-map (exported f) groups ∙ sym (totals-group_count start groups);
      }
