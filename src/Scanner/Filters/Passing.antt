-- ===== src/Scanner/Filters/Passing.antt =====
-- internal/scanner/engine.go, filters.go: the filter of the records, against what is asked for.
use twin_tidy.Base.{
  ℕ, ◌≤◌, ◌≡◌, ◌↔◌, refl, sym, ap, subst, ◌∙◌, Bool, Bool-cases, true, false, ◌&&◌, not, ◌⊎◌, inl,
  inr, List, [], ◌∷◌, Memᴰ, Text, ==_iff, text_eq, contains, contains_of_mem, mem_of_contains,
  IsDistinct, pos, arith,
}
use twin_tidy.Scanner.Types.{FileCategory, FileRecord, ScanOptions}
use twin_tidy.Scanner.Platform.{Platform, ext, path_within_fold}
use twin_tidy.Scanner.Filters.{
  normalize_extension, normalize_extensions, is_excluded, record_passes_filters, categorized,
  is_wanted, filter_records_by_options,
}

mem-cons : {A : Type 0} {a x : A} {xs : List A} → Memᴰ a (x ∷ xs) → (a ≡ x) ⊎ Memᴰ a xs
mem-cons (Memᴰ.head e) = inl e
mem-cons (Memᴰ.tail m) = inr m

module _ (p : Platform) where
  normalize_extensions-fresh :
      (seen extensions : List Text) (e : Text)
      → contains e seen ≡ true
      → contains e (normalize_extensions p seen extensions) ≡ false
  unfolding normalize_extensions contains
  normalize_extensions-fresh seen [] e h = refl
  normalize_extensions-fresh seen (x ∷ rest) e h =
      let later =
        normalize_extensions-fresh (normalize_extension p x ∷ seen) rest e (ground arith) in
      let skipped = normalize_extensions-fresh seen rest e h in
      ground (arith, ==_iff (normalize_extension p x) e)

  normalize_extensions-IsDistinct :
      (seen extensions : List Text) → IsDistinct (normalize_extensions p seen extensions)
  unfolding normalize_extensions contains
  normalize_extensions-IsDistinct seen [] = tt
  normalize_extensions-IsDistinct seen (x ∷ rest) =
      let e = normalize_extension p x in
      let later = normalize_extensions-IsDistinct (e ∷ seen) rest in
      let skipped = normalize_extensions-IsDistinct seen rest in
      let known : contains e (e ∷ seen) ≡ true = ground (arith, ==_iff e e) in
      let fresh = normalize_extensions-fresh (e ∷ seen) rest e known in ground arith

  -- What the filters ask of a record.
  pub record IsPassing (options : ScanOptions) (r : FileRecord) : Type 0 where
    pub large : (n : ℕ) → options.min_file_size ≡ pos n → n ≤ r.size
    pub extension : ¬ Memᴰ (p.lower (ext p r.path)) options.excluded_extensions
    pub outside :
        (folder : Text)
        → Memᴰ folder options.excluded_paths
        → path_within_fold p r.path folder ≡ false

  is_excluded-outside :
      (path : Text) (folders : List Text)
      → is_excluded p path folders ≡ false
      → (folder : Text) → Memᴰ folder folders
      → path_within_fold p path folder ≡ false
  unfolding is_excluded
  is_excluded-outside path [] h folder m = elim m [ ]
  is_excluded-outside path (x ∷ rest) h folder (Memᴰ.head e) = rw (e) (ground arith)
  is_excluded-outside path (x ∷ rest) h folder (Memᴰ.tail m) =
      is_excluded-outside path rest (ground arith) folder m

  outside-is_excluded :
      (path : Text) (folders : List Text)
      → ((folder : Text) → Memᴰ folder folders → path_within_fold p path folder ≡ false)
      → is_excluded p path folders ≡ false
  unfolding is_excluded
  outside-is_excluded path [] h = refl
  outside-is_excluded path (x ∷ rest) h =
      let here = h x (Memᴰ.head refl) in
      let later = outside-is_excluded path rest (λ f m. h f (Memᴰ.tail m)) in ground arith

  -- Exactly the records that meet what the filters ask pass them, where the minimal size is not
  -- negative.
  record_passes_filters_iff :
      (r : FileRecord) (options : ScanOptions) (n : ℕ)
      → options.min_file_size ≡ pos n
      → (record_passes_filters p r options ≡ true) ↔ IsPassing options r
  unfolding record_passes_filters
  record_passes_filters_iff r options n e = (
    (λ h. record {
      large = λ k e'. let same : pos n ≡ pos k = sym e ∙ e' in ground arith;
      extension = λ m. let known = contains_of_mem _ options.excluded_extensions m in ground arith;
      outside = is_excluded-outside r.path options.excluded_paths (ground arith);
    }),
    (λ h.
        let large = h.large n e in
        let outside = outside-is_excluded r.path options.excluded_paths h.outside in
        elim (Bool-cases (contains (p.lower (ext p r.path)) options.excluded_extensions)) [
          | inl bad ↦ absurd (h.extension (mem_of_contains _ options.excluded_extensions bad))
          | inr good ↦ ground arith
        ]),
  )

  module _ (is_user_created_file_path : Text → Bool) (category_for_path : Text → FileCategory) where
    -- The record is wanted: it is a user's file where only those are, its category is chosen, and
    -- it passes the filters.
    pub record IsWanted (options : ScanOptions) (f : FileRecord) : Type 0 where
      pub users : options.user_files_only ≡ true → is_user_created_file_path f.path ≡ true
      pub chosen : is_wanted p is_user_created_file_path category_for_path options f.category ≡ true
      pub passing : IsPassing options f

    categorized-path :
        (f : FileRecord)
        → (categorized p is_user_created_file_path category_for_path f).path ≡ f.path
    unfolding categorized
    categorized-path f = ground arith

    IsWanted-iff :
        (options : ScanOptions) (f : FileRecord) (files : List FileRecord) (n : ℕ)
        → options.min_file_size ≡ pos n
        → let filter = filter_records_by_options p is_user_created_file_path category_for_path in
          let g = categorized p is_user_created_file_path category_for_path f in
          ((filter (f ∷ files) options ≡ g ∷ filter files options) × IsWanted options g)
          ⊎ ((filter (f ∷ files) options ≡ filter files options) × (¬ IsWanted options g))
    unfolding filter_records_by_options is_wanted
    IsWanted-iff options f files n e =
        let g = categorized p is_user_created_file_path category_for_path f in
        let place = categorized-path f in
        let passes = record_passes_filters_iff g options n e in
        elim (Bool-cases (record_passes_filters p g options)) [
          | inr bad ↦ inr (ground arith, λ w. let t = passes.1 w.passing in ground arith)
          | inl good ↦
              elim (Bool-cases
                (is_wanted p is_user_created_file_path category_for_path options g.category)) [
                  | inr bad ↦ inr (ground arith, λ w. let t = w.chosen in ground arith)
                  | inl chosen ↦
                      elim (Bool-cases
                        (options.user_files_only && not (is_user_created_file_path f.path))) [
                          | inl bad ↦
                              inr
                                (ground arith, λ w. let t = w.users (ground arith) in ground arith)
                          | inr users ↦ inl (
                            ground arith,
                            record {
                              users = λ u. ground arith;
                              chosen = chosen;
                              passing = passes.0 good;
                            },
                          )
                        ]
                ]
        ]

    -- The scanned records that the options choose, where the minimal size is not negative: exactly
    -- those that are wanted, each with its category.
    pub filter_records_by_options_iff :
        (options : ScanOptions) (files : List FileRecord) (n : ℕ)
        → options.min_file_size ≡ pos n
        → (r : FileRecord)
        → Memᴰ r
            (filter_records_by_options p is_user_created_file_path category_for_path files options)
          ↔ ((f : FileRecord) × Memᴰ f files
              × (r ≡ categorized p is_user_created_file_path category_for_path f)
              × IsWanted options r)
    unfolding filter_records_by_options
    filter_records_by_options_iff options [] n e r = ((λ m. elim m [ ]), (λ h. elim h.1 [ ]))
    filter_records_by_options_iff options (f ∷ files) n e r =
        let later = filter_records_by_options_iff options files n e r in
        elim (IsWanted-iff options f files n e) [
          | inl (same, wanted) ↦ (
            (λ m. elim (mem-cons (subst (λ l. Memᴰ r l) same m)) [
              | inl e' ↦ (f, Memᴰ.head refl, e', subst (IsWanted options) (sym e') wanted)
              | inr m' ↦ let (f', i, e', w) = later.0 m' in (f', Memᴰ.tail i, e', w)
            ]),
            (λ h.
                subst (λ l. Memᴰ r l) (sym same)
                  (elim (mem-cons h.1) [
                    | inl e' ↦
                        Memᴰ.head
                          (h.2 ∙ ap (categorized p is_user_created_file_path category_for_path) e')
                    | inr i ↦ Memᴰ.tail (later.1 (h.0, i, h.2, h.3))
                  ])),
          )
          | inr (same, unwanted) ↦ (
            (λ m.
                let (f', i, e', w) = later.0 (subst (λ l. Memᴰ r l) same m) in
                (f', Memᴰ.tail i, e', w)),
            (λ h.
                subst (λ l. Memᴰ r l) (sym same)
                  (elim (mem-cons h.1) [
                    | inl e' ↦ absurd (
                        unwanted (
                          subst (IsWanted options)
                            (h.2
                              ∙ ap (categorized p is_user_created_file_path category_for_path) e')
                            h.3))
                    | inr i ↦ later.1 (h.0, i, h.2, h.3)
                  ])),
          )
        ]
