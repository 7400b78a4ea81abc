-- ===== src/Gui/Table/Removal.antt =====
-- internal/gui/app_windows.go: which rows a removal leaves in the table, and how they are numbered.
use twin_tidy.Base.{
  ==_refl, ℕ, ◌+◌, ◌<◌, ◌≡◌, ◌↔◌, refl, sym, ap, subst, ◌∙◌, Bool, Bool-cases, true, false, not,
  Option, none, some, inl, inr, ◌⊎◌, List, [], ◌∷◌, map, Memᴰ, Text, ◌==◌, ==_iff, text_eq,
  if◌then◌else◌, ltb, All, All-mem, filter_by, map_get, map_set, map_get-map_set, arith,
}
use twin_tidy.Scanner.Types.{FileRecord}
use twin_tidy.Gui.Table.{DuplicateRow, kept_rows, key_count, renumber, remove_deleted}

-- The rows are numbered from the number on.
abbrev pub IsNumbered : ℕ → List DuplicateRow → Type 0
IsNumbered n [] = Unit
IsNumbered n (row ∷ rows) = (row.number ≡ n) × IsNumbered (n + 1) rows

abbrev pub files_of_rows : List DuplicateRow → List FileRecord
files_of_rows = map (λ (row : DuplicateRow). row.file)

-- The row without what a removal sets anew.
abbrev pub content : DuplicateRow → DuplicateRow
content row = record row { group = 0; number = 0; selected = false }

-- The row's key has another row.
unfoldable pub is_repeated : List DuplicateRow → DuplicateRow → Bool
is_repeated all row = not (ltb (key_count row.key all) 2)

get-cases :
    (numbers : List (Text × ℕ)) (key : Text)
    → (map_get numbers key ≡ none) ⊎ ((n : ℕ) × (map_get numbers key ≡ some n))
get-cases numbers key = go (map_get numbers key)
  where
    go : (o : Option ℕ) → (o ≡ none) ⊎ ((n : ℕ) × (o ≡ some n))
    go none = inl refl
    go (some n) = inr (n, refl)

-- The numbers of the groups in the end.
unfoldable pub assigned :
    List DuplicateRow → List (Text × ℕ) → ℕ → List DuplicateRow → List (Text × ℕ)
assigned all numbers next [] = numbers
assigned all numbers next (row ∷ rows) =
    if ltb (key_count row.key all) 2
    then assigned all numbers next rows
    else elim (map_get numbers row.key) [
      | some group ↦ assigned all numbers next rows
      | none ↦ assigned all (map_set numbers row.key next) (next + 1) rows
    ]

-- Numbers that are less than the next one, each of one key.
record IsAssigned (numbers : List (Text × ℕ)) (next : ℕ) : Type 0 where
  below : (key : Text) (n : ℕ) → map_get numbers key ≡ some n → n < next
  single :
      (key key' : Text) (n : ℕ)
      → map_get numbers key ≡ some n
      → map_get numbers key' ≡ some n
      → key ≡ key'

set-IsAssigned :
    (numbers : List (Text × ℕ)) (next : ℕ) (key : Text)
    → IsAssigned numbers next
    → IsAssigned (map_set numbers key next) (next + 1)
set-IsAssigned numbers next key h = record {
  below = λ k n q. elim (Bool-cases (key == k)) [
    | inl same ↦ ground (arith, map_get-map_set numbers k key next)
    | inr other ↦
        let old : map_get numbers k ≡ some n = ground (arith, map_get-map_set numbers k key next) in
        let less = h.below k n old in omega arith
  ];
  single = λ k k' n q q'.
      let got = map_get-map_set numbers k key next in
      let got' = map_get-map_set numbers k' key next in
      elim (Bool-cases (key == k)) [
        | inl same ↦ elim (Bool-cases (key == k')) [
          | inl same' ↦ sym ((==_iff key k).0 same) ∙ (==_iff key k').0 same'
          | inr other ↦
              let old : map_get numbers k' ≡ some n = ground arith in
              let less = h.below k' n old in
              let new : next ≡ n = ground arith in absurd (omega arith)
        ]
        | inr other ↦ elim (Bool-cases (key == k')) [
          | inl same ↦
              let old : map_get numbers k ≡ some n = ground arith in
              let less = h.below k n old in
              let new : next ≡ n = ground arith in absurd (omega arith)
          | inr other' ↦ h.single k k' n (ground arith) (ground arith)
        ]
      ];
}

module _ (all : List DuplicateRow) where
  assigned-IsAssigned :
      (numbers : List (Text × ℕ)) (next : ℕ) (rows : List DuplicateRow)
      → IsAssigned numbers next
      → (last : ℕ) × IsAssigned (assigned all numbers next rows) last
  unfolding assigned
  assigned-IsAssigned numbers next [] h = (next, h)
  assigned-IsAssigned numbers next (row ∷ rows) h =
      elim (Bool-cases (ltb (key_count row.key all) 2)) [
        | inl few ↦ rw (few) (assigned-IsAssigned numbers next rows h)
        | inr many ↦ elim (get-cases numbers row.key) [
          | inl new ↦
              rw (many, new)
                (assigned-IsAssigned (map_set numbers row.key next) (next + 1) rows
                  (set-IsAssigned numbers next row.key h))
          | inr (n, known) ↦ rw (many, known) (assigned-IsAssigned numbers next rows h)
        ]
      ]

  -- A key keeps its number.
  assigned-known :
      (numbers : List (Text × ℕ)) (next : ℕ) (rows : List DuplicateRow) (key : Text) (n : ℕ)
      → map_get numbers key ≡ some n
      → map_get (assigned all numbers next rows) key ≡ some n
  unfolding assigned
  assigned-known numbers next [] key n h = h
  assigned-known numbers next (row ∷ rows) key n h =
      elim (Bool-cases (ltb (key_count row.key all) 2)) [
        | inl few ↦ rw (few) (assigned-known numbers next rows key n h)
        | inr many ↦ elim (get-cases numbers row.key) [
          | inr (m, known) ↦ rw (many, known) (assigned-known numbers next rows key n h)
          | inl new ↦
              let got = map_get-map_set numbers key row.key next in
              let apart : (row.key == key) ≡ false = elim (Bool-cases (row.key == key)) [
                | inr other ↦ other
                | inl same ↦
                    let known =
                      subst (λ k. map_get numbers k ≡ none) ((==_iff row.key key).0 same) new in
                    absurd (ground arith)
              ] in
              rw (many, new)
                (assigned-known (map_set numbers row.key next) (next + 1) rows key n (ground arith))
        ]
      ]

  -- Every row that stays has the number of its key.
  renumber-assigned :
      (numbers : List (Text × ℕ)) (next done : ℕ) (rows : List DuplicateRow)
      → All
          (λ row. map_get (assigned all numbers next rows) row.key ≡ some row.group)
          (renumber all numbers next done rows)
  unfolding renumber assigned
  renumber-assigned numbers next done [] = tt
  renumber-assigned numbers next done (row ∷ rows) =
      elim (Bool-cases (ltb (key_count row.key all) 2)) [
        | inl few ↦ rw (few) (renumber-assigned numbers next done rows)
        | inr many ↦ elim (get-cases numbers row.key) [
          | inr (n, known) ↦
              rw (many, known)
                (
                  assigned-known numbers next rows row.key n known,
                  renumber-assigned numbers next (done + 1) rows,
                )
          | inl new ↦
              let numbers' = map_set numbers row.key next in
              let got = map_get-map_set numbers row.key row.key next in
              rw (many, new)
                (
                  assigned-known numbers' (next + 1) rows row.key next
                      (ground (arith, ==_refl row.key)),
                  renumber-assigned numbers' (next + 1) (done + 1) rows,
                )
        ]
      ]

  repeated-keep :
      (row : DuplicateRow) (rows : List DuplicateRow)
      → ltb (key_count row.key all) 2 ≡ false
      → filter_by (is_repeated all) (row ∷ rows) ≡ row ∷ filter_by (is_repeated all) rows
  unfolding filter_by is_repeated
  repeated-keep row rows h = ground arith

  repeated-drop :
      (row : DuplicateRow) (rows : List DuplicateRow)
      → ltb (key_count row.key all) 2 ≡ true
      → filter_by (is_repeated all) (row ∷ rows) ≡ filter_by (is_repeated all) rows
  unfolding filter_by is_repeated
  repeated-drop row rows h = ground arith

  repeated-none : [] ≡ filter_by (is_repeated all) []
  unfolding filter_by
  repeated-none = refl

  -- Which rows stay, as any function of a row sees them that does not depend on what is renumbered.
  renumber-map :
      {A : Type 0} (f : DuplicateRow → A)
      → ((row : DuplicateRow) (group number : ℕ)
          → f (record row { group = group; number = number; selected = false }) ≡ f row)
      → (numbers : List (Text × ℕ)) (next done : ℕ) (rows : List DuplicateRow)
      → map f (renumber all numbers next done rows) ≡ map f (filter_by (is_repeated all) rows)
  unfolding renumber
  renumber-map f blind numbers next done [] = ap (map f) repeated-none
  renumber-map f blind numbers next done (row ∷ rows) =
      elim (Bool-cases (ltb (key_count row.key all) 2)) [
        | inl few ↦
            let stays : renumber all numbers next done (row ∷ rows)
                ≡ renumber all numbers next done rows =
              rw (few) refl in
            ap (map f) stays
            ∙ renumber-map f blind numbers next done rows
            ∙ ap (map f) (sym (repeated-drop row rows few))
        | inr many ↦ elim (get-cases numbers row.key) [
          | inr (n, known) ↦
              let head : map f (renumber all numbers next done (row ∷ rows))
                  ≡ f (record row { group = n; number = done + 1; selected = false })
                    ∷ map f (renumber all numbers next (done + 1) rows) =
                rw (many, known) refl in
              head
              ∙ ap (λ x. x ∷ map f (renumber all numbers next (done + 1) rows))
                  (blind row n (done + 1))
              ∙ ap (λ l. f row ∷ l) (renumber-map f blind numbers next (done + 1) rows)
              ∙ ap (map f) (sym (repeated-keep row rows many))
          | inl new ↦
              let numbers' = map_set numbers row.key next in
              let head : map f (renumber all numbers next done (row ∷ rows))
                  ≡ f (record row { group = next; number = done + 1; selected = false })
                    ∷ map f (renumber all numbers' (next + 1) (done + 1) rows) =
                rw (many, new) refl in
              head
              ∙ ap (λ x. x ∷ map f (renumber all numbers' (next + 1) (done + 1) rows))
                  (blind row next (done + 1))
              ∙ ap (λ l. f row ∷ l) (renumber-map f blind numbers' (next + 1) (done + 1) rows)
              ∙ ap (map f) (sym (repeated-keep row rows many))
        ]
      ]

  -- What they show.
  renumber-rows :
      (numbers : List (Text × ℕ)) (next done : ℕ) (rows : List DuplicateRow)
      → IsNumbered (done + 1) (renumber all numbers next done rows)
        × All (λ row. row.selected ≡ false) (renumber all numbers next done rows)
  unfolding renumber
  renumber-rows numbers next done [] = (tt, tt)
  renumber-rows numbers next done (row ∷ rows) = elim (Bool-cases (ltb (key_count row.key all) 2)) [
    | inl few ↦ rw (few) (renumber-rows numbers next done rows)
    | inr many ↦ elim (get-cases numbers row.key) [
      | inr (n, known) ↦
          let (numbered, plain) = renumber-rows numbers next (done + 1) rows in
          rw (many, known) ((refl, numbered), (refl, plain))
      | inl new ↦
          let (numbered, plain) =
            renumber-rows (map_set numbers row.key next) (next + 1) (done + 1) rows in
          rw (many, new) ((refl, numbered), (refl, plain))
    ]
  ]

-- What the table shows once the deleted paths are removed.
pub record IsRenumbered (deleted : List Text) (rows after : List DuplicateRow) : Type 0 where
  pub files :
      files_of_rows after
      ≡ files_of_rows (filter_by (is_repeated (kept_rows deleted rows)) (kept_rows deleted rows))
  pub rows_kept :
      map content after
      ≡ map content (filter_by (is_repeated (kept_rows deleted rows)) (kept_rows deleted rows))
  pub numbered : IsNumbered 1 after
  pub plain : All (λ row. row.selected ≡ false) after
  pub grouped :
      (a b : DuplicateRow) → Memᴰ a after → Memᴰ b after → (a.key ≡ b.key) ↔ (a.group ≡ b.group)

-- After a removal the table shows, in their order, exactly the rows whose path is not deleted and
-- whose key at least one other such row has, each as it was but for its number, its group number
-- and its selection; they are numbered from 1 on and none is selected, and two of them show the
-- same group number exactly when they have the same key.
pub remove_deleted-IsRenumbered :
    (deleted : List Text) (rows : List DuplicateRow)
    → IsRenumbered deleted rows (remove_deleted deleted rows)
unfolding remove_deleted map_get
remove_deleted-IsRenumbered deleted rows =
    let kept = kept_rows deleted rows in
    let (numbered, plain) = renumber-rows kept [] 1 0 kept in
    let shown = renumber-assigned kept [] 1 0 kept in
    let (last, unique) = assigned-IsAssigned kept [] 1 kept (record {
      below = λ k n q. absurd (ground arith);
      single = λ k k' n q q'. absurd (ground arith);
    }) in
    record {
      files =
          renumber-map kept (λ (r : DuplicateRow). r.file) (λ row group number. refl) [] 1 0 kept;
      rows_kept = renumber-map kept content (λ row group number. refl) [] 1 0 kept;
      numbered = numbered;
      plain = plain;
      grouped = λ a b i j.
          let of_a = All-mem _ _ shown i in
          let of_b = All-mem _ _ shown j in
          (
            (λ same.
                let of_b' =
                  subst (λ k. map_get (assigned kept [] 1 kept) k ≡ some b.group) (sym same) of_b in
                ground arith),
            (λ same. unique.single a.key b.key b.group (of_a ∙ ap (λ n. some n) same) of_b),
          );
    }
