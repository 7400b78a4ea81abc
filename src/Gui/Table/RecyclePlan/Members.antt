-- ===== src/Gui/Table/RecyclePlan/Members.antt =====
-- internal/gui/app_windows.go: which files the groups of a recycle plan hold.
use twin_tidy.Base.{
  ℕ, ◌+◌, ◌≤◌, ◌≡◌, refl, sym, ap, subst, ◌∙◌, Bool, Bool-cases, true, false, ◌&&◌, inl, inr, List,
  [], ◌∷◌, ◌++◌, Memᴰ, Text, ◌==◌, ==_refl, ==_iff, nat_eq, text_eq, if◌then◌else◌, length,
  length-append, append-nil, append_assoc, leb, arith, All, filter_by, mem-filter_by, All-of_mem,
}
use twin_tidy.Scanner.Types.{identity_eq, FileRecord, Result-cases, ok}
use twin_tidy.Scanner.Platform.{Platform}
use twin_tidy.Gui.Table.{DuplicateRow, is_checked}
use twin_tidy.Gui.Table.RecyclePlan.{
  PlannedRecycleGroup, RecyclePlan, copies, copy_eq, GroupAccumulator, add_to_group, insert_row,
  row_key, accumulate, planned, plan_groups,
}
use twin_tidy.Gui.Table.RecyclePlan.Counting.{all_selected}

-- The files of the group with the key, as a field of the group tells them.
abbrev at :
    (GroupAccumulator → List FileRecord) → Text → List (Text × GroupAccumulator) → List FileRecord
at f k [] = []
at f k ((k', g) ∷ groups) = let rest = at f k groups in if k' == k then f g else rest

-- What a row adds to a field of its group.
record IsAdded (f : GroupAccumulator → List FileRecord) (row : DuplicateRow)
    (extra : List FileRecord) : Type 0 where
  added : (g : GroupAccumulator) → f (add_to_group row g) ≡ f g ++ extra
  empty :
      f (record {
        group_number = row.group;
        hash = row.hash;
        size = row.file.size;
        files = [];
        selected = [];
      })
      ≡ []

abbrev when : Bool → List FileRecord → List FileRecord
when true xs = xs
when false xs = []

apart_keys : (a b c : Text) → (a == c) ≡ true → (a == b) ≡ false → (b == c) ≡ false
apart_keys a b c same apart = elim (Bool-cases (b == c)) [
  | inr other ↦ other
  | inl also ↦
      let equal = (==_iff a b).1 ((==_iff a c).0 same ∙ sym ((==_iff b c).0 also)) in
      absurd (ground arith)
]

insert_row-at :
    (f : GroupAccumulator → List FileRecord) (extra : List FileRecord) (key : Text)
    (row : DuplicateRow)
    → IsAdded f row extra
    → (k : Text) (groups groups' : List (Text × GroupAccumulator))
    → insert_row key row groups ≡ ok groups'
    → at f k groups' ≡ at f k groups ++ when (key == k) extra
unfolding insert_row
insert_row-at f extra key row law k [] groups' h =
    let start : GroupAccumulator = record {
      group_number = row.group;
      hash = row.hash;
      size = row.file.size;
      files = [];
      selected = [];
    } in
    let made : (key, add_to_group row start) ∷ [] ≡ groups' = ground arith in
    let grown : f (add_to_group row start) ≡ extra =
      law.added start ∙ ap (λ l. l ++ extra) law.empty in
    subst (λ gs. at f k gs ≡ when (key == k) extra) made
      (elim (Bool-cases (key == k)) [ inl same ↦ ground arith | inr apart ↦ ground arith ])
insert_row-at f extra key row law k ((k', g) ∷ groups) groups' h = elim (Bool-cases (k' == key)) [
  | inl same ↦
      let made : (k', add_to_group row g) ∷ groups ≡ groups' = ground arith in
      let grown = law.added g in
      let here : k' ≡ key = (==_iff k' key).0 same in
      subst (λ gs. at f k gs ≡ at f k ((k', g) ∷ groups) ++ when (key == k) extra) made
        (subst
          (λ j.
            at f k ((k', add_to_group row g) ∷ groups)
            ≡ at f k ((k', g) ∷ groups) ++ when (j == k) extra)
          here
          (elim (Bool-cases (k' == k)) [
            | inl found ↦ rw (found) grown
            | inr apart ↦ rw (apart) (append-nil (at f k groups))
          ]))
  | inr apart ↦ elim (Result-cases (insert_row key row groups)) [
    | inl (e, q) ↦ absurd (ground arith)
    | inr (rest, q) ↦
        let made : (k', g) ∷ rest ≡ groups' = ground arith in
        let later = insert_row-at f extra key row law k groups rest q in
        subst (λ gs. at f k gs ≡ at f k ((k', g) ∷ groups) ++ when (key == k) extra) made
          (elim (Bool-cases (k' == k)) [
            | inl found ↦
                let other : (key == k) ≡ false = apart_keys k' key k found apart in
                rw (found, other) (append-nil (f g))
            | inr missed ↦ rw (missed) later
          ])
  ]
]

module _ (shown : ℕ → Text) (p : Platform) where
  -- What the duplicate rows with the key add, in their order.
  abbrev taken : (DuplicateRow → List FileRecord) → Text → List DuplicateRow → List FileRecord
  taken extra k [] = []
  taken extra k (row ∷ rows) =
      let rest = taken extra k rows in
      if row.duplicate && row_key shown p row == k then extra row ++ rest else rest

  -- The files of the duplicate rows with the key, in their order.
  abbrev pub duplicate_files : Text → List DuplicateRow → List FileRecord
  duplicate_files = taken (λ row. row.file ∷ [])

  -- The files of the checked rows with the key, in their order.
  abbrev pub checked_files : Text → List DuplicateRow → List FileRecord
  checked_files = taken (λ row. when row.selected (row.file ∷ []))

  accumulate-at :
      (f : GroupAccumulator → List FileRecord) (extra : DuplicateRow → List FileRecord)
      → ((row : DuplicateRow) → IsAdded f row (extra row))
      → (k : Text) (rows : List DuplicateRow) (groups groups' : List (Text × GroupAccumulator))
      → accumulate shown p rows groups ≡ ok groups'
      → at f k groups' ≡ at f k groups ++ taken extra k rows
  unfolding accumulate
  accumulate-at f extra law k [] groups groups' h =
      let same : groups ≡ groups' = ground arith in
      subst (λ gs. at f k gs ≡ at f k groups ++ []) same (append-nil (at f k groups))
  accumulate-at f extra law k (row ∷ rows) groups groups' h =
      let before = at f k groups in
      let rest = taken extra k rows in
      elim (Bool-cases row.duplicate) [
        | inr plain ↦
            let skip : taken extra k (row ∷ rows) ≡ rest = ground arith in
            accumulate-at f extra law k rows groups groups' (ground arith)
            ∙ ap (λ l. before ++ l) (sym skip)
        | inl double ↦ elim (Result-cases (insert_row (row_key shown p row) row groups)) [
          | inl (e, q) ↦ absurd (ground arith)
          | inr (next, q) ↦
              let here =
                insert_row-at f (extra row) (row_key shown p row) row (law row) k groups next q in
              let later = accumulate-at f extra law k rows next groups' (ground arith) in
              elim (Bool-cases (row_key shown p row == k)) [
                | inl same ↦
                    let add : taken extra k (row ∷ rows) ≡ extra row ++ rest = ground arith in
                    later
                    ∙ ap (λ l. l ++ rest) (here ∙ ap (λ b. before ++ when b (extra row)) same)
                    ∙ append_assoc before (extra row) rest
                    ∙ ap (λ l. before ++ l) (sym add)
                | inr apart ↦
                    let skip : taken extra k (row ∷ rows) ≡ rest = ground arith in
                    later
                    ∙ ap (λ l. l ++ rest)
                        (here
                          ∙ ap (λ b. before ++ when b (extra row)) apart
                          ∙ sym (append-nil before))
                    ∙ ap (λ l. before ++ l) (sym skip)
              ]
        ]
      ]

  files-IsAdded : (row : DuplicateRow) → IsAdded (λ g. g.files) row (row.file ∷ [])
  unfolding add_to_group
  files-IsAdded row = record { added = λ g. refl; empty = refl }

  selected-IsAdded :
      (row : DuplicateRow) → IsAdded (λ g. g.selected) row (when row.selected (row.file ∷ []))
  unfolding add_to_group
  selected-IsAdded row = record {
    added = λ g. elim (Bool-cases row.selected) [
      | inl marked ↦ rw (marked) refl
      | inr plain ↦ rw (plain) (append-nil g.selected)
    ];
    empty = refl;
  }

  -- The groups that the plan takes.
  abbrev chosen : List (Text × GroupAccumulator) → List PlannedRecycleGroup
  chosen [] = []
  chosen ((k, g) ∷ groups) =
      let rest = chosen groups in if length g.selected == 0 then rest else planned shown p g ∷ rest

  pub plan_groups-chosen :
      (groups : List (Text × GroupAccumulator)) (before after : RecyclePlan)
      → plan_groups shown p groups before ≡ ok after
      → after.groups ≡ before.groups ++ chosen groups
  unfolding plan_groups
  plan_groups-chosen [] before after h =
      let same : before ≡ after = ground arith in
      subst (λ a. a.groups ≡ before.groups ++ []) same (append-nil before.groups)
  plan_groups-chosen ((k, g) ∷ groups) before after h = elim (Bool-cases (length g.selected == 0)) [
    | inl none ↦ rw (none) (plan_groups-chosen groups before after (ground arith))
    | inr some ↦
        elim (Bool-cases
          (leb (length (copies shown p g.files)) (length (copies shown p g.selected)))) [
            | inl over ↦ absurd (ground arith)
            | inr under ↦
                let next : RecyclePlan = record {
                  groups = before.groups ++ planned shown p g ∷ [];
                  selected_count = before.selected_count + length g.selected;
                } in
                rw (some) (
                  plan_groups-chosen groups next after (ground arith)
                  ∙ append_assoc before.groups (planned shown p g ∷ []) (chosen groups))
          ]
  ]

  -- How many files the requests of the groups select.
  abbrev pub requested : List PlannedRecycleGroup → ℕ
  requested [] = 0
  requested (g ∷ groups) = length g.request.selected + requested groups

  pub requested-chosen :
      (groups : List (Text × GroupAccumulator)) → requested (chosen groups) ≡ all_selected groups
  unfolding all_selected planned
  requested-chosen [] = refl
  requested-chosen ((k, g) ∷ groups) = elim (Bool-cases (length g.selected == 0)) [
    | inl none ↦ ground (arith, requested-chosen groups)
    | inr some ↦ ground (arith, requested-chosen groups)
  ]

  -- A group of the plan that holds exactly the files of the rows with the key.
  pub record IsPlannedFor (rows : List DuplicateRow) (key : Text) (plan : RecyclePlan)
      : Type 0 where
    pub group : PlannedRecycleGroup
    pub listed : Memᴰ group plan.groups
    pub files : group.request.group.files ≡ duplicate_files key rows
    pub selected : group.request.selected ≡ checked_files key rows

  chosen-mem :
      (k : Text) (groups : List (Text × GroupAccumulator))
      → 1 ≤ length (at (λ g. g.selected) k groups)
      → (g : PlannedRecycleGroup) × Memᴰ g (chosen groups)
        × (g.request.group.files ≡ at (λ g. g.files) k groups)
        × (g.request.selected ≡ at (λ g. g.selected) k groups)
  unfolding planned
  chosen-mem k [] more = absurd (omega (arith, more))
  chosen-mem k ((k', g) ∷ groups) more = elim (Bool-cases (k' == k)) [
    | inl same ↦
        let some : (length g.selected == 0) ≡ false = ground arith in
        rw (some, same) (planned shown p g, Memᴰ.head refl, refl, refl)
    | inr apart ↦
        let (found, m, files, selected) = chosen-mem k groups (ground arith) in
        elim (Bool-cases (length g.selected == 0)) [
          | inl none ↦ rw (none, apart) (found, m, files, selected)
          | inr some ↦ rw (some, apart) (found, Memᴰ.tail m, files, selected)
        ]
  ]

  taken-mem :
      (row : DuplicateRow) (rows : List DuplicateRow)
      → Memᴰ row rows
      → is_checked row ≡ true
      → 1 ≤ length (checked_files (row_key shown p row) rows)
  unfolding is_checked
  taken-mem row [] m h = elim m [ ]
  taken-mem row (r ∷ rows) (Memᴰ.head same) h =
      subst (λ (x : DuplicateRow). 1 ≤ length (checked_files (row_key shown p row) (x ∷ rows))) same
        (ground (arith, ==_refl (row_key shown p row)))
  taken-mem row (r ∷ rows) (Memᴰ.tail m) h = ground (
    arith,
    taken-mem row rows m h,
    length-append (when r.selected (r.file ∷ [])) (checked_files (row_key shown p row) rows),
  )

  plan_groups-IsPlannedFor :
      (rows : List DuplicateRow) (groups : List (Text × GroupAccumulator)) (plan : RecyclePlan)
      → accumulate shown p rows [] ≡ ok groups
      → plan.groups ≡ chosen groups
      → (row : DuplicateRow) → Memᴰ row rows
      → is_checked row ≡ true
      → IsPlannedFor rows (row_key shown p row) plan
  plan_groups-IsPlannedFor rows groups plan a made row m h =
      let key = row_key shown p row in
      let files = accumulate-at (λ g. g.files) _ files-IsAdded key rows [] groups a in
      let selected = accumulate-at (λ g. g.selected) _ selected-IsAdded key rows [] groups a in
      let (g, i, f, s) =
        chosen-mem key groups (subst (λ l. 1 ≤ length l) (sym selected) (taken-mem row rows m h)) in
      record {
        group = g;
        listed = subst (Memᴰ g) (sym made) i;
        files = f ∙ files;
        selected = s ∙ selected;
      }

  -- Every checked row has its group in the plan.
  pub plan_groups-checked :
      (rows : List DuplicateRow) (groups : List (Text × GroupAccumulator)) (plan : RecyclePlan)
      → accumulate shown p rows [] ≡ ok groups
      → plan.groups ≡ chosen groups
      → All (λ row. IsPlannedFor rows (row_key shown p row) plan) (filter_by is_checked rows)
  plan_groups-checked rows groups plan a made =
      All-of_mem (λ row. IsPlannedFor rows (row_key shown p row) plan) (filter_by is_checked rows)
        (λ row m.
          let (listed, checked) = mem-filter_by is_checked rows m in
          plan_groups-IsPlannedFor rows groups plan a made row listed checked)
