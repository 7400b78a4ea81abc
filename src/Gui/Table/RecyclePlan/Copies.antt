-- ===== src/Gui/Table/RecyclePlan/Copies.antt =====
-- internal/gui/app_windows.go: what a recycle plan keeps and what it selects.
use twin_tidy.Base.{
  ap, ◌∙◌, filter_by, bytes, ==_iff, ℕ, suc, ◌+◌, ◌≤◌, ◌≡◌, refl, sym, subst, Bool-cases, true,
  false, inl, inr, List, [], ◌∷◌, ◌++◌, Memᴰ, Text, ◌==◌, nat_eq, text_eq, length, leb, contains,
  IsDistinct, All, spare_entry, arith,
}
use twin_tidy.Scanner.Types.{identity_eq, FileRecord, ok, ◌>>◌, >>=-eq-ok}
use twin_tidy.Scanner.Platform.{Platform}
use twin_tidy.Scanner.Recycle.{reject}
use twin_tidy.Gui.Table.{DuplicateRow, is_checked, selected_count}
use twin_tidy.Gui.Table.RecyclePlan.{
  PlannedRecycleGroup, RecyclePlan, PhysicalCopyKey, copy_eq, GroupAccumulator, add_key,
  recycle_physical_copy_key, copies, planned, row_key, plan_groups, build_recycle_plan,
}
use twin_tidy.Gui.Table.RecyclePlan.Members.{
  requested, IsPlannedFor, plan_groups-chosen, requested-chosen, plan_groups-checked,
}
use twin_tidy.Gui.Table.RecyclePlan.Counting.{all_selected, all_selected-accumulate}

All-snoc :
    {A : Type 0} (P : A → Type 0) (xs : List A) (x : A) → All P xs → P x → All P (xs ++ x ∷ [])
All-snoc P [] x h p = (p, tt)
All-snoc P (y ∷ xs) x h p = (h.0, All-snoc P xs x h.1 p)

rejected :
    {plan made : RecyclePlan}
    → (reject (made.selected_count == 0) (bytes "no checked duplicate files were selected")
        >> ok made)
      ≡ ok plan
    → (1 ≤ made.selected_count) × (made ≡ plan)
unfolding reject
rejected h = (ground arith, ground arith)

contains_same :
    (j k : PhysicalCopyKey) (keys : List PhysicalCopyKey)
    → contains j keys ≡ true
    → contains k keys ≡ false
    → (j == k) ≡ false
contains_same j k keys h h' = elim (Bool-cases (j == k)) [
  | inr other ↦ other
  | inl same ↦
      let moved = subst (λ i. contains i keys ≡ true) ((==_iff j k).0 same) h in
      absurd (ground arith)
]

module _ (shown : ℕ → Text) (p : Platform) where
  copies-IsDistinct : (files : List FileRecord) → IsDistinct (copies shown p files)
  unfolding copies add_key contains
  copies-IsDistinct [] = tt
  copies-IsDistinct (f ∷ files) =
      let keys = copies shown p files in
      let key = recycle_physical_copy_key shown p f in
      let rest = copies-IsDistinct files in
      elim (Bool-cases (contains key keys)) [
        | inl known ↦
            let same : copies shown p (f ∷ files) ≡ keys = ground arith in
            subst IsDistinct (sym same) rest
        | inr new ↦
            let same : copies shown p (f ∷ files) ≡ key ∷ keys = ground arith in
            let all : IsDistinct (key ∷ keys) = (new, rest) in subst IsDistinct (sym same) all
      ]

  mem-copies :
      (files : List FileRecord) (k : PhysicalCopyKey)
      → Memᴰ k (copies shown p files)
      → (f : FileRecord) × Memᴰ f files × (recycle_physical_copy_key shown p f ≡ k)
  unfolding copies add_key
  mem-copies [] k m = elim m [ ]
  mem-copies (f ∷ files) k m =
      let keys = copies shown p files in
      let key = recycle_physical_copy_key shown p f in
      elim (Bool-cases (contains key keys)) [
        | inl known ↦
            let same : copies shown p (f ∷ files) ≡ keys = ground arith in
            let (g, i, q) = mem-copies files k (subst (Memᴰ k) same m) in (g, Memᴰ.tail i, q)
        | inr new ↦
            let same : copies shown p (f ∷ files) ≡ key ∷ keys = ground arith in
            elim (subst (Memᴰ k) same m) [
              | Memᴰ.head q ↦ (f, Memᴰ.head refl, sym q)
              | Memᴰ.tail i ↦ let (g, j, q) = mem-copies files k i in (g, Memᴰ.tail j, q)
            ]
      ]

  copies-mem :
      (files : List FileRecord) (k : PhysicalCopyKey)
      → contains k (copies shown p files) ≡ false
      → All (λ f. (recycle_physical_copy_key shown p f == k) ≡ false) files
  unfolding copies add_key contains
  copies-mem [] k h = tt
  copies-mem (f ∷ files) k h =
      let keys = copies shown p files in
      let key = recycle_physical_copy_key shown p f in
      elim (Bool-cases (contains key keys)) [
        | inl known ↦
            let absent : contains k keys ≡ false = ground arith in
            (ground (arith, contains_same key k keys), copies-mem files k absent)
        | inr new ↦ (ground arith, copies-mem files k (ground arith))
      ]

  -- A file of the group stays whose physical copy is none of the selected ones.
  pub record KeepsCopy (g : PlannedRecycleGroup) : Type 0 where
    pub file : FileRecord
    pub listed : Memᴰ file g.request.group.files
    pub spared :
        All
          (λ s.
            (recycle_physical_copy_key shown p s == recycle_physical_copy_key shown p file) ≡ false)
          g.request.selected

  IsPlan : List (Text × GroupAccumulator) → RecyclePlan → RecyclePlan → Type 0
  IsPlan groups before after =
      All KeepsCopy after.groups
      × (after.selected_count ≡ before.selected_count + all_selected groups)

  planned-KeepsCopy :
      (g : GroupAccumulator)
      → suc (length (copies shown p g.selected)) ≤ length (copies shown p g.files)
      → KeepsCopy (planned shown p g)
  unfolding planned
  planned-KeepsCopy g more =
      let (key, m, absent) =
        spare_entry (copies shown p g.files) (copies shown p g.selected) (copies-IsDistinct g.files)
          more in
      let (f, listed, same) = mem-copies g.files key m in
      record {
        file = f;
        listed = listed;
        spared =
            subst (λ k. All (λ s. (recycle_physical_copy_key shown p s == k) ≡ false) g.selected)
              (sym same) (copies-mem g.selected key absent);
      }

  plan_groups-IsPlan :
      (groups : List (Text × GroupAccumulator)) (before after : RecyclePlan)
      → All KeepsCopy before.groups
      → plan_groups shown p groups before ≡ ok after
      → IsPlan groups before after
  unfolding plan_groups IsPlan all_selected
  plan_groups-IsPlan [] before after kept h =
      let same : before ≡ after = ground arith in
      subst (λ a. All KeepsCopy a.groups × (a.selected_count ≡ before.selected_count + 0)) same
        (kept, omega arith)
  plan_groups-IsPlan ((k, g) ∷ groups) before after kept h =
      elim (Bool-cases (length g.selected == 0)) [
        | inl none ↦
            let (all, count) = plan_groups-IsPlan groups before after kept (ground arith) in
            (all, ground arith)
        | inr some ↦
            elim (Bool-cases
              (leb (length (copies shown p g.files)) (length (copies shown p g.selected)))) [
                | inl over ↦ absurd (ground arith)
                | inr under ↦
                    let next : RecyclePlan = record {
                      groups = before.groups ++ planned shown p g ∷ [];
                      selected_count = before.selected_count + length g.selected;
                    } in
                    let more : suc (length (copies shown p g.selected))
                        ≤ length (copies shown p g.files) =
                      ground arith in
                    let (all, count) =
                      plan_groups-IsPlan groups next after
                        (All-snoc KeepsCopy before.groups (planned shown p g) kept
                          (planned-KeepsCopy g more))
                        (ground arith) in
                    (all, ground arith)
              ]
      ]

  -- A plan for the checked rows has in each of its groups a file whose physical copy is none of
  -- those selected. Each checked row has a group in the plan whose files are exactly those of the
  -- duplicate rows with its key, and whose selected files are exactly those of the checked rows with
  -- its key, in their order. All groups together select as many files as there are checked rows,
  -- which is the count of the plan, and at least one.
  pub build_recycle_plan-KeepsCopy :
      (rows : List DuplicateRow) (plan : RecyclePlan)
      → build_recycle_plan shown p rows ≡ ok plan
      → All KeepsCopy plan.groups
        × All
            (λ row. IsPlannedFor shown p rows (row_key shown p row) plan)
            (filter_by is_checked rows)
        × (requested shown p plan.groups ≡ selected_count rows)
        × (plan.selected_count ≡ selected_count rows)
        × (1 ≤ plan.selected_count)
  unfolding build_recycle_plan IsPlan all_selected
  build_recycle_plan-KeepsCopy rows plan h =
      let (groups, a, h1) = >>=-eq-ok _ _ h in
      let (made, b, h2) = >>=-eq-ok _ _ h1 in
      let (kept, count) =
        plan_groups-IsPlan groups (record { groups = []; selected_count = 0 }) made tt b in
      let total = all_selected-accumulate shown p rows [] groups a in
      let (some', same) = rejected h2 in
      let groups_are =
        plan_groups-chosen shown p groups (record { groups = []; selected_count = 0 }) made b in
      let asked =
        ap (requested shown p) groups_are ∙ requested-chosen shown p groups ∙ total ∙ omega arith in
      subst
        (λ t.
          All KeepsCopy t.groups
          × All (λ row. IsPlannedFor shown p rows (row_key shown p row) t)
              (filter_by is_checked rows)
          × (requested shown p t.groups ≡ selected_count rows)
          × (t.selected_count ≡ selected_count rows)
          × (1 ≤ t.selected_count))
        same
        (kept, plan_groups-checked shown p rows groups made a groups_are, asked, omega arith, some')
