-- ===== src/Gui/Table/Batch/Counts.antt =====
-- internal/gui/app_windows.go: the counts of a finished batch and the rows that it leaves.
use twin_tidy.Base.{
  append-nil, append_assoc, suc, if◌then◌else◌, Bool, ◌++◌, ◌==◌, ==_iff, text_eq, ℕ, ◌+◌, ◌≡◌,
  refl, sym, ap, subst, ◌∙◌, Bool-cases, true, false, Option, none, some, inl, inr, List, [], ◌∷◌,
  map, Memᴰ, All, mem-filter_by, contains, arith,
}
use twin_tidy.Scanner.Types.{
  RecycleStatus, recycled, skipped_changed, skipped_protected, cancelled, failed, FileRecord,
  RecycleItemResult, Err,
}
use twin_tidy.Scanner.Platform.{Platform}
use twin_tidy.Gui.Table.{DuplicateRow, kept_rows}
use twin_tidy.Gui.Table.Removal.{files_of_rows, remove_deleted-IsRenumbered}
use twin_tidy.Gui.Table.Batch.{
  RecycleGroupResult, RecycleBatchResult, RecycleOutcome, is_recycled, count_item, count_items,
  note_error, count_groups, summarize_recycle_batch, batch_items, recycled_paths, items_by_path,
  retain, apply_recycle_batch_to_model,
}

abbrev pub same_status : RecycleStatus → RecycleStatus → Bool
same_status recycled recycled = true
same_status skipped_changed skipped_changed = true
same_status skipped_protected skipped_protected = true
same_status cancelled cancelled = true
same_status failed failed = true
same_status _ _ = false

-- How many items have the status.
abbrev pub with_status : RecycleStatus → List RecycleItemResult → ℕ
with_status s [] = 0
with_status s (item ∷ items) =
    let rest = with_status s items in if same_status s item.status then suc rest else rest

-- The items that are not recycled, in their order.
abbrev pub not_recycled : List RecycleItemResult → List RecycleItemResult
not_recycled [] = []
not_recycled (item ∷ items) =
    let rest = not_recycled items in if same_status recycled item.status then rest else item ∷ rest

-- The outcome after some items: each count grows by the items of its status, and the items that are
-- not recycled are listed.
record IsCounted (o o' : RecycleOutcome) (items : List RecycleItemResult) : Type 0 where
  gone : o'.recycled_count ≡ o.recycled_count + with_status recycled items
  differ : o'.changed ≡ o.changed + with_status skipped_changed items
  guarded : o'.protected_count ≡ o.protected_count + with_status skipped_protected items
  ended : o'.cancelled_count ≡ o.cancelled_count + with_status cancelled items
  broke : o'.failed_count ≡ o.failed_count + with_status failed items
  listed : o'.non_recycled_rows ≡ o.non_recycled_rows ++ not_recycled items

count_item-IsCounted :
    (o : RecycleOutcome) (item : RecycleItemResult) → IsCounted o (count_item o item) (item ∷ [])
unfolding count_item
count_item-IsCounted o item = go item.status
  where
    go :
        (s : RecycleStatus)
        → IsCounted o (count_item o (record item { status = s })) (record item { status = s } ∷ [])
    go recycled = record {
      gone = refl;
      differ = omega arith;
      guarded = omega arith;
      ended = omega arith;
      broke = omega arith;
      listed = append-nil o.non_recycled_rows;
    }
    go skipped_changed = record {
      gone = omega arith;
      differ = refl;
      guarded = omega arith;
      ended = omega arith;
      broke = omega arith;
      listed = refl;
    }
    go skipped_protected = record {
      gone = omega arith;
      differ = omega arith;
      guarded = refl;
      ended = omega arith;
      broke = omega arith;
      listed = refl;
    }
    go cancelled = record {
      gone = omega arith;
      differ = omega arith;
      guarded = omega arith;
      ended = refl;
      broke = omega arith;
      listed = refl;
    }
    go failed = record {
      gone = omega arith;
      differ = omega arith;
      guarded = omega arith;
      ended = omega arith;
      broke = refl;
      listed = refl;
    }

with_status-append :
    (s : RecycleStatus) (xs ys : List RecycleItemResult)
    → with_status s (xs ++ ys) ≡ with_status s xs + with_status s ys
with_status-append s [] ys = omega arith
with_status-append s (x ∷ xs) ys = ground (arith, with_status-append s xs ys)

not_recycled-append :
    (xs ys : List RecycleItemResult) → not_recycled (xs ++ ys) ≡ not_recycled xs ++ not_recycled ys
not_recycled-append [] ys = refl
not_recycled-append (x ∷ xs) ys = ground (arith, not_recycled-append xs ys)

-- The items of one step follow those of the step before.
then-IsCounted :
    {o o' o'' : RecycleOutcome} (xs ys : List RecycleItemResult)
    → IsCounted o o' xs
    → IsCounted o' o'' ys
    → IsCounted o o'' (xs ++ ys)
then-IsCounted {o} xs ys h k = record {
  gone = omega (arith, h.gone, k.gone, with_status-append recycled xs ys);
  differ = omega (arith, h.differ, k.differ, with_status-append skipped_changed xs ys);
  guarded = omega (arith, h.guarded, k.guarded, with_status-append skipped_protected xs ys);
  ended = omega (arith, h.ended, k.ended, with_status-append cancelled xs ys);
  broke = omega (arith, h.broke, k.broke, with_status-append failed xs ys);
  listed =
      k.listed
      ∙ ap (λ l. l ++ not_recycled ys) h.listed
      ∙ append_assoc o.non_recycled_rows (not_recycled xs) (not_recycled ys)
      ∙ ap (λ l. o.non_recycled_rows ++ l) (sym (not_recycled-append xs ys));
}

same-IsCounted : (o : RecycleOutcome) → IsCounted o o []
same-IsCounted o = record {
  gone = omega arith;
  differ = omega arith;
  guarded = omega arith;
  ended = omega arith;
  broke = omega arith;
  listed = append-nil o.non_recycled_rows;
}

count_items-IsCounted :
    (o : RecycleOutcome) (items : List RecycleItemResult) → IsCounted o (count_items o items) items
unfolding count_items
count_items-IsCounted o [] = same-IsCounted o
count_items-IsCounted o (item ∷ items) =
    then-IsCounted (item ∷ []) items (count_item-IsCounted o item)
      (count_items-IsCounted (count_item o item) items)

note_error-IsCounted :
    (number : ℕ) (e : Option Err) (o : RecycleOutcome) → IsCounted o (note_error number e o) []
unfolding note_error
note_error-IsCounted number none o = same-IsCounted o
note_error-IsCounted number (some e) o =
    let same = same-IsCounted o in
    record {
      gone = same.gone;
      differ = same.differ;
      guarded = same.guarded;
      ended = same.ended;
      broke = same.broke;
      listed = same.listed;
    }

count_groups-IsCounted :
    (o : RecycleOutcome) (groups : List RecycleGroupResult)
    → IsCounted o (count_groups o groups) (batch_items groups)
unfolding count_groups batch_items
count_groups-IsCounted o [] = same-IsCounted o
count_groups-IsCounted o (g ∷ groups) =
    let noted = note_error g.group_number g.result.request_error o in
    then-IsCounted g.result.items (batch_items groups)
      (then-IsCounted [] g.result.items
        (note_error-IsCounted g.group_number g.result.request_error o)
        (count_items-IsCounted noted g.result.items))
      (count_groups-IsCounted (count_items noted g.result.items) groups)

recycled_paths-mem :
    (items : List RecycleItemResult) (item : RecycleItemResult)
    → Memᴰ item items
    → item.status ≡ recycled
    → contains item.path (recycled_paths items) ≡ true
unfolding recycled_paths is_recycled contains
recycled_paths-mem [] item m h = elim m [ ]
recycled_paths-mem (i ∷ items) item (Memᴰ.head same) h =
    let path : item.path ≡ i.path = ap (λ (t : RecycleItemResult). t.path) same in
    let status : i.status ≡ recycled = sym (ap (λ (t : RecycleItemResult). t.status) same) ∙ h in
    ground (arith, ==_iff i.path item.path)
recycled_paths-mem (i ∷ items) item (Memᴰ.tail m) h =
    let rest = recycled_paths-mem items item m h in ground arith

map-mem : {A B : Type 0} (f : A → B) (xs : List A) {a : A} → Memᴰ a xs → Memᴰ (f a) (map f xs)
map-mem f [] m = elim m [ ]
map-mem f (x ∷ xs) (Memᴰ.head e) = Memᴰ.head (ap f e)
map-mem f (x ∷ xs) (Memᴰ.tail m) = Memᴰ.tail (map-mem f xs m)

mem-files_of_rows :
    (rows : List DuplicateRow) (f : FileRecord)
    → Memᴰ f (files_of_rows rows)
    → (row : DuplicateRow) × Memᴰ row rows × (f ≡ row.file)
mem-files_of_rows [] f m = elim m [ ]
mem-files_of_rows (row ∷ rows) f (Memᴰ.head e) = (row, Memᴰ.head refl, e)
mem-files_of_rows (row ∷ rows) f (Memᴰ.tail m) =
    let (r, i, e) = mem-files_of_rows rows f m in (r, Memᴰ.tail i, e)

-- The table and the counts after a batch.
pub record IsApplied (items : List RecycleItemResult) (r : List DuplicateRow × RecycleOutcome)
    : Type 0 where
  pub gone :
      (item : RecycleItemResult) (row : DuplicateRow)
      → Memᴰ item items
      → item.status ≡ recycled
      → Memᴰ row r.0
      → (item.path == row.file.path) ≡ false
  pub plain : All (λ row. row.selected ≡ false) r.0
  pub taken : r.1.recycled_count ≡ with_status recycled items
  pub differ : r.1.changed ≡ with_status skipped_changed items
  pub guarded : r.1.protected_count ≡ with_status skipped_protected items
  pub ended : r.1.cancelled_count ≡ with_status cancelled items
  pub broke : r.1.failed_count ≡ with_status failed items
  pub listed : r.1.non_recycled_rows ≡ not_recycled items

-- After a batch is applied no row has the path of a recycled item and no row is selected; each of
-- the five counts is the number of items of the batch with its status, and the list of files that
-- were not recycled holds exactly the items whose status is another, in their order.
pub apply_recycle_batch_to_model-IsApplied :
    (p : Platform) (rows : List DuplicateRow) (batch : RecycleBatchResult)
    → IsApplied (batch_items batch.groups) (apply_recycle_batch_to_model p rows batch)
unfolding apply_recycle_batch_to_model summarize_recycle_batch kept_rows
apply_recycle_batch_to_model-IsApplied p rows batch =
    let items = batch_items batch.groups in
    let marked = map (retain p (items_by_path p [] items)) rows in
    let deleted = recycled_paths items in
    let shown = remove_deleted-IsRenumbered deleted marked in
    let counts = count_groups-IsCounted _ batch.groups in
    record {
      gone = λ item row m h i.
          let listed =
            subst (Memᴰ row.file) shown.files (map-mem (λ (r : DuplicateRow). r.file) _ i) in
          let (r, j, same) = mem-files_of_rows _ row.file listed in
          let kept = mem-filter_by _ marked (mem-filter_by _ (kept_rows deleted marked) j).0 in
          let deleted' = recycled_paths-mem items item m h in
          elim (Bool-cases (item.path == row.file.path)) [
            | inr apart ↦ apart
            | inl at ↦
                let path : item.path ≡ r.file.path =
                  (==_iff item.path row.file.path).0 at ∙ ap (λ (g : FileRecord). g.path) same in
                let there = subst (λ t. contains t deleted ≡ true) path deleted' in
                let absent = kept.1 in absurd (ground arith)
          ];
      plain = shown.plain;
      taken = counts.gone ∙ omega arith;
      differ = counts.differ ∙ omega arith;
      guarded = counts.guarded ∙ omega arith;
      ended = counts.ended ∙ omega arith;
      broke = counts.broke ∙ omega arith;
      listed = counts.listed;
    }
