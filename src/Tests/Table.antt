-- ===== src/Tests/Table.antt =====
-- A table with one group of three copies, of which one is checked.
use twin_tidy.Base.{
  ℕ, ◌≤◌, ◌≡◌, refl, false, true, none, List, [], ◌∷◌, Text, bytes, All, nat_eq, text_eq,
  List_ℕ-discrete, ℕ_discrete, contains,
}
use twin_tidy.Scanner.Types.{DuplicateGroup, FileIdentity-discrete, ok}
use twin_tidy.Scanner.Recycle.{reject}
use twin_tidy.Gui.Operation.{OperationState, surface_ready}
use twin_tidy.Gui.Controls.{controls_for_operation}
use twin_tidy.Gui.Controls.Enabled.{TakesClicks, controls_for_operation-TakesClicks}
use twin_tidy.Gui.Table.{
  DuplicateRow, rows_of_group, rows_of_groups, set_groups, set_checked, selected_count, group_key,
}
use twin_tidy.Gui.Table.Shown.{
  IsSized, duplicate_groups_from_rows, duplicate_groups_from_rows-set_groups,
}
use twin_tidy.Gui.Table.RecyclePlan.{
  RecyclePlan, PhysicalCopyKey-discrete, add_key, add_to_group, is_consistent, insert_row,
  recycle_physical_copy_key, copies, row_key, accumulate, planned, plan_groups, build_recycle_plan,
}
use twin_tidy.Gui.Table.RecyclePlan.Copies.{KeepsCopy, build_recycle_plan-KeepsCopy}
use twin_tidy.Gui.Table.{remove_deleted}
use twin_tidy.Gui.Table.Removal.{IsRenumbered, remove_deleted-IsRenumbered}
use twin_tidy.Gui.Table.Batch.{RecycleBatchResult, batch_items, apply_recycle_batch_to_model}
use twin_tidy.Gui.Table.Batch.Counts.{IsApplied, apply_recycle_batch_to_model-IsApplied}
use twin_tidy.Scanner.Types.{recycled, failed, file_changed}
use twin_tidy.Base.{some, filter_by}
use twin_tidy.Gui.Table.{is_checked}
use twin_tidy.Gui.Table.RecyclePlan.Members.{requested, IsPlannedFor}
use twin_tidy.Tests.Sample.{windows, photo, copy, download}

-- Numbers are shown as one byte.
abbrev shown : ℕ → Text
shown n = n ∷ []

abbrev group : DuplicateGroup
group = record { size = 10; hash = bytes "h"; files = photo ∷ copy ∷ download ∷ [] }

duplicate_groups_from_rows-set_groups_example :
    duplicate_groups_from_rows (set_groups shown (group ∷ [])) ≡ group ∷ []
unfolding IsSized
duplicate_groups_from_rows-set_groups_example =
    duplicate_groups_from_rows-set_groups shown (group ∷ [])
      ((photo, copy ∷ download ∷ [], refl, refl), tt)

abbrev rows : List DuplicateRow
rows = set_checked (set_groups shown (group ∷ [])) 2 true

abbrev plan : RecyclePlan
plan = record {
  groups =
      record { group_number = 1; request = record { group = group; selected = download ∷ [] } }
      ∷ [];
  selected_count = 1;
}

plans : build_recycle_plan shown windows rows ≡ ok plan
unfolding build_recycle_plan plan_groups planned accumulate row_key copies recycle_physical_copy_key
    insert_row is_consistent add_to_group add_key contains reject set_groups rows_of_groups
    rows_of_group set_checked group_key PhysicalCopyKey-discrete FileIdentity-discrete
    List_ℕ-discrete ℕ_discrete
plans = refl

build_recycle_plan-KeepsCopy_example :
    All (KeepsCopy shown windows) plan.groups
    × All
        (λ row. IsPlannedFor shown windows rows (row_key shown windows row) plan)
        (filter_by is_checked rows)
    × (requested shown windows plan.groups ≡ selected_count rows)
    × (plan.selected_count ≡ selected_count rows)
    × (1 ≤ plan.selected_count)
build_recycle_plan-KeepsCopy_example = build_recycle_plan-KeepsCopy shown windows rows plan plans

abbrev ready : OperationState
ready = record {
  phase = surface_ready;
  folder = bytes "C:\\Docs";
  folder_revision = 1;
  next_generation = 1;
  active = none;
  cancel = none;
  called = [];
  close_requested = false;
  allow_close = false;
}

controls_for_operation-TakesClicks_example :
    TakesClicks windows ready (controls_for_operation ready true false 0)
controls_for_operation-TakesClicks_example =
    controls_for_operation-TakesClicks windows ready true false 0

remove_deleted-IsRenumbered_example :
    IsRenumbered (photo.path ∷ []) rows (remove_deleted (photo.path ∷ []) rows)
remove_deleted-IsRenumbered_example = remove_deleted-IsRenumbered (photo.path ∷ []) rows

abbrev batch : RecycleBatchResult
batch = record {
  groups =
      record {
        group_number = 1;
        result = record {
          items =
              record { path = download.path; status = recycled; reason = none }
              ∷ record { path = photo.path; status = failed; reason = some file_changed }
              ∷ [];
          request_error = none;
        };
      }
      ∷ [];
  internal_error = [];
}

apply_recycle_batch_to_model-IsApplied_example :
    IsApplied (batch_items batch.groups) (apply_recycle_batch_to_model windows rows batch)
apply_recycle_batch_to_model-IsApplied_example =
    apply_recycle_batch_to_model-IsApplied windows rows batch
