-- ===== src/Tests/Groups.antt =====
-- Three arrivals of the last stage: two files of one hash, and one that changed meanwhile.
use twin_tidy.Base.{
  ◌≤◌, ◌≡◌, refl, none, List, [], ◌∷◌, Memᴰ, Text, bytes, All, IsSortedBy, length, filter_by,
  sort_slice, insert_by, append_to, text_lt, List_ℕ-discrete,
}
use twin_tidy.Scanner.Types.{DuplicateGroup, ok, err, file_changed}
use twin_tidy.Scanner.Groups.{
  Arrival, FullKey, FullKey-discrete, is_fatal, add_arrival, collect, collected, is_shared, at_end,
  newer, larger, duplicate_group, keyed, map_by_full_hash,
}
use twin_tidy.Scanner.Groups.Duplicates.{IsGroupOf, class_of, map_by_full_hash-IsGroupOf}
use twin_tidy.Tests.Sample.{photo, copy, download}

abbrev arrivals : List (Arrival Text)
arrivals =
    record { ctx = none; file = photo; outcome = ok (bytes "h") }
    ∷ record { ctx = none; file = download; outcome = err file_changed }
    ∷ record { ctx = none; file = copy; outcome = ok (bytes "h") }
    ∷ []

abbrev found : List DuplicateGroup
found = record { size = 10; hash = bytes "h"; files = copy ∷ photo ∷ [] } ∷ []

finds : map_by_full_hash arrivals 0 none ≡ ok (found, 1)
unfolding map_by_full_hash collected collect add_arrival keyed is_fatal is_shared at_end
    duplicate_group newer larger append_to filter_by sort_slice insert_by text_lt FullKey-discrete
    List_ℕ-discrete
finds = refl

map_by_full_hash-IsGroupOf_example :
    All (λ d. (k : FullKey) × IsGroupOf arrivals k d) found
    × ((k : FullKey)
        → 2 ≤ length (class_of arrivals k)
        → (d : DuplicateGroup) × Memᴰ d found × IsGroupOf arrivals k d)
    × IsSortedBy larger found
map_by_full_hash-IsGroupOf_example = map_by_full_hash-IsGroupOf arrivals 0 none found 1 finds
