-- ===== src/Examples/Storage.antt =====
-- Small trees of the storage overview (server/src/handlers/storage.rs), and the theorems at them.
use nexa_drive.Prelude.{
  ℕ, ◌≡◌, ◌≤◌, ◌%◌, refl, true, false, none, some, [], ◌∷◌, arith, length, min,
}
use nexa_drive.Text.{codes, contains, starts_with, strip_prefix}
use nexa_drive.Text.Decimal.{u64_max}
use nexa_drive.Error.{ok}
use nexa_drive.Upload.Staging.{is_staging_name}
use nexa_drive.Storage.Tree.{
  Directory, Metadata, listing, end, item, regular, folder, present, symlink, walk_tree,
}
use nexa_drive.Storage.Tree.Complete.{visit_directory, walk_tree-visit_directory}
use nexa_drive.Storage.Tree.Fold.{files_of, files_in, found_entry, found_file, is_readable}
use nexa_drive.Storage.Stats.{stats_walker, tree_stats, u64_range}
use nexa_drive.Storage.Stats.Totals.{stored, total_bytes, tree_stats-stored}
use nexa_drive.Error.Ensures.{Ensures}
use nexa_drive.Storage.Summary.{OwnerRow, Disk, Turn, Cache, cached, or_scan, fresh, is_fresh}
use nexa_drive.Error.Exec.{◌>>=◌}
use nexa_drive.Storage.Summary.Recent.{Answered, cached-Answered}
use nexa_drive.Storage.Insights.{Insights, Calendar, tree_insights}
use nexa_drive.Storage.Insights.Shares.{Consistent, tree_insights-Consistent}
use nexa_drive.Storage.Insights.Largest.{above}
use nexa_drive.Storage.Insights.Longest.{longer, tree_insights-longer}

abbrev a_photo : Metadata
a_photo = record { len = 5; modified = some 900000 }

abbrev a_tree : Directory
a_tree = listing (
    item (codes "a.jpg") (regular (present a_photo)) (
      item (codes "l") symlink (
        item (codes "d") (folder (listing (item (codes "b.txt") (regular (present a_photo)) end)))
          end)))

abbrev a_calendar : Calendar
a_calendar = record { today = 12; date_text = λ d. codes "day"; weekday_text = λ d. codes "Mon" }

a_tree_readable : is_readable a_tree ≡ true
unfolding is_readable
a_tree_readable = refl

walk_tree-visit_directory_example :
    walk_tree stats_walker a_tree (0, 0) ≡ some (visit_directory stats_walker [] a_tree (0, 0))
walk_tree-visit_directory_example = walk_tree-visit_directory stats_walker a_tree (0, 0)

tree_stats-stored_example :
    tree_stats a_tree
    ≡ some (
        ok (
          min u64_max (total_bytes (stored (files_of [] a_tree))),
          length (stored (files_of [] a_tree)) % u64_range,
        ))
tree_stats-stored_example = tree_stats-stored a_tree a_tree_readable

few_bytes : total_bytes (stored (files_of [] a_tree)) ≤ u64_max
unfolding total_bytes files_of files_in found_entry found_file is_staging_name contains starts_with
    strip_prefix
few_bytes = omega arith

few_files : length (stored (files_of [] a_tree)) ≤ u64_max
unfolding files_of files_in found_entry found_file is_staging_name contains starts_with strip_prefix
few_files = omega arith

tree_insights-Consistent_example :
    (i : Insights) × (tree_insights a_calendar a_tree ≡ some (ok i))
    × Consistent
        (total_bytes (stored (files_of [] a_tree)))
        (length (stored (files_of [] a_tree)))
        i
tree_insights-Consistent_example =
    tree_insights-Consistent a_calendar a_tree a_tree_readable few_bytes few_files

tree_insights-longer_example :
    (i : Insights) × (tree_insights a_calendar a_tree ≡ some (ok i))
    × ((t : ℕ) → above t i.largest_files ≡ min 5 (longer t (stored (files_of [] a_tree))))
tree_insights-longer_example = tree_insights-longer a_calendar a_tree a_tree_readable

abbrev an_owner : OwnerRow
an_owner = record { id = 1; username = codes "ann"; disabled = false; quota_bytes = none }

abbrev a_disk : Disk
a_disk = record {
  rows = ok (an_owner ∷ []);
  home = λ user. some a_tree;
  trash = λ user. none;
  now = 9;
}

abbrev a_turn : Turn
a_turn = record {
  lock_fails = false;
  relock_fails = false;
  read_at = 25000000000;
  kept_at = 26000000000;
}

abbrev a_cache : Cache
a_cache = some (
  5000000000,
  record { total_bytes = 7; total_files = 1; trash_bytes = 0; users = []; scanned_at = 5 },
)

cached-Answered_example :
    Ensures
      (λ after. after ≡ a_cache)
      (Answered a_turn a_disk 30 a_cache)
      (cached a_turn a_disk 30 a_cache)
cached-Answered_example = cached-Answered a_turn a_disk 30 a_cache

-- A cache of 20 seconds is used as it is.
read_from_cache : (cached a_turn a_disk 30 a_cache).1 ≡ a_cache
unfolding cached or_scan fresh is_fresh ◌>>=◌
read_from_cache = refl
