-- ===== src/Storage/Stats.antt =====
-- The number and the size of the files of a tree (server/src/handlers/storage.rs).
pub mod Totals
use nexa_drive.Prelude.{ℕ, ◌+◌, ◌%◌, Bool, true, not, Option, none, some, List, [], if◌then◌else◌}
use nexa_drive.Text.{Text}
use nexa_drive.Text.Decimal.{saturating_add}
use nexa_drive.Error.{Result, ok, err, AppError, database, io, guard, or_error, ◌>>=◌, ◌>>◌}
use nexa_drive.Paths.{FilePath}
use nexa_drive.Upload.Staging.{is_staging_name}
use nexa_drive.Upload.World.{I64}
use nexa_drive.Storage.Tree.{
  Metadata, Reading, present, missing, failing, Directory, Walker, walk_tree,
}

-- `count += 1` on a u64 without overflow checks.
abbrev pub u64_range : ℕ
u64_range = 18446744073709551616

unfoldable pub count_file : Reading → ℕ × ℕ → Result (ℕ × ℕ)
count_file (present m) s = ok (saturating_add s.0 m.len, (s.1 + 1) % u64_range)
count_file missing s = ok s
count_file failing s = err io

unfoldable pub stats_walker : Walker (ℕ × ℕ)
stats_walker = record {
  is_lenient = true;
  visit = λ at name r s. if is_staging_name name then ok s else count_file r s;
}

-- The bytes and the number of the files; `none` never comes out.
unfoldable pub tree_stats : Directory → Option (Result (ℕ × ℕ))
tree_stats root = walk_tree stats_walker root (0, 0)

unfoldable pub first_of : Result (ℕ × ℕ) → Result ℕ
first_of r = r >>= λ s. ok s.0

unfoldable pub map_walk :
    {A B : Type 0} → (Result A → Result B) → Option (Result A) → Option (Result B)
map_walk f none = none
map_walk f (some r) = some (f r)

unfoldable pub folder_size : Directory → Option (Result ℕ)
folder_size path = map_walk first_of (tree_stats path)

pub record StorageSummaryResponse : Type 0 where
  pub used_bytes : ℕ
  pub file_count : ℕ
  pub quota_bytes : Option I64

-- `fetch_one`: the quota column of the account's row, or no row, or an error.
unfoldable pub account_quota : Result (Option (Option I64)) → Result (Option I64)
account_quota rows = rows >>= λ row. or_error row database

unfoldable pub summary :
    Result (Option (Option I64)) → Result (ℕ × ℕ) → Result StorageSummaryResponse
summary rows stats = do
  s ← stats
  quota ← account_quota rows
  ok (record { used_bytes = s.0; file_count = s.1; quota_bytes = quota })

abbrev pub stop_at_error : {A : Type 0} → Result (Unit {0}) → Option (Result A) → Option (Result A)
stop_at_error (err e) walked = some (err e)
stop_at_error (ok t) walked = walked

-- `storage`: whether the root can be made, what the query gives, and the user's tree.
unfoldable pub storage :
    Bool → Result (Option (Option I64)) → Directory → Option (Result StorageSummaryResponse)
storage can_create rows root =
    stop_at_error (guard can_create io) (map_walk (summary rows) (tree_stats root))
