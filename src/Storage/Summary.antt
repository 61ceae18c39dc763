-- ===== src/Storage/Summary.antt =====
-- The storage of all accounts, as the console shows it, and its cache (server/src/storage_stats.rs).
pub mod Rollup
pub mod Recent
use nexa_drive.Prelude.{
  ℕ, ◌-◌, ◌/◌, Bool, not, Option, none, some, List, [], ◌∷◌, ◌++◌, ltb, if◌then◌else◌,
}
use nexa_drive.Text.{Text}
use nexa_drive.Text.Decimal.{saturating_add}
use nexa_drive.Error.{Result, ok, err, internal}
use nexa_drive.Error.Exec.{Exec, pure, gets, lift, check, modify, ◌>>=◌, ◌>>◌}
use nexa_drive.Upload.World.{I64}
use nexa_drive.Storage.Tree.{Directory}
use nexa_drive.Storage.Stats.{tree_stats}

pub record UserStorage : Type 0 where
  pub user_id : ℕ
  pub username : Text
  pub disabled : Bool
  pub bytes : ℕ
  pub files : ℕ
  pub quota_bytes : Option I64

pub record StorageSummary : Type 0 where
  pub total_bytes : ℕ
  pub total_files : ℕ
  pub trash_bytes : ℕ
  pub users : List UserStorage
  pub scanned_at : ℕ

-- A row of the query, in the order of the names.
pub record OwnerRow : Type 0 where
  pub id : ℕ
  pub username : Text
  pub disabled : Bool
  pub quota_bytes : Option I64

-- What a scan meets: the query's answer, and each account's folder and trash, where they exist.
pub record Disk : Type 0 where
  pub rows : Result (List OwnerRow)
  pub home : ℕ → Option Directory
  pub trash : ℕ → Option Directory
  pub now : ℕ

abbrev pub or_zero : Option (Result (ℕ × ℕ)) → ℕ × ℕ
or_zero (some (ok s)) = s
or_zero (some (err e)) = (0, 0)
or_zero none = (0, 0)

-- The walk's answer, zeros where there is no folder or the walk fails.
unfoldable pub footprint : Option Directory → ℕ × ℕ
footprint none = (0, 0)
footprint (some d) = or_zero (tree_stats d)

unfoldable pub user_storage : Disk → OwnerRow → UserStorage
user_storage d r = record {
  user_id = r.id;
  username = r.username;
  disabled = r.disabled;
  bytes = (footprint (d.home r.id)).0;
  files = (footprint (d.home r.id)).1;
  quota_bytes = r.quota_bytes;
}

unfoldable pub add_account : Disk → OwnerRow → StorageSummary → StorageSummary
add_account d r s = record s {
  total_bytes = saturating_add s.total_bytes (footprint (d.home r.id)).0;
  total_files = saturating_add s.total_files (footprint (d.home r.id)).1;
  trash_bytes = saturating_add s.trash_bytes (footprint (d.trash r.id)).0;
  users = s.users ++ user_storage d r ∷ [];
}

unfoldable pub scan_each : Disk → List OwnerRow → StorageSummary → StorageSummary
scan_each d [] s = s
scan_each d (r ∷ rs) s = scan_each d rs (add_account d r s)

abbrev pub empty_summary : Disk → StorageSummary
empty_summary d = record {
  total_bytes = 0;
  total_files = 0;
  trash_bytes = 0;
  users = [];
  scanned_at = d.now;
}

abbrev pub scan_rows : Disk → Result (List OwnerRow) → Result StorageSummary
scan_rows d (ok rs) = ok (scan_each d rs (empty_summary d))
scan_rows d (err e) = err e

unfoldable pub scan : Disk → Result StorageSummary
scan d = scan_rows d d.rows

-- `storage_cache`: a summary and the instant, in nanoseconds, at which it was kept.
abbrev pub Cache : Type 0
Cache = Option (ℕ × StorageSummary)

-- The two locks of the cache, and the clock at each.
pub record Turn : Type 0 where
  pub lock_fails : Bool
  pub relock_fails : Bool
  pub read_at : ℕ
  pub kept_at : ℕ

unfoldable pub is_fresh : ℕ → ℕ → ℕ → Bool
is_fresh now ttl_secs at = ltb ((now - at) / 1000000000) ttl_secs

unfoldable pub fresh : ℕ → ℕ → Cache → Option StorageSummary
fresh now ttl_secs none = none
fresh now ttl_secs (some (at, s)) = if is_fresh now ttl_secs at then some s else none

unfoldable pub or_scan : Turn → Disk → Option StorageSummary → Exec Cache StorageSummary
or_scan t d (some s) = pure s
or_scan t d none = do
  s ← lift (scan d)
  modify (λ c. if t.relock_fails then c else some (t.kept_at, s))
  pure s

unfoldable pub cached : Turn → Disk → ℕ → Exec Cache StorageSummary
cached t d ttl_secs = do
  check (not t.lock_fails) internal
  kept ← gets (fresh t.read_at ttl_secs)
  or_scan t d kept
