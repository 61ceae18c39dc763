-- ===== src/Storage/Summary/Rollup.antt =====
-- What a scan of all accounts (server/src/storage_stats.rs) adds up to.
use nexa_drive.Prelude.{ℕ, ◌+◌, ◌≡◌, List, [], ◌∷◌, map, min}
use nexa_drive.Text.Decimal.{u64_max}
use nexa_drive.Storage.Summary.{StorageSummary, OwnerRow, Disk, footprint, user_storage}

unfoldable pub sum_of : (OwnerRow → ℕ) → List OwnerRow → ℕ
sum_of f [] = 0
sum_of f (r ∷ rs) = f r + sum_of f rs

-- The sums over the accounts, each up to 2^64 - 1, and a line for each account, in their order.
pub record Adds (d : Disk) (rs : List OwnerRow) (s : StorageSummary) : Type 0 where
  pub bytes : s.total_bytes ≡ min u64_max (sum_of (λ r. (footprint (d.home r.id)).0) rs)
  pub files : s.total_files ≡ min u64_max (sum_of (λ r. (footprint (d.home r.id)).1) rs)
  pub in_trash : s.trash_bytes ≡ min u64_max (sum_of (λ r. (footprint (d.trash r.id)).0) rs)
  pub lines : s.users ≡ map (user_storage d) rs
  pub time : s.scanned_at ≡ d.now
