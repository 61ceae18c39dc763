-- ===== src/Storage/Stats/Totals.antt =====
-- What the statistics of server/src/handlers/storage.rs count.
use nexa_drive.Prelude.{
  ℕ, suc, ◌+◌, ◌%◌, ◌≡◌, refl, ap, sym, ◌∙◌, Bool, true, false, not, some, List, [], ◌∷◌, arith,
  if◌then◌else◌, keep, length, min, Bool-cases, inl, inr,
}
use nexa_drive.Prelude.Filter.{keep_here, keep_past}
use nexa_drive.Text.Decimal.{saturating_add, u64_max}
use nexa_drive.Error.{ok}
use nexa_drive.Upload.Staging.{is_staging_name}
use nexa_drive.Storage.Tree.{Metadata, Directory}
use nexa_drive.Storage.Tree.Fold.{Found, files_of, is_readable, fold, Collects, walk_tree-fold}
use nexa_drive.Storage.Stats.{u64_range, count_file, stats_walker, tree_stats}

-- The files that count: those that are not being uploaded.
abbrev pub stored : List Found → List Found
stored fs = keep (λ x. not (is_staging_name x.name)) fs

unfoldable pub total_bytes : List Found → ℕ
total_bytes [] = 0
total_bytes (x ∷ xs) = x.metadata.len + total_bytes xs

count : Found → ℕ × ℕ → ℕ × ℕ
count x s =
    if is_staging_name x.name then s else (saturating_add s.0 x.metadata.len, (s.1 + 1) % u64_range)

stats-Collects : Collects stats_walker count
unfolding stats_walker count_file count
stats-Collects = record {
  is_lenient = refl;
  on_present = λ at name m s. present_case (is_staging_name name) m s;
  on_missing = λ at name s. missing_case (is_staging_name name) s;
}
  where
    present_case :
        (b : Bool) (m : Metadata) (s : ℕ × ℕ)
        → (if b then ok s else ok (saturating_add s.0 m.len, (s.1 + 1) % u64_range))
          ≡ ok (if b then s else (saturating_add s.0 m.len, (s.1 + 1) % u64_range))
    present_case true m s = refl
    present_case false m s = refl

    missing_case : (b : Bool) (s : ℕ × ℕ) → (if b then ok s else ok s) ≡ ok s
    missing_case true s = refl
    missing_case false s = refl

pub add_saturated : (u n : ℕ) → saturating_add (min u64_max u) n ≡ min u64_max (u + n)
unfolding saturating_add
add_saturated u n = ground arith

count_wrapped : (c : ℕ) → (c % u64_range + 1) % u64_range ≡ (c + 1) % u64_range
count_wrapped c = omega arith

count_skipped : (x : Found) (s : ℕ × ℕ) → is_staging_name x.name ≡ true → count x s ≡ s
unfolding count
count_skipped x s e = rw e refl

count_stored :
    (x : Found) (s : ℕ × ℕ)
    → is_staging_name x.name ≡ false
    → count x s ≡ (saturating_add s.0 x.metadata.len, (s.1 + 1) % u64_range)
unfolding count
count_stored x s e = rw e refl

-- The state after files of `u` bytes, `c` of them.
abbrev reading : ℕ → ℕ → ℕ × ℕ
reading u c = (min u64_max u, c % u64_range)

reading_eq : (u v c d : ℕ) → u ≡ v → c ≡ d → reading u c ≡ reading v d
reading_eq u v c d e f = ap (λ x. reading x c) e ∙ ap (reading v) f

fold-count :
    (xs : List Found) (u c : ℕ)
    → fold count xs (reading u c) ≡ reading (u + total_bytes (stored xs)) (c + length (stored xs))
unfolding fold total_bytes
fold-count [] u c = reading_eq u (u + 0) c (c + 0) (omega arith) (omega arith)
fold-count (x ∷ xs) u c = elim (Bool-cases (is_staging_name x.name)) [
  | inl e ↦
      ap (fold count xs) (count_skipped x (reading u c) e)
      ∙ fold-count xs u c
      ∙ ap (λ k. reading (u + total_bytes k) (c + length k))
          (sym (keep_past (λ y. not (is_staging_name y.name)) x xs (ap not e)))
  | inr e ↦
      ap (fold count xs) (
        count_stored x (reading u c) e
        ∙ ap (λ y. (y, (c % u64_range + 1) % u64_range)) (add_saturated u x.metadata.len)
        ∙ ap (λ y. (min u64_max (u + x.metadata.len), y)) (count_wrapped c))
      ∙ fold-count xs (u + x.metadata.len) (c + 1)
      ∙ reading_eq (u + x.metadata.len + total_bytes (stored xs))
          (u + (x.metadata.len + total_bytes (stored xs))) (c + 1 + length (stored xs))
          (c + suc (length (stored xs))) (omega arith) (omega arith)
      ∙ ap (λ k. reading (u + total_bytes k) (c + length k))
          (sym (keep_here (λ y. not (is_staging_name y.name)) x xs (ap not e)))
]

-- Where the tree can be read, the statistics are the sum of the lengths of its files, up to 2^64 - 1,
-- and their number, modulo 2^64; files that are still being uploaded do not count.
pub tree_stats-stored :
    (root : Directory)
    → is_readable root ≡ true
    → tree_stats root
      ≡ some (
          ok (
            min u64_max (total_bytes (stored (files_of [] root))),
            length (stored (files_of [] root)) % u64_range,
          ))
unfolding tree_stats
tree_stats-stored root h =
    walk_tree-fold stats_walker count stats-Collects root (0, 0) h
    ∙ ap (λ s. some (ok s))
        (ap (fold count (files_of [] root)) start
          ∙ fold-count (files_of [] root) 0 0
          ∙ reading_eq _ _ _ _ (omega arith) (omega arith))
  where
    start : (let z : ℕ × ℕ = (0, 0) in z) ≡ reading 0 0
    start = refl
