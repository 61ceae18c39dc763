-- ===== src/Storage/Insights/Shares.antt =====
-- The breakdowns of server/src/handlers/storage.rs add up to the files.
use nexa_drive.Prelude.{
  ℕ, zero, suc, ◌+◌, ◌≤◌, ◌<◌, ◌≡◌, refl, ap, sym, subst, ◌∙◌, Bool, true, false, not, some, List,
  [], ◌∷◌, ◌++◌, arith, if◌then◌else◌, length, Bool-cases, inl, inr,
}
use nexa_drive.Prelude.Filter.{keep_here, keep_past}
use nexa_drive.Text.Decimal.{saturating_add, u64_max}
use nexa_drive.Error.{ok}
use nexa_drive.Paths.{FilePath}
use nexa_drive.Upload.Staging.{is_staging_name}
use nexa_drive.Storage.Tree.{Directory}
use nexa_drive.Storage.Tree.Fold.{Found, files_of, is_readable, fold, Collects, walk_tree-fold}
use nexa_drive.Storage.Stats.{map_walk}
use nexa_drive.Storage.Stats.Totals.{stored, total_bytes}
use nexa_drive.Storage.Insights.{
  Share, Insights, Calendar, index_of_extension, storage_type_index, size_index, grow, add_at,
  add_file, read_file, insights_walker, no_insights, sorted, sort_largest, tree_insights,
}

unfoldable pub sum_bytes : List Share → ℕ
sum_bytes [] = 0
sum_bytes (s ∷ ss) = s.bytes + sum_bytes ss

unfoldable pub sum_counts : List Share → ℕ
sum_counts [] = 0
sum_counts (s ∷ ss) = s.count + sum_counts ss

-- A file that counts, taken into the insights.
unfoldable pub gather : Calendar → Found → Insights → Insights
gather c x i = if is_staging_name x.name then i else add_file c x.at x.name x.metadata i

pub insights-Collects : (c : Calendar) → Collects (insights_walker c) (gather c)
unfolding insights_walker read_file gather
insights-Collects c = record {
  is_lenient = refl;
  on_present = λ at name m i. either (is_staging_name name) i (add_file c at name m i);
  on_missing = λ at name i. same (is_staging_name name) i;
}
  where
    either : (b : Bool) (i j : Insights) → (if b then ok i else ok j) ≡ ok (if b then i else j)
    either true i j = refl
    either false i j = refl

    same : (b : Bool) (i : Insights) → (if b then ok i else ok i) ≡ ok i
    same true i = refl
    same false i = refl

pub gather_skipped :
    (c : Calendar) (x : Found) (i : Insights) → is_staging_name x.name ≡ true → gather c x i ≡ i
unfolding gather
gather_skipped c x i e = rw e refl

pub gather_stored :
    (c : Calendar) (x : Found) (i : Insights)
    → is_staging_name x.name ≡ false
    → gather c x i ≡ add_file c x.at x.name x.metadata i
unfolding gather
gather_stored c x i e = rw e refl

saturating_add_exact : (a b : ℕ) → a + b ≤ u64_max → saturating_add a b ≡ a + b
unfolding saturating_add
saturating_add_exact a b h = ground arith

sum_bytes-add_at :
    (i size : ℕ) (ss : List Share)
    → i < length ss
    → sum_bytes ss + size ≤ u64_max
    → sum_bytes (add_at i size ss) ≡ sum_bytes ss + size
unfolding sum_bytes add_at grow
sum_bytes-add_at i size [] h k = absurd (omega arith)
sum_bytes-add_at zero size (s ∷ ss) h k =
    omega (arith, saturating_add_exact s.bytes size (omega arith))
sum_bytes-add_at (suc i) size (s ∷ ss) h k =
    omega (arith, sum_bytes-add_at i size ss (omega arith) (omega arith))

sum_counts-add_at :
    (i size : ℕ) (ss : List Share)
    → i < length ss
    → sum_counts ss + 1 ≤ u64_max
    → sum_counts (add_at i size ss) ≡ sum_counts ss + 1
unfolding sum_counts add_at grow
sum_counts-add_at i size [] h k = absurd (omega arith)
sum_counts-add_at zero size (s ∷ ss) h k =
    omega (arith, saturating_add_exact s.count 1 (omega arith))
sum_counts-add_at (suc i) size (s ∷ ss) h k =
    omega (arith, sum_counts-add_at i size ss (omega arith) (omega arith))

length-add_at : (i size : ℕ) (ss : List Share) → length (add_at i size ss) ≡ length ss
unfolding add_at
length-add_at zero size [] = refl
length-add_at (suc i) size [] = refl
length-add_at zero size (s ∷ ss) = refl
length-add_at (suc i) size (s ∷ ss) = ap suc (length-add_at i size ss)

storage_type_index-lt : (path : FilePath) → storage_type_index path < 6
unfolding storage_type_index index_of_extension
storage_type_index-lt path = ground arith

size_index-lt : (size : ℕ) → size_index size < 4
unfolding size_index
size_index-lt size = ground arith

-- A breakdown of `n` files of `u` bytes.
pub record AddsUp (u n : ℕ) (ss : List Share) : Type 0 where
  pub bytes : sum_bytes ss ≡ u
  pub counts : sum_counts ss ≡ n

add_at-AddsUp :
    (u n i size : ℕ) (ss : List Share)
    → AddsUp u n ss
    → i < length ss
    → u + size ≤ u64_max
    → n + 1 ≤ u64_max
    → AddsUp (u + size) (n + 1) (add_at i size ss)
add_at-AddsUp u n i size ss a h k l = record {
  bytes = omega (arith, a.bytes, sum_bytes-add_at i size ss h (omega (arith, a.bytes)));
  counts = omega (arith, a.counts, sum_counts-add_at i size ss h (omega (arith, a.counts)));
}

-- Insights into `n` files of `u` bytes.
pub record Consistent (u n : ℕ) (i : Insights) : Type 0 where
  pub used : i.used_bytes ≡ u
  pub files : i.file_count ≡ n
  pub types : AddsUp u n i.type_breakdown
  pub sizes : AddsUp u n i.size_distribution
  pub type_rows : length i.type_breakdown ≡ 6
  pub size_rows : length i.size_distribution ≡ 4

add_file-Consistent :
    (c : Calendar) (x : Found) (u n : ℕ) (i : Insights)
    → Consistent u n i
    → u + x.metadata.len ≤ u64_max
    → n + 1 ≤ u64_max
    → Consistent (u + x.metadata.len) (n + 1) (add_file c x.at x.name x.metadata i)
unfolding add_file
add_file-Consistent c x u n i a h k = record {
  used =
      omega
        (arith, a.used, saturating_add_exact i.used_bytes x.metadata.len (omega (arith, a.used)));
  files = omega (arith, a.files, saturating_add_exact i.file_count 1 (omega (arith, a.files)));
  types =
      add_at-AddsUp u n (storage_type_index (x.at ++ x.name ∷ [])) x.metadata.len i.type_breakdown
        a.types (omega (arith, a.type_rows, storage_type_index-lt (x.at ++ x.name ∷ []))) h k;
  sizes =
      add_at-AddsUp u n (size_index x.metadata.len) x.metadata.len i.size_distribution a.sizes
        (omega (arith, a.size_rows, size_index-lt x.metadata.len)) h k;
  type_rows = length-add_at _ _ i.type_breakdown ∙ a.type_rows;
  size_rows = length-add_at _ _ i.size_distribution ∙ a.size_rows;
}

Consistent_eq : (u v n m : ℕ) (i : Insights) → u ≡ v → n ≡ m → Consistent u n i → Consistent v m i
Consistent_eq u v n m i e f a = subst (λ k. Consistent v k i) f (subst (λ k. Consistent k n i) e a)

fold-Consistent :
    (c : Calendar) (xs : List Found) (u n : ℕ) (i : Insights)
    → Consistent u n i
    → u + total_bytes (stored xs) ≤ u64_max
    → n + length (stored xs) ≤ u64_max
    → Consistent (u + total_bytes (stored xs)) (n + length (stored xs)) (fold (gather c) xs i)
unfolding fold total_bytes
fold-Consistent c [] u n i a h k = Consistent_eq u (u + 0) n (n + 0) i (omega arith) (omega arith) a
fold-Consistent c (x ∷ xs) u n i a h k = elim (Bool-cases (is_staging_name x.name)) [
  | inl e ↦
      let past : stored (x ∷ xs) ≡ stored xs =
        keep_past (λ y. not (is_staging_name y.name)) x xs (ap not e) in
      subst (λ j. Adds (stored (x ∷ xs)) (fold (gather c) xs j)) (sym (gather_skipped c x i e))
        (subst (λ ys. Adds ys (fold (gather c) xs i)) (sym past)
          (fold-Consistent c xs u n i a (subst (λ ys. u + total_bytes ys ≤ u64_max) past h)
            (subst (λ ys. n + length ys ≤ u64_max) past k)))
  | inr e ↦
      let here : stored (x ∷ xs) ≡ x ∷ stored xs =
        keep_here (λ y. not (is_staging_name y.name)) x xs (ap not e) in
      let h' : u + (x.metadata.len + total_bytes (stored xs)) ≤ u64_max =
        subst (λ ys. u + total_bytes ys ≤ u64_max) here h in
      let k' : n + suc (length (stored xs)) ≤ u64_max =
        subst (λ ys. n + length ys ≤ u64_max) here k in
      subst (λ j. Adds (stored (x ∷ xs)) (fold (gather c) xs j)) (sym (gather_stored c x i e))
        (subst (λ ys. Adds ys (fold (gather c) xs (add_file c x.at x.name x.metadata i))) (sym here)
          (moved (
            fold-Consistent c xs (u + x.metadata.len) (n + 1) (add_file c x.at x.name x.metadata i)
              (add_file-Consistent c x u n i a (omega arith) (omega arith)) (omega arith)
              (omega arith))))
]
  where
    Adds : List Found → Insights → Type 0
    Adds ys j = Consistent (u + total_bytes ys) (n + length ys) j

    moved :
        {j : Insights}
        → Consistent (u + x.metadata.len + total_bytes (stored xs)) (n + 1 + length (stored xs)) j
        → Adds (x ∷ stored xs) j
    moved {j} b =
        Consistent_eq (u + x.metadata.len + total_bytes (stored xs))
          (u + (x.metadata.len + total_bytes (stored xs))) (n + 1 + length (stored xs))
          (n + suc (length (stored xs))) j (omega arith) (omega arith) b

start : (c : Calendar) → Consistent 0 0 (no_insights c)
unfolding no_insights sum_bytes sum_counts
start c = record {
  used = refl;
  files = refl;
  types = record { bytes = refl; counts = refl };
  sizes = record { bytes = refl; counts = refl };
  type_rows = refl;
  size_rows = refl;
}

unfoldable pub gathered : Calendar → Directory → Insights
gathered c root = fold (gather c) (files_of [] root) (no_insights c)

pub tree_insights-gathered :
    (c : Calendar) (root : Directory)
    → is_readable root ≡ true
    → tree_insights c root
      ≡ some (
          ok (record (gathered c root) {
            largest_files = sort_largest (gathered c root).largest_files;
          }))
unfolding tree_insights map_walk sorted gathered
tree_insights-gathered c root h =
    ap (map_walk sorted)
      (walk_tree-fold (insights_walker c) (gather c) (insights-Collects c) root (no_insights c) h)

gathered-Consistent :
    (c : Calendar) (root : Directory)
    → 0 + total_bytes (stored (files_of [] root)) ≤ u64_max
    → 0 + length (stored (files_of [] root)) ≤ u64_max
    → Consistent
        (total_bytes (stored (files_of [] root)))
        (length (stored (files_of [] root)))
        (gathered c root)
unfolding gathered
gathered-Consistent c root h k =
    Consistent_eq _ _ _ _ _ (omega arith) (omega arith)
      (fold-Consistent c (files_of [] root) 0 0 (no_insights c) (start c) h k)

-- Where the tree can be read and its files have less than 2^64 bytes and are fewer than 2^64, there are
-- insights, their sums are those of the files that are not still being uploaded, and the breakdowns by type and
-- by size add up to them, in bytes and in files.
pub tree_insights-Consistent :
    (c : Calendar) (root : Directory)
    → is_readable root ≡ true
    → total_bytes (stored (files_of [] root)) ≤ u64_max
    → length (stored (files_of [] root)) ≤ u64_max
    → (i : Insights) × (tree_insights c root ≡ some (ok i))
      × Consistent (total_bytes (stored (files_of [] root))) (length (stored (files_of [] root))) i
tree_insights-Consistent c root h k l = (
  _,
  tree_insights-gathered c root h,
  record {
    used = all.used;
    files = all.files;
    types = all.types;
    sizes = all.sizes;
    type_rows = all.type_rows;
    size_rows = all.size_rows;
  },
)
  where
    all :
        Consistent
          (total_bytes (stored (files_of [] root)))
          (length (stored (files_of [] root)))
          (gathered c root)
    all = gathered-Consistent c root (omega arith) (omega arith)
