-- ===== src/Storage/Insights/Longest.antt =====
-- The five largest files among all files of a tree (server/src/handlers/storage.rs).
use nexa_drive.Prelude.{
  ℕ, suc, ◌+◌, ◌≤◌, ◌≡◌, refl, ap, sym, subst, ◌∙◌, inl, inr, Bool, true, false, not, some, List,
  [], ◌∷◌, ◌++◌, arith, if◌then◌else◌, min, ltb, leb, ltb→lt, Bool-cases,
}
use nexa_drive.Prelude.Filter.{keep_here, keep_past}
use nexa_drive.Text.{join, replace}
use nexa_drive.Error.{ok}
use nexa_drive.Upload.Staging.{is_staging_name}
use nexa_drive.Storage.Tree.{Directory}
use nexa_drive.Storage.Tree.Fold.{Found, files_of, is_readable, fold}
use nexa_drive.Storage.Stats.Totals.{stored}
use nexa_drive.Storage.Insights.{
  Insights, LargestFile, Calendar, keep_largest, add_largest, add_file, no_insights, insert_largest,
  sort_largest, tree_insights,
}
use nexa_drive.Storage.Insights.Shares.{
  gather, gather_skipped, gather_stored, gathered, tree_insights-gathered,
}
use nexa_drive.Storage.Insights.Largest.{
  tick, above, Holds, Holds-eq, keep_largest-Holds, tick_ge, ltb-false,
}

-- How many files are longer than `t`.
unfoldable pub longer : ℕ → List Found → ℕ
longer t [] = 0
longer t (x ∷ xs) = tick t x.metadata.len + longer t xs

tick_lt : (t n : ℕ) → suc t ≤ n → tick t n ≡ 1
unfolding tick
tick_lt t n h = ground arith

-- Files of no bytes count for neither number.
add_largest-Holds :
    (t a n : ℕ) (x : Found) (fs : List LargestFile)
    → Holds t a n fs
    → Holds t
        (a + tick t x.metadata.len)
        (n + tick 0 x.metadata.len)
        (add_largest x.at x.name x.metadata fs)
unfolding add_largest
add_largest-Holds t a n x fs h = either (ltb 0 x.metadata.len) refl
  where
    new : LargestFile
    new = record {
      name = x.name;
      path = replace 92 47 (join 47 (x.at ++ x.name ∷ []));
      size_bytes = x.metadata.len;
      modified_at = x.metadata.modified;
    }

    either :
        (b : Bool)
        → ltb 0 x.metadata.len ≡ b
        → Holds t
            (a + tick t x.metadata.len)
            (n + tick 0 x.metadata.len)
            (if b then keep_largest new fs else fs)
    either true e =
        Holds-eq t _ _ (n + 1) (n + tick 0 x.metadata.len) _ refl
          (omega (arith, tick_lt 0 x.metadata.len (omega (arith, ltb→lt 0 x.metadata.len e))))
          (keep_largest-Holds t a n new fs h)
    either false e =
        let none_left = ltb-false 0 x.metadata.len e in
        Holds-eq t a _ n _ fs (omega (arith, tick_ge t x.metadata.len (omega arith)))
          (omega (arith, tick_ge 0 x.metadata.len (omega arith))) h

fold-Holds :
    (c : Calendar) (t : ℕ) (xs : List Found) (a n : ℕ) (i : Insights)
    → Holds t a n i.largest_files
    → Holds t
        (a + longer t (stored xs))
        (n + longer 0 (stored xs))
        (fold (gather c) xs i).largest_files
unfolding fold longer
fold-Holds c t [] a n i h =
    Holds-eq t a (a + 0) n (n + 0) i.largest_files (omega arith) (omega arith) h
fold-Holds c t (x ∷ xs) a n i h = elim (Bool-cases (is_staging_name x.name)) [
  | inl e ↦
      subst (λ j. Counted (stored (x ∷ xs)) (fold (gather c) xs j)) (sym (gather_skipped c x i e))
        (subst (λ ys. Counted ys (fold (gather c) xs i))
          (sym (keep_past (λ y. not (is_staging_name y.name)) x xs (ap not e)))
          (fold-Holds c t xs a n i h))
  | inr e ↦
      subst (λ j. Counted (stored (x ∷ xs)) (fold (gather c) xs j)) (sym (gather_stored c x i e))
        (subst (λ ys. Counted ys (fold (gather c) xs (add_file c x.at x.name x.metadata i)))
          (sym (keep_here (λ y. not (is_staging_name y.name)) x xs (ap not e)))
          (Holds-eq t _ _ _ _ _ (omega arith) (omega arith) (
            fold-Holds c t xs (a + tick t x.metadata.len) (n + tick 0 x.metadata.len)
              (add_file c x.at x.name x.metadata i)
              (unfold add_file in add_largest-Holds t a n x i.largest_files h))))
]
  where
    Counted : List Found → Insights → Type 0
    Counted ys j = Holds t (a + longer t ys) (n + longer 0 ys) j.largest_files

above-insert_largest :
    (t : ℕ) (f : LargestFile) (fs : List LargestFile)
    → above t (insert_largest f fs) ≡ tick t f.size_bytes + above t fs
unfolding above insert_largest
above-insert_largest t f [] = refl
above-insert_largest t f (g ∷ gs) =
    either (leb g.size_bytes f.size_bytes) (above-insert_largest t f gs)
  where
    either :
        (b : Bool)
        → above t (insert_largest f gs) ≡ tick t f.size_bytes + above t gs
        → above t (if b then f ∷ g ∷ gs else g ∷ insert_largest f gs)
          ≡ tick t f.size_bytes + (tick t g.size_bytes + above t gs)
    either true e = refl
    either false e = omega (arith, e)

above-sort_largest : (t : ℕ) (fs : List LargestFile) → above t (sort_largest fs) ≡ above t fs
unfolding above sort_largest
above-sort_largest t [] = refl
above-sort_largest t (f ∷ fs) =
    above-insert_largest t f (sort_largest fs)
    ∙ ap (λ n. tick t f.size_bytes + n) (above-sort_largest t fs)

gathered-Holds :
    (c : Calendar) (t : ℕ) (root : Directory)
    → above t (gathered c root).largest_files ≡ min 5 (longer t (stored (files_of [] root)))
unfolding gathered
gathered-Holds c t root =
    (fold-Holds c t (files_of [] root) 0 0 (no_insights c) (empty c)).longest
    ∙ ap (min 5) (
        let e : 0 + longer t (stored (files_of [] root)) ≡ longer t (stored (files_of [] root)) =
          omega arith in
        e)
  where
    empty : (c : Calendar) → Holds t 0 0 (no_insights c).largest_files
    empty c = record {
      longest = unfold above no_insights in refl;
      rows = unfold no_insights in refl;
      bound = omega arith;
    }

-- Where the tree can be read, there are insights, and of the files that are longer than any given length their list
-- of the largest holds as many as there are, up to five; files that are still being uploaded do not count.
pub tree_insights-longer :
    (c : Calendar) (root : Directory)
    → is_readable root ≡ true
    → (i : Insights) × (tree_insights c root ≡ some (ok i))
      × ((t : ℕ) → above t i.largest_files ≡ min 5 (longer t (stored (files_of [] root))))
tree_insights-longer c root h = (
  _,
  tree_insights-gathered c root h,
  λ t. above-sort_largest t (gathered c root).largest_files ∙ gathered-Holds c t root,
)
