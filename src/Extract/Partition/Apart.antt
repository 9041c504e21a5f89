-- ===== src/Extract/Partition/Apart.antt =====
-- The runs of `partitionRuns` in internal/extract/extract.go: each file in one of them, in the order of
-- the indices within a run, and the runs apart in time.
use tsm2arc.Prelude.{
  ◌+◌, List, [], ◌∷◌, map, Bool, true, ◌||◌, length, ltb, ◌≡◌, refl, ap₂, ◌∙◌, inl, inr, arith, All,
  Bool-cases,
}
use tsm2arc.Prelude.Int64.{min_int64}
use tsm2arc.Prelude.Times.{earlier}
use tsm2arc.Extract.Partition.{
  FileKeys, sort_by, index_before, starts_before, split_runs, partition_runs,
}
use tsm2arc.Extract.Partition.Order.{
  count_files, count_runs, InIndexOrder, count_files-sort_by, All-sort_by, sort_by-InIndexOrder,
}
use tsm2arc.Extract.Partition.Split.{
  EndsBefore, AreApart, sort_by-AreStarting, split_runs-AreApart, count_runs-split_runs_start,
}

-- What sorting each run by the indices keeps.
abbrev sorted_runs : List (List FileKeys) → List (List FileKeys)
sorted_runs rs = map (sort_by index_before) rs

count_runs-sorted_runs :
    (p : FileKeys → Bool) (rs : List (List FileKeys))
    → count_runs p (sorted_runs rs) ≡ count_runs p rs
count_runs-sorted_runs p [] = refl
count_runs-sorted_runs p (r ∷ rs) =
    ap₂ (λ m n. m + n) (count_files-sort_by index_before p r) (count_runs-sorted_runs p rs)

EndsBefore-sorted_runs :
    (f : FileKeys) (rs : List (List FileKeys)) → EndsBefore f rs → EndsBefore f (sorted_runs rs)
EndsBefore-sorted_runs f [] h = tt
EndsBefore-sorted_runs f (r ∷ rs) (h, hs) =
    (All-sort_by index_before (λ g. earlier f.max g.min ≡ true) r h, EndsBefore-sorted_runs f rs hs)

sorted_runs-AreApart : (rs : List (List FileKeys)) → AreApart rs → AreApart (sorted_runs rs)
sorted_runs-AreApart [] h = tt
sorted_runs-AreApart (r ∷ rs) (h, hs) = (
  All-sort_by index_before (λ f. EndsBefore f (sorted_runs rs)) r (each r h),
  sorted_runs-AreApart rs hs,
)
  where
    each :
        (fs : List FileKeys)
        → All (λ f. EndsBefore f rs) fs
        → All (λ f. EndsBefore f (sorted_runs rs)) fs
    each [] h = tt
    each (f ∷ fs) (h, hs) = (EndsBefore-sorted_runs f rs h, each fs hs)

sorted_runs-InIndexOrder : (rs : List (List FileKeys)) → All InIndexOrder (sorted_runs rs)
sorted_runs-InIndexOrder [] = tt
sorted_runs-InIndexOrder (r ∷ rs) = (sort_by-InIndexOrder r, sorted_runs-InIndexOrder rs)

one_run-AreApart : (fs : List FileKeys) → AreApart (fs ∷ [])
one_run-AreApart fs = (each fs, tt)
  where
    each : (fs : List FileKeys) → All (λ f. EndsBefore f []) fs
    each [] = tt
    each (f ∷ fs) = (tt, each fs)

-- Every file is in the runs as often as it is given; the indices rise within a run; and every file of
-- a run ends before any file of a later run starts.
pub partition_runs-AreApart :
    (by_file : List FileKeys) (has_wal : Bool) (p : FileKeys → Bool)
    → (count_runs p (partition_runs by_file has_wal) ≡ count_files p by_file)
      × All InIndexOrder (partition_runs by_file has_wal)
      × AreApart (partition_runs by_file has_wal)
unfolding partition_runs
partition_runs-AreApart by_file has_wal p =
    let fis = sort_by index_before by_file in
    let counted = count_files-sort_by index_before p by_file in
    let order = sort_by starts_before fis in
    elim (Bool-cases (has_wal || ltb (length fis) 2)) [
      | inl e ↦ rw e (omega arith, (sort_by-InIndexOrder by_file, tt), one_run-AreApart fis)
      | inr e ↦ rw e (
        count_runs-sorted_runs p (split_runs [] min_int64 order)
            ∙ count_runs-split_runs_start p order
            ∙ count_files-sort_by starts_before p fis
            ∙ counted,
        sorted_runs-InIndexOrder (split_runs [] min_int64 order),
        sorted_runs-AreApart (split_runs [] min_int64 order)
            (split_runs-AreApart [] min_int64 order tt (sort_by-AreStarting fis)),
      )
    ]
