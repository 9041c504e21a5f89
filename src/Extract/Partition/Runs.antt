-- ===== src/Extract/Partition/Runs.antt =====
-- Runs of `partitionRuns` of internal/extract/extract.go on three files, two of which overlap.
use tsm2arc.Prelude.{ℕ, List, [], ◌∷◌, false, ◌≡◌, refl, All}
use tsm2arc.Prelude.Int64.{ℤ, pos, negsuc, ltb_ℤ}
use tsm2arc.Prelude.Times.{earlier, same}
use tsm2arc.Extract.Partition.{
  FileKeys, partition_runs, insert_by, starts_before, split_runs, sort_by,
}
use tsm2arc.Extract.Partition.Order.{count_files, count_runs, InIndexOrder}
use tsm2arc.Extract.Partition.Apart.{partition_runs-AreApart}
use tsm2arc.Extract.Partition.Split.{AreApart}

abbrev file_over : ℕ → ℤ → ℤ → FileKeys
file_over i from to = record { index = i; keys = []; min = from; max = to }

abbrev three_files : List FileKeys
three_files =
    file_over 2 (negsuc 4) (pos 6) ∷ file_over 0 (pos 7) (pos 9) ∷ file_over 1 (pos 0) (pos 3) ∷ []

partition_runs_run :
    partition_runs three_files false
    ≡ (file_over 1 (pos 0) (pos 3) ∷ file_over 2 (negsuc 4) (pos 6) ∷ [])
      ∷ (file_over 0 (pos 7) (pos 9) ∷ [])
      ∷ []
unfolding partition_runs insert_by starts_before split_runs sort_by same earlier
partition_runs_run = refl

partition_runs-AreApart_example :
    (count_runs (λ f. ltb_ℤ f.min (pos 1)) (partition_runs three_files false)
      ≡ count_files (λ f. ltb_ℤ f.min (pos 1)) three_files)
    × All InIndexOrder (partition_runs three_files false)
    × AreApart (partition_runs three_files false)
partition_runs-AreApart_example =
    partition_runs-AreApart three_files false (λ f. ltb_ℤ f.min (pos 1))
