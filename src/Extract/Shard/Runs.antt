-- ===== src/Extract/Shard/Runs.antt =====
-- A run of a shard of internal/extract/extract.go with two series in the log and a cursor.
use tsm2arc.Prelude.{ℕ, List, [], ◌∷◌, Bytes, true, false, none, some, ◌≡◌, refl, arith}
use tsm2arc.Prelude.Int64.{ℤ, pos, max_int64}
use tsm2arc.Prelude.Times.{same}
use tsm2arc.Prelude.Strings.{codes, str_lt, str_eq}
use tsm2arc.Prelude.Sorting.{sort_strings, has_string}
use tsm2arc.Tsm.{Value, zero_value, block_integer}
use tsm2arc.Extract.Block.{TsmFile}
use tsm2arc.Extract.Merge.Rows.{Source}
use tsm2arc.Extract.Cursor.{Cursor}
use tsm2arc.Extract.Shard.{emit_series, shard_points}
use tsm2arc.Extract.Shard.Resumed.{AreDistinct, points_past}
use tsm2arc.Extract.Shard.Merged.{merged_series, shard_points-merged_series}

abbrev reading : ℤ → ℕ → Value
reading t n = record zero_value { unix_nano = t; type = block_integer; integer = pos n }

abbrev no_files : Bytes → List (TsmFile × List Bytes)
no_files sk = []

abbrev logged : Bytes → List Source
logged sk =
    (codes "a", reading (pos 3) 4 ∷ reading (pos 5) 5 ∷ [])
    ∷ (codes "b", reading (pos 3) 6 ∷ [])
    ∷ []

abbrev two_series : List Bytes
two_series = codes "cpu,host=b" ∷ codes "cpu,host=a" ∷ []

abbrev stopped_at : Cursor
stopped_at = record { series_key = codes "cpu,host=a"; unix_nano = pos 3 }

stopped_below : same (pos 3) max_int64 ≡ false
unfolding same
stopped_below = refl

two_series_distinct : AreDistinct (sort_strings two_series)
unfolding sort_strings str_lt
two_series_distinct = ((refl, tt), (tt, tt))

two_series_there : has_string (codes "cpu,host=a") two_series ≡ true
unfolding has_string str_eq
two_series_there = refl

shard_points-merged_series_example :
    shard_points (merged_series no_files logged 8 (pos 9)) (pos 0) (some stopped_at) two_series
    ≡ some (
        points_past stopped_at (
          emit_series
            (merged_series no_files logged 8 (pos 9))
            (pos 0)
            none
            (sort_strings two_series)))
shard_points-merged_series_example =
    shard_points-merged_series no_files logged 8 (pos 0) (pos 9) (λ sk. tt) (λ sk. omega arith)
      stopped_at (record { above = omega arith; below = omega arith }) stopped_below two_series
      two_series_distinct two_series_there
