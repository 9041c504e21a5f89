-- ===== src/Extract/Shard/Merged.antt =====
-- A shard of internal/extract/extract.go whose series are merged from their files and the log, as one
-- run each, and read again from a resume cursor.
use tsm2arc.Prelude.{
  ℕ, ◌<◌, List, [], ◌∷◌, ◌++◌, true, false, none, some, Bytes, ◌≡◌, refl, inl, inr, Bool-cases,
}
use tsm2arc.Prelude.Int64.{ℤ, IsInt64, add64, max_int64, pos}
use tsm2arc.Prelude.Times.{earlier, same}
use tsm2arc.Prelude.Strings.{str_eq_refl}
use tsm2arc.Prelude.Sorting.{sort_strings, has_string}
use tsm2arc.Series.{Tag, parse_series_key}
use tsm2arc.Extract.Block.{TsmFile}
use tsm2arc.Extract.Merge.{Point, Stats, zero_stats}
use tsm2arc.Extract.Merge.Rows.{Source, Row, size, rows, to_points}
use tsm2arc.Extract.Merge.Points.{series_point}
use tsm2arc.Extract.Coalesce.{merge_series}
use tsm2arc.Extract.Coalesce.LastWrite.{series_sources}
use tsm2arc.Extract.Slice.Sources.{window_sources}
use tsm2arc.Extract.Run.{series_stream, run_streams, count_keys}
use tsm2arc.Extract.Run.Sources.{file_sources, FilesAnswer, as_opened}
use tsm2arc.Extract.Run.Points.{merge_series-window_sources, merge_series-points_after}
use tsm2arc.Extract.Cursor.{Cursor, series_start_for}
use tsm2arc.Extract.Shard.{emit_series, shard_points}
use tsm2arc.Extract.Shard.Resumed.{OfSeries, AreDistinct, points_past, shard_points-points_past}

-- Below the greatest time there is a start after the cursor.
series_start_for-some :
    (start : ℤ) (cur : Cursor)
    → same cur.unix_nano max_int64 ≡ false
    → (from : ℤ) × (series_start_for cur.series_key start (some cur) ≡ (from, true))
unfolding series_start_for
series_start_for-some start cur h =
    elim (Bool-cases (earlier start (add64 cur.unix_nano (pos 1)))) [
      | inl e ↦ (add64 cur.unix_nano (pos 1), rw (str_eq_refl cur.series_key, h, e) refl)
      | inr e ↦ (start, rw (str_eq_refl cur.series_key, h, e) refl)
    ]

OfSeries-to_points :
    (sk measurement : Bytes) (tags : List Tag) (rs : List Row)
    → OfSeries sk (to_points (series_point sk measurement tags) rs)
OfSeries-to_points sk measurement tags [] = tt
OfSeries-to_points sk measurement tags ((t, fields) ∷ rs) =
    (refl, OfSeries-to_points sk measurement tags rs)

-- The counts with which the merge of a series starts.
abbrev pub key_stats : List (TsmFile × List Bytes) → Stats
key_stats files = count_keys zero_stats (as_opened files)

-- The points of a series from the time `start` on.
abbrev pub merged_series :
    (Bytes → List (TsmFile × List Bytes)) → (Bytes → List Source) → ℕ → ℤ → Bytes → ℤ → List Point
merged_series files_of wal_of fuel end sk start =
    let (measurement, tags) = parse_series_key sk in
    (merge_series series_stream fuel sk measurement tags
      (run_streams start end (as_opened (files_of sk)) (wal_of sk)) (key_stats (files_of sk))).0

module _ (files_of : Bytes → List (TsmFile × List Bytes)) (wal_of : Bytes → List Source) (fuel : ℕ)
    (start end : ℤ) (answers : (sk : Bytes) → FilesAnswer (files_of sk))
    (enough : (sk : Bytes) → size (file_sources (files_of sk) ++ wal_of sk) < fuel) where
  merged_series-OfSeries :
      (sk : Bytes) → OfSeries sk (merged_series files_of wal_of fuel end sk start)
  merged_series-OfSeries sk =
      rw
        (merge_series-window_sources (files_of sk) (wal_of sk) (answers sk) fuel (enough sk) sk
          (parse_series_key sk).0 (parse_series_key sk).1 start end (key_stats (files_of sk)))
        (OfSeries-to_points sk (parse_series_key sk).0 (parse_series_key sk).1 (
          rows fuel
            (series_sources (window_sources start end (file_sources (files_of sk) ++ wal_of sk)))))

  -- A shard whose series are each in the shard once, and whose files answer for their keys, emits from
  -- a cursor below the greatest time, whose series is in the shard, exactly the points of the whole
  -- shard that are behind the cursor, in their order, given fuel beyond the values of every series.
  pub shard_points-merged_series :
      (cur : Cursor)
      → IsInt64 cur.unix_nano
      → same cur.unix_nano max_int64 ≡ false
      → (order : List Bytes) → AreDistinct (sort_strings order)
      → has_string cur.series_key order ≡ true
      → shard_points (merged_series files_of wal_of fuel end) start (some cur) order
        ≡ some (
            points_past cur (
              emit_series (merged_series files_of wal_of fuel end) start none (sort_strings order)))
  shard_points-merged_series cur valid below order d h =
      let sk = cur.series_key in
      let (from, found) = series_start_for-some start cur below in
      shard_points-points_past (merged_series files_of wal_of fuel end) start cur
        merged_series-OfSeries
        (rw found (
          merge_series-points_after start end cur valid found (files_of sk) (wal_of sk) (answers sk)
            fuel (enough sk) (parse_series_key sk).0 (parse_series_key sk).1
            (key_stats (files_of sk)) (key_stats (files_of sk))))
        order d h
