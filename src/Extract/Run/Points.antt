-- ===== src/Extract/Run/Points.antt =====
-- The points of a run of internal/extract/extract.go: the last write of each field at each time, the
-- log after the files, and what is left of them behind a resume cursor.
use tsm2arc.Prelude.{
  ℕ, ◌<◌, List, [], ◌∷◌, ◌++◌, true, none, some, if◌then◌else◌, Bytes, ◌≡◌, refl, sym, ap, ap₂, ◌∙◌,
  arith,
}
use tsm2arc.Prelude.Int64.{ℤ, IsInt64}
use tsm2arc.Series.{Tag}
use tsm2arc.Extract.Slice.Sources.{
  ordered, in_range, window_sources, window_sources-AreAscending, size-window_sources,
  last_write-window_sources,
}
use tsm2arc.Extract.Block.{TsmFile}
use tsm2arc.Extract.Merge.{Stats, done}
use tsm2arc.Extract.Merge.Rows.{Source, size, rows, to_points}
use tsm2arc.Extract.Merge.Row.{last_write}
use tsm2arc.Extract.Merge.Resume.{sources_after, rows-sources_after}
use tsm2arc.Extract.Merge.Points.{series_point, field_at, points_after, points_after-to_points}
use tsm2arc.Extract.Coalesce.{merge_series}
use tsm2arc.Extract.Coalesce.LastWrite.{series_sources}
use tsm2arc.Extract.Coalesce.Sources.{
  series_sources-AreAscending, size-series_sources, series_sources-sources_after,
}
use tsm2arc.Extract.Coalesce.Series.{merge_series-rows, merge_series-last_write}
use tsm2arc.Extract.Run.{series_stream, run_streams}
use tsm2arc.Extract.Run.Lawful.{series_laws}
use tsm2arc.Extract.Run.Sources.{
  file_sources, FilesAnswer, as_opened, run_streams-embed, run_streams-valid,
}
use tsm2arc.Extract.Cursor.{Cursor, series_start_for}
use tsm2arc.Extract.Cursor.Start.{series_start_for-earlier, in_window-values_after}

module _ (files : List (TsmFile × List Bytes)) (wal : List Source) (answers : FilesAnswer files)
    (fuel : ℕ) (enough : size (file_sources files ++ wal) < fuel) (key measurement : Bytes)
    (tags : List Tag) where
  pub merge_series-window_sources :
      (start end : ℤ) (st : Stats)
      → (merge_series series_stream fuel key measurement tags
          (run_streams start end (as_opened files) wal)
          st).0
        ≡ to_points
            (series_point key measurement tags)
            (rows fuel (series_sources (window_sources start end (file_sources files ++ wal))))
  merge_series-window_sources start end st =
      ap (λ r. r.0)
        (merge_series-rows series_stream series_laws (run_streams start end (as_opened files) wal)
          (run_streams-valid start end files wal)
          (window_sources start end (file_sources files ++ wal))
          (run_streams-embed start end files wal answers) fuel
          (omega (arith, size-window_sources start end (file_sources files ++ wal))) key measurement
          tags st)

  -- The merge of a run of files that answer for their keys, and of the values of the log, ends without
  -- an error. The field `f` of its point at the time `u` is, for `u` in the window, the last write of
  -- `f` at `u`: the files in their order, each by its sorted keys, then the log, each list of values
  -- in its own order. Outside the window there is none.
  pub merge_series-run_streams :
      (start end : ℤ) (st : Stats) (f : Bytes) (u : ℤ)
      → ((merge_series series_stream fuel key measurement tags
            (run_streams start end (as_opened files) wal)
            st).2
          ≡ done)
        × (field_at f u
              (merge_series series_stream fuel key measurement tags
                (run_streams start end (as_opened files) wal)
                st).0
            ≡ (if in_range start end u
                then last_write f u (file_sources files ++ wal) none
                else none))
  merge_series-run_streams start end st f u =
      let srcs = file_sources files ++ wal in
      let (ends, value) =
        merge_series-last_write series_stream series_laws
          (run_streams start end (as_opened files) wal) (run_streams-valid start end files wal)
          (window_sources start end srcs) (run_streams-embed start end files wal answers)
          (window_sources-AreAscending start end srcs) fuel
          (omega (arith, size-window_sources start end srcs)) key measurement tags st f u in
      (ends, value ∙ last_write-window_sources start end f u srcs none)

module _ (start end : ℤ) (cur : Cursor) (valid : IsInt64 cur.unix_nano) {from : ℤ}
    (h : series_start_for cur.series_key start (some cur) ≡ (from, true)) where
  window_sources-sources_after :
      (raws : List Source)
      → window_sources from end raws ≡ sources_after cur.unix_nano (window_sources start end raws)
  window_sources-sources_after [] = refl
  window_sources-sources_after ((f, vs) ∷ raws) =
      ap₂ (λ ws ss. (f, ws) ∷ ss)
        (in_window-values_after start from end cur.unix_nano (ordered vs)
          (λ v. series_start_for-earlier start cur v valid h))
        (window_sources-sources_after raws)

  -- Where `series_start_for` gives the series of a cursor the start `from`, the merge of a run from
  -- there emits exactly the points of the whole merge that are after the cursor, each of them whole.
  pub merge_series-points_after :
      (files : List (TsmFile × List Bytes)) (wal : List Source)
      → FilesAnswer files
      → (fuel : ℕ) → size (file_sources files ++ wal) < fuel
      → (measurement : Bytes) (tags : List Tag) (st st' : Stats)
      → (merge_series series_stream fuel cur.series_key measurement tags
          (run_streams from end (as_opened files) wal)
          st').0
        ≡ points_after cur.unix_nano
            (merge_series series_stream fuel cur.series_key measurement tags
              (run_streams start end (as_opened files) wal)
              st).0
  merge_series-points_after files wal answers fuel enough measurement tags st st' =
      let point = series_point cur.series_key measurement tags in
      let srcs = file_sources files ++ wal in
      merge_series-window_sources files wal answers fuel enough cur.series_key measurement tags from
        end st'
      ∙ ap (λ ss. to_points point (rows fuel ss))
          (ap series_sources (window_sources-sources_after srcs)
            ∙ series_sources-sources_after cur.unix_nano (window_sources start end srcs))
      ∙ ap (to_points point) (
          rows-sources_after fuel cur.unix_nano (series_sources (window_sources start end srcs))
            (series_sources-AreAscending (window_sources start end srcs)
              (window_sources-AreAscending start end srcs))
            (omega (
              arith,
              size-series_sources (window_sources start end srcs),
              size-window_sources start end srcs,
            )))
      ∙ sym (
          points_after-to_points cur.series_key measurement tags cur.unix_nano
            (rows fuel (series_sources (window_sources start end srcs))))
      ∙ ap (points_after cur.unix_nano) (
          sym (
            merge_series-window_sources files wal answers fuel enough cur.series_key measurement
              tags start end st))
