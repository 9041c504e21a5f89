-- ===== src/Extract/Coalesce/Series.antt =====
-- What `mergeSeries` of internal/extract/extract.go emits for streams that keep the laws of the
-- interface.
use tsm2arc.Prelude.{
  ℕ, zero, suc, ◌<◌, List, [], ◌∷◌, map, none, Bytes, ◌≡◌, refl, sym, ap, ◌∙◌, arith, All,
}
use tsm2arc.Prelude.Int64.{ℤ}
use tsm2arc.Series.{Tag}
use tsm2arc.Extract.Stream.{Stream, Feed, Laws}
use tsm2arc.Extract.Merge.{Stats, done, find_min, merge_loop}
use tsm2arc.Extract.Merge.Rows.{Source, embed, rows, size, counted, to_points}
use tsm2arc.Extract.Merge.Row.{last_write, AreAscending}
use tsm2arc.Extract.Merge.Points.{series_point, field_at, merge_loop-sources, merge_loop-last_write}
use tsm2arc.Extract.FieldMerge.Children.{IsSound}
use tsm2arc.Extract.Coalesce.{
  MergeStream, merge_name, merge_stream, group_onto, sort_by_name, coalesce_by_field, merge_series,
}
use tsm2arc.Extract.Coalesce.Sorted.{source_name, All-sort_by_name, sort_by_name-map}
use tsm2arc.Extract.Coalesce.LastWrite.{coalesced, series_sources}
use tsm2arc.Extract.Coalesce.Sources.{
  last_write-series_sources, series_sources-AreAscending, size-series_sources,
}
use tsm2arc.Extract.Coalesce.Lawful.{AnyValid, any_feed, any_name, merge_stream_laws}
use tsm2arc.Extract.Coalesce.Streams.{to_source, coalesce_by_field-coalesced}

abbrev feed_name : Feed → Bytes
feed_name f = f.field

abbrev bare : List Feed → List Source
bare [] = []
bare (f ∷ fs) = (f.field, f.values) ∷ bare fs

bare-embed : (srcs : List Source) → bare (map embed srcs) ≡ srcs
bare-embed [] = refl
bare-embed ((n, vs) ∷ srcs) = ap (λ ss. (n, vs) ∷ ss) (bare-embed srcs)

embed-failure : (srcs : List Source) → All (λ f. f.failure ≡ none) (map embed srcs)
embed-failure [] = tt
embed-failure ((n, vs) ∷ srcs) = (refl, embed-failure srcs)

module _ {S : Type 0} (ops : Stream S) (laws : Laws ops) where
  bare-feeds : (ss : List S) → bare (map laws.feed ss) ≡ map (to_source ops laws) ss
  bare-feeds [] = refl
  bare-feeds (s ∷ ss) = ap (λ rs. to_source ops laws s ∷ rs) (bare-feeds ss)

  to_sources :
      (ss : List S) (srcs : List Source)
      → map laws.feed ss ≡ map embed srcs
      → map (to_source ops laws) ss ≡ srcs
  to_sources ss srcs h = sym (bare-feeds ss) ∙ ap bare h ∙ bare-embed srcs

  All-IsSound :
      (ss : List S)
      → All laws.IsValid ss
      → All (λ f. f.failure ≡ none) (map laws.feed ss)
      → All (IsSound ops laws) ss
  All-IsSound [] v h = tt
  All-IsSound (s ∷ ss) (v, vs) (h, hs) = ((v, h), All-IsSound ss vs hs)

  merge_series-merge_loop :
      (fuel : ℕ) (key measurement : Bytes) (tags : List Tag) (ss : List S) (st : Stats)
      → merge_series ops (suc fuel) key measurement tags ss st
        ≡ merge_loop
            (merge_stream ops)
            (suc fuel)
            (series_point key measurement tags)
            (sort_by_name (merge_name ops) (coalesce_by_field ops ss))
            st
  unfolding merge_series merge_loop find_min sort_by_name coalesce_by_field group_onto
  merge_series-merge_loop fuel key measurement tags [] st = refl
  merge_series-merge_loop fuel key measurement tags (s ∷ ss) st = refl

  module _ (ss : List S) (valid : All laws.IsValid ss) (srcs : List Source)
      (h : map laws.feed ss ≡ map embed srcs) where
    abbrev streams : List (MergeStream S)
    streams = sort_by_name (merge_name ops) (coalesce_by_field ops ss)

    sound : All (IsSound ops laws) ss
    sound = All-IsSound ss valid (rw h (embed-failure srcs))

    streams-AnyValid : All (AnyValid ops laws) streams
    streams-AnyValid =
        All-sort_by_name (merge_name ops) (AnyValid ops laws) (coalesce_by_field ops ss)
          (coalesce_by_field-coalesced ops laws ss sound).0

    any_feed-streams : map (any_feed ops laws) streams ≡ map embed (series_sources srcs)
    any_feed-streams =
        sym (
          sort_by_name-map (merge_name ops) feed_name (any_feed ops laws)
            (λ s. sym (any_name ops laws s)) (coalesce_by_field ops ss))
        ∙ ap (sort_by_name feed_name) (
            (coalesce_by_field-coalesced ops laws ss sound).1
            ∙ ap (λ rs. map embed (coalesced rs)) (to_sources ss srcs h))
        ∙ sort_by_name-map source_name feed_name embed (λ s. refl) (coalesced srcs)

    -- The points of a series are the rows of its fields' merged sources.
    pub merge_series-rows :
        (fuel : ℕ)
        → size srcs < fuel
        → (key measurement : Bytes) (tags : List Tag) (st : Stats)
        → merge_series ops fuel key measurement tags ss st ≡ (
          to_points (series_point key measurement tags) (rows fuel (series_sources srcs)),
          counted st (rows fuel (series_sources srcs)),
          done,
        )
    merge_series-rows zero enough key measurement tags st = absurd (omega arith)
    merge_series-rows (suc fuel) enough key measurement tags st =
        merge_series-merge_loop fuel key measurement tags ss st
        ∙ merge_loop-sources (merge_stream ops) (merge_stream_laws ops laws) streams
            streams-AnyValid (series_sources srcs) any_feed-streams (suc fuel)
            (omega (arith, size-series_sources srcs)) (series_point key measurement tags) st

    -- The merge of a series whose streams are ascending and do not fail ends without an error, and the
    -- field `f` of its point at the time `u` is the last write of `f` at `u`, by the order in which the
    -- streams are given, although those of one field are merged first and the fields are sorted.
    pub merge_series-last_write :
        AreAscending srcs
        → (fuel : ℕ) → size srcs < fuel
        → (key measurement : Bytes) (tags : List Tag) (st : Stats) (f : Bytes) (u : ℤ)
        → ((merge_series ops fuel key measurement tags ss st).2 ≡ done)
          × (field_at f u (merge_series ops fuel key measurement tags ss st).0
              ≡ last_write f u srcs none)
    merge_series-last_write asc zero enough key measurement tags st f u = absurd (omega arith)
    merge_series-last_write asc (suc fuel) enough key measurement tags st f u =
        rw (merge_series-merge_loop fuel key measurement tags ss st) (
          let (ends, written) =
            merge_loop-last_write (merge_stream ops) (merge_stream_laws ops laws) streams
              streams-AnyValid (series_sources srcs) any_feed-streams
              (series_sources-AreAscending srcs asc) (suc fuel)
              (omega (arith, size-series_sources srcs)) key measurement tags st f u in
          (ends, written ∙ last_write-series_sources f u srcs none asc))
