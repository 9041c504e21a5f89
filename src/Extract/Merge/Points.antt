-- ===== src/Extract/Merge/Points.antt =====
-- The points of a merge of internal/extract/extract.go: strictly rising times, the last write of each
-- field at each time, and nothing else.
use tsm2arc.Prelude.{
  ℕ, ◌<◌, List, [], ◌∷◌, map, true, Option, none, if◌then◌else◌, Bytes, ◌≡◌, refl, ap, ◌∙◌, inl,
  inr, All, Bool-cases,
}
use tsm2arc.Prelude.Int64.{ℤ}
use tsm2arc.Prelude.Times.{earlier, same}
use tsm2arc.Series.{Tag}
use tsm2arc.Tsm.{Value}
use tsm2arc.Lp.{Field}
use tsm2arc.Extract.Stream.{Stream, feed_stream, Laws}
use tsm2arc.Extract.Merge.{Point, Stats, done, merge_loop}
use tsm2arc.Extract.Merge.Refine.{merge_loop-feeds}
use tsm2arc.Extract.Merge.Rows.{Source, Row, embed, rows, size, counted, to_points, merge_loop-rows}
use tsm2arc.Extract.Merge.LastWrite.{value_at-rows}
use tsm2arc.Extract.Merge.Row.{field_value, value_at, last_write, AreAscending}
use tsm2arc.Extract.Merge.Order.{RowsAfter, AreRising, rows-AreRising}
use tsm2arc.Extract.Merge.Resume.{rows_after}

-- The point that `mergeSeries` hands on for a time and its fields.
abbrev pub series_point : Bytes → Bytes → List Tag → ℤ → List Field → Point
series_point key measurement tags t fields = record {
  series_key = key;
  measurement = measurement;
  tags = tags;
  unix_nano = t;
  fields = fields;
}

-- The value of the field `f` in the first point at the time `u`.
unfoldable pub field_at : Bytes → ℤ → List Point → Option Value
field_at f u [] = none
field_at f u (p ∷ ps) =
    let rest = field_at f u ps in if same p.unix_nano u then field_value f p.fields else rest

abbrev pub PointsAfter : ℤ → List Point → Type 0
PointsAfter t ps = All (λ p. earlier t p.unix_nano ≡ true) ps

-- Each point's time is after the one before it.
abbrev pub TimesRise : List Point → Type 0
TimesRise [] = Unit
TimesRise (p ∷ ps) = PointsAfter p.unix_nano ps × TimesRise ps

unfoldable pub points_after : ℤ → List Point → List Point
points_after c [] = []
points_after c (p ∷ ps) =
    let rest = points_after c ps in if earlier c p.unix_nano then p ∷ rest else rest

module _ (key measurement : Bytes) (tags : List Tag) where
  field_at-to_points :
      (f : Bytes) (u : ℤ) (rs : List Row)
      → field_at f u (to_points (series_point key measurement tags) rs) ≡ value_at f u rs
  unfolding field_at value_at
  field_at-to_points f u [] = refl
  field_at-to_points f u ((t, fields) ∷ rs) = rw (field_at-to_points f u rs) refl

  to_points-PointsAfter :
      (t : ℤ) (rs : List Row)
      → RowsAfter t rs
      → PointsAfter t (to_points (series_point key measurement tags) rs)
  to_points-PointsAfter t [] h = tt
  to_points-PointsAfter t ((u, fields) ∷ rs) (h, hs) = (h, to_points-PointsAfter t rs hs)

  to_points-TimesRise :
      (rs : List Row) → AreRising rs → TimesRise (to_points (series_point key measurement tags) rs)
  to_points-TimesRise [] h = tt
  to_points-TimesRise ((t, fields) ∷ rs) (h, hs) =
      (to_points-PointsAfter t rs h, to_points-TimesRise rs hs)

  pub points_after-to_points :
      (c : ℤ) (rs : List Row)
      → points_after c (to_points (series_point key measurement tags) rs)
        ≡ to_points (series_point key measurement tags) (rows_after c rs)
  unfolding points_after rows_after
  points_after-to_points c [] = refl
  points_after-to_points c ((t, fields) ∷ rs) =
      let ih = points_after-to_points c rs in
      elim (Bool-cases (earlier c t)) [
        | inl e ↦ rw (e, rows_after) (ap (λ ps. series_point key measurement tags t fields ∷ ps) ih)
        | inr e ↦ rw (e, rows_after) ih
      ]

module _ {S : Type 0} (ops : Stream S) (laws : Laws ops) (ss : List S)
    (valid : All laws.IsValid ss) where
  -- The merge over streams that stand for whole sources is the list of their rows.
  pub merge_loop-sources :
      (srcs : List Source)
      → map laws.feed ss ≡ map embed srcs
      → (fuel : ℕ) → size srcs < fuel
      → (point : ℤ → List Field → Point) (st : Stats)
      → merge_loop ops fuel point ss st
        ≡ (to_points point (rows fuel srcs), counted st (rows fuel srcs), done)
  merge_loop-sources srcs h fuel enough point st =
      merge_loop-feeds ops laws fuel point ss st valid
      ∙ ap (λ fs. merge_loop feed_stream fuel point fs st) h
      ∙ merge_loop-rows fuel point srcs st enough

  module _ (srcs : List Source) (h : map laws.feed ss ≡ map embed srcs) (asc : AreAscending srcs)
      (fuel : ℕ) (enough : size srcs < fuel) (key measurement : Bytes) (tags : List Tag)
      (st : Stats) where
    -- The merge over ascending streams that do not fail ends without an error, and the field `f` of
    -- the point at the time `u` is the last write of `f` at `u`, by the order of the streams and then
    -- within a stream; there is no such field when there is no such write.
    pub merge_loop-last_write :
        (f : Bytes) (u : ℤ)
        → ((merge_loop ops fuel (series_point key measurement tags) ss st).2 ≡ done)
          × (field_at f u (merge_loop ops fuel (series_point key measurement tags) ss st).0
              ≡ last_write f u srcs none)
    merge_loop-last_write f u =
        rw (merge_loop-sources srcs h fuel enough (series_point key measurement tags) st) (
          refl,
          field_at-to_points key measurement tags f u (rows fuel srcs)
              ∙ value_at-rows fuel f u srcs asc enough,
        )

    -- The points of the merge over ascending streams that do not fail have strictly rising times.
    pub merge_loop-TimesRise :
        TimesRise (merge_loop ops fuel (series_point key measurement tags) ss st).0
    merge_loop-TimesRise =
        rw (merge_loop-sources srcs h fuel enough (series_point key measurement tags) st)
          (to_points-TimesRise key measurement tags (rows fuel srcs) (rows-AreRising fuel srcs asc))
