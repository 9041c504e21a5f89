-- ===== src/Extract/Shard.antt =====
-- The serial loop of ShardResumeSplit in internal/extract/extract.go over the series of a shard, each
-- from the start that a cursor leaves of it. `points sk s` are the points of the series `sk` from the
-- time `s` on.
pub mod Resumed
pub mod Merged
mod Runs
use tsm2arc.Prelude.{List, [], ◌∷◌, ◌++◌, Bool, Option, none, some, if◌then◌else◌, Bytes}
use tsm2arc.Prelude.Int64.{ℤ}
use tsm2arc.Extract.Merge.{Point}
use tsm2arc.Extract.Cursor.{Cursor, apply_cursor, series_start_for}

module _ (points : Bytes → ℤ → List Point) where
  -- One round: nothing is emitted of a series that is delivered already.
  abbrev pub series_round : ℤ → Option Cursor → Bytes → List Point
  series_round start cur sk =
      let (from, more) = series_start_for sk start cur in if more then points sk from else []

  unfoldable pub emit_series : ℤ → Option Cursor → List Bytes → List Point
  emit_series start cur [] = []
  emit_series start cur (sk ∷ sks) = series_round start cur sk ++ emit_series start cur sks

  -- `none` is the error of a cursor whose series is not in the shard.
  unfoldable pub shard_points : ℤ → Option Cursor → List Bytes → Option (List Point)
  unfolding emit_series
  shard_points start cur order = elim (apply_cursor order cur) [
    | none ↦ none
    | some left ↦ some (emit_series start cur left)
  ]
