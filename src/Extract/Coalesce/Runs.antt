-- ===== src/Extract/Coalesce/Runs.antt =====
-- Runs of the merge of a series of internal/extract/extract.go: three slices, two of them of one field.
use tsm2arc.Prelude.{ℕ, List, [], ◌∷◌, Bytes, none, ◌≡◌, refl, arith, All, map}
use tsm2arc.Prelude.Int64.{ℤ, pos}
use tsm2arc.Prelude.Times.{earlier}
use tsm2arc.Prelude.Strings.{codes}
use tsm2arc.Tsm.{Value, zero_value}
use tsm2arc.Extract.Slice.{SliceStream, slice_stream}
use tsm2arc.Extract.Slice.Lawful.{slice_laws, in_window}
use tsm2arc.Extract.Merge.{zero_stats, done}
use tsm2arc.Extract.Merge.Rows.{Source, embed}
use tsm2arc.Extract.Merge.Row.{last_write, AreAscending}
use tsm2arc.Extract.Merge.Points.{field_at}
use tsm2arc.Extract.Coalesce.{merge_series}
use tsm2arc.Extract.Coalesce.Series.{merge_series-last_write}

abbrev reading : ℤ → ℕ → Value
reading t n = record zero_value { unix_nano = t; unsigned = n }

abbrev slice_of : Bytes → List Value → SliceStream
slice_of f vs = record { field = f; vals = vs; i = 0; start = pos 0; end = pos 9 }

abbrev older : List Value
older = reading (pos 3) 1 ∷ reading (pos 5) 2 ∷ []

abbrev newer : List Value
newer = reading (pos 3) 3 ∷ reading (pos 4) 4 ∷ []

abbrev three : List SliceStream
three = slice_of (codes "b") older ∷ slice_of (codes "a") older ∷ slice_of (codes "b") newer ∷ []

abbrev three_sources : List Source
three_sources = (codes "b", older) ∷ (codes "a", older) ∷ (codes "b", newer) ∷ []

three-IsValid : All slice_laws.IsValid three
unfolding earlier
three-IsValid = (((refl, tt), (tt, tt)), (((refl, tt), (tt, tt)), (((refl, tt), (tt, tt)), tt)))

three-embed : map slice_laws.feed three ≡ map embed three_sources
unfolding in_window earlier
three-embed = refl

three-AreAscending : AreAscending three_sources
unfolding earlier
three-AreAscending =
    (((refl, tt), (tt, tt)), (((refl, tt), (tt, tt)), (((refl, tt), (tt, tt)), tt)))

merge_series-last_write_example :
    ((merge_series slice_stream 9 (codes "cpu,host=a") (codes "cpu") [] three zero_stats).2 ≡ done)
    × (field_at
          (codes "b")
          (pos 3)
          (merge_series slice_stream 9 (codes "cpu,host=a") (codes "cpu") [] three zero_stats).0
        ≡ last_write (codes "b") (pos 3) three_sources none)
merge_series-last_write_example =
    merge_series-last_write slice_stream slice_laws three three-IsValid three_sources three-embed
      three-AreAscending 9 (omega arith) (codes "cpu,host=a") (codes "cpu") [] zero_stats
      (codes "b") (pos 3)
