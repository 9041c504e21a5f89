-- ===== src/Extract/FieldMerge/Runs.antt =====
-- Runs of `fieldMergeStream` of internal/extract/extract.go: two slices of one field.
use tsm2arc.Prelude.{ℕ, List, [], ◌∷◌, Bytes, ◌≡◌, refl, arith}
use tsm2arc.Prelude.Int64.{ℤ, pos}
use tsm2arc.Prelude.Times.{earlier}
use tsm2arc.Prelude.Strings.{codes}
use tsm2arc.Tsm.{Value, zero_value}
use tsm2arc.Extract.Slice.{SliceStream, slice_stream}
use tsm2arc.Extract.Slice.Lawful.{slice_laws, in_window}
use tsm2arc.Extract.FieldMerge.{new_field_merge, field_merge_stream}
use tsm2arc.Extract.FieldMerge.Merged.{merge_all, merge_two, with_head}
use tsm2arc.Extract.FieldMerge.Children.{values_of, AllSound}
use tsm2arc.Extract.FieldMerge.Drained.{drain, drain-merge_all}

abbrev reading : ℤ → ℕ → Value
reading t n = record zero_value { unix_nano = t; unsigned = n }

abbrev slice_of : Bytes → List Value → SliceStream
slice_of f vs = record { field = f; vals = vs; i = 0; start = pos 0; end = pos 9 }

abbrev older : List Value
older = reading (pos 3) 1 ∷ reading (pos 5) 2 ∷ []

abbrev newer : List Value
newer = reading (pos 3) 3 ∷ reading (pos 4) 4 ∷ []

abbrev both : List SliceStream
both = slice_of (codes "b") older ∷ slice_of (codes "b") newer ∷ []

both-AllSound : AllSound slice_stream slice_laws both
unfolding AllSound earlier
both-AllSound = ((((refl, tt), (tt, tt)), refl), ((((refl, tt), (tt, tt)), refl), tt))

drain-merge_all_example :
    drain (field_merge_stream slice_stream) 5 (new_field_merge (codes "b") both)
    ≡ merge_all (values_of slice_stream slice_laws both)
unfolding in_window earlier
drain-merge_all_example =
    drain-merge_all slice_stream slice_laws (codes "b") both both-AllSound 5 (omega arith)

merge_all_run :
    merge_all (older ∷ newer ∷ [])
    ≡ reading (pos 3) 1 ∷ reading (pos 3) 3 ∷ reading (pos 4) 4 ∷ reading (pos 5) 2 ∷ []
unfolding merge_all merge_two with_head earlier
merge_all_run = refl
