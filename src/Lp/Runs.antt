-- ===== src/Lp/Runs.antt =====
-- Runs of internal/lp/encode.go on one point.
use tsm2arc.Prelude.{ℕ, List, [], ◌∷◌, ◌++◌, true, Bytes, ◌≡◌, refl}
use tsm2arc.Prelude.Int64.{pos, negsuc}
use tsm2arc.Prelude.Strings.{codes}
use tsm2arc.Series.{Tag, split_unescaped, split_series}
use tsm2arc.Tsm.Block.{integer_value, boolean_value}
use tsm2arc.Lp.{
  Field, append_point, encode_point, format_int, write_fields, write_field_value, write_tags,
  escape_measurement, escape_tag,
}
use tsm2arc.Lp.Line.{append_point-encode_point, encode_point-split_series}

abbrev dummy_float : ℕ → Bytes
dummy_float v = codes "1.5"

abbrev place : List Tag
place = (codes "a b", codes "c=d") ∷ []

abbrev two_fields : List Field
two_fields =
    record { name = codes "n"; value = integer_value (pos 7) (negsuc 11) }
    ∷ record { name = codes "up,"; value = boolean_value (pos 7) true }
    ∷ []

encode_point_run :
    encode_point dummy_float [] (codes "my cpu") place two_fields (pos 7)
    ≡ codes "my\\ cpu,a\\ b=c\\=d n=-12i,up\\,=true 7\n"
unfolding encode_point write_fields write_field_value write_tags escape_measurement escape_tag
    format_int
encode_point_run = refl

append_point-encode_point_example :
    append_point dummy_float (codes "x\n") (codes "my cpu") place two_fields (pos 7)
    ≡ codes "x\n" ++ encode_point dummy_float [] (codes "my cpu") place two_fields (pos 7)
append_point-encode_point_example =
    append_point-encode_point dummy_float (codes "x\n") (codes "my cpu") place two_fields (pos 7)

encode_point-split_series_example :
    (key : Bytes) × (later : List Bytes) × (split_unescaped
        (encode_point dummy_float [] (codes "m,") place two_fields (pos 7))
        b' '
      ≡ key ∷ later)
    × (split_series key ≡ (codes "m,", place))
encode_point-split_series_example =
    encode_point-split_series dummy_float (codes "m,") place two_fields (pos 7) (refl, (refl, tt))
      (((refl, (refl, (refl, tt))), (refl, (refl, (refl, tt)))), tt)
