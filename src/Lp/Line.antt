-- ===== src/Lp/Line.antt =====
-- The lines of internal/lp/encode.go, read back by the splitting of internal/series/series.go.
use tsm2arc.Prelude.{
  ℕ, ◌+◌, List, [], ◌∷◌, ◌++◌, ◌==◌, if◌then◌else◌, ltb, Bytes, ◌≡◌, sym, ap, ◌∙◌, arith, All,
  append-nil, append_assoc,
}
use tsm2arc.Prelude.Int64.{ℤ}
use tsm2arc.Prelude.Strings.{codes}
use tsm2arc.Tsm.{Value, block_float, block_integer, block_boolean, block_string, block_unsigned}
use tsm2arc.Series.{Tag, split_unescaped, split_series}
use tsm2arc.Lp.{
  Field, escape_tag, append_tags, write_tags, append_field_value, write_field_value, append_fields,
  write_fields, encode_point, append_point, format_int, format_uint, escape_string_field,
}
use tsm2arc.Lp.Escape.{IsPlain}
use tsm2arc.Lp.Split.{tags_text, series_text, IsPlainTag, split_line, split_series_text}

-- Tags of the point, written behind what stands there, by each encoder.
append_tags-tags_text :
    (dst : Bytes) (tags : List Tag) → append_tags dst tags ≡ dst ++ tags_text tags
unfolding append_tags
append_tags-tags_text dst [] = rw append-nil
append_tags-tags_text dst ((k, v) ∷ ts) =
    append_tags-tags_text ((((dst ++ b',' ∷ []) ++ escape_tag k) ++ b'=' ∷ []) ++ escape_tag v) ts
    ∙ simp append_assoc

write_tags-tags_text : (b : Bytes) (tags : List Tag) → write_tags b tags ≡ b ++ tags_text tags
unfolding write_tags
write_tags-tags_text b [] = rw append-nil
write_tags-tags_text b ((k, v) ∷ ts) =
    write_tags-tags_text ((((b ++ b',' ∷ []) ++ escape_tag k) ++ b'=' ∷ []) ++ escape_tag v) ts
    ∙ simp append_assoc

module _ (format_float : ℕ → Bytes) where
  -- A value, the fields from the `i`-th on, and a whole point, as texts of their own.
  unfoldable pub value_text : Value → Bytes
  value_text v =
      if v.type == block_float
      then format_float v.float
      else if v.type == block_integer
      then format_int v.integer ++ b'i' ∷ []
      else if v.type == block_unsigned
      then format_uint v.unsigned ++ b'u' ∷ []
      else if v.type == block_boolean
      then (if v.boolean then codes "true" else codes "false")
      else if v.type == block_string
      then b'"' ∷ [] ++ (escape_string_field v.string ++ b'"' ∷ [])
      else []

  unfoldable pub fields_text : ℕ → List Field → Bytes
  fields_text i [] = []
  fields_text i (f ∷ fs) =
      (if ltb 0 i then b',' ∷ [] else [])
      ++ (escape_tag f.name ++ (b'=' ∷ [] ++ (value_text f.value ++ fields_text (i + 1) fs)))

  abbrev pub point_rest : List Field → ℤ → Bytes
  point_rest fs t = fields_text 0 fs ++ (b' ' ∷ [] ++ (format_int t ++ b'\n' ∷ []))

  append_field_value-value_text :
      (dst : Bytes) (v : Value) → append_field_value format_float dst v ≡ dst ++ value_text v
  unfolding append_field_value value_text
  append_field_value-value_text dst v = ground (
    arith,
    append-nil dst,
    append_assoc dst (format_int v.integer) (b'i' ∷ []),
    append_assoc dst (format_uint v.unsigned) (b'u' ∷ []),
    append_assoc (dst ++ b'"' ∷ []) (escape_string_field v.string) (b'"' ∷ []),
    append_assoc dst (b'"' ∷ []) (escape_string_field v.string ++ b'"' ∷ []),
  )

  write_field_value-value_text :
      (b : Bytes) (v : Value) → write_field_value format_float b v ≡ b ++ value_text v
  unfolding write_field_value value_text
  write_field_value-value_text b v = ground (
    arith,
    append-nil b,
    append_assoc b (format_int v.integer) (b'i' ∷ []),
    append_assoc b (format_uint v.unsigned) (b'u' ∷ []),
    append_assoc (b ++ b'"' ∷ []) (escape_string_field v.string) (b'"' ∷ []),
    append_assoc b (b'"' ∷ []) (escape_string_field v.string ++ b'"' ∷ []),
  )

  with_comma :
      (i : ℕ) (dst : Bytes)
      → (if ltb 0 i then dst ++ b',' ∷ [] else dst) ≡ dst ++ (if ltb 0 i then b',' ∷ [] else [])
  with_comma i dst = ground (arith, append-nil dst)

  append_fields-fields_text :
      (fs : List Field) (i : ℕ) (dst : Bytes)
      → append_fields format_float i dst fs ≡ dst ++ fields_text i fs
  unfolding append_fields fields_text
  append_fields-fields_text [] i dst = rw append-nil
  append_fields-fields_text (f ∷ fs) i dst =
      rw (with_comma i dst, append_field_value-value_text)
        (append_fields-fields_text fs (i + 1) _ ∙ simp append_assoc)

  write_fields-fields_text :
      (fs : List Field) (i : ℕ) (b : Bytes)
      → write_fields format_float i b fs ≡ b ++ fields_text i fs
  unfolding write_fields fields_text
  write_fields-fields_text [] i b = rw append-nil
  write_fields-fields_text (f ∷ fs) i b =
      rw (with_comma i b, write_field_value-value_text)
        (write_fields-fields_text fs (i + 1) _ ∙ simp append_assoc)

  encode_point-series_text :
      (b m : Bytes) (tags : List Tag) (fs : List Field) (t : ℤ)
      → encode_point format_float b m tags fs t
        ≡ b ++ (series_text m tags ++ (b' ' ∷ [] ++ point_rest fs t))
  unfolding encode_point
  encode_point-series_text b m tags fs t =
      rw (write_tags-tags_text, write_fields-fields_text) (simp append_assoc)

  append_point-series_text :
      (dst m : Bytes) (tags : List Tag) (fs : List Field) (t : ℤ)
      → append_point format_float dst m tags fs t
        ≡ dst ++ (series_text m tags ++ (b' ' ∷ [] ++ point_rest fs t))
  unfolding append_point
  append_point-series_text dst m tags fs t =
      rw (append_tags-tags_text, append_fields-fields_text) (simp append_assoc)

-- `AppendPoint` appends to what stands in the buffer the bytes that `EncodePoint` writes.
pub append_point-encode_point :
    (format_float : ℕ → Bytes) (dst m : Bytes) (tags : List Tag) (fs : List Field) (t : ℤ)
    → append_point format_float dst m tags fs t ≡ dst ++ encode_point format_float [] m tags fs t
append_point-encode_point ff dst m tags fs t =
    append_point-series_text ff dst m tags fs t
    ∙ ap (λ u. dst ++ u) (sym (encode_point-series_text ff [] m tags fs t))

-- The line of a point, split at its unescaped spaces, starts with a key that is split into the
-- point's own measurement and tags, when no backslash stands in those. The names may hold commas,
-- spaces and equals signs.
pub encode_point-split_series :
    (format_float : ℕ → Bytes) (m : Bytes) (tags : List Tag) (fs : List Field) (t : ℤ)
    → IsPlain m
    → All IsPlainTag tags
    → (key : Bytes) × (later : List Bytes) × (split_unescaped
          (encode_point format_float [] m tags fs t)
          b' '
        ≡ key ∷ later)
      × (split_series key ≡ (m, tags))
encode_point-split_series ff m tags fs t hm h = (
  series_text m tags,
  split_unescaped (point_rest ff fs t) b' ',
  ap (λ u. split_unescaped u b' ') (encode_point-series_text ff [] m tags fs t)
      ∙ split_line m tags (point_rest ff fs t) hm h,
  split_series_text m tags hm h,
)
