-- ===== src/Series.antt =====
-- internal/series/series.go: a TSM key into measurement, tags and field. Strings are bytes.
pub mod Runs
use tsm2arc.Prelude.{
  ℕ, List, [], ◌∷◌, ◌++◌, Bool, true, false, Option, none, some, ◌==◌, if◌then◌else◌, Bytes,
}
use tsm2arc.Prelude.Strings.{codes, contains_byte, replace_pair, split_index}

abbrev pub field_separator : Bytes
field_separator = codes "#!~#"

abbrev pub backslash : ℕ
backslash = b'\\'

abbrev pub Tag : Type 0
Tag = Bytes × Bytes

pub record Key : Type 0 where
  pub measurement : Bytes
  pub tags : List Tag
  pub field : Bytes
  pub series_key : Bytes

-- The loop of `splitUnescaped` over the bytes not yet read.
unfoldable pub split_loop : Bytes → ℕ → Bytes → Bool → List Bytes → List Bytes
split_loop [] sep cur true out = out ++ (cur ++ backslash ∷ []) ∷ []
split_loop [] sep cur false out = out ++ cur ∷ []
split_loop (c ∷ s) sep cur true out = split_loop s sep (cur ++ backslash ∷ c ∷ []) false out
split_loop (c ∷ s) sep cur false out =
    let hold = split_loop s sep cur true out in
    let close = split_loop s sep [] false (out ++ cur ∷ []) in
    let keep = split_loop s sep (cur ++ c ∷ []) false out in
    if c == backslash then hold else if c == sep then close else keep

unfoldable pub split_unescaped : Bytes → ℕ → List Bytes
unfolding split_loop
split_unescaped s sep = split_loop s sep [] false []

unfoldable pub unescape_tag : Bytes → Bytes
unfolding contains_byte replace_pair
unescape_tag s =
    if contains_byte backslash s
    then replace_pair backslash b'=' b'='
        (replace_pair backslash b' ' b' ' (replace_pair backslash b',' b',' s))
    else s

unfoldable pub unescape_measurement : Bytes → Bytes
unfolding contains_byte replace_pair
unescape_measurement s =
    if contains_byte backslash s
    then replace_pair backslash b' ' b' ' (replace_pair backslash b',' b',' s)
    else s

-- One tag token; `p` is the whole token.
unfoldable pub tag_of : Bytes → List Bytes → Tag
unfolding unescape_tag
tag_of p (k ∷ v ∷ []) = (unescape_tag k, unescape_tag v)
tag_of p kv = (unescape_tag p, [])

unfoldable pub tags_of : List Bytes → List Tag
unfolding split_unescaped tag_of
tags_of [] = []
tags_of (p ∷ ps) = tag_of p (split_unescaped p b'=') ∷ tags_of ps

unfoldable pub from_parts : Bytes → List Bytes → Bytes × List Tag
unfolding unescape_measurement tags_of
from_parts s [] = (s, [])
from_parts s (p ∷ ps) = (unescape_measurement p, tags_of ps)

unfoldable pub split_series : Bytes → Bytes × List Tag
unfolding split_unescaped from_parts
split_series s = from_parts s (split_unescaped s b',')

unfoldable pub parse_series_key : Bytes → Bytes × List Tag
unfolding split_series
parse_series_key series_key = split_series series_key

-- `none` is `errNoField`.
unfoldable pub parse_key : Bytes → Option Key
unfolding split_index split_series
parse_key raw = elim (split_index field_separator raw) [
  | none ↦ none
  | some (series_part, field) ↦
      let (measurement, tags) = split_series series_part in
      some
        (record { measurement = measurement; tags = tags; field = field; series_key = series_part })
]
