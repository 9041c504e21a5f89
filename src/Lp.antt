-- ===== src/Lp.antt =====
-- internal/lp/encode.go: a point as a line of line protocol. A builder and a slice are the bytes
-- written so far. `strconv`'s text of a float64 is a parameter.
pub mod Escape
pub mod Split
pub mod Line
mod Runs
use tsm2arc.Prelude.{
  ℕ, zero, suc, ◌+◌, ◌/◌, ◌%◌, List, [], ◌∷◌, ◌++◌, Bool, true, false, ◌||◌, ltb, ◌==◌,
  if◌then◌else◌, Bytes,
}
use tsm2arc.Prelude.Int64.{ℤ, pos, negsuc}
use tsm2arc.Prelude.Strings.{codes, contains_byte}
use tsm2arc.Tsm.{Value, block_float, block_integer, block_boolean, block_string, block_unsigned}

pub record Field : Type 0 where
  pub name : Bytes
  pub value : Value

-- Pairs of an old byte and its new text.
abbrev pub Pairs : Type 0
Pairs = List (ℕ × Bytes)

unfoldable pub needs_replacing : Pairs → Bytes → Bool
unfolding contains_byte
needs_replacing [] s = false
needs_replacing ((old, new) ∷ pairs) s = contains_byte old s || needs_replacing pairs s

unfoldable pub replace_byte : Pairs → ℕ → Bytes
replace_byte [] c = c ∷ []
replace_byte ((old, new) ∷ pairs) c = if c == old then new else replace_byte pairs c

-- `strings.NewReplacer(pairs...).Replace(s)` where each old text is one byte.
unfoldable pub replace_all : Pairs → Bytes → Bytes
unfolding replace_byte
replace_all pairs [] = []
replace_all pairs (c ∷ s) = replace_byte pairs c ++ replace_all pairs s

unfoldable pub replacer : Bytes → Pairs → Bytes
unfolding needs_replacing replace_all
replacer s pairs = if needs_replacing pairs s then replace_all pairs s else s

unfoldable pub escape_measurement : Bytes → Bytes
unfolding replacer
escape_measurement s = replacer s ((b',', codes "\\,") ∷ (b' ', codes "\\ ") ∷ [])

unfoldable pub escape_tag : Bytes → Bytes
unfolding replacer
escape_tag s = replacer s ((b',', codes "\\,") ∷ (b' ', codes "\\ ") ∷ (b'=', codes "\\=") ∷ [])

unfoldable pub escape_string_field : Bytes → Bytes
unfolding replacer
escape_string_field s = replacer s ((b'\\', codes "\\\\") ∷ (b'"', codes "\\\"") ∷ [])

-- The decimal digits of `n`, at most `fuel` of them.
unfoldable pub digits : ℕ → ℕ → Bytes
digits zero n = []
digits (suc fuel) n =
    if ltb n 10 then (b'0' + n) ∷ [] else digits fuel (n / 10) ++ (b'0' + n % 10) ∷ []

-- `strconv.FormatUint(n, 10)`: a uint64 has 20 digits at most.
unfoldable pub format_uint : ℕ → Bytes
unfolding digits
format_uint n = digits 20 n

-- `strconv.FormatInt(z, 10)`
unfoldable pub format_int : ℤ → Bytes
unfolding format_uint
format_int (pos n) = format_uint n
format_int (negsuc n) = b'-' ∷ format_uint (suc n)

-- The loop of `AppendPoint` over the tags.
unfoldable pub append_tags : Bytes → List (Bytes × Bytes) → Bytes
append_tags dst [] = dst
append_tags dst ((k, v) ∷ tags) =
    append_tags ((((dst ++ b',' ∷ []) ++ escape_tag k) ++ b'=' ∷ []) ++ escape_tag v) tags

-- The loop of `EncodePoint` over the tags.
unfoldable pub write_tags : Bytes → List (Bytes × Bytes) → Bytes
write_tags b [] = b
write_tags b ((k, v) ∷ tags) =
    write_tags ((((b ++ b',' ∷ []) ++ escape_tag k) ++ b'=' ∷ []) ++ escape_tag v) tags

module _ (format_float : ℕ → Bytes) where
  unfoldable pub append_field_value : Bytes → Value → Bytes
  append_field_value dst v =
      if v.type == block_float
      then dst ++ format_float v.float
      else if v.type == block_integer
      then (dst ++ format_int v.integer) ++ b'i' ∷ []
      else if v.type == block_unsigned
      then (dst ++ format_uint v.unsigned) ++ b'u' ∷ []
      else if v.type == block_boolean
      then (if v.boolean then dst ++ codes "true" else dst ++ codes "false")
      else if v.type == block_string
      then ((dst ++ b'"' ∷ []) ++ escape_string_field v.string) ++ b'"' ∷ []
      else dst

  unfoldable pub write_field_value : Bytes → Value → Bytes
  write_field_value b v =
      if v.type == block_float
      then b ++ format_float v.float
      else if v.type == block_integer
      then (b ++ format_int v.integer) ++ b'i' ∷ []
      else if v.type == block_unsigned
      then (b ++ format_uint v.unsigned) ++ b'u' ∷ []
      else if v.type == block_boolean
      then (if v.boolean then b ++ codes "true" else b ++ codes "false")
      else if v.type == block_string
      then ((b ++ b'"' ∷ []) ++ escape_string_field v.string) ++ b'"' ∷ []
      else b

  -- The loops over the fields from the `i`-th on.
  unfoldable pub append_fields : ℕ → Bytes → List Field → Bytes
  append_fields i dst [] = dst
  append_fields i dst (f ∷ fields) =
      let dst' = if ltb 0 i then dst ++ b',' ∷ [] else dst in
      append_fields (i + 1) (append_field_value ((dst' ++ escape_tag f.name) ++ b'=' ∷ []) f.value)
        fields

  unfoldable pub write_fields : ℕ → Bytes → List Field → Bytes
  write_fields i b [] = b
  write_fields i b (f ∷ fields) =
      let b' = if ltb 0 i then b ++ b',' ∷ [] else b in
      write_fields (i + 1) (write_field_value ((b' ++ escape_tag f.name) ++ b'=' ∷ []) f.value)
        fields

  unfoldable pub encode_point : Bytes → Bytes → List (Bytes × Bytes) → List Field → ℤ → Bytes
  encode_point b measurement tags fields unix_nano =
      let b1 = write_tags (b ++ escape_measurement measurement) tags in
      let b2 = write_fields 0 (b1 ++ b' ' ∷ []) fields in
      ((b2 ++ b' ' ∷ []) ++ format_int unix_nano) ++ b'\n' ∷ []

  unfoldable pub append_point : Bytes → Bytes → List (Bytes × Bytes) → List Field → ℤ → Bytes
  append_point dst measurement tags fields unix_nano =
      let dst1 = append_tags (dst ++ escape_measurement measurement) tags in
      let dst2 = append_fields 0 (dst1 ++ b' ' ∷ []) fields in
      ((dst2 ++ b' ' ∷ []) ++ format_int unix_nano) ++ b'\n' ∷ []
