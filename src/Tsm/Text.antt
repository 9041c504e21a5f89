-- ===== src/Tsm/Text.antt =====
-- internal/tsm/string.go. Snappy is a parameter: `none` where `snappy.Decode` fails.
pub mod RoundTrip
use tsm2arc.Prelude.{
  ℕ, zero, suc, ◌/◌, List, [], ◌∷◌, ◌++◌, not, Option, none, some, ltb, ◌==◌, length, take, drop,
  Bytes,
}
use tsm2arc.Tsm.{
  Result, ok, err, stuck, bad_string_enc, short_buffer, snappy_error, ◌>>=◌, ◌>>◌, fail_if,
}
use tsm2arc.Tsm.Timestamp.{read_uvarint}

abbrev pub string_compressed : ℕ
string_compressed = 1

-- The loop over the data not yet read; each round takes a byte at least.
unfoldable pub strings_loop : ℕ → Bytes → List Bytes → Result (List Bytes)
unfolding read_uvarint
strings_loop fuel [] out = ok out
strings_loop zero (b ∷ bs) out = stuck
strings_loop (suc fuel) (b ∷ bs) out = do
  (l, data') ← read_uvarint bad_string_enc (b ∷ bs)
  fail_if (ltb (length data') l) short_buffer
  strings_loop fuel (drop l data') (out ++ take l data' ∷ [])

unfoldable pub decompress : (Bytes → Option Bytes) → Bytes → Result Bytes
decompress snappy b = elim (snappy b) [ none ↦ err snappy_error | some data' ↦ ok data' ]

unfoldable pub decode_strings : (Bytes → Option Bytes) → Bytes → Result (List Bytes)
unfolding strings_loop decompress
decode_strings snappy [] = ok []
decode_strings snappy (h ∷ b) = do
  fail_if (not (h / 16 == string_compressed)) bad_string_enc
  data' ← decompress snappy b
  strings_loop (length data') data' []
