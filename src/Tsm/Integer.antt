-- ===== src/Tsm/Integer.antt =====
-- internal/tsm/integer.go. `make` is taken to succeed for every length.
pub mod RoundTrip
use tsm2arc.Prelude.{
  ℕ, zero, suc, ◌+◌, ◌/◌, ◌%◌, ◌^◌, List, [], ◌∷◌, map, Bool, not, ltb, ◌==◌, if◌then◌else◌, length,
  take, drop, Bytes,
}
use tsm2arc.Prelude.Int64.{ℤ, pos, add64}
use tsm2arc.Tsm.{Result, ok, err, crash, bad_int_enc, ◌>>=◌, ◌>>◌, fail_if}
use tsm2arc.Tsm.Binary.{big_endian}
use tsm2arc.Tsm.Timestamp.{
  zig_zag_decode, words, read_uvarint, packed_values, running_sums, repeat_step,
}

abbrev pub int_uncompressed : ℕ
int_uncompressed = 0

abbrev pub int_simple8b : ℕ
int_simple8b = 1

abbrev pub int_rle : ℕ
int_rle = 2

decode_uncompressed : Bytes → Result (List ℤ)
unfolding words zig_zag_decode running_sums
decode_uncompressed b = do
  fail_if (not (length b % 8 == 0)) bad_int_enc
  ok (running_sums (pos 0) (map zig_zag_decode (words (length b / 8) b)))

-- `out := make([]int64, count+1); out[0] = v` and the loop; `count+1` is a uint64, and where it
-- wraps to 0 the first write is out of range.
rle_values : ℕ → ℤ → ℤ → Result (List ℤ)
unfolding repeat_step add64
rle_values count v delta =
    if (count + 1) % 2 ^ 64 == 0 then crash else ok (v ∷ repeat_step count (add64 v delta) delta)

decode_rle : Bytes → Result (List ℤ)
unfolding read_uvarint rle_values zig_zag_decode
decode_rle b = do
  fail_if (ltb (length b) 8) bad_int_enc
  let first = zig_zag_decode (big_endian (take 8 b))
  (dz, rest) ← read_uvarint bad_int_enc (drop 8 b)
  (count, rest') ← read_uvarint bad_int_enc rest
  rle_values count first (zig_zag_decode dz)

decode_packed : Bytes → Result (List ℤ)
unfolding packed_values running_sums zig_zag_decode
decode_packed b = do
  fail_if (ltb (length b) 8) bad_int_enc
  raw ← packed_values bad_int_enc (drop 8 b)
  let acc = zig_zag_decode (big_endian (take 8 b))
  ok (acc ∷ running_sums acc (map zig_zag_decode raw))

decode_ints : ℕ → Bytes → Result (List ℤ)
unfolding decode_uncompressed decode_rle decode_packed
decode_ints enc b =
    if enc == int_uncompressed
    then decode_uncompressed b
    else if enc == int_rle
    then decode_rle b
    else if enc == int_simple8b
    then decode_packed b
    else err bad_int_enc

unfoldable pub decode_integers : Bytes → Result (List ℤ)
unfolding decode_ints
decode_integers [] = ok []
decode_integers (h ∷ b) = decode_ints (h / 16) b
