-- ===== src/Tsm/Timestamp.antt =====
-- internal/tsm/timestamp.go, and `decodeUint64` words shared with integer.go. `make` is taken to
-- succeed for every length.
pub mod RoundTrip
use Prim.Native.Nat.{bit_xor}
use tsm2arc.Prelude.{
  ℕ, zero, suc, ◌+◌, ◌-◌, ◌*◌, ◌/◌, ◌%◌, ◌^◌, List, [], ◌∷◌, ◌++◌, map, Bool, not, Option, none,
  some, ltb, ◌==◌, if◌then◌else◌, length, take, drop, Bytes,
}
use tsm2arc.Prelude.Int64.{ℤ, pos, int64, add64, mul64}
use tsm2arc.Tsm.{Error, Result, ok, err, bad_time_enc, ◌>>=◌, ◌>>◌, fail_if}
use tsm2arc.Tsm.Binary.{big_endian, uvarint}
use tsm2arc.Tsm.Simple8b.{simple8b_decode_all, total_count}

abbrev pub time_uncompressed : ℕ
time_uncompressed = 0

abbrev pub time_packed_simple : ℕ
time_packed_simple = 1

abbrev pub time_rle : ℕ
time_rle = 2

pow10_loop : ℕ → ℤ → ℤ
pow10_loop zero v = v
pow10_loop (suc n) v = pow10_loop n (mul64 v (pos 10))

unfoldable pub pow10 : ℕ → ℤ
unfolding pow10_loop mul64
pow10 n = pow10_loop n (pos 1)

-- `int64(v>>1) ^ -int64(v&1)`, on bit patterns.
unfoldable pub zig_zag_decode : ℕ → ℤ
unfolding int64
zig_zag_decode v = int64 (bit_xor (v / 2) ((2 ^ 64 - v % 2) % 2 ^ 64))

-- `n` words of eight bytes.
unfoldable pub words : ℕ → Bytes → List ℕ
unfolding big_endian
words zero b = []
words (suc n) b = big_endian (take 8 b) ∷ words n (drop 8 b)

-- `if n <= 0 { return nil, e }` after `binary.Uvarint`: the value and the bytes behind it.
unfoldable pub read_uvarint : Error → Bytes → Result (ℕ × Bytes)
unfolding uvarint
read_uvarint e b = elim (uvarint b) [ none ↦ err e | some (v, n) ↦ ok (v, drop n b) ]

-- The packed words behind the first value, decoded into room for all that they hold.
unfoldable pub packed_values : Error → Bytes → Result (List ℕ)
unfolding words simple8b_decode_all total_count
packed_values e packed = do
  fail_if (not (length packed % 8 == 0)) e
  let ws = words (length packed / 8) packed
  simple8b_decode_all (total_count ws) ws

-- `acc += d; out[i] = acc`
unfoldable pub running_sums : ℤ → List ℤ → List ℤ
unfolding add64
running_sums acc [] = []
running_sums acc (d ∷ ds) = let acc' = add64 acc d in acc' ∷ running_sums acc' ds

-- The first value is absolute.
from_first : List ℤ → List ℤ
unfolding running_sums
from_first [] = []
from_first (d ∷ ds) = d ∷ running_sums d ds

-- `count` values from `v` on, `step` apart.
unfoldable pub repeat_step : ℕ → ℤ → ℤ → List ℤ
unfolding add64
repeat_step zero v step = []
repeat_step (suc count) v step = v ∷ repeat_step count (add64 v step) step

decode_uncompressed : Bytes → Result (List ℤ)
unfolding words from_first int64
decode_uncompressed b = do
  fail_if (not (length b % 8 == 0)) bad_time_enc
  ok (from_first (map int64 (words (length b / 8) b)))

decode_rle : ℤ → Bytes → Result (List ℤ)
unfolding read_uvarint repeat_step int64 mul64
decode_rle scale b = do
  fail_if (ltb (length b) 8) bad_time_enc
  let first = int64 (big_endian (take 8 b))
  (delta, rest) ← read_uvarint bad_time_enc (drop 8 b)
  (count, rest') ← read_uvarint bad_time_enc rest
  ok (repeat_step count first (mul64 (int64 delta) scale))

decode_packed : ℤ → Bytes → Result (List ℤ)
unfolding packed_values running_sums int64 mul64
decode_packed scale b = do
  fail_if (ltb (length b) 8) bad_time_enc
  let first = int64 (big_endian (take 8 b))
  deltas ← packed_values bad_time_enc (drop 8 b)
  ok (first ∷ running_sums first (map (λ d. mul64 (int64 d) scale) deltas))

decode_times : ℕ → ℤ → Bytes → Result (List ℤ)
unfolding decode_uncompressed decode_rle decode_packed
decode_times enc scale b =
    if enc == time_uncompressed
    then decode_uncompressed b
    else if enc == time_rle
    then decode_rle scale b
    else if enc == time_packed_simple
    then decode_packed scale b
    else err bad_time_enc

unfoldable pub decode_timestamps : Bytes → Result (List ℤ)
unfolding decode_times pow10
decode_timestamps [] = ok []
decode_timestamps (h ∷ b) = decode_times (h / 16) (pow10 (h % 16)) b
