-- ===== src/Tsm/Timestamp/RoundTrip.antt =====
-- internal/tsm/timestamp.go against what the encoder of InfluxDB writes, for each encoding.
use tsm2arc.Prelude.{
  ℕ, zero, suc, sym, ◌∙◌, ◌*◌, ◌^◌, ◌≤◌, ◌+◌, ◌/◌, ◌%◌, ◌<◌, List, [], ◌∷◌, ◌++◌, map, ◌≡◌, refl,
  ap, arith, All,
}
use tsm2arc.Prelude.Int64.{
  ℤ, int64, uint64, mul64, IsInt64, uint64-lt, int64-uint64, pos, add64, add64_lem, uint64-int64,
}
use native.Mathlib.Nat.{pow-zero, pow-suc, le-mul_of_pos_right, one-le-pow, pow-le-pow_right}
use tsm2arc.Tsm.{ok, bad_time_enc}
use tsm2arc.Tsm.Binary.{put_big_endian}
use tsm2arc.Tsm.Simple8b.Unpack.{unpack_all, unpack_all-All}
use tsm2arc.Tsm.Words.{
  IsWord, put_words, whole_words, big_endian_front, drop-put_big_endian, packed_values-put_words,
  difference, differences, running_sums-differences, long_enough,
}
use tsm2arc.Tsm.Timestamp.{
  pow10, pow10_loop, running_sums, from_first, decode_uncompressed, decode_packed, decode_times,
  decode_timestamps,
}

difference-IsWord : (a b : ℤ) → IsWord (difference a b)
difference-IsWord a b = omega arith

differences-IsWord : (prev : ℤ) (ts : List ℤ) → All IsWord (differences prev ts)
differences-IsWord prev [] = tt
differences-IsWord prev (t ∷ ts) = (difference-IsWord t prev, differences-IsWord t ts)

-- The words of an uncompressed block: the first timestamp, then each difference.
abbrev pub raw_words : List ℤ → List ℕ
raw_words [] = []
raw_words (t ∷ ts) = uint64 t ∷ differences t ts

raw_words-IsWord : (ts : List ℤ) → All IsWord (raw_words ts)
raw_words-IsWord [] = tt
raw_words-IsWord (t ∷ ts) = (uint64-lt t, differences-IsWord t ts)

from_first-raw_words : (ts : List ℤ) → All IsInt64 ts → from_first (map int64 (raw_words ts)) ≡ ts
unfolding from_first
from_first-raw_words [] h = refl
from_first-raw_words (t ∷ ts) h =
    rw (int64-uint64 t h.0) (ap (λ r. t ∷ r) (running_sums-differences t ts h.1))

uncompressed_body :
    (ts : List ℤ) → All IsInt64 ts → decode_uncompressed (put_words (raw_words ts)) ≡ ok ts
unfolding decode_uncompressed
uncompressed_body ts h =
    let (same, whole) = whole_words (raw_words ts) (raw_words-IsWord ts) in
    rw (whole, same) (ap ok (from_first-raw_words ts h))

packed_body :
    (scale : ℤ) (first : ℤ) (ws : List ℕ)
    → IsInt64 first
    → All IsWord ws
    → decode_packed scale (put_big_endian 8 (uint64 first) ++ put_words ws)
      ≡ ok (first ∷ running_sums first (map (λ d. mul64 (int64 d) scale) (unpack_all ws)))
unfolding decode_packed
packed_body scale first ws h hw =
    rw
      (
        long_enough (uint64 first) (put_words ws),
        big_endian_front (uint64 first) (put_words ws) (uint64-lt first),
      )
      (rw (drop-put_big_endian (uint64 first) (put_words ws))
        (rw (packed_values-put_words bad_time_enc ws hw) (rw (int64-uint64 first h) refl)))

-- Every list of int64 timestamps, written uncompressed under any scale, is read back: the scale is
-- not applied, and the sums wrap as the differences did.
pub decode_timestamps-uncompressed :
    (scale : ℕ) (ts : List ℤ)
    → scale < 16
    → All IsInt64 ts
    → decode_timestamps (scale ∷ put_words (raw_words ts)) ≡ ok ts
unfolding decode_timestamps decode_times
decode_timestamps-uncompressed scale ts hs h =
    let enc : scale / 16 ≡ 0 = omega arith in rw enc (uncompressed_body ts h)

-- `int64` powers of ten, as long as they fit.
pow10_loop-pow : (n v : ℕ) → v * 10 ^ n < 2 ^ 63 → pow10_loop n (pos v) ≡ pos (v * 10 ^ n)
unfolding pow10_loop mul64 int64 uint64
pow10_loop-pow zero v h = ap pos (omega (arith, pow-zero 10))
pow10_loop-pow (suc n) v h =
    let split : v * 10 ^ suc n ≡ v * 10 * 10 ^ n =
      omega (arith, ap (λ (t : ℕ). v * t) (pow-suc 10 n)) in
    let fits : v * 10 ≤ v * 10 * 10 ^ n =
      le-mul_of_pos_right (v * 10) (one-le-pow n 10 (omega arith)) in
    let here : mul64 (pos v) (pos 10) ≡ pos (v * 10) = ground arith in
    rw here (pow10_loop-pow n (v * 10) (omega arith) ∙ ap pos (sym split))

unit_fits : (scale : ℕ) → scale < 16 → 10 ^ scale < 2 ^ 63
unit_fits scale h =
    let top : 10 ^ scale ≤ 10 ^ 15 =
      pow-le-pow_right {n = 10} (omega arith) {i = scale} {j = 15} (omega arith) in
    omega arith

pow10-pow : (scale : ℕ) → scale < 16 → pow10 scale ≡ pos (10 ^ scale)
unfolding pow10
pow10-pow scale h = pow10_loop-pow scale 1 (omega (arith, unit_fits scale h)) ∙ ap pos (omega arith)

-- The timestamps behind a first one and `sum` more units: each is the first and the units of all
-- deltas up to it, in 64 bits.
abbrev pub scaled_from : ℤ → ℕ → ℕ → List ℕ → List ℤ
scaled_from first unit sum [] = []
scaled_from first unit sum (d ∷ ds) =
    int64 ((uint64 first + (sum + d) * unit) % 2 ^ 64) ∷ scaled_from first unit (sum + d) ds

pos-uint64 : (n : ℕ) → n < 2 ^ 63 → uint64 (pos n) ≡ n
unfolding uint64
pos-uint64 n h = omega arith

scaled_delta :
    (unit d : ℕ) → unit < 2 ^ 63 → IsWord d → mul64 (int64 d) (pos unit) ≡ int64 (d * unit % 2 ^ 64)
unfolding mul64
scaled_delta unit d hu hd =
    let whole : uint64 (pos unit) ≡ unit = pos-uint64 unit hu in rw (uint64-int64 d hd, whole) refl

add_wrapped : (x y : ℕ) → add64 (int64 (x % 2 ^ 64)) (int64 (y % 2 ^ 64)) ≡ int64 ((x + y) % 2 ^ 64)
add_wrapped x y =
    let sum : (x % 2 ^ 64 + y % 2 ^ 64) % 2 ^ 64 ≡ (x + y) % 2 ^ 64 = omega arith in
    add64_lem (int64 (x % 2 ^ 64)) (int64 (y % 2 ^ 64))
    ∙ rw (uint64-int64 (x % 2 ^ 64) (omega arith), uint64-int64 (y % 2 ^ 64) (omega arith))
        (ap int64 sum)

next_time :
    (first : ℤ) (unit sum d : ℕ)
    → unit < 2 ^ 63
    → IsWord d
    → add64 (int64 ((uint64 first + sum * unit) % 2 ^ 64)) (mul64 (int64 d) (pos unit))
      ≡ int64 ((uint64 first + (sum + d) * unit) % 2 ^ 64)
next_time first unit sum d hu hd = rw (scaled_delta unit d hu hd) (
    add_wrapped (uint64 first + sum * unit) (d * unit)
    ∙ ap (λ (t : ℕ). int64 (t % 2 ^ 64)) (omega arith))

running_sums-scaled_from :
    (first : ℤ) (unit sum : ℕ) (ds : List ℕ)
    → unit < 2 ^ 63
    → All IsWord ds
    → running_sums
        (int64 ((uint64 first + sum * unit) % 2 ^ 64))
        (map (λ d. mul64 (int64 d) (pos unit)) ds)
      ≡ scaled_from first unit sum ds
unfolding running_sums
running_sums-scaled_from first unit sum [] hu h = refl
running_sums-scaled_from first unit sum (d ∷ ds) hu h = rw (next_time first unit sum d hu h.0) (
    ap (λ vs. int64 ((uint64 first + (sum + d) * unit) % 2 ^ 64) ∷ vs)
      (running_sums-scaled_from first unit (sum + d) ds hu h.1))

at_first :
    (first : ℤ) (unit : ℕ) → IsInt64 first → int64 ((uint64 first + 0 * unit) % 2 ^ 64) ≡ first
at_first first unit h =
    let here : (uint64 first + 0 * unit) % 2 ^ 64 ≡ uint64 first = omega (arith, uint64-lt first) in
    ap int64 here ∙ int64-uint64 first h

-- A packed block is the first timestamp and words of deltas over 10 ^ scale, as many in each word
-- and as wide as its selector says: each timestamp is, in 64 bits, the first plus 10 ^ scale times
-- the sum of all deltas up to it, and no delta is dropped.
pub decode_timestamps-packed :
    (scale : ℕ) (first : ℤ) (ws : List ℕ)
    → scale < 16
    → IsInt64 first
    → All IsWord ws
    → decode_timestamps ((16 + scale) ∷ (put_big_endian 8 (uint64 first) ++ put_words ws))
      ≡ ok (first ∷ scaled_from first (10 ^ scale) 0 (unpack_all ws))
unfolding decode_timestamps decode_times
decode_timestamps-packed scale first ws hs h hw =
    let enc : (16 + scale) / 16 ≡ 1 = omega arith in
    let low : (16 + scale) % 16 ≡ scale = omega arith in
    let unit = 10 ^ scale in
    let sums =
      running_sums-scaled_from first unit 0 (unpack_all ws) (unit_fits scale hs)
        (unpack_all-All (2 ^ 64) ws hw) in
    rw (enc, low)
      (packed_body (pow10 scale) first ws h hw
        ∙ ap
            (λ (p : ℤ).
              ok (first ∷ running_sums first (map (λ d. mul64 (int64 d) p) (unpack_all ws))))
            (pow10-pow scale hs)
        ∙ ap
            (λ (f : ℤ).
              ok (first ∷ running_sums f (map (λ d. mul64 (int64 d) (pos unit)) (unpack_all ws))))
            (sym (at_first first unit h))
        ∙ ap (λ ts. ok (first ∷ ts)) sums)
