-- ===== src/Tsm/Integer/RoundTrip.antt =====
-- internal/tsm/integer.go against what the encoder of InfluxDB writes, for each encoding.
use tsm2arc.Prelude.{
  ℕ, zero, suc, sym, ◌*◌, ◌%◌, ◌+◌, ◌/◌, ◌^◌, ◌<◌, List, [], ◌∷◌, ◌++◌, map, ◌==◌, if◌then◌else◌,
  Bytes, ◌≡◌, refl, ap, ap₂, ◌∙◌, arith, All,
}
use tsm2arc.Prelude.Int64.{
  ℤ, pos, negsuc, int64, add64, IsInt64, int64-IsInt64, uint64, uint64-lt, int64-uint64,
  uint64-int64, add64_lem,
}
use tsm2arc.Tsm.{ok, crash, bad_int_enc}
use tsm2arc.Tsm.Binary.{put_big_endian, put_uvarint}
use tsm2arc.Tsm.Simple8b.Unpack.{unpack_all}
use tsm2arc.Tsm.Words.{
  IsWord, put_words, whole_words, big_endian_front, drop-put_big_endian, packed_values-put_words,
  read_uvarint-put, difference, differences, running_sums-differences, zig_zag_encode,
  zig_zag_decode-encode, long_enough,
}
use tsm2arc.Tsm.Timestamp.{zig_zag_decode, running_sums, repeat_step}
use tsm2arc.Tsm.Integer.{
  rle_values, decode_uncompressed, decode_rle, decode_packed, decode_ints, decode_integers,
}

zig_zag_encode-IsWord : (z : ℤ) → IsInt64 z → IsWord (zig_zag_encode z)
zig_zag_encode-IsWord (pos n) h = omega arith
zig_zag_encode-IsWord (negsuc n) h = omega arith

difference-IsInt64 : (a b : ℤ) → IsInt64 (int64 (difference a b))
difference-IsInt64 a b = int64-IsInt64 (difference a b) (omega arith)

-- The words of an uncompressed block: each difference, zig-zag, the first from 0.
abbrev pub zig_words : ℤ → List ℤ → List ℕ
zig_words prev [] = []
zig_words prev (v ∷ vs) = zig_zag_encode (int64 (difference v prev)) ∷ zig_words v vs

zig_words-IsWord : (prev : ℤ) (vs : List ℤ) → All IsWord (zig_words prev vs)
zig_words-IsWord prev [] = tt
zig_words-IsWord prev (v ∷ vs) = (
  zig_zag_encode-IsWord (int64 (difference v prev)) (difference-IsInt64 v prev),
  zig_words-IsWord v vs,
)

map-zig_words :
    (prev : ℤ) (vs : List ℤ)
    → map zig_zag_decode (zig_words prev vs) ≡ map int64 (differences prev vs)
map-zig_words prev [] = refl
map-zig_words prev (v ∷ vs) =
    ap₂ (λ d ds. d ∷ ds)
      (zig_zag_decode-encode (int64 (difference v prev)) (difference-IsInt64 v prev))
      (map-zig_words v vs)

uncompressed_body :
    (vs : List ℤ) → All IsInt64 vs → decode_uncompressed (put_words (zig_words (pos 0) vs)) ≡ ok vs
unfolding decode_uncompressed
uncompressed_body vs h =
    let (same, whole) = whole_words (zig_words (pos 0) vs) (zig_words-IsWord (pos 0) vs) in
    rw (whole, same)
      (ap ok (
        ap (running_sums (pos 0)) (map-zig_words (pos 0) vs)
        ∙ running_sums-differences (pos 0) vs h))

rle_body :
    (first delta : ℤ) (count : ℕ) (rest : Bytes)
    → IsInt64 first
    → IsInt64 delta
    → IsWord count
    → decode_rle (
        put_big_endian 8 (zig_zag_encode first)
        ++ (put_uvarint 9 (zig_zag_encode delta) ++ (put_uvarint 9 count ++ rest)))
      ≡ rle_values count first delta
unfolding decode_rle
rle_body first delta count rest h hd hc =
    let z = zig_zag_encode first in
    let hz = zig_zag_encode-IsWord first h in
    let tail = put_uvarint 9 (zig_zag_encode delta) ++ (put_uvarint 9 count ++ rest) in
    rw (long_enough z tail, big_endian_front z tail hz)
      (rw (drop-put_big_endian z tail) (
        rw
          (read_uvarint-put bad_int_enc (zig_zag_encode delta) (put_uvarint 9 count ++ rest)
            (zig_zag_encode-IsWord delta hd))
          (rw (read_uvarint-put bad_int_enc count rest hc)
            (rw (zig_zag_decode-encode first h, zig_zag_decode-encode delta hd) refl))))

packed_body :
    (first : ℤ) (ws : List ℕ)
    → IsInt64 first
    → All IsWord ws
    → decode_packed (put_big_endian 8 (zig_zag_encode first) ++ put_words ws)
      ≡ ok (first ∷ running_sums first (map zig_zag_decode (unpack_all ws)))
unfolding decode_packed
packed_body first ws h hw =
    let z = zig_zag_encode first in
    let hz = zig_zag_encode-IsWord first h in
    rw (long_enough z (put_words ws), big_endian_front z (put_words ws) hz)
      (rw (drop-put_big_endian z (put_words ws))
        (rw (packed_values-put_words bad_int_enc ws hw) (rw (zig_zag_decode-encode first h) refl)))

-- Every list of int64 values, written uncompressed, is read back; the sums wrap as the differences
-- did.
pub decode_integers-uncompressed :
    (low : ℕ) (vs : List ℤ)
    → low < 16
    → All IsInt64 vs
    → decode_integers (low ∷ put_words (zig_words (pos 0) vs)) ≡ ok vs
unfolding decode_integers decode_ints
decode_integers-uncompressed low vs hl h =
    let enc : low / 16 ≡ 0 = omega arith in rw enc (uncompressed_body vs h)

-- `n` values of the run from its `i`-th on: the first value and `i` steps, in 64 bits.
abbrev pub spaced : ℕ → ℕ → ℤ → ℤ → List ℤ
spaced zero i first delta = []
spaced (suc n) i first delta =
    int64 ((uint64 first + i * uint64 delta) % 2 ^ 64) ∷ spaced n (i + 1) first delta

one_step :
    (i : ℕ) (first delta : ℤ)
    → add64 (int64 ((uint64 first + i * uint64 delta) % 2 ^ 64)) delta
      ≡ int64 ((uint64 first + (i + 1) * uint64 delta) % 2 ^ 64)
one_step i first delta =
    let x = uint64 first + i * uint64 delta in
    let sum : (x % 2 ^ 64 + uint64 delta) % 2 ^ 64
        ≡ (uint64 first + (i + 1) * uint64 delta) % 2 ^ 64 =
      omega arith in
    add64_lem (int64 (x % 2 ^ 64)) delta
    ∙ rw (uint64-int64 (x % 2 ^ 64) (omega arith)) (ap int64 sum)

repeat_step-spaced :
    (n i : ℕ) (first delta : ℤ)
    → repeat_step n (int64 ((uint64 first + i * uint64 delta) % 2 ^ 64)) delta
      ≡ spaced n i first delta
unfolding repeat_step
repeat_step-spaced zero i first delta = refl
repeat_step-spaced (suc n) i first delta = rw (one_step i first delta) (
    ap (λ vs. int64 ((uint64 first + i * uint64 delta) % 2 ^ 64) ∷ vs)
      (repeat_step-spaced n (i + 1) first delta))

run-spaced :
    (count : ℕ) (first delta : ℤ)
    → IsInt64 first
    → first ∷ repeat_step count (add64 first delta) delta ≡ spaced (suc count) 0 first delta
run-spaced count first delta h =
    let start : (uint64 first + 0 * uint64 delta) % 2 ^ 64 ≡ uint64 first =
      omega (arith, uint64-lt first) in
    let here : int64 ((uint64 first + 0 * uint64 delta) % 2 ^ 64) ≡ first =
      ap int64 start ∙ int64-uint64 first h in
    let step : add64 first delta ≡ int64 ((uint64 first + 1 * uint64 delta) % 2 ^ 64) =
      ap (λ v. add64 v delta) (sym here) ∙ one_step 0 first delta in
    ap₂ (λ v vs. v ∷ vs) (sym here)
      (ap (λ v. repeat_step count v delta) step ∙ repeat_step-spaced count 1 first delta)

wraps : (count : ℕ) → IsWord count → ((count + 1) % 2 ^ 64 == 0) ≡ (count + 1 == 2 ^ 64)
wraps count h = ground arith

-- A run is read from its first value, its step and `count`, where `make` succeeds, for every uint64
-- `count` but the largest, as `count + 1` values, of which the `i`-th is the first and `i` steps, in 64 bits; at the
-- largest `count` the decoder panics.
pub decode_integers-rle :
    (low : ℕ) (first delta : ℤ) (count : ℕ) (rest : Bytes)
    → low < 16
    → IsInt64 first
    → IsInt64 delta
    → IsWord count
    → decode_integers (
        (32 + low)
        ∷ (put_big_endian 8 (zig_zag_encode first)
            ++ (put_uvarint 9 (zig_zag_encode delta) ++ (put_uvarint 9 count ++ rest))))
      ≡ (if count + 1 == 2 ^ 64 then crash else ok (spaced (suc count) 0 first delta))
unfolding decode_integers decode_ints rle_values
decode_integers-rle low first delta count rest hl h hd hc =
    let enc : (32 + low) / 16 ≡ 2 = omega arith in
    let run = run-spaced count first delta h in
    rw enc (
      rle_body first delta count rest h hd hc
      ∙ rw run
          (ap (λ t. if t then crash else ok (spaced (suc count) 0 first delta)) (wraps count hc)))

-- A packed block is the first value and words of zig-zag differences: each value is the one before
-- it plus its difference, and no difference is dropped.
decode_integers-packed :
    (low : ℕ) (first : ℤ) (ws : List ℕ)
    → low < 16
    → IsInt64 first
    → All IsWord ws
    → decode_integers ((16 + low) ∷ (put_big_endian 8 (zig_zag_encode first) ++ put_words ws))
      ≡ ok (first ∷ running_sums first (map zig_zag_decode (unpack_all ws)))
unfolding decode_integers decode_ints
decode_integers-packed low first ws hl h hw =
    let enc : (16 + low) / 16 ≡ 1 = omega arith in rw enc (packed_body first ws h hw)
