-- ===== src/Tsm/Words.antt =====
-- What an encoder of InfluxDB's blocks writes: words, differences, zig-zag, and how the loops of
-- internal/tsm/timestamp.go read them back.
use tsm2arc.Prelude.{
  ℕ, ◌+◌, ◌-◌, ◌*◌, ◌/◌, ◌%◌, ◌^◌, ◌<◌, List, [], ◌∷◌, ◌++◌, map, false, not, ltb, ◌==◌, length,
  length-append, take, drop, take-length-append, drop-length-append, Bytes, ◌≡◌, refl, sym, ap, ◌∙◌,
  arith, All,
}
use tsm2arc.Prelude.Int64.{
  ℤ, pos, negsuc, int64, uint64, add64, IsInt64, uint64-lt, int64-uint64, uint64-int64, add64_lem,
}
use tsm2arc.Tsm.{Error, ok}
use tsm2arc.Tsm.Binary.{
  big_endian, put_big_endian, big_endian-put, length-put_big_endian, put_uvarint, uvarint-put,
}
use tsm2arc.Tsm.Xor.{bit_xor-zero, bit_xor-ones}
use tsm2arc.Tsm.Simple8b.Unpack.{unpack_all, simple8b_decode_all-unpack}
use tsm2arc.Tsm.Timestamp.{zig_zag_decode, words, read_uvarint, packed_values, running_sums}

abbrev pub IsWord : ℕ → Type 0
IsWord v = v < 2 ^ 64

unfoldable pub put_words : List ℕ → Bytes
put_words [] = []
put_words (v ∷ vs) = put_big_endian 8 v ++ put_words vs

pub length-put_words : (vs : List ℕ) → length (put_words vs) ≡ 8 * length vs
unfolding put_words
length-put_words [] = refl
length-put_words (v ∷ vs) = omega (
  arith,
  length-append (put_big_endian 8 v) (put_words vs),
  length-put_big_endian 8 v,
  length-put_words vs,
)

-- One word at the front of a buffer.
pub take-put_big_endian :
    (v : ℕ) (rest : Bytes) → take 8 (put_big_endian 8 v ++ rest) ≡ put_big_endian 8 v
take-put_big_endian v rest =
    ap (λ (n : ℕ). take n (put_big_endian 8 v ++ rest)) (sym (length-put_big_endian 8 v))
    ∙ take-length-append (put_big_endian 8 v) rest

pub drop-put_big_endian : (v : ℕ) (rest : Bytes) → drop 8 (put_big_endian 8 v ++ rest) ≡ rest
drop-put_big_endian v rest =
    ap (λ (n : ℕ). drop n (put_big_endian 8 v ++ rest)) (sym (length-put_big_endian 8 v))
    ∙ drop-length-append (put_big_endian 8 v) rest

pub big_endian_front :
    (v : ℕ) (rest : Bytes) → IsWord v → big_endian (take 8 (put_big_endian 8 v ++ rest)) ≡ v
big_endian_front v rest h = rw (take-put_big_endian v rest) (big_endian-put 8 v h)

pub long_enough : (v : ℕ) (rest : Bytes) → ltb (length (put_big_endian 8 v ++ rest)) 8 ≡ false
long_enough v rest =
    let n = length-append (put_big_endian 8 v) rest in
    let m = length-put_big_endian 8 v in ground arith

words-put_words : (vs : List ℕ) → All IsWord vs → words (length vs) (put_words vs) ≡ vs
unfolding words put_words
words-put_words [] h = refl
words-put_words (v ∷ vs) h =
    rw (big_endian_front v (put_words vs) h.0)
      (rw (drop-put_big_endian v (put_words vs)) (ap (λ t. v ∷ t) (words-put_words vs h.1)))

-- `n := len(b) / 8` and the words, with the check on the length before it.
pub whole_words :
    (vs : List ℕ)
    → All IsWord vs
    → (words (length (put_words vs) / 8) (put_words vs) ≡ vs)
      × (not (length (put_words vs) % 8 == 0) ≡ false)
whole_words vs h =
    let n : length (put_words vs) / 8 ≡ length vs = omega (arith, length-put_words vs) in
    let r : length (put_words vs) % 8 ≡ 0 = omega (arith, length-put_words vs) in
    (rw n (words-put_words vs h), rw r refl)

pub packed_values-put_words :
    (e : Error) (vs : List ℕ) → All IsWord vs → packed_values e (put_words vs) ≡ ok (unpack_all vs)
unfolding packed_values
packed_values-put_words e vs h =
    let (ws, whole) = whole_words vs h in rw (whole, ws) (simple8b_decode_all-unpack vs)

pub read_uvarint-put :
    (e : Error) (v : ℕ) (rest : Bytes)
    → IsWord v
    → read_uvarint e (put_uvarint 9 v ++ rest) ≡ ok (v, rest)
unfolding read_uvarint
read_uvarint-put e v rest h =
    rw (uvarint-put v rest h, read_uvarint) (rw (drop-length-append (put_uvarint 9 v) rest))

-- `v << 1 ^ v >> 63`
abbrev pub zig_zag_encode : ℤ → ℕ
zig_zag_encode (pos n) = 2 * n
zig_zag_encode (negsuc n) = 2 * n + 1

pub zig_zag_decode-encode : (z : ℤ) → IsInt64 z → zig_zag_decode (zig_zag_encode z) ≡ z
unfolding zig_zag_decode int64
zig_zag_decode-encode (pos n) h =
    let half : 2 * n / 2 ≡ n = omega arith in
    let sign : (2 ^ 64 - 2 * n % 2) % 2 ^ 64 ≡ 0 = omega arith in
    rw (half, sign) (rw (bit_xor-zero n) (ground arith))
zig_zag_decode-encode (negsuc n) h =
    let half : (2 * n + 1) / 2 ≡ n = omega arith in
    let sign : (2 ^ 64 - (2 * n + 1) % 2) % 2 ^ 64 ≡ 2 ^ 64 - 1 = omega arith in
    rw (half, sign) (rw (bit_xor-ones 64 n (omega arith)) (ground arith))

-- The bit pattern of `a - b`.
abbrev pub difference : ℤ → ℤ → ℕ
difference a b = (uint64 a + 2 ^ 64 - uint64 b) % 2 ^ 64

abbrev pub differences : ℤ → List ℤ → List ℕ
differences prev [] = []
differences prev (t ∷ ts) = difference t prev ∷ differences t ts

pub add64-difference : (a b : ℤ) → IsInt64 a → add64 b (int64 (difference a b)) ≡ a
add64-difference a b h =
    let d = difference a b in
    let back : (uint64 b + d) % 2 ^ 64 ≡ uint64 a = omega (arith, uint64-lt a, uint64-lt b) in
    rw (add64_lem b (int64 d)) (rw (uint64-int64 d (omega arith)) (rw back (int64-uint64 a h)))

pub running_sums-differences :
    (prev : ℤ) (ts : List ℤ)
    → All IsInt64 ts
    → running_sums prev (map int64 (differences prev ts)) ≡ ts
unfolding running_sums
running_sums-differences prev [] h = refl
running_sums-differences prev (t ∷ ts) h =
    rw (add64-difference t prev h.0) (ap (λ r. t ∷ r) (running_sums-differences t ts h.1))
