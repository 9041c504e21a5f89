-- ===== src/Tsm/Boolean/Bits.antt =====
-- internal/tsm/boolean.go: which bits are read, whatever the block declares.
use tsm2arc.Prelude.{
  ℕ, zero, suc, ◌+◌, ◌*◌, ◌/◌, ◌≤◌, ◌<◌, List, [], ◌∷◌, ◌++◌, Bool, ltb, if◌then◌else◌, length,
  take, Bytes, ◌≡◌, refl, sym, ap, ap₂, ◌∙◌, ◌%◌, ◌==◌, arith, append-nil, append_assoc,
}
use Prim.Native.Nat.{min}
use tsm2arc.Tsm.{ok}
use tsm2arc.Tsm.Binary.{put_uvarint}
use tsm2arc.Tsm.Words.{IsWord, read_uvarint-put}
use tsm2arc.Tsm.{bad_bool_enc}
use tsm2arc.Tsm.Boolean.{bit_at, bits_loop, decode_bits, decode_booleans}

-- The bits that are read from the `i`-th on.
abbrev bits_from : ℕ → ℕ → Bytes → List Bool
bits_from zero i b = []
bits_from (suc n) i b = bit_at b i ∷ bits_from n (i + 1) b

bits_loop-bits_from :
    (n i : ℕ) (b : Bytes) (out : List Bool)
    → i + n ≤ length b * 8
    → bits_loop n i b out ≡ ok (out ++ bits_from n i b)
unfolding bits_loop
bits_loop-bits_from zero i b out h = rw append-nil
bits_loop-bits_from (suc n) i b out h = ground (
  arith,
  bits_loop-bits_from n (i + 1) b (out ++ bit_at b i ∷ []),
  append_assoc out (bit_at b i ∷ []) (bits_from n (i + 1) b),
)

clamped : (count n : ℕ) → (if ltb n count then n else count) ≡ min count n
clamped count n = ground arith

decode_bits-min :
    (count : ℕ) (b : Bytes) → decode_bits count b ≡ ok (bits_from (min count (length b * 8)) 0 b)
unfolding decode_bits
decode_bits-min count b =
    rw (clamped count (length b * 8))
      (bits_loop-bits_from (min count (length b * 8)) 0 b [] (omega arith))

-- The bits of the bytes, the highest of each byte first.
abbrev pub all_bits : Bytes → List Bool
all_bits [] = []
all_bits (x ∷ xs) =
    (x / 128 % 2 == 1)
    ∷ (x / 64 % 2 == 1)
    ∷ (x / 32 % 2 == 1)
    ∷ (x / 16 % 2 == 1)
    ∷ (x / 8 % 2 == 1)
    ∷ (x / 4 % 2 == 1)
    ∷ (x / 2 % 2 == 1)
    ∷ (x / 1 % 2 == 1)
    ∷ all_bits xs

length-all_bits : (b : Bytes) → length (all_bits b) ≡ length b * 8
length-all_bits [] = refl
length-all_bits (x ∷ xs) = omega (arith, length-all_bits xs)

next_byte : (x : ℕ) (xs : Bytes) (i : ℕ) → bit_at (x ∷ xs) (8 + i) ≡ bit_at xs i
unfolding bit_at
next_byte x xs i =
    let byte : (8 + i) / 8 ≡ suc (i / 8) = omega arith in
    let bit : (8 + i) % 8 ≡ i % 8 = omega arith in rw (byte, bit) refl

bits_from_next : (n i x : ℕ) (xs : Bytes) → bits_from n (8 + i) (x ∷ xs) ≡ bits_from n i xs
bits_from_next zero i x xs = refl
bits_from_next (suc n) i x xs =
    let up : 8 + i + 1 ≡ 8 + (i + 1) = omega arith in
    rw up (ap₂ (λ c cs. c ∷ cs) (next_byte x xs i) (bits_from_next n (i + 1) x xs))

bits_from-all_bits : (b : Bytes) → bits_from (length b * 8) 0 b ≡ all_bits b
unfolding bit_at
bits_from-all_bits [] = refl
bits_from-all_bits (x ∷ xs) =
    let eight : length (x ∷ xs) * 8
        ≡ suc (suc (suc (suc (suc (suc (suc (suc (length xs * 8)))))))) =
      omega arith in
    rw eight (rw (bits_from_next (length xs * 8) 0 x xs, bits_from-all_bits xs) refl)

take-bits_from : (m n i : ℕ) (b : Bytes) → take n (bits_from m i b) ≡ bits_from (min n m) i b
take-bits_from zero zero i b = refl
take-bits_from zero (suc n) i b = let e : min (suc n) 0 ≡ 0 = omega arith in rw e refl
take-bits_from (suc m) zero i b = let e : min 0 (suc m) ≡ 0 = omega arith in rw e refl
take-bits_from (suc m) (suc n) i b = let ih = take-bits_from m n (i + 1) b in ground arith

-- A block that declares `count` booleans gives the first bits behind the count, the highest of each
-- byte first, `count` of them or as many as there are: a count that is too large neither fails nor
-- reads past the end.
pub decode_booleans-all_bits :
    (low count : ℕ) (b : Bytes)
    → low < 16
    → IsWord count
    → decode_booleans ((16 + low) ∷ (put_uvarint 9 count ++ b)) ≡ ok (take count (all_bits b))
unfolding decode_booleans
decode_booleans-all_bits low count b hl h =
    let enc : (16 + low) / 16 ≡ 1 = omega arith in
    rw enc (
      rw (read_uvarint-put bad_bool_enc count b h) (
        decode_bits-min count b
        ∙ ap ok (
            sym (take-bits_from (length b * 8) count 0 b)
            ∙ ap (take count) (bits_from-all_bits b))))
