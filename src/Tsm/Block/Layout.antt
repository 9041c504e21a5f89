-- ===== src/Tsm/Block/Layout.antt =====
-- `decodeBlock` of internal/tsm/reader.go against the layout of a block.
use tsm2arc.Prelude.{
  ℕ, ◌+◌, ◌%◌, ◌^◌, ◌≤◌, ◌<◌, [], ◌∷◌, ◌++◌, true, false, not, Option, ltb, ◌==◌, if◌then◌else◌,
  length, length-append, drop, take-length-append, drop-length-append, Bytes, ◌≡◌, refl, ◌∙◌, arith,
  lt→ltb,
}
use tsm2arc.Tsm.{crash, ◌>>=◌}
use tsm2arc.Tsm.Binary.{put_uvarint, uvarint-put, length-put_uvarint-le}
use tsm2arc.Tsm.Words.{IsWord}
use tsm2arc.Tsm.Timestamp.{decode_timestamps}
use tsm2arc.Tsm.Block.{decode_values, decode_sections, decode_body, decode_block}

-- A block as it is written: checksum, type, length of the timestamps, timestamps, values.
abbrev pub block : Bytes → ℕ → Bytes → Bytes → Bytes
block crc type ts vs = crc ++ (type ∷ (put_uvarint 9 (length ts) ++ (ts ++ vs)))

not_shorter : (m n : ℕ) → n ≤ m → ltb m n ≡ false
not_shorter m n h = ground arith

fits : (l n m : ℕ) → n + l < 2 ^ 64 → n + l ≤ m → ltb m ((n + l) % 2 ^ 64) ≡ false
fits l n m h k = not_shorter m ((n + l) % 2 ^ 64) (omega arith)

drop-prefix : (n : ℕ) (head rest : Bytes) → length head ≡ n → drop n (head ++ rest) ≡ rest
drop-prefix n head rest h = rw (← h) (drop-length-append head rest)

own_type : (type index_type : ℕ) → (if not (type == index_type) then type else index_type) ≡ type
own_type type index_type = ground arith

-- The checksum is passed over, and the type in the index gives way.
decode_block-body :
    (snappy : Bytes → Option Bytes) (index_type type : ℕ) (crc body : Bytes)
    → length crc ≡ 4
    → decode_block snappy index_type (crc ++ (type ∷ body)) ≡ decode_body snappy type body
unfolding decode_block
decode_block-body snappy it type (c0 ∷ c1 ∷ c2 ∷ c3 ∷ []) body h = rw (own_type type it)
decode_block-body snappy it type [] body h = absurd (omega arith)
decode_block-body snappy it type (c0 ∷ []) body h = absurd (omega arith)
decode_block-body snappy it type (c0 ∷ c1 ∷ []) body h = absurd (omega arith)
decode_block-body snappy it type (c0 ∷ c1 ∷ c2 ∷ []) body h = absurd (omega arith)
decode_block-body snappy it type (c0 ∷ c1 ∷ c2 ∷ c3 ∷ c4 ∷ cs) body h = absurd (omega arith)

decode_body-put :
    (snappy : Bytes → Option Bytes) (type ts_len : ℕ) (rest : Bytes)
    → IsWord ts_len
    → decode_body snappy type (put_uvarint 9 ts_len ++ rest)
      ≡ decode_sections snappy type ts_len
          (length (put_uvarint 9 ts_len))
          (put_uvarint 9 ts_len ++ rest)
unfolding decode_body
decode_body-put snappy type ts_len rest h = rw (uvarint-put ts_len rest h, decode_body)

sections_split :
    (snappy : Bytes → Option Bytes) (type n : ℕ) (head ts vs : Bytes)
    → length head ≡ n
    → n + length ts < 2 ^ 64
    → decode_sections snappy type (length ts) n (head ++ (ts ++ vs))
      ≡ (decode_timestamps ts >>= λ times. decode_values snappy type times vs)
unfolding decode_sections
sections_split snappy type n head ts vs hn h =
    let room : ltb (length (head ++ (ts ++ vs))) ((n + length ts) % 2 ^ 64) ≡ false =
      fits (length ts) n (length (head ++ (ts ++ vs))) h
        (omega (arith, length-append head (ts ++ vs), length-append ts vs)) in
    let whole : ltb (length (ts ++ vs)) (length ts) ≡ false =
      not_shorter (length (ts ++ vs)) (length ts) (omega (arith, length-append ts vs)) in
    rw room (
      rw (drop-prefix n head (ts ++ vs) hn)
        (rw (whole, take-length-append ts vs, drop-length-append ts vs) refl))

sections_crash :
    (snappy : Bytes → Option Bytes) (type ts_len n : ℕ) (head rest : Bytes)
    → length head ≡ n
    → IsWord ts_len
    → 2 ^ 64 ≤ ts_len + n
    → length rest < 2 ^ 63
    → n ≤ 10
    → decode_sections snappy type ts_len n (head ++ rest) ≡ crash
unfolding decode_sections
sections_crash snappy type ts_len n head rest hn hw hover hrest h10 =
    let room : ltb (length (head ++ rest)) ((n + ts_len) % 2 ^ 64) ≡ false =
      not_shorter (length (head ++ rest)) ((n + ts_len) % 2 ^ 64)
        (omega (arith, length-append head rest)) in
    let past : ltb (length rest) ts_len ≡ true = lt→ltb (length rest) ts_len (omega arith) in
    rw room (rw (drop-prefix n head rest hn) (rw past refl))

-- A block of the written layout is its timestamps decoded, then its values decoded under the
-- block's own type, whatever the type in the index and the checksum are.
pub decode_block-block :
    (snappy : Bytes → Option Bytes) (index_type type : ℕ) (crc ts vs : Bytes)
    → length crc ≡ 4
    → length ts < 2 ^ 63
    → decode_block snappy index_type (block crc type ts vs)
      ≡ (decode_timestamps ts >>= λ times. decode_values snappy type times vs)
decode_block-block snappy index_type type crc ts vs hc h =
    let head = put_uvarint 9 (length ts) in
    decode_block-body snappy index_type type crc (head ++ (ts ++ vs)) hc
    ∙ decode_body-put snappy type (length ts) (ts ++ vs) (omega arith)
    ∙ sections_split snappy type (length head) head ts vs refl
        (omega (arith, length-put_uvarint-le 9 (length ts)))

-- A block whose declared length of timestamps wraps the check, `n` bytes of length and the length
-- itself adding up past 2 ^ 64, makes the decoder panic, where it means to refuse the block.
pub decode_block-crash :
    (snappy : Bytes → Option Bytes) (index_type type ts_len : ℕ) (crc rest : Bytes)
    → length crc ≡ 4
    → IsWord ts_len
    → 2 ^ 64 ≤ ts_len + length (put_uvarint 9 ts_len)
    → length rest < 2 ^ 63
    → decode_block snappy index_type (crc ++ (type ∷ (put_uvarint 9 ts_len ++ rest))) ≡ crash
decode_block-crash snappy index_type type ts_len crc rest hc hw hover hrest =
    decode_block-body snappy index_type type crc (put_uvarint 9 ts_len ++ rest) hc
    ∙ decode_body-put snappy type ts_len rest hw
    ∙ sections_crash snappy type ts_len (length (put_uvarint 9 ts_len)) (put_uvarint 9 ts_len) rest
        refl hw hover hrest (length-put_uvarint-le 9 ts_len)
