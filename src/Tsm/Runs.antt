-- ===== src/Tsm/Runs.antt =====
-- Runs of the decoders of internal/tsm on small blocks.
use tsm2arc.Prelude.{
  true, false, ℕ, ◌+◌, ◌^◌, List, [], ◌∷◌, ◌++◌, Option, some, Bytes, ◌≡◌, refl, ◌<◌, ◌-◌, arith,
  All,
}
use tsm2arc.Prelude.Int64.{ℤ, pos, negsuc, uint64, int64, IsInt64}
use tsm2arc.Prelude.Strings.{codes}
use tsm2arc.Tsm.{ok, crash, block_integer, ◌>>=◌}
use tsm2arc.Tsm.Binary.{put_big_endian, put_uvarint}
use tsm2arc.Tsm.Words.{IsWord, put_words, zig_zag_encode}
use tsm2arc.Tsm.Simple8b.{selector}
use tsm2arc.Tsm.Simple8b.Unpack.{unpack_all, unpack_word, unpack}
use tsm2arc.Tsm.Simple8b.Pack.{word}
use tsm2arc.Tsm.Timestamp.{decode_timestamps}
use tsm2arc.Tsm.Timestamp.RoundTrip.{
  raw_words, decode_timestamps-uncompressed, decode_timestamps-packed,
}
use tsm2arc.Tsm.Integer.{decode_integers}
use tsm2arc.Tsm.Integer.RoundTrip.{zig_words, decode_integers-uncompressed, decode_integers-rle}
use tsm2arc.Tsm.Boolean.{decode_booleans}
use tsm2arc.Tsm.Boolean.Bits.{decode_booleans-all_bits}
use tsm2arc.Tsm.Text.{decode_strings}
use tsm2arc.Tsm.Text.RoundTrip.{put_strings, decode_strings-put_strings}
use tsm2arc.Tsm.Float.{decode_floats}
use tsm2arc.Tsm.Float.Ends.{Returns, decode_floats-Returns}
use tsm2arc.Tsm.Block.{decode_values, decode_block}
use tsm2arc.Tsm.Block.Layout.{block, decode_block-block, decode_block-crash}

-- A word of four values of 15 bits, and a word of two of 30.
abbrev two_words : List ℕ
two_words = word 12 (1 ∷ 2 ∷ 3 ∷ 4 ∷ []) ∷ word 14 (1000000 ∷ 5 ∷ []) ∷ []

two_words-IsWord : All IsWord two_words
unfolding word selector
two_words-IsWord = (omega arith, (omega arith, tt))

in_range : (n : ℕ) → n < 2 ^ 63 → IsInt64 (pos n)
in_range n h = record { above = omega arith; below = omega arith }

abbrev falling : List ℤ
falling = pos 10 ∷ pos 3 ∷ negsuc 4 ∷ []

falling-IsInt64 : All IsInt64 falling
falling-IsInt64 = (
  in_range 10 (omega arith),
  (in_range 3 (omega arith), (record { above = omega arith; below = omega arith }, tt)),
)

decode_timestamps-uncompressed_example :
    decode_timestamps (0 ∷ put_words (raw_words falling)) ≡ ok falling
decode_timestamps-uncompressed_example =
    decode_timestamps-uncompressed 0 falling (omega arith) falling-IsInt64

decode_timestamps-packed_example :
    decode_timestamps ((16 + 3) ∷ (put_big_endian 8 (uint64 (pos 7)) ++ put_words two_words))
    ≡ ok (pos 7 ∷ pos 1007 ∷ pos 3007 ∷ pos 6007 ∷ pos 10007 ∷ pos 1000010007 ∷ pos 1000015007 ∷ [])
unfolding word selector unpack_all unpack_word unpack int64 uint64
decode_timestamps-packed_example =
    decode_timestamps-packed 3 (pos 7) two_words (omega arith) (in_range 7 (omega arith))
      two_words-IsWord

decode_integers-uncompressed_example :
    decode_integers (3 ∷ put_words (zig_words (pos 0) falling)) ≡ ok falling
decode_integers-uncompressed_example =
    decode_integers-uncompressed 3 falling (omega arith) falling-IsInt64

decode_integers-rle_example :
    decode_integers (
      (32 + 0)
      ∷ (put_big_endian 8 (zig_zag_encode (pos 5))
          ++ (put_uvarint 9 (zig_zag_encode (negsuc 2)) ++ (put_uvarint 9 2 ++ []))))
    ≡ ok (pos 5 ∷ pos 2 ∷ negsuc 0 ∷ [])
unfolding int64 uint64
decode_integers-rle_example =
    decode_integers-rle 0 (pos 5) (negsuc 2) 2 [] (omega arith) (in_range 5 (omega arith))
      (record { above = omega arith; below = omega arith }) (omega arith)

-- The count at which the decoder panics.
largest_count_run :
    decode_integers (
      (32 + 0)
      ∷ (put_big_endian 8 (zig_zag_encode (pos 5))
          ++ (put_uvarint 9 (zig_zag_encode (pos 1)) ++ (put_uvarint 9 (2 ^ 64 - 1) ++ []))))
    ≡ crash
largest_count_run =
    decode_integers-rle 0 (pos 5) (pos 1) (2 ^ 64 - 1) [] (omega arith) (in_range 5 (omega arith))
      (in_range 1 (omega arith)) (omega arith)

abbrev one_byte : Bytes
one_byte = 0b10100000 ∷ []

-- Twelve bits are declared, and eight are there.
decode_booleans-all_bits_example :
    decode_booleans ((16 + 0) ∷ (put_uvarint 9 12 ++ one_byte))
    ≡ ok (true ∷ false ∷ true ∷ false ∷ false ∷ false ∷ false ∷ false ∷ [])
decode_booleans-all_bits_example =
    decode_booleans-all_bits 0 12 one_byte (omega arith) (omega arith)

-- Stored bytes as they are.
abbrev stored : Bytes → Option Bytes
stored b = some b

abbrev two_strings : List Bytes
two_strings = codes "a,b" ∷ [] ∷ []

decode_strings-put_strings_example :
    decode_strings stored ((16 + 0) ∷ put_strings two_strings) ≡ ok two_strings
decode_strings-put_strings_example =
    decode_strings-put_strings stored 0 (put_strings two_strings) two_strings (omega arith)
      (omega arith, (omega arith, tt)) refl

decode_floats-Returns_example : Returns (decode_floats (0x10 ∷ 0x40 ∷ 0x08 ∷ []))
decode_floats-Returns_example = decode_floats-Returns (0x10 ∷ 0x40 ∷ 0x08 ∷ [])

abbrev times_block : Bytes
times_block = 0 ∷ put_words (raw_words falling)

abbrev ints_block : Bytes
ints_block = 0 ∷ put_words (zig_words (pos 0) falling)

decode_block-block_example :
    decode_block stored 3 (block (9 ∷ 9 ∷ 9 ∷ 9 ∷ []) block_integer times_block ints_block) ≡ (
      decode_timestamps times_block >>= λ times.
      decode_values stored block_integer times ints_block)
unfolding put_words put_big_endian
decode_block-block_example =
    decode_block-block stored 3 block_integer (9 ∷ 9 ∷ 9 ∷ 9 ∷ []) times_block ints_block refl
      (omega arith)

decode_block-crash_example :
    decode_block stored 1 (0 ∷ 0 ∷ 0 ∷ 0 ∷ [] ++ (1 ∷ (put_uvarint 9 (2 ^ 64 - 1) ++ 5 ∷ [])))
    ≡ crash
unfolding put_uvarint
decode_block-crash_example =
    decode_block-crash stored 1 1 (2 ^ 64 - 1) (0 ∷ 0 ∷ 0 ∷ 0 ∷ []) (5 ∷ []) refl (omega arith)
      (omega arith) (omega arith)
