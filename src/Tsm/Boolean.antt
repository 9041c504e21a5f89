-- ===== src/Tsm/Boolean.antt =====
-- internal/tsm/boolean.go.
pub mod Bits
use tsm2arc.Prelude.{
  ℕ, zero, suc, ◌+◌, ◌-◌, ◌*◌, ◌/◌, ◌%◌, ◌^◌, List, [], ◌∷◌, ◌++◌, Bool, not, ltb, leb, ◌==◌,
  if◌then◌else◌, length, get_or, Bytes,
}
use tsm2arc.Tsm.{Result, ok, err, bad_bool_enc, short_buffer, ◌>>=◌, ◌>>◌, fail_if}
use tsm2arc.Tsm.Timestamp.{read_uvarint}

abbrev pub bool_compressed : ℕ
bool_compressed = 1

-- `(b[i/8] >> (7 - i%8)) & 1 == 1`
unfoldable pub bit_at : Bytes → ℕ → Bool
bit_at b i = get_or b (i / 8) 0 / 2 ^ (7 - i % 8) % 2 == 1

-- The loop: `n` rounds left, `i` the round.
unfoldable pub bits_loop : ℕ → ℕ → Bytes → List Bool → Result (List Bool)
unfolding bit_at
bits_loop zero i b out = ok out
bits_loop (suc n) i b out =
    if leb (length b) (i / 8)
    then err short_buffer
    else bits_loop n (i + 1) b (out ++ bit_at b i ∷ [])

unfoldable pub decode_bits : ℕ → Bytes → Result (List Bool)
unfolding bits_loop
decode_bits count b = bits_loop (if ltb (length b * 8) count then length b * 8 else count) 0 b []

unfoldable pub decode_booleans : Bytes → Result (List Bool)
unfolding decode_bits read_uvarint
decode_booleans [] = ok []
decode_booleans (h ∷ b) = do
  fail_if (not (h / 16 == bool_compressed)) bad_bool_enc
  (count, rest) ← read_uvarint bad_bool_enc b
  decode_bits count rest
