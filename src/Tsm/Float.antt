-- ===== src/Tsm/Float.antt =====
-- internal/tsm/float.go. A float64 is its bit pattern; the reader's `data` is what `pos` has not
-- passed.
pub mod Ends
use Prim.Native.Nat.{bit_xor}
use tsm2arc.Prelude.{
  ℕ, zero, suc, ◌+◌, ◌-◌, ◌*◌, ◌/◌, ◌%◌, ◌^◌, List, [], ◌∷◌, ◌++◌, not, leb, ◌==◌, if◌then◌else◌,
  length, Bytes,
}
use tsm2arc.Tsm.{Result, ok, err, crash, stuck, bad_float_enc, short_buffer, ◌>>=◌, ◌>>◌, fail_if}

abbrev pub float_compressed : ℕ
float_compressed = 1

abbrev pub uvnan : ℕ
uvnan = 0x7FF8000000000001

pub record BitReader : Type 0 where
  pub rest : Bytes
  pub count : ℕ
  pub cache : ℕ

unfoldable pub new_bit_reader : Bytes → BitReader
new_bit_reader b = record { rest = b; count = 0; cache = 0 }

-- `r.count--` and the bit there.
next_bit : BitReader → Result (ℕ × BitReader)
next_bit r = ok (r.cache / 2 ^ (r.count - 1) % 2, record r { count = r.count - 1 })

refill : BitReader → Bytes → Result (ℕ × BitReader)
unfolding next_bit
refill r [] = err short_buffer
refill r (b ∷ s) = next_bit (record { rest = s; count = 8; cache = b })

unfoldable pub read_bit : BitReader → Result (ℕ × BitReader)
unfolding next_bit refill
read_bit r = if r.count == 0 then refill r r.rest else next_bit r

-- The loop of `readBits`; `v` is a uint64.
unfoldable pub read_bits : ℕ → ℕ → BitReader → Result (ℕ × BitReader)
read_bits zero v r = ok (v, r)
read_bits (suc n) v r = do (b, r') ← read_bit r; read_bits n ((v * 2 + b) % 2 ^ 64) r'

-- `v << n` on uint64: every bit is gone from 64 on.
unfoldable pub shl64 : ℕ → ℕ → ℕ
shl64 v n = if leb 64 n then 0 else v * 2 ^ n % 2 ^ 64

-- `a - b` on uint64.
unfoldable pub sub64 : ℕ → ℕ → ℕ
sub64 a b = (a + 2 ^ 64 - b) % 2 ^ 64

-- The window that follows the second control bit: leading and trailing zeros.
unfoldable pub window : ℕ → ℕ → ℕ → BitReader → Result (ℕ × ℕ × BitReader)
window ctrl leading trailing r =
    let fresh = (do
      (l, r') ← read_bits 5 0 r
      (m, r'') ← read_bits 6 0 r'
      let mbits = if m == 0 then 64 else m
      ok (l, sub64 (sub64 64 l) mbits, r'')) in
    if ctrl == 1 then fresh else ok (leading, trailing, r)

-- One value behind a control bit 1: the new value and the window.
unfoldable pub read_delta : ℕ → ℕ → ℕ → BitReader → Result (ℕ × ℕ × ℕ × BitReader)
read_delta val leading trailing r = do
  (ctrl, r1) ← read_bit r
  (leading', trailing', r2) ← window ctrl leading trailing r1
  (v, r3) ← read_bits (sub64 (sub64 64 leading') trailing') 0 r2
  ok (bit_xor val (shl64 v trailing'), leading', trailing', r3)

-- What the first control bit decides: the end of the data ends the block cleanly.
unfoldable pub after_bit :
    Result (ℕ × BitReader)
    → List ℕ
    → (BitReader → Result (List ℕ))
    → (BitReader → Result (List ℕ))
    → Result (List ℕ)
after_bit (ok (bit, r)) out same changed = if bit == 0 then same r else changed r
after_bit (err e) out same changed = ok out
after_bit crash out same changed = crash
after_bit stuck out same changed = stuck

-- A new value, unless it is the sentinel.
unfoldable pub after_delta :
    Result (ℕ × ℕ × ℕ × BitReader)
    → List ℕ
    → (ℕ → ℕ → ℕ → BitReader → Result (List ℕ))
    → Result (List ℕ)
after_delta m out next = do
  (val, leading, trailing, r) ← m
  if val == uvnan then ok out else next val leading trailing r

-- The loop over the values. Each round reads a bit at least.
unfoldable pub floats_loop : ℕ → ℕ → ℕ → ℕ → BitReader → List ℕ → Result (List ℕ)
floats_loop zero val leading trailing r out = stuck
floats_loop (suc fuel) val leading trailing r out =
    after_bit (read_bit r) out (λ r1. floats_loop fuel val leading trailing r1 (out ++ val ∷ []))
      (λ r1. after_delta (read_delta val leading trailing r1) out (λ val' leading' trailing' r2.
        floats_loop fuel val' leading' trailing' r2 (out ++ val' ∷ [])))

unfoldable pub decode_stream : BitReader → Result (List ℕ)
decode_stream r = do
  (val, r') ← read_bits 64 0 r
  let more = floats_loop (length r'.rest * 8 + r'.count + 1) val 0 0 r' (val ∷ [])
  if val == uvnan then ok [] else more

unfoldable pub decode_floats : Bytes → Result (List ℕ)
decode_floats [] = ok []
decode_floats (h ∷ b) = do
  fail_if (not (h / 16 == float_compressed)) bad_float_enc
  decode_stream (new_bit_reader b)
