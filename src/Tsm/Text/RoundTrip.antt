-- ===== src/Tsm/Text/RoundTrip.antt =====
-- internal/tsm/string.go against length-prefixed strings.
use tsm2arc.Prelude.{
  ℕ, zero, suc, ◌+◌, ◌/◌, ◌≤◌, ◌<◌, List, [], ◌∷◌, ◌++◌, false, Option, some, ltb, length,
  length-append, take, drop, take-length-append, drop-length-append, Bytes, ◌≡◌, refl, ap, ◌∙◌,
  arith, All, append-nil, append_assoc,
}
use tsm2arc.Tsm.{ok, bad_string_enc, short_buffer, fail_if, ◌>>=◌, ◌>>◌}
use tsm2arc.Tsm.Timestamp.{read_uvarint}
use tsm2arc.Tsm.Binary.{put_uvarint, length-put_uvarint_pos}
use tsm2arc.Tsm.Words.{IsWord, read_uvarint-put}
use tsm2arc.Tsm.Text.{strings_loop, decompress, decode_strings}

-- The strings of a block, each behind its length.
abbrev pub put_strings : List Bytes → Bytes
put_strings [] = []
put_strings (s ∷ ss) = put_uvarint 9 (length s) ++ (s ++ put_strings ss)

-- One round on data that is not empty.
strings_loop_read :
    (fuel : ℕ) (d : Bytes) (out : List Bytes)
    → 0 < length d
    → strings_loop (suc fuel) d out ≡ (
        read_uvarint bad_string_enc d >>= λ r.
        (fail_if (ltb (length r.1) r.0) short_buffer
          >> strings_loop fuel (drop r.0 r.1) (out ++ take r.0 r.1 ∷ [])))
unfolding strings_loop
strings_loop_read fuel [] out h = absurd (omega arith)
strings_loop_read fuel (b ∷ bs) out h = refl

enough : (s rest : Bytes) → ltb (length (s ++ rest)) (length s) ≡ false
enough s rest = let n = length-append s rest in ground arith

strings_loop_step :
    (fuel : ℕ) (s rest : Bytes) (out : List Bytes)
    → IsWord (length s)
    → strings_loop (suc fuel) (put_uvarint 9 (length s) ++ (s ++ rest)) out
      ≡ strings_loop fuel rest (out ++ s ∷ [])
strings_loop_step fuel s rest out h =
    let d = put_uvarint 9 (length s) ++ (s ++ rest) in
    strings_loop_read fuel d out (
      omega (
        arith,
        length-append (put_uvarint 9 (length s)) (s ++ rest),
        length-put_uvarint_pos 9 (length s),
      ))
    ∙ rw (read_uvarint-put bad_string_enc (length s) (s ++ rest) h)
        (rw (enough s rest, take-length-append s rest, drop-length-append s rest) refl)

strings_loop-put_strings :
    (ss : List Bytes) (fuel : ℕ) (out : List Bytes)
    → All (λ s. IsWord (length s)) ss
    → length ss ≤ fuel
    → strings_loop fuel (put_strings ss) out ≡ ok (out ++ ss)
strings_loop-put_strings [] fuel out h hf = unfold strings_loop in rw append-nil
strings_loop-put_strings (s ∷ ss) zero out h hf = absurd (omega arith)
strings_loop-put_strings (s ∷ ss) (suc fuel) out h hf =
    strings_loop_step fuel s (put_strings ss) out h.0
    ∙ strings_loop-put_strings ss fuel (out ++ s ∷ []) h.1 (omega arith)
    ∙ ap ok (append_assoc out (s ∷ []) ss)

length-put_strings : (ss : List Bytes) → length ss ≤ length (put_strings ss)
length-put_strings [] = omega arith
length-put_strings (s ∷ ss) = omega (
  arith,
  length-append (put_uvarint 9 (length s)) (s ++ put_strings ss),
  length-append s (put_strings ss),
  length-put_uvarint_pos 9 (length s),
  length-put_strings ss,
)

-- The strings of a block are read back, whatever bytes they hold, when snappy gives back what was
-- compressed.
pub decode_strings-put_strings :
    (snappy : Bytes → Option Bytes) (low : ℕ) (packed : Bytes) (ss : List Bytes)
    → low < 16
    → All (λ s. IsWord (length s)) ss
    → snappy packed ≡ some (put_strings ss)
    → decode_strings snappy ((16 + low) ∷ packed) ≡ ok ss
unfolding decode_strings decompress
decode_strings-put_strings snappy low packed ss hl h hs =
    let enc : (16 + low) / 16 ≡ 1 = omega arith in
    rw (enc, hs, decompress)
      (strings_loop-put_strings ss (length (put_strings ss)) [] h (length-put_strings ss))
