-- ===== src/Tsm/Float/Ends.antt =====
-- The loops of internal/tsm/float.go end: every round reads a bit.
use tsm2arc.Prelude.{
  ℕ, zero, suc, ◌+◌, ◌*◌, ◌/◌, ◌≤◌, ◌<◌, List, [], ◌∷◌, ◌==◌, length, Bytes, ◌≡◌, refl, arith, true,
  false, Bool-cases, inl, inr, ◌⊎◌,
}
use tsm2arc.Tsm.{Result, ok, err, crash, stuck, short_buffer, bad_float_enc, ◌>>=◌}
use tsm2arc.Tsm.Float.{
  BitReader, next_bit, refill, read_bit, read_bits, window, read_delta, floats_loop, decode_stream,
  decode_floats, uvnan, after_bit, after_delta, new_bit_reader, float_compressed,
}

-- The bits not yet read.
abbrev pub bits_left : BitReader → ℕ
bits_left r = length r.rest * 8 + r.count

-- A read that gives a value and leaves fewer than `n` bits, or that fails for want of bits.
abbrev Reads {ℓ} : {A : Type ℓ} → (A → ℕ) → ℕ → Result A → Type 0
Reads left n (ok a) = left a < n
Reads left n (err e) = e ≡ short_buffer
Reads left n crash = ⊥
Reads left n stuck = ⊥

Reads-bind {ℓ κ} :
    {A : Type ℓ} {B : Type κ} (left : A → ℕ) (left' : B → ℕ) (n k : ℕ) (m : Result A)
    → (f : A → Result B) → Reads left n m
    → ((a : A) → left a < n → Reads left' k (f a))
    → Reads left' k (m >>= f)
Reads-bind left left' n k (ok a) f h g = g a h
Reads-bind left left' n k (err e) f h g = h
Reads-bind left left' n k crash f h g = h
Reads-bind left left' n k stuck f h g = h

Reads-le {ℓ} :
    {A : Type ℓ} (left : A → ℕ) (n k : ℕ) (m : Result A) → n ≤ k → Reads left n m → Reads left k m
Reads-le left n k (ok a) l h = omega arith
Reads-le left n k (err e) l h = h
Reads-le left n k crash l h = h
Reads-le left n k stuck l h = h

refill-Reads : (r : BitReader) (s : Bytes) → Reads (λ p. bits_left p.1) (length s * 8) (refill r s)
unfolding refill
refill-Reads r [] = refl
refill-Reads r (b ∷ s) = omega arith

next_bit-Reads :
    (r : BitReader) → 0 < r.count → Reads (λ p. bits_left p.1) (bits_left r) (next_bit r)
unfolding next_bit
next_bit-Reads r h = omega arith

read_bit-Reads : (r : BitReader) → Reads (λ p. bits_left p.1) (bits_left r) (read_bit r)
read_bit-Reads r = elim (Bool-cases (r.count == 0)) [
  | inl e ↦
      rw (read_bit_refill r e)
        (Reads-le _ (length r.rest * 8) _ (refill r r.rest) (omega arith) (refill-Reads r r.rest))
  | inr e ↦ rw (read_bit_next r e) (next_bit-Reads r (ground arith))
]
  where
    read_bit_refill : (r : BitReader) → (r.count == 0) ≡ true → read_bit r ≡ refill r r.rest
    read_bit_refill r e = unfold read_bit in rw e

    read_bit_next : (r : BitReader) → (r.count == 0) ≡ false → read_bit r ≡ next_bit r
    read_bit_next r e = unfold read_bit in rw e

read_bits-Reads :
    (n v : ℕ) (r : BitReader) → Reads (λ p. bits_left p.1) (bits_left r + 1) (read_bits n v r)
unfolding read_bits
read_bits-Reads zero v r = omega arith
read_bits-Reads (suc n) v r =
    Reads-bind (λ p. bits_left p.1) (λ p. bits_left p.1) (bits_left r) _ (read_bit r) _
      (read_bit-Reads r)
      (λ p h.
        Reads-le _ (bits_left p.1 + 1) _ (read_bits n _ p.1) (omega arith)
          (read_bits-Reads n _ p.1))

window-Reads :
    (ctrl leading trailing : ℕ) (r : BitReader)
    → Reads (λ p. bits_left p.2) (bits_left r + 1) (window ctrl leading trailing r)
unfolding window
window-Reads ctrl leading trailing r = elim (Bool-cases (ctrl == 1)) [
  | inl e ↦ rw e (
      Reads-bind (λ p. bits_left p.1) (λ p. bits_left p.2) (bits_left r + 1) _ (read_bits 5 0 r) _
        (read_bits-Reads 5 0 r)
        (λ p h.
          Reads-bind (λ q. bits_left q.1) (λ q. bits_left q.2) (bits_left p.1 + 1) _
            (read_bits 6 0 p.1) _ (read_bits-Reads 6 0 p.1) (λ q k. omega arith)))
  | inr e ↦ rw e (omega arith)
]

read_delta-Reads :
    (val leading trailing : ℕ) (r : BitReader)
    → Reads (λ p. bits_left p.3) (bits_left r) (read_delta val leading trailing r)
unfolding read_delta
read_delta-Reads val leading trailing r =
    Reads-bind (λ p. bits_left p.1) (λ p. bits_left p.3) (bits_left r) _ (read_bit r) _
      (read_bit-Reads r)
      (λ p h.
        Reads-bind (λ q. bits_left q.2) (λ q. bits_left q.3) (bits_left p.1 + 1) _
          (window p.0 leading trailing p.1) _ (window-Reads p.0 leading trailing p.1)
          (λ q k.
            Reads-bind (λ s. bits_left s.1) (λ s. bits_left s.3) (bits_left q.2 + 1) _
              (read_bits _ 0 q.2) _ (read_bits-Reads _ 0 q.2) (λ s l. omega arith)))

-- A list of values, or the error for want of bits.
abbrev pub Returns {ℓ} : {A : Type ℓ} → Result A → Type 0
Returns (ok a) = Unit {0}
Returns (err e) = (e ≡ short_buffer) ⊎ (e ≡ bad_float_enc)
Returns crash = ⊥
Returns stuck = ⊥

Returns-bind {ℓ κ} :
    {A : Type ℓ} {B : Type κ} (left : A → ℕ) (n : ℕ) (m : Result A) (f : A → Result B)
    → Reads left n m
    → ((a : A) → left a < n → Returns (f a))
    → Returns (m >>= f)
Returns-bind left n (ok a) f h g = g a h
Returns-bind left n (err e) f h g = inl h
Returns-bind left n crash f h g = h
Returns-bind left n stuck f h g = h

after_bit-Returns :
    (n : ℕ) (m : Result (ℕ × BitReader)) (out : List ℕ)
    → (same changed : BitReader → Result (List ℕ)) → Reads (λ p. bits_left p.1) n m
    → ((r : BitReader) → bits_left r < n → Returns (same r))
    → ((r : BitReader) → bits_left r < n → Returns (changed r))
    → Returns (after_bit m out same changed)
unfolding after_bit
after_bit-Returns n (ok (bit, r)) out same changed h f g = elim (Bool-cases (bit == 0)) [
  | inl e ↦ rw e (f r h)
  | inr e ↦ rw e (g r h)
]
after_bit-Returns n (err e) out same changed h f g = tt
after_bit-Returns n crash out same changed h f g = h
after_bit-Returns n stuck out same changed h f g = h

after_delta-Returns :
    (n : ℕ) (m : Result (ℕ × ℕ × ℕ × BitReader)) (out : List ℕ)
    → (next : ℕ → ℕ → ℕ → BitReader → Result (List ℕ)) → Reads (λ p. bits_left p.3) n m
    → ((v l t : ℕ) (r : BitReader) → bits_left r < n → Returns (next v l t r))
    → Returns (after_delta m out next)
unfolding after_delta
after_delta-Returns n m out next h f =
    Returns-bind (λ p. bits_left p.3) n m _ h
      (λ p k. elim (Bool-cases (p.0 == uvnan)) [
        | inl e ↦ rw e tt
        | inr e ↦ rw e (f p.0 p.1 p.2 p.3 k)
      ])

floats_loop-Returns :
    (fuel val leading trailing : ℕ) (r : BitReader) (out : List ℕ)
    → bits_left r < fuel
    → Returns (floats_loop fuel val leading trailing r out)
unfolding floats_loop
floats_loop-Returns zero val leading trailing r out h = absurd (omega arith)
floats_loop-Returns (suc fuel) val leading trailing r out h =
    after_bit-Returns (bits_left r) (read_bit r) out _ _ (read_bit-Reads r)
      (λ r1 k. floats_loop-Returns fuel val leading trailing r1 _ (omega arith))
      (λ r1 k.
        after_delta-Returns (bits_left r1) (read_delta val leading trailing r1) out _
          (read_delta-Reads val leading trailing r1)
          (λ v l t r2 k'. floats_loop-Returns fuel v l t r2 _ (omega arith)))

stream-Returns : (r : BitReader) → Returns (decode_stream r)
unfolding decode_stream
stream-Returns r =
    Returns-bind (λ p. bits_left p.1) (bits_left r + 1) (read_bits 64 0 r) _
      (read_bits-Reads 64 0 r)
      (λ p k. elim (Bool-cases (p.0 == uvnan)) [
        | inl e ↦ rw e tt
        | inr e ↦ rw e (floats_loop-Returns (bits_left p.1 + 1) p.0 0 0 p.1 _ (omega arith))
      ])

-- A float block of any bytes is decoded to a list of values or refused for its header or for want
-- of bits: the decoder neither panics nor runs on.
pub decode_floats-Returns : (b : Bytes) → Returns (decode_floats b)
unfolding decode_floats
decode_floats-Returns [] = tt
decode_floats-Returns (h ∷ b) = elim (Bool-cases (h / 16 == float_compressed)) [
  | inl e ↦ rw e (stream-Returns (new_bit_reader b))
  | inr e ↦ rw e (inr refl)
]
