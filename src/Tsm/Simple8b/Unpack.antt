-- ===== src/Tsm/Simple8b/Unpack.antt =====
-- internal/tsm/simple8b.go against the digits of each word.
use tsm2arc.Prelude.{
  ℕ, zero, suc, get_or, map, All, All-append, ◌<◌, ◌+◌, ◌*◌, ◌/◌, ◌%◌, ◌^◌, ◌≤◌, List, [], ◌∷◌,
  ◌++◌, false, ◌==◌, if◌then◌else◌, length, length-append, replicate, ◌≡◌, refl, sym, ap, ◌∙◌,
  arith, append-nil, append_assoc,
}
use native.Mathlib.Nat.{pow-suc, div-div-eq-div-mul, mod-le, div-le_self}
use tsm2arc.Tsm.{ok}
use tsm2arc.Tsm.Simple8b.{
  selectors, selector, put_zeros, put_values, put_word, simple8b_decode_loop, simple8b_decode_all,
  simple8b_count, total_count,
}

-- The `n` lowest digits of `v` in base 2 ^ bits.
unfoldable pub unpack : ℕ → ℕ → ℕ → List ℕ
unpack zero bits v = []
unpack (suc n) bits v = (v % 2 ^ bits) ∷ unpack n bits (v / 2 ^ bits)

-- How many values the word of each selector holds: each has its share of the 60 bits behind the
-- selector, rounded down.
abbrev pub counts : List ℕ
counts = 240 ∷ 120 ∷ 60 ∷ 30 ∷ 20 ∷ 15 ∷ 12 ∷ 10 ∷ 8 ∷ 7 ∷ 6 ∷ 5 ∷ 4 ∷ 3 ∷ 2 ∷ 1 ∷ []

-- The digits of a word. A word beyond 64 bits has none.
unfoldable pub unpack_word : ℕ → List ℕ
unpack_word v = let n = get_or counts (v / 2 ^ 60) 0 in unpack n (60 / n) v

shares_evenly :
    (rows : List (ℕ × ℕ)) (sel : ℕ)
    → All (λ row. row.1 ≡ 60 / row.0) rows
    → ((get_or rows sel (0, 0)).0 ≡ get_or (map (λ row. row.0) rows) sel 0)
      × ((get_or rows sel (0, 0)).1 ≡ 60 / (get_or rows sel (0, 0)).0)
shares_evenly [] sel h = (refl, refl)
shares_evenly (row ∷ rows) zero h = (refl, h.0)
shares_evenly (row ∷ rows) (suc sel) h = shares_evenly rows sel h.1

even_shares : All (λ row. row.1 ≡ 60 / row.0) selectors
even_shares = (
  refl,
  (
    refl,
    (
      refl,
      (
        refl,
        (
          refl,
          (
            refl,
            (refl, (refl, (refl, (refl, (refl, (refl, (refl, (refl, (refl, (refl, tt)))))))))),
          ),
        ),
      ),
    ),
  ),
)

selectors-counts : map (λ row. row.0) selectors ≡ counts
selectors-counts = refl

selector_fields :
    (sel v : ℕ)
    → unpack (selector sel).0 (selector sel).1 v
      ≡ (let n = get_or counts sel 0 in unpack n (60 / n) v)
unfolding selector
selector_fields sel v =
    let even : All (λ row. row.1 ≡ 60 / row.0) selectors = even_shares in
    let (n, share) = shares_evenly selectors sel even in
    ap (λ (m : ℕ). unpack (get_or selectors sel (0, 0)).0 m v) share
    ∙ ap (λ (m : ℕ). unpack m (60 / m) v) n

unfoldable pub unpack_all : List ℕ → List ℕ
unpack_all [] = []
unpack_all (v ∷ vs) = unpack_word v ++ unpack_all vs

length-unpack : (n bits v : ℕ) → length (unpack n bits v) ≡ n
unfolding unpack
length-unpack zero bits v = refl
length-unpack (suc n) bits v = ap suc (length-unpack n bits (v / 2 ^ bits))

unpack_zeros : (n v : ℕ) → unpack n 0 v ≡ replicate n 0
unfolding unpack
unpack_zeros zero v = refl
unpack_zeros (suc n) v = ground (arith, unpack_zeros n (v / 2 ^ 0))

put_zeros-replicate :
    (room n : ℕ) (out : List ℕ)
    → length out + n ≤ room
    → put_zeros room n out ≡ ok (out ++ replicate n 0)
unfolding put_zeros
put_zeros-replicate room zero out h = rw append-nil
put_zeros-replicate room (suc n) out h = ground (
  arith,
  put_zeros-replicate room n (out ++ 0 ∷ []),
  length-append out (0 ∷ []),
  append_assoc out (0 ∷ []) (replicate n 0),
)

pub two_pow-add : (a b : ℕ) → 2 ^ (a + b) ≡ 2 ^ a * 2 ^ b
two_pow-add zero b = ground arith
two_pow-add (suc a) b =
    let e : suc a + b ≡ suc (a + b) = omega arith in
    rw e
      (omega (arith, pow-suc 2 (a + b), two_pow-add a b, ap (λ (t : ℕ). t * 2 ^ b) (pow-suc 2 a)))

next_digit : (v i bits : ℕ) → v / 2 ^ (i * bits) / 2 ^ bits ≡ v / 2 ^ ((i + 1) * bits)
next_digit v i bits =
    div-div-eq-div-mul v (2 ^ (i * bits)) (2 ^ bits)
    ∙ ap (λ (t : ℕ). v / t)
        (sym (two_pow-add (i * bits) bits) ∙ ap (λ (t : ℕ). 2 ^ t) (omega arith))

put_values-unpack :
    (room bits v n i : ℕ) (out : List ℕ)
    → length out + n ≤ room
    → put_values room bits v n i out ≡ ok (out ++ unpack n bits (v / 2 ^ (i * bits)))
unfolding put_values unpack
put_values-unpack room bits v zero i out h = rw append-nil
put_values-unpack room bits v (suc n) i out h =
    let digit = v / 2 ^ (i * bits) % 2 ^ bits in
    ground (
      arith,
      put_values-unpack room bits v n (i + 1) (out ++ digit ∷ []),
      length-append out (digit ∷ []),
      append_assoc out (digit ∷ []) (unpack n bits (v / 2 ^ ((i + 1) * bits))),
      next_digit v i bits,
    )

pub two_pow-zero : (bits : ℕ) → 2 ^ (0 * bits) ≡ 1
two_pow-zero bits = let e : 0 * bits ≡ 0 = omega arith in rw e refl

shift_zero : (v bits : ℕ) → v / 2 ^ (0 * bits) ≡ v
shift_zero v bits = rw (two_pow-zero bits) (omega arith)

by_bits :
    (n bits room v : ℕ) (out : List ℕ)
    → length out + n ≤ room
    → (if bits == 0 then put_zeros room n out else put_values room bits v n 0 out)
      ≡ ok (out ++ unpack n bits v)
by_bits n zero room v out h =
    put_zeros-replicate room n out h ∙ ap (λ t. ok (out ++ t)) (sym (unpack_zeros n v))
by_bits n (suc bits) room v out h =
    let e : (suc bits == 0) ≡ false = ground arith in
    rw e (
      put_values-unpack room (suc bits) v n 0 out h
      ∙ ap (λ (t : ℕ). ok (out ++ unpack n (suc bits) t)) (shift_zero v (suc bits)))

put_word-unpack :
    (room v : ℕ) (out : List ℕ)
    → length out + simple8b_count v ≤ room
    → put_word room v out ≡ ok (out ++ unpack_word v)
unfolding put_word simple8b_count unpack_word
put_word-unpack room v out h =
    by_bits (selector (v / 2 ^ 60)).0 (selector (v / 2 ^ 60)).1 room v out h
    ∙ ap (λ ds. ok (out ++ ds)) (selector_fields (v / 2 ^ 60) v)

length-unpack_word : (v : ℕ) → length (unpack_word v) ≡ simple8b_count v
unfolding unpack_word simple8b_count
length-unpack_word v =
    ap length (sym (selector_fields (v / 2 ^ 60) v))
    ∙ length-unpack (selector (v / 2 ^ 60)).0 (selector (v / 2 ^ 60)).1 v

simple8b_decode_loop-unpack :
    (room : ℕ) (src out : List ℕ)
    → length out + total_count src ≤ room
    → simple8b_decode_loop room src out ≡ ok (out ++ unpack_all src)
unfolding simple8b_decode_loop total_count unpack_all
simple8b_decode_loop-unpack room [] out h = rw append-nil
simple8b_decode_loop-unpack room (v ∷ src) out h = rw (put_word-unpack room v out (omega arith)) (
    simple8b_decode_loop-unpack room src (out ++ unpack_word v)
      (omega (arith, length-append out (unpack_word v), length-unpack_word v))
    ∙ rw append_assoc)

-- With room for the words' count, decoding never runs short, and gives the digits of each word in
-- order.
pub simple8b_decode_all-unpack :
    (src : List ℕ) → simple8b_decode_all (total_count src) src ≡ ok (unpack_all src)
unfolding simple8b_decode_all
simple8b_decode_all-unpack src = simple8b_decode_loop-unpack (total_count src) src [] (omega arith)

-- A digit is no larger than its word.
unpack-All : (top n bits v : ℕ) → v < top → All (λ d. d < top) (unpack n bits v)
unfolding unpack
unpack-All top zero bits v h = tt
unpack-All top (suc n) bits v h = (
  omega (arith, mod-le v (2 ^ bits)),
  unpack-All top n bits (v / 2 ^ bits) (omega (arith, div-le_self v (2 ^ bits))),
)

pub unpack_all-All :
    (top : ℕ) (ws : List ℕ) → All (λ w. w < top) ws → All (λ d. d < top) (unpack_all ws)
unfolding unpack_all unpack_word
unpack_all-All top [] h = tt
unpack_all-All top (w ∷ ws) h =
    let n = get_or counts (w / 2 ^ 60) 0 in
    All-append (λ d. d < top) (unpack_word w) (unpack_all ws) (unpack-All top n (60 / n) w h.0)
      (unpack_all-All top ws h.1)
