-- ===== src/Tsm/Simple8b.antt =====
-- internal/tsm/simple8b.go: unsigned integers packed into 64-bit words.
pub mod Unpack
pub mod Pack
use tsm2arc.Prelude.{
  ℕ, zero, suc, ◌+◌, ◌*◌, ◌/◌, ◌%◌, ◌^◌, List, [], ◌∷◌, ◌++◌, leb, ◌==◌, if◌then◌else◌, length,
  get_or,
}
use tsm2arc.Tsm.{Result, ok, err, short_buffer, ◌>>=◌}

-- For each selector: how many values a word holds, and the bits of each.
abbrev pub selectors : List (ℕ × ℕ)
selectors =
    (240, 0)
    ∷ (120, 0)
    ∷ (60, 1)
    ∷ (30, 2)
    ∷ (20, 3)
    ∷ (15, 4)
    ∷ (12, 5)
    ∷ (10, 6)
    ∷ (8, 7)
    ∷ (7, 8)
    ∷ (6, 10)
    ∷ (5, 12)
    ∷ (4, 15)
    ∷ (3, 20)
    ∷ (2, 30)
    ∷ (1, 60)
    ∷ []

unfoldable pub selector : ℕ → ℕ × ℕ
selector sel = get_or selectors sel (0, 0)

-- The inner loops: `n` rounds left, `i` the round; `out` is what `dst` holds so far, `room` its
-- length. `& (1<<bits - 1)` is the remainder by `2 ^ bits`.
unfoldable pub put_zeros : ℕ → ℕ → List ℕ → Result (List ℕ)
put_zeros room zero out = ok out
put_zeros room (suc n) out =
    if leb room (length out) then err short_buffer else put_zeros room n (out ++ 0 ∷ [])

unfoldable pub put_values : ℕ → ℕ → ℕ → ℕ → ℕ → List ℕ → Result (List ℕ)
put_values room bits v zero i out = ok out
put_values room bits v (suc n) i out =
    if leb room (length out)
    then err short_buffer
    else put_values room bits v n (i + 1) (out ++ (v / 2 ^ (i * bits) % 2 ^ bits) ∷ [])

unfoldable pub put_word : ℕ → ℕ → List ℕ → Result (List ℕ)
unfolding selector put_zeros put_values
put_word room v out =
    let (n, bits) = selector (v / 2 ^ 60) in
    if bits == 0 then put_zeros room n out else put_values room bits v n 0 out

-- `simple8bDecodeAll`; `dst` counts by its length alone.
unfoldable pub simple8b_decode_loop : ℕ → List ℕ → List ℕ → Result (List ℕ)
unfolding put_word
simple8b_decode_loop room [] out = ok out
simple8b_decode_loop room (v ∷ src) out = do
  out' ← put_word room v out
  simple8b_decode_loop room src out'

unfoldable pub simple8b_decode_all : ℕ → List ℕ → Result (List ℕ)
unfolding simple8b_decode_loop
simple8b_decode_all room src = simple8b_decode_loop room src []

unfoldable pub simple8b_count : ℕ → ℕ
unfolding selector
simple8b_count v = (selector (v / 2 ^ 60)).0

-- `total += simple8bCount(words[i])`
unfoldable pub total_count : List ℕ → ℕ
unfolding simple8b_count
total_count [] = 0
total_count (v ∷ vs) = simple8b_count v + total_count vs
