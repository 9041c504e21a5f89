-- ===== src/Tsm/Binary.antt =====
-- What the readers use of Go's encoding/binary: big-endian words and `Uvarint`.
use tsm2arc.Prelude.{
  sym, take, drop, take-length-append, drop-length-append, ℕ, zero, suc, ◌+◌, ◌*◌, ◌/◌, ◌%◌, ◌^◌,
  ◌≤◌, ◌<◌, [], ◌∷◌, ◌++◌, ◌&&◌, Option, none, some, ltb, ◌==◌, if◌then◌else◌, length,
  length-append, Bytes, ◌≡◌, refl, ap, ◌∙◌, arith, ◌⊎◌, inr,
}
use native.Mathlib.Nat.{div-add-mod, pow-suc}
use native.Mathlib.Numerals.{towards_suc}

-- The number that the bytes spell, most significant first, after `acc`.
unfoldable pub big_endian_loop : ℕ → Bytes → ℕ
big_endian_loop acc [] = acc
big_endian_loop acc (b ∷ s) = big_endian_loop (acc * 256 + b) s

unfoldable pub big_endian : Bytes → ℕ
unfolding big_endian_loop
big_endian s = big_endian_loop 0 s

-- `n` bytes of `v`, most significant first.
unfoldable pub put_big_endian : ℕ → ℕ → Bytes
put_big_endian zero v = []
put_big_endian (suc n) v = put_big_endian n (v / 256) ++ (v % 256) ∷ []

-- The loop of `Uvarint`: `i` counts the bytes read, `x` and `s` are the value and the shift. The
-- bits of a byte are above those of `x`, so that `|` is a sum. `none` is a result `n <= 0`.
uvarint_loop : ℕ → ℕ → ℕ → Bytes → Option (ℕ × ℕ)
uvarint_loop i x s [] = none
uvarint_loop i x s (b ∷ bs) =
    let more = uvarint_loop (i + 1) (x + b % 128 * 2 ^ s) (s + 7) bs in
    if i == 10
    then none
    else if ltb b 0x80
    then (if i == 9 && ltb 1 b then none else some (x + b * 2 ^ s, i + 1))
    else more

-- `binary.Uvarint`: the value and the number of bytes read.
unfoldable pub uvarint : Bytes → Option (ℕ × ℕ)
unfolding uvarint_loop
uvarint s = uvarint_loop 0 0 0 s

-- The bytes of `v` in groups of seven bits, lowest first, for `v` below 128 ^ (k + 1).
unfoldable pub put_uvarint : ℕ → ℕ → Bytes
put_uvarint zero v = v ∷ []
put_uvarint (suc k) v =
    let rest = put_uvarint k (v / 128) in if ltb v 128 then v ∷ [] else (v % 128 + 128) ∷ rest

pub length-put_big_endian : (n v : ℕ) → length (put_big_endian n v) ≡ n
unfolding put_big_endian
length-put_big_endian zero v = refl
length-put_big_endian (suc n) v = omega (
  arith,
  length-append (put_big_endian n (v / 256)) ((v % 256) ∷ []),
  length-put_big_endian n (v / 256),
)

big_endian_loop-append :
    (acc : ℕ) (s t : Bytes)
    → big_endian_loop acc (s ++ t) ≡ big_endian_loop (big_endian_loop acc s) t
unfolding big_endian_loop
big_endian_loop-append acc [] t = refl
big_endian_loop-append acc (b ∷ s) t = big_endian_loop-append (acc * 256 + b) s t

big_endian_last : (acc v : ℕ) → acc ≡ v / 256 → big_endian_loop acc ((v % 256) ∷ []) ≡ v
unfolding big_endian_loop
big_endian_last acc v h = omega arith

-- A word is read back from its bytes.
pub big_endian-put : (n v : ℕ) → v < 256 ^ n → big_endian (put_big_endian n v) ≡ v
unfolding big_endian put_big_endian
big_endian-put zero v h = omega arith
big_endian-put (suc n) v h =
    big_endian_loop-append 0 (put_big_endian n (v / 256)) ((v % 256) ∷ [])
    ∙ big_endian_last _ v (big_endian-put n (v / 256) (omega (arith, pow-suc 256 n)))

uvarint_last :
    (i x s b : ℕ) (rest : Bytes)
    → b < 128
    → i ≤ 9
    → (i < 9) ⊎ (b < 2)
    → uvarint_loop i x s (b ∷ rest) ≡ some (x + b * 2 ^ s, i + 1)
unfolding uvarint_loop
uvarint_last i x s b rest hb hi hl = ground arith

uvarint_group :
    (i x s g : ℕ) (rest : Bytes)
    → g < 128
    → i < 10
    → uvarint_loop i x s ((g + 128) ∷ rest) ≡ uvarint_loop (i + 1) (x + g * 2 ^ s) (s + 7) rest
unfolding uvarint_loop
uvarint_group i x s g rest hg hi = let e : (g + 128) % 128 ≡ g = omega arith in ground (arith, e)

two_pow-add_seven : (s : ℕ) → 2 ^ (s + 7) ≡ 128 * 2 ^ s
two_pow-add_seven s = simp towards_suc (omega arith)

low_group : (v s : ℕ) → v % 128 * 2 ^ s + v / 128 * 2 ^ (s + 7) ≡ v * 2 ^ s
low_group v s = omega (
  arith,
  ap (λ (t : ℕ). t * 2 ^ s) (div-add-mod v 128),
  ap (λ (t : ℕ). v / 128 * t) (two_pow-add_seven s),
)

uvarint_loop-put :
    (k i x s v : ℕ) (rest : Bytes)
    → i + k ≡ 9
    → v < 2 * 128 ^ k
    → uvarint_loop i x s (put_uvarint k v ++ rest)
      ≡ some (x + v * 2 ^ s, i + length (put_uvarint k v))
unfolding put_uvarint
uvarint_loop-put zero i x s v rest hi hv =
    uvarint_last i x s v rest (omega arith) (omega arith) (inr (omega arith))
uvarint_loop-put (suc k) i x s v rest hi hv = ground (
  arith,
  uvarint_last i x s v rest,
  uvarint_group i x s (v % 128) (put_uvarint k (v / 128) ++ rest),
  low_group v s,
  pow-suc 128 k,
  uvarint_loop-put k (i + 1) (x + v % 128 * 2 ^ s) (s + 7) (v / 128) rest,
)

-- A uint64 is read back from its groups, whatever follows them.
pub uvarint-put :
    (v : ℕ) (rest : Bytes)
    → v < 2 ^ 64
    → uvarint (put_uvarint 9 v ++ rest) ≡ some (v, length (put_uvarint 9 v))
unfolding uvarint
uvarint-put v rest h = uvarint_loop-put 9 0 0 0 v rest refl h ∙ ground arith

pub length-put_uvarint_pos : (k v : ℕ) → 0 < length (put_uvarint k v)
unfolding put_uvarint
length-put_uvarint_pos zero v = omega arith
length-put_uvarint_pos (suc k) v = ground arith

pub length-put_uvarint-le : (k v : ℕ) → length (put_uvarint k v) ≤ k + 1
unfolding put_uvarint
length-put_uvarint-le zero v = omega arith
length-put_uvarint-le (suc k) v = ground (arith, length-put_uvarint-le k (v / 128))

pub big_endian-take_put :
    (n v : ℕ) (rest : Bytes) → v < 256 ^ n → big_endian (take n (put_big_endian n v ++ rest)) ≡ v
big_endian-take_put n v rest h =
    ap (λ (k : ℕ). big_endian (take k (put_big_endian n v ++ rest)))
      (sym (length-put_big_endian n v))
    ∙ ap big_endian (take-length-append (put_big_endian n v) rest)
    ∙ big_endian-put n v h

pub drop_put : (n v : ℕ) (rest : Bytes) → drop n (put_big_endian n v ++ rest) ≡ rest
drop_put n v rest =
    ap (λ (k : ℕ). drop k (put_big_endian n v ++ rest)) (sym (length-put_big_endian n v))
    ∙ drop-length-append (put_big_endian n v) rest
