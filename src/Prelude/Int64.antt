-- ===== src/Prelude/Int64.antt =====
-- Go's int64 as the integer that it stands for, with the wrap-around of its bit pattern.
use tsm2arc.Prelude.Tests.{ltb, leb, ◌==◌, if◌then◌else◌}
use Prim.Native.Nat.{ℕ, suc, ◌+◌, ◌-◌, ◌*◌, ◌%◌, ◌^◌, ◌≤◌, ◌<◌}
use mathlib.Core.Path.{◌≡◌, refl}
use mathlib.Core.Bool.{Bool, true}
use native.Mathlib.Omega.{arith}

-- `negsuc n` is -(n + 1).
pub data ℤ : Type 0 where
  pos : ℕ → ℤ
  negsuc : ℕ → ℤ

abbrev pub pos_part : ℤ → ℕ
pos_part (pos n) = n
pos_part (negsuc n) = 0

abbrev pub neg_part : ℤ → ℕ
neg_part (pos n) = 0
neg_part (negsuc n) = suc n

infix 50 ◌<ℤ◌ ◌≤ℤ◌
abbrev pub ◌≤ℤ◌ : ℤ → ℤ → Type 0
a ≤ℤ b = pos_part a + neg_part b ≤ pos_part b + neg_part a

abbrev pub ◌<ℤ◌ : ℤ → ℤ → Type 0
a <ℤ b = pos_part a + neg_part b < pos_part b + neg_part a

-- `a + b` without a bound.
infixl 65 ◌+ℤ◌
unfoldable pub ◌+ℤ◌ : ℤ → ℤ → ℤ
a +ℤ b =
    let up = pos_part a + pos_part b in
    let down = neg_part a + neg_part b in
    if leb down up then pos (up - down) else negsuc (down - up - 1)

pub +ℤ_assoc : (a b c : ℤ) → a +ℤ b +ℤ c ≡ a +ℤ (b +ℤ c)
unfolding ◌+ℤ◌
+ℤ_assoc a b c = ground arith

pub +ℤ_comm : (a b : ℤ) → a +ℤ b ≡ b +ℤ a
unfolding ◌+ℤ◌
+ℤ_comm a b = ground arith

pub zero-+ℤ : (a : ℤ) → pos 0 +ℤ a ≡ a
unfolding ◌+ℤ◌
zero-+ℤ a = ground arith

-- `a < b` and `a == b` on int64.
abbrev pub ltb_ℤ : ℤ → ℤ → Bool
ltb_ℤ a b = ltb (pos_part a + neg_part b) (pos_part b + neg_part a)

abbrev pub eqb_ℤ : ℤ → ℤ → Bool
eqb_ℤ a b = pos_part a + neg_part b == pos_part b + neg_part a

pub eq_of_parts : (a b : ℤ) → pos_part a + neg_part b ≡ pos_part b + neg_part a → a ≡ b
eq_of_parts a b h = ground arith

pub eqb_ℤ→eq : (a b : ℤ) → eqb_ℤ a b ≡ true → a ≡ b
eqb_ℤ→eq a b h = ground arith

-- `uint64(x)`: the bit pattern of an int64.
unfoldable pub uint64 : ℤ → ℕ
uint64 (pos n) = n % 2 ^ 64
uint64 (negsuc n) = 2 ^ 64 - 1 - n % 2 ^ 64

-- `int64(u)`: the int64 with a given bit pattern.
unfoldable pub int64 : ℕ → ℤ
int64 u = if ltb u (2 ^ 63) then pos u else negsuc (2 ^ 64 - 1 - u)

-- `a + b` on int64.
unfoldable pub add64 : ℤ → ℤ → ℤ
unfolding uint64 int64
add64 a b = int64 ((uint64 a + uint64 b) % 2 ^ 64)

-- `a * b` on int64.
unfoldable pub mul64 : ℤ → ℤ → ℤ
unfolding uint64 int64
mul64 a b = int64 (uint64 a * uint64 b % 2 ^ 64)

-- The range of int64.
pub record IsInt64 (a : ℤ) : Type 0 where
  pub above : neg_part a ≤ 2 ^ 63
  pub below : pos_part a < 2 ^ 63

abbrev pub max_int64 : ℤ
max_int64 = pos (2 ^ 63 - 1)

abbrev pub min_int64 : ℤ
min_int64 = negsuc (2 ^ 63 - 1)

pub int64-IsInt64 : (u : ℕ) → u < 2 ^ 64 → IsInt64 (int64 u)
unfolding int64
int64-IsInt64 u h = ground arith

pub uint64-lt : (a : ℤ) → uint64 a < 2 ^ 64
unfolding uint64
uint64-lt a = ground arith

pub int64-uint64 : (a : ℤ) → IsInt64 a → int64 (uint64 a) ≡ a
unfolding int64 uint64
int64-uint64 a h = ground arith

pub uint64-int64 : (u : ℕ) → u < 2 ^ 64 → uint64 (int64 u) ≡ u
unfolding int64 uint64
uint64-int64 u h = ground arith

pub add64_lem : (a b : ℤ) → add64 a b ≡ int64 ((uint64 a + uint64 b) % 2 ^ 64)
unfolding add64
add64_lem a b = refl
