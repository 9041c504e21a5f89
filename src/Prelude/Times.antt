-- ===== src/Prelude/Times.antt =====
-- The order of int64 times, as tests that stay shut.
use Prim.Native.Nat.{ℕ, ◌+◌, ◌≤◌, ◌<◌}
use mathlib.Core.Path.{◌≡◌, sym, ap, ◌∙◌}
use mathlib.Core.Logic.{◌↔◌}
use mathlib.Core.Bool.{Bool, true, false}
use native.Mathlib.Omega.{arith}
use tsm2arc.Prelude.Tests.{◌==◌, ltb, ltb→lt, lt→ltb}
use tsm2arc.Prelude.Int64.{eq_of_parts, ℤ, pos_part, neg_part, ltb_ℤ, eqb_ℤ, eqb_ℤ→eq}

-- `a < b`
unfoldable pub earlier : ℤ → ℤ → Bool
earlier a b = ltb_ℤ a b

-- `a == b`
unfoldable pub same : ℤ → ℤ → Bool
same a b = eqb_ℤ a b

-- What the tests say of the numbers.
module _ (a b : ℤ) where
  pub earlier→lt : earlier a b ≡ true → pos_part a + neg_part b < pos_part b + neg_part a
  unfolding earlier
  earlier→lt h = ltb→lt _ _ h

  pub lt→earlier : pos_part a + neg_part b < pos_part b + neg_part a → earlier a b ≡ true
  unfolding earlier
  lt→earlier h = lt→ltb _ _ h

  pub not_earlier→le : earlier a b ≡ false → pos_part b + neg_part a ≤ pos_part a + neg_part b
  unfolding earlier
  not_earlier→le h = of_test (pos_part a + neg_part b) (pos_part b + neg_part a) h
    where
      of_test : (m n : ℕ) → ltb m n ≡ false → n ≤ m
      of_test m n h = ground arith

  pub le→not_earlier : pos_part b + neg_part a ≤ pos_part a + neg_part b → earlier a b ≡ false
  unfolding earlier
  le→not_earlier h = to_test (pos_part a + neg_part b) (pos_part b + neg_part a) h
    where
      to_test : (m n : ℕ) → n ≤ m → ltb m n ≡ false
      to_test m n h = ground arith

  pub same→eq : same a b ≡ true → a ≡ b
  unfolding same
  same→eq h = eqb_ℤ→eq a b h

pub same_refl : (a : ℤ) → same a a ≡ true
unfolding same
same_refl a = itself (pos_part a + neg_part a)
  where
    itself : (n : ℕ) → (n == n) ≡ true
    itself n = ground arith

pub same_iff : (a b : ℤ) → (same a b ≡ true) ↔ (a ≡ b)
same_iff a b = (same→eq a b, λ e. ap (same a) (sym e) ∙ same_refl a)

pub earlier_irrefl : (a : ℤ) → earlier a a ≡ false
earlier_irrefl a = le→not_earlier a a (omega arith)

module _ (a b c : ℤ) where
  pub earlier_trans : earlier a b ≡ true → earlier b c ≡ true → earlier a c ≡ true
  earlier_trans h k = lt→earlier a c (omega (arith, earlier→lt a b h, earlier→lt b c k))

  -- `a ≤ b ≤ c`, `a < b ≤ c` and `a ≤ b < c`.
  pub not_earlier_trans : earlier b a ≡ false → earlier c b ≡ false → earlier c a ≡ false
  not_earlier_trans h k =
      le→not_earlier c a (omega (arith, not_earlier→le b a h, not_earlier→le c b k))

  pub earlier_le_trans : earlier a b ≡ true → earlier c b ≡ false → earlier a c ≡ true
  earlier_le_trans h k = lt→earlier a c (omega (arith, earlier→lt a b h, not_earlier→le c b k))

  pub le_earlier_trans : earlier b a ≡ false → earlier b c ≡ true → earlier a c ≡ true
  le_earlier_trans h k = lt→earlier a c (omega (arith, not_earlier→le b a h, earlier→lt b c k))

pub earlier_asymm : (a b : ℤ) → earlier a b ≡ true → earlier b a ≡ false
earlier_asymm a b h = le→not_earlier b a (omega (arith, earlier→lt a b h))

pub earlier_connex : (a b : ℤ) → earlier a b ≡ false → earlier b a ≡ false → a ≡ b
earlier_connex a b h k = eq_of_parts a b (omega (arith, not_earlier→le a b h, not_earlier→le b a k))

-- Of two times that differ, one is earlier.
pub same-false : (a b : ℤ) → earlier a b ≡ true → same a b ≡ false
same-false a b h = ground (arith, same_iff a b, earlier_irrefl a)
