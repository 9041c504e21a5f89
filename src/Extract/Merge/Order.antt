-- ===== src/Extract/Merge/Order.antt =====
-- The merge of internal/extract/extract.go: its times rise, and a later window is a later part.
use tsm2arc.Prelude.{
  ℕ, zero, suc, ◌<◌, List, [], ◌∷◌, true, false, Option, none, some, ◌≡◌, refl, ap, inl, inr, arith,
  All, Bool-cases, Option-cases,
}
use tsm2arc.Prelude.Int64.{ℤ}
use tsm2arc.Prelude.Times.{earlier, same, same_iff, earlier_connex, earlier_le_trans}
use tsm2arc.Tsm.{Value}
use tsm2arc.Extract.Merge.{lower}
use tsm2arc.Extract.Merge.Rows.{
  Source, Row, next_time, drop_at, row_from, drop_all, rows, size, size-next_time-none,
}
use tsm2arc.Extract.Merge.LastWrite.{AreAscending-drop_all}
use tsm2arc.Extract.Merge.Row.{
  NotBefore, IsAscending, AreAscending, NoneBefore, next_time-NoneBefore,
}

abbrev pub ValuesAfter : ℤ → List Value → Type 0
ValuesAfter t vs = All (λ v. earlier t v.unix_nano ≡ true) vs

abbrev pub SourcesAfter : ℤ → List Source → Type 0
SourcesAfter t [] = Unit
SourcesAfter t ((n, vs) ∷ ss) = ValuesAfter t vs × SourcesAfter t ss

abbrev pub RowsAfter : ℤ → List Row → Type 0
RowsAfter t [] = Unit
RowsAfter t ((u, fields) ∷ rs) = (earlier t u ≡ true) × RowsAfter t rs

-- Each row's time is after the one before it.
abbrev pub AreRising : List Row → Type 0
AreRising [] = Unit
AreRising ((t, fields) ∷ rs) = RowsAfter t rs × AreRising rs

ValuesAfter-drop_at : (t u : ℤ) (vs : List Value) → ValuesAfter t vs → ValuesAfter t (drop_at u vs)
unfolding drop_at
ValuesAfter-drop_at t u [] h = tt
ValuesAfter-drop_at t u (v ∷ vs) (h, hs) = elim (Bool-cases (same v.unix_nano u)) [
  | inl e ↦ rw (e, drop_at) (ValuesAfter-drop_at t u vs hs)
  | inr e ↦ rw (e, drop_at) (h, hs)
]

SourcesAfter-drop_all :
    (t u : ℤ) (ss : List Source) → SourcesAfter t ss → SourcesAfter t (drop_all u ss)
SourcesAfter-drop_all t u [] h = tt
SourcesAfter-drop_all t u ((n, vs) ∷ ss) (h, hs) =
    (ValuesAfter-drop_at t u vs h, SourcesAfter-drop_all t u ss hs)

ValuesAfter-trans :
    (s t : ℤ) (vs : List Value) → earlier s t ≡ true → NotBefore t vs → ValuesAfter s vs
ValuesAfter-trans s t [] h k = tt
ValuesAfter-trans s t (v ∷ vs) h (k, ks) =
    (earlier_le_trans s t v.unix_nano h k, ValuesAfter-trans s t vs h ks)

pub SourcesAfter-trans :
    (s t : ℤ) (ss : List Source) → earlier s t ≡ true → NoneBefore t ss → SourcesAfter s ss
SourcesAfter-trans s t [] h k = tt
SourcesAfter-trans s t ((n, vs) ∷ ss) h (k, ks) =
    (ValuesAfter-trans s t vs h k, SourcesAfter-trans s t ss h ks)

ValuesAfter-drop_at_first :
    (t : ℤ) (vs : List Value) → IsAscending vs → NotBefore t vs → ValuesAfter t (drop_at t vs)
unfolding drop_at
ValuesAfter-drop_at_first t [] a h = tt
ValuesAfter-drop_at_first t (v ∷ vs) (k, a) (h, hs) = elim (Bool-cases (same v.unix_nano t)) [
  | inl e ↦ rw (e, drop_at) (ValuesAfter-drop_at_first t vs a hs)
  | inr e ↦
      let later = after v.unix_nano t h e in
      rw (e, drop_at) (later, ValuesAfter-trans t v.unix_nano vs later k)
]
  where
    after : (a b : ℤ) → earlier a b ≡ false → same a b ≡ false → earlier b a ≡ true
    after a b h k = ground (arith, earlier_connex a b, same_iff a b)

SourcesAfter-drop_all_first :
    (t : ℤ) (ss : List Source) → AreAscending ss → NoneBefore t ss → SourcesAfter t (drop_all t ss)
SourcesAfter-drop_all_first t [] a h = tt
SourcesAfter-drop_all_first t ((n, vs) ∷ ss) (a, rest) (h, hs) =
    (ValuesAfter-drop_at_first t vs a h, SourcesAfter-drop_all_first t ss rest hs)

abbrev OptionAfter : ℤ → Option ℤ → Type 0
OptionAfter t none = Unit
OptionAfter t (some m) = earlier t m ≡ true

OptionAfter-lower :
    (t : ℤ) (m : Option ℤ) (u : ℤ)
    → OptionAfter t m
    → earlier t u ≡ true
    → OptionAfter t (lower m u)
unfolding lower
OptionAfter-lower t none u h k = k
OptionAfter-lower t (some m) u h k = elim (Bool-cases (earlier u m)) [
  | inl e ↦ rw e k
  | inr e ↦ rw e h
]

OptionAfter-next_time :
    (t : ℤ) (m : Option ℤ) (ss : List Source)
    → OptionAfter t m
    → SourcesAfter t ss
    → OptionAfter t (next_time m ss)
OptionAfter-next_time t m [] h k = h
OptionAfter-next_time t m ((n, []) ∷ ss) h (k, ks) = OptionAfter-next_time t m ss h ks
OptionAfter-next_time t m ((n, v ∷ vs) ∷ ss) h ((k, l), ks) =
    OptionAfter-next_time t (lower m v.unix_nano) ss (OptionAfter-lower t m v.unix_nano h k) ks

pub RowsAfter-rows :
    (fuel : ℕ) (t : ℤ) (ss : List Source) → SourcesAfter t ss → RowsAfter t (rows fuel ss)
unfolding rows
RowsAfter-rows zero t ss h = tt
RowsAfter-rows (suc fuel) t ss h = elim (Option-cases (next_time none ss)) [
  | inl e ↦ rw (e, rows) tt
  | inr (u, e) ↦
      let found : earlier t u ≡ true = rw e at (OptionAfter-next_time t none ss tt h) in
      rw (e, rows) (found, RowsAfter-rows fuel t (drop_all u ss) (SourcesAfter-drop_all t u ss h))
]

pub rows-AreRising : (fuel : ℕ) (ss : List Source) → AreAscending ss → AreRising (rows fuel ss)
unfolding rows
rows-AreRising zero ss a = tt
rows-AreRising (suc fuel) ss a = elim (Option-cases (next_time none ss)) [
  | inl e ↦ rw (e, rows) tt
  | inr (t, e) ↦
      let none_before = (next_time-NoneBefore none t ss a e).1 in
      rw (e, rows)
        (
          RowsAfter-rows fuel t (drop_all t ss) (SourcesAfter-drop_all_first t ss a none_before),
          rows-AreRising fuel (drop_all t ss) (AreAscending-drop_all t ss a),
        )
]

-- Fuel beyond the number of values makes no difference.
pub rows_fuel : (k l : ℕ) (ss : List Source) → size ss < k → size ss < l → rows k ss ≡ rows l ss
unfolding rows
rows_fuel zero l ss h g = absurd (omega arith)
rows_fuel (suc k) zero ss h g = absurd (omega arith)
rows_fuel (suc k) (suc l) ss h g = elim (Option-cases (next_time none ss)) [
  | inl e ↦ rw (e, rows) refl
  | inr (t, e) ↦
      let less = size-next_time-none t ss e in
      rw (e, rows)
        (ap (λ rs. (t, row_from t ss []) ∷ rs)
          (rows_fuel k l (drop_all t ss) (omega arith) (omega arith)))
]
