-- ===== src/Extract/Merge/LastWrite.antt =====
-- The merge of internal/extract/extract.go: the last write of a field at a time wins.
use tsm2arc.Prelude.{
  ℕ, zero, suc, ◌<◌, List, [], ◌∷◌, false, Option, none, some, Bytes, ◌≡◌, refl, sym, ◌∙◌, inl, inr,
  arith, Bool-cases, Option-cases,
}
use tsm2arc.Prelude.Int64.{ℤ}
use tsm2arc.Prelude.Times.{earlier, same, same_iff}
use tsm2arc.Prelude.Strings.{str_eq}
use tsm2arc.Tsm.{Value}
use tsm2arc.Extract.Merge.{lower}
use tsm2arc.Extract.Merge.Rows.{
  Source, next_time, drop_at, drop_all, rows, size, size-next_time-none,
}
use tsm2arc.Extract.Merge.Row.{
  last_value, last_write, field_value, value_at, IsAscending, AreAscending, field_value-row_from,
  next_time-NoneBefore,
}

-- A source's values at other times stay when those at `t` are dropped.
last_value-drop_at :
    (t u : ℤ) (vs : List Value) (before : Option Value)
    → same t u ≡ false
    → last_value u (drop_at t vs) before ≡ last_value u vs before
unfolding last_value drop_at
last_value-drop_at t u [] before d = refl
last_value-drop_at t u (v ∷ vs) before d = elim (Bool-cases (same v.unix_nano t)) [
  | inl e ↦
      let at_t : v.unix_nano ≡ t = (same_iff v.unix_nano t).0 e in
      rw (e, drop_at) (rw (at_t, d) (last_value-drop_at t u vs before d))
  | inr e ↦ rw (e, drop_at) refl
]

last_write-drop_all :
    (t u : ℤ) (f : Bytes) (ss : List Source) (before : Option Value)
    → same t u ≡ false
    → last_write f u (drop_all t ss) before ≡ last_write f u ss before
unfolding last_write
last_write-drop_all t u f [] before d = refl
last_write-drop_all t u f ((n, vs) ∷ ss) before d =
    rw (last_value-drop_at t u vs before d, last_write) (last_write-drop_all t u f ss _ d)

IsAscending-drop_at : (t : ℤ) (vs : List Value) → IsAscending vs → IsAscending (drop_at t vs)
unfolding drop_at
IsAscending-drop_at t [] a = tt
IsAscending-drop_at t (v ∷ vs) (k, a) = elim (Bool-cases (same v.unix_nano t)) [
  | inl e ↦ rw (e, drop_at) (IsAscending-drop_at t vs a)
  | inr e ↦ rw (e, drop_at) (k, a)
]

pub AreAscending-drop_all :
    (t : ℤ) (ss : List Source) → AreAscending ss → AreAscending (drop_all t ss)
AreAscending-drop_all t [] a = tt
AreAscending-drop_all t ((n, vs) ∷ ss) (a, rest) =
    (IsAscending-drop_at t vs a, AreAscending-drop_all t ss rest)

-- Without a time to find, no source has a value.
last_write-none_left :
    (f : Bytes) (u : ℤ) (ss : List Source) (before : Option Value)
    → size ss ≡ 0
    → last_write f u ss before ≡ before
unfolding last_write last_value
last_write-none_left f u [] before h = refl
last_write-none_left f u ((n, []) ∷ ss) before h = elim (Bool-cases (str_eq n f)) [
  | inl e ↦ rw e (last_write-none_left f u ss before (omega arith))
  | inr e ↦ rw e (last_write-none_left f u ss before (omega arith))
]
last_write-none_left f u ((n, v ∷ vs) ∷ ss) before h = absurd (omega arith)

next_time-some : (m : ℤ) (ss : List Source) → ¬ (next_time (some m) ss ≡ none)
unfolding lower
next_time-some m [] h = cc
next_time-some m ((n, []) ∷ ss) h = next_time-some m ss h
next_time-some m ((n, v ∷ vs) ∷ ss) h = elim (Bool-cases (earlier v.unix_nano m)) [
  | inl e ↦ next_time-some v.unix_nano ss (rw e at h)
  | inr e ↦ next_time-some m ss (rw e at h)
]

pub size-next_time_gone : (ss : List Source) → next_time none ss ≡ none → size ss ≡ 0
size-next_time_gone [] h = refl
size-next_time_gone ((n, []) ∷ ss) h = omega (arith, size-next_time_gone ss h)
size-next_time_gone ((n, v ∷ vs) ∷ ss) h =
    absurd (next_time-some v.unix_nano ss (unfold lower in h))

-- The rows, read as a table, hold the last write of each field at each time, and nothing else.
pub value_at-rows :
    (fuel : ℕ) (f : Bytes) (u : ℤ) (ss : List Source)
    → AreAscending ss
    → size ss < fuel
    → value_at f u (rows fuel ss) ≡ last_write f u ss none
unfolding value_at rows field_value
value_at-rows zero f u ss a h = absurd (omega arith)
value_at-rows (suc fuel) f u ss a h = elim (Option-cases (next_time none ss)) [
  | inl e ↦ rw (e, rows) (sym (last_write-none_left f u ss none (size-next_time_gone ss e)))
  | inr (t, e) ↦
      let less = size-next_time-none t ss e in
      let none_before = (next_time-NoneBefore none t ss a e).1 in
      let ih =
        value_at-rows fuel f u (drop_all t ss) (AreAscending-drop_all t ss a) (omega arith) in
      elim (Bool-cases (same t u)) [
        | inl s ↦
            let at_u : t ≡ u = (same_iff t u).0 s in
            rw (e, rows) (rw s (field_value-row_from t f ss [] a none_before ∙ rw at_u refl))
        | inr s ↦ rw (e, rows) (rw s (ih ∙ last_write-drop_all t u f ss none s))
      ]
]
