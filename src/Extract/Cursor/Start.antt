-- ===== src/Extract/Cursor/Start.antt =====
-- `seriesStartFor` of internal/extract/extract.go: the window it leaves of a series.
use tsm2arc.Prelude.{
  suc, ◌+◌, List, [], ◌∷◌, Bool, true, false, not, some, if◌then◌else◌, ◌≡◌, refl, sym, ap, ◌∙◌,
  inl, inr, arith, Bool-cases,
}
use tsm2arc.Prelude.Int64.{ℤ, pos, pos_part, neg_part, IsInt64, add64, uint64, int64, max_int64}
use tsm2arc.Prelude.Times.{
  earlier, same, earlier→lt, lt→earlier, earlier_trans, not_earlier_trans, not_earlier→le,
  le→not_earlier,
}
use tsm2arc.Prelude.Strings.{str_eq_refl}
use tsm2arc.Tsm.{Value}
use tsm2arc.Extract.Slice.Lawful.{in_window}
use tsm2arc.Extract.Merge.Resume.{values_after}
use tsm2arc.Extract.Cursor.{Cursor, series_start_for}

add64_next :
    (c : ℤ)
    → IsInt64 c
    → same c max_int64 ≡ false
    → pos_part (add64 c (pos 1)) + neg_part c ≡ suc (pos_part c + neg_part (add64 c (pos 1)))
unfolding add64 uint64 int64 same
add64_next c h d = ground arith

-- `v < c + 1` when `v ≤ c`.
earlier-add64_next :
    (v c : ℤ)
    → IsInt64 c
    → same c max_int64 ≡ false
    → earlier v (add64 c (pos 1)) ≡ not (earlier c v)
earlier-add64_next v c h d =
    let next = add64_next c h d in
    elim (Bool-cases (earlier c v)) [
      | inl e ↦ rw e (le→not_earlier v (add64 c (pos 1)) (omega (arith, earlier→lt c v e, next)))
      | inr e ↦ rw e (lt→earlier v (add64 c (pos 1)) (omega (arith, not_earlier→le c v e, next)))
    ]

-- The bound `c + 1`, where it is the later one, and the bound `start`, where that is.
next_bound :
    (start c v : ℤ)
    → earlier v (add64 c (pos 1)) ≡ not (earlier c v)
    → (if earlier start (add64 c (pos 1)) then earlier v (add64 c (pos 1)) else earlier v start)
      ≡ (if earlier v start then true else not (earlier c v))
next_bound start c v h = elim (Bool-cases (earlier start (add64 c (pos 1)))) [
  | inl later ↦ elim (Bool-cases (earlier v start)) [
    | inl e ↦ rw (later, e) (earlier_trans v start (add64 c (pos 1)) e later)
    | inr e ↦ rw (later, e) h
  ]
  | inr sooner ↦ elim (Bool-cases (earlier v start)) [
    | inl e ↦ rw (sooner, e) refl
    | inr e ↦ rw (sooner, e) (sym (not_earlier_trans (add64 c (pos 1)) start v sooner e) ∙ h)
  ]
]

-- The start that is given cuts off the values through the cursor, and those before `start`.
pub series_start_for-earlier :
    (start : ℤ) (cur : Cursor) (v : ℤ) {from : ℤ}
    → IsInt64 cur.unix_nano
    → series_start_for cur.series_key start (some cur) ≡ (from, true)
    → earlier v from ≡ (if earlier v start then true else not (earlier cur.unix_nano v))
unfolding series_start_for
series_start_for-earlier start cur v {from} h e =
    let own = str_eq_refl cur.series_key in
    elim (Bool-cases (same cur.unix_nano max_int64)) [
      | inl last ↦ absurd (no_start (rw (own, last) at e))
      | inr d ↦
          let chosen : (if earlier start next then next else start) ≡ from =
            which (earlier start next) (rw (own, d) at e) in
          rw (← chosen) (
            spread (earlier start next)
            ∙ next_bound start cur.unix_nano v (earlier-add64_next v cur.unix_nano h d))
    ]
  where
    next : ℤ
    next = add64 cur.unix_nano (pos 1)

    no_start : ¬ (Path (ℤ × Bool) (pos 0, false) (from, true))
    no_start p = cc

    which :
        (b : Bool)
        → ◌≡◌ {A = ℤ × Bool} (if b then (next, true) else (start, true)) (from, true)
        → (if b then next else start) ≡ from
    which true p = ap (λ x. x.0) p
    which false p = ap (λ x. x.0) p

    spread :
        (b : Bool)
        → earlier v (if b then next else start) ≡ (if b then earlier v next else earlier v start)
    spread true = refl
    spread false = refl

pub in_window-values_after :
    (start from end c : ℤ) (vs : List Value)
    → ((v : ℤ) → earlier v from ≡ (if earlier v start then true else not (earlier c v)))
    → in_window from end vs ≡ values_after c (in_window start end vs)
unfolding in_window values_after
in_window-values_after start from end c [] h = refl
in_window-values_after start from end c (v ∷ vs) h =
    ground (arith, in_window-values_after start from end c vs h, h v.unix_nano)
