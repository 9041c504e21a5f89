-- ===== src/Extract/Merge/Resume.antt =====
-- The merge of internal/extract/extract.go over the values after a time: the rest of the rows.
use tsm2arc.Prelude.{
  ℕ, zero, suc, ◌≤◌, ◌<◌, List, [], ◌∷◌, false, none, if◌then◌else◌, length, ◌≡◌, refl, sym, ap,
  ap₂, ◌∙◌, inl, inr, arith, Bool-cases, Option-cases,
}
use tsm2arc.Prelude.Int64.{ℤ}
use tsm2arc.Prelude.Times.{earlier, same, same_iff}
use tsm2arc.Tsm.{Value}
use tsm2arc.Extract.Merge.Rows.{
  Source, Row, next_time, drop_at, drop_all, rows, size, size-next_time-none,
}
use tsm2arc.Extract.Merge.LastWrite.{AreAscending-drop_all, size-next_time_gone}
use tsm2arc.Extract.Merge.Row.{AreAscending, next_time-NoneBefore}
use tsm2arc.Extract.Merge.Order.{
  ValuesAfter, SourcesAfter, RowsAfter, SourcesAfter-trans, RowsAfter-rows, rows_fuel,
}

-- The values after the time `c`.
unfoldable pub values_after : ℤ → List Value → List Value
values_after c [] = []
values_after c (v ∷ vs) =
    let rest = values_after c vs in if earlier c v.unix_nano then v ∷ rest else rest

abbrev pub sources_after : ℤ → List Source → List Source
sources_after c [] = []
sources_after c ((n, vs) ∷ ss) = (n, values_after c vs) ∷ sources_after c ss

unfoldable pub rows_after : ℤ → List Row → List Row
rows_after c [] = []
rows_after c ((t, fields) ∷ rs) =
    let rest = rows_after c rs in if earlier c t then (t, fields) ∷ rest else rest

values_after_all : (c : ℤ) (vs : List Value) → ValuesAfter c vs → values_after c vs ≡ vs
unfolding values_after
values_after_all c [] h = refl
values_after_all c (v ∷ vs) (h, hs) =
    rw (h, values_after) (ap (λ ws. v ∷ ws) (values_after_all c vs hs))

sources_after_all : (c : ℤ) (ss : List Source) → SourcesAfter c ss → sources_after c ss ≡ ss
sources_after_all c [] h = refl
sources_after_all c ((n, vs) ∷ ss) (h, hs) =
    ap₂ (λ ws rs. (n, ws) ∷ rs) (values_after_all c vs h) (sources_after_all c ss hs)

rows_after_all : (c : ℤ) (rs : List Row) → RowsAfter c rs → rows_after c rs ≡ rs
unfolding rows_after
rows_after_all c [] h = refl
rows_after_all c ((t, fields) ∷ rs) (h, hs) =
    rw (h, rows_after) (ap (λ ws. (t, fields) ∷ ws) (rows_after_all c rs hs))

values_after-drop_at :
    (c t : ℤ) (vs : List Value)
    → earlier c t ≡ false
    → values_after c (drop_at t vs) ≡ values_after c vs
unfolding values_after drop_at
values_after-drop_at c t [] h = refl
values_after-drop_at c t (v ∷ vs) h = elim (Bool-cases (same v.unix_nano t)) [
  | inl e ↦
      let at_t : v.unix_nano ≡ t = (same_iff v.unix_nano t).0 e in
      rw (e, drop_at) (rw (at_t, h) (values_after-drop_at c t vs h))
  | inr e ↦ rw (e, drop_at) refl
]

sources_after-drop_all :
    (c t : ℤ) (ss : List Source)
    → earlier c t ≡ false
    → sources_after c (drop_all t ss) ≡ sources_after c ss
sources_after-drop_all c t [] h = refl
sources_after-drop_all c t ((n, vs) ∷ ss) h =
    ap₂ (λ ws rs. (n, ws) ∷ rs) (values_after-drop_at c t vs h) (sources_after-drop_all c t ss h)

length-values_after : (c : ℤ) (vs : List Value) → length (values_after c vs) ≤ length vs
unfolding values_after
length-values_after c [] = omega arith
length-values_after c (v ∷ vs) = let ih = length-values_after c vs in ground arith

pub size-sources_after : (c : ℤ) (ss : List Source) → size (sources_after c ss) ≤ size ss
size-sources_after c [] = omega arith
size-sources_after c ((n, vs) ∷ ss) =
    omega (arith, length-values_after c vs, size-sources_after c ss)

rows-sources_after_none :
    (fuel : ℕ) (c : ℤ) (ss : List Source) → size ss ≡ 0 → rows fuel (sources_after c ss) ≡ []
unfolding rows values_after
rows-sources_after_none zero c ss h = refl
rows-sources_after_none (suc fuel) c ss h = rw (no_time ss h, rows) refl
  where
    no_time : (ss : List Source) → size ss ≡ 0 → next_time none (sources_after c ss) ≡ none
    no_time [] h = refl
    no_time ((n, []) ∷ ss) h = no_time ss (omega arith)
    no_time ((n, v ∷ vs) ∷ ss) h = absurd (omega arith)

-- The rows of the values after `c` are the rows after `c`, whole: a row is never split by a bound.
pub rows-sources_after :
    (fuel : ℕ) (c : ℤ) (ss : List Source)
    → AreAscending ss
    → size ss < fuel
    → rows fuel (sources_after c ss) ≡ rows_after c (rows fuel ss)
unfolding rows_after
rows-sources_after zero c ss a h = absurd (omega arith)
rows-sources_after (suc fuel) c ss a h = elim (Option-cases (next_time none ss)) [
  | inl e ↦
      rows-sources_after_none (suc fuel) c ss (size-next_time_gone ss e)
      ∙ sym (unfold rows in rw (e, rows) refl)
  | inr (t, e) ↦
      let none_before = (next_time-NoneBefore none t ss a e).1 in
      let less = size-next_time-none t ss e in
      elim (Bool-cases (earlier c t)) [
        | inl k ↦
            let all_after = SourcesAfter-trans c t ss k none_before in
            ap (rows (suc fuel)) (sources_after_all c ss all_after)
            ∙ sym (rows_after_all c (rows (suc fuel) ss) (RowsAfter-rows (suc fuel) c ss all_after))
        | inr k ↦
            let ih =
              rows-sources_after fuel c (drop_all t ss) (AreAscending-drop_all t ss a)
                (omega arith) in
            let left = sources_after-drop_all c t ss k in
            let small = size-sources_after c (drop_all t ss) in
            let small' = ap size left in
            rows_fuel (suc fuel) fuel (sources_after c ss) (omega arith) (omega arith)
            ∙ ap (rows fuel) (sym left)
            ∙ ih
            ∙ sym (unfold rows in rw (e, rows) (rw k refl))
      ]
]
