-- ===== src/Extract/Slice/Sort.antt =====
-- The sort of `newSliceStream` in internal/extract/extract.go: ascending, and stable enough for the
-- last write at each time to stay the last.
use tsm2arc.Prelude.{
  List, [], ◌∷◌, Bool, true, false, Option, some, if◌then◌else◌, length, suc, ◌≡◌, refl, ap, ◌∙◌,
  inl, inr, arith, Bool-cases,
}
use tsm2arc.Prelude.Int64.{ℤ}
use tsm2arc.Prelude.Times.{earlier, same, same_iff, earlier_asymm, same-false}
use tsm2arc.Tsm.{Value}
use tsm2arc.Extract.Slice.{ascending_from, ascending_by_time, insert_value, sort_by_time}
use tsm2arc.Extract.Merge.Row.{NotBefore, IsAscending, NotBefore-trans, last_value}

ascending_from-IsAscending :
    (v : Value) (vs : List Value)
    → ascending_from v vs ≡ true
    → NotBefore v.unix_nano vs × IsAscending vs
unfolding ascending_from
ascending_from-IsAscending v [] h = (tt, tt)
ascending_from-IsAscending v (w ∷ vs) h =
    let (p, q) = both (earlier w.unix_nano v.unix_nano) (ascending_from w vs) h in
    let (k, a) = ascending_from-IsAscending w vs q in
    ((p, NotBefore-trans v.unix_nano w.unix_nano vs p k), (k, a))
  where
    both : (a b : Bool) → (if a then false else b) ≡ true → (a ≡ false) × (b ≡ true)
    both true b h = cc
    both false b h = (refl, h)

pub ascending_by_time-IsAscending : (vs : List Value) → ascending_by_time vs ≡ true → IsAscending vs
unfolding ascending_by_time
ascending_by_time-IsAscending [] h = tt
ascending_by_time-IsAscending (v ∷ vs) h = ascending_from-IsAscending v vs h

NotBefore-insert_value :
    (t : ℤ) (v : Value) (vs : List Value)
    → earlier v.unix_nano t ≡ false
    → NotBefore t vs
    → NotBefore t (insert_value v vs)
unfolding insert_value
NotBefore-insert_value t v [] h k = (h, tt)
NotBefore-insert_value t v (w ∷ ws) h (k, ks) =
    elim (Bool-cases (earlier w.unix_nano v.unix_nano)) [
      | inl e ↦ rw (e, insert_value) (k, NotBefore-insert_value t v ws h ks)
      | inr e ↦ rw (e, insert_value) (h, (k, ks))
    ]

insert_value-IsAscending :
    (v : Value) (vs : List Value) → IsAscending vs → IsAscending (insert_value v vs)
unfolding insert_value
insert_value-IsAscending v [] a = (tt, tt)
insert_value-IsAscending v (w ∷ ws) (k, a) = elim (Bool-cases (earlier w.unix_nano v.unix_nano)) [
  | inl e ↦
      rw (e, insert_value)
        (
          NotBefore-insert_value w.unix_nano v ws (earlier_asymm w.unix_nano v.unix_nano e) k,
          insert_value-IsAscending v ws a,
        )
  | inr e ↦ rw (e, insert_value) ((e, NotBefore-trans v.unix_nano w.unix_nano ws e k), (k, a))
]

pub sort_by_time-IsAscending : (vs : List Value) → IsAscending (sort_by_time vs)
unfolding sort_by_time
sort_by_time-IsAscending [] = tt
sort_by_time-IsAscending (v ∷ vs) =
    insert_value-IsAscending v (sort_by_time vs) (sort_by_time-IsAscending vs)

last_value-insert_value :
    (t : ℤ) (v : Value) (vs : List Value) (before : Option Value)
    → last_value t (insert_value v vs) before
      ≡ last_value t vs (if same v.unix_nano t then some v else before)
unfolding insert_value last_value
last_value-insert_value t v [] before = refl
last_value-insert_value t v (w ∷ ws) before = elim (Bool-cases (earlier w.unix_nano v.unix_nano)) [
  | inl e ↦
      rw (e, insert_value)
        (last_value-insert_value t v ws _
          ∙ ap (last_value t ws)
              (swap (same v.unix_nano t) (same w.unix_nano t) (apart w.unix_nano v.unix_nano t e)))
  | inr e ↦ rw (e, insert_value) refl
]
  where
    -- The two times differ, so one at most is `t`.
    apart : (a b u : ℤ) → earlier a b ≡ true → same b u ≡ true → same a u ≡ false
    apart a b u h k = ground (arith, same-false a b h, same_iff b u)

    swap :
        (p q : Bool)
        → (p ≡ true → q ≡ false)
        → (if p then some v else if q then some w else before)
          ≡ (if q then some w else if p then some v else before)
    swap p q h = ground arith

pub last_value-sort_by_time :
    (t : ℤ) (vs : List Value) (before : Option Value)
    → last_value t (sort_by_time vs) before ≡ last_value t vs before
unfolding sort_by_time last_value
last_value-sort_by_time t [] before = refl
last_value-sort_by_time t (v ∷ vs) before =
    last_value-insert_value t v (sort_by_time vs) before ∙ last_value-sort_by_time t vs _

length-insert_value : (v : Value) (vs : List Value) → length (insert_value v vs) ≡ suc (length vs)
unfolding insert_value
length-insert_value v [] = refl
length-insert_value v (w ∷ ws) = let ih = length-insert_value v ws in ground arith

pub length-sort_by_time : (vs : List Value) → length (sort_by_time vs) ≡ length vs
unfolding sort_by_time
length-sort_by_time [] = refl
length-sort_by_time (v ∷ vs) =
    length-insert_value v (sort_by_time vs) ∙ ap suc (length-sort_by_time vs)
