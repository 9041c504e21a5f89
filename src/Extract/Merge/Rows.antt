-- ===== src/Extract/Merge/Rows.antt =====
-- The merge of internal/extract/extract.go over whole lists of values, as rows without cursors.
use tsm2arc.Prelude.{
  ℕ, zero, suc, ◌+◌, ◌≤◌, ◌<◌, List, [], ◌∷◌, map, Option, none, some, if◌then◌else◌, length, Bytes,
  ◌≡◌, refl, sym, ◌∙◌, ◌⊎◌, inl, inr, arith, Bool-cases, Option-cases,
}
use tsm2arc.Prelude.Int64.{ℤ}
use tsm2arc.Prelude.Times.{same, same_iff}
use tsm2arc.Tsm.{Value}
use tsm2arc.Lp.{Field}
use tsm2arc.Extract.Stream.{Feed, feed_stream}
use tsm2arc.Extract.Merge.{
  Point, Stats, End, done, on_rest, least, gathered, lower, put_field, emit, find_min,
  gather_stream, gather, merge_loop,
}

-- A field and all the values that its stream will give.
abbrev pub Source : Type 0
Source = Bytes × List Value

abbrev pub embed : Source → Feed
embed (n, vs) = record { field = n; values = vs; failure = none }

-- A time and the fields of its point.
abbrev pub Row : Type 0
Row = ℤ × List Field

abbrev pub next_time : Option ℤ → List Source → Option ℤ
next_time m [] = m
next_time m ((n, []) ∷ ss) = next_time m ss
next_time m ((n, v ∷ vs) ∷ ss) = next_time (lower m v.unix_nano) ss

-- The values of a source at the time `t` are at its front.
unfoldable pub put_at : ℤ → Bytes → List Value → List Field → List Field
put_at t n [] buf = buf
put_at t n (v ∷ vs) buf =
    let more = put_at t n vs (put_field n v buf) in if same v.unix_nano t then more else buf

unfoldable pub drop_at : ℤ → List Value → List Value
drop_at t [] = []
drop_at t (v ∷ vs) = let more = drop_at t vs in if same v.unix_nano t then more else v ∷ vs

abbrev pub row_from : ℤ → List Source → List Field → List Field
row_from t [] buf = buf
row_from t ((n, vs) ∷ ss) buf = row_from t ss (put_at t n vs buf)

abbrev pub drop_all : ℤ → List Source → List Source
drop_all t [] = []
drop_all t ((n, vs) ∷ ss) = (n, drop_at t vs) ∷ drop_all t ss

abbrev pub size : List Source → ℕ
size [] = 0
size ((n, vs) ∷ ss) = length vs + size ss

unfoldable pub rows : ℕ → List Source → List Row
rows zero ss = []
rows (suc fuel) ss = elim (next_time none ss) [
  | none ↦ []
  | some t ↦ (t, row_from t ss []) ∷ rows fuel (drop_all t ss)
]

abbrev pub counted : Stats → List Row → Stats
counted st [] = st
counted st ((t, fields) ∷ rs) = counted (emit st t fields) rs

abbrev pub to_points : (ℤ → List Field → Point) → List Row → List Point
to_points point [] = []
to_points point ((t, fields) ∷ rs) = point t fields ∷ to_points point rs

find_min-next_time :
    (m : Option ℤ) (ss : List Source)
    → find_min feed_stream m (map embed ss) ≡ (map embed ss, least (next_time m ss))
unfolding find_min
find_min-next_time m [] = refl
find_min-next_time m ((n, []) ∷ ss) = rw (find_min-next_time m ss) refl
find_min-next_time m ((n, v ∷ vs) ∷ ss) = rw (find_min-next_time (lower m v.unix_nano) ss) refl

gather_stream-put_at :
    (fuel : ℕ) (t : ℤ) (n : Bytes) (vs : List Value) (buf : List Field)
    → length vs < fuel
    → gather_stream feed_stream fuel t (embed (n, vs)) buf
      ≡ (embed (n, drop_at t vs), gathered (put_at t n vs buf))
unfolding gather_stream put_at drop_at
gather_stream-put_at zero t n vs buf h = absurd (omega arith)
gather_stream-put_at (suc fuel) t n [] buf h = refl
gather_stream-put_at (suc fuel) t n (v ∷ vs) buf h = elim (Bool-cases (same v.unix_nano t)) [
  | inl e ↦
      rw (e, gather_stream) (gather_stream-put_at fuel t n vs (put_field n v buf) (omega arith))
  | inr e ↦ rw (e, gather_stream) refl
]

gather-cons :
    (fuel : ℕ) (t : ℤ) (s : Feed) (ss : List Feed) (buf : List Field) {s' : Feed} {b : List Field}
    → gather_stream feed_stream fuel t s buf ≡ (s', gathered b)
    → gather feed_stream fuel t (s ∷ ss) buf ≡ on_rest s' (gather feed_stream fuel t ss b)
unfolding gather
gather-cons fuel t s ss buf h = rw (h, gather) (rw h refl)

merge_loop-round :
    (fuel : ℕ) (point : ℤ → List Field → Point) (ss : List Feed) (st : Stats)
    → {ss' : List Feed} {t : ℤ} {ss'' : List Feed} {b : List Field} {ps : List Point} {st' : Stats}
      {end : End}
    → find_min feed_stream none ss ≡ (ss', least (some t))
    → gather feed_stream (suc fuel) t ss' [] ≡ (ss'', gathered b)
    → merge_loop feed_stream fuel point ss'' (emit st t b) ≡ (ps, st', end)
    → merge_loop feed_stream (suc fuel) point ss st ≡ (point t b ∷ ps, st', end)
unfolding merge_loop
merge_loop-round fuel point ss st h g k =
    rw (h, merge_loop) (rw h (rw (g, merge_loop) (rw h (rw g (rw k refl)))))

gather-row_from :
    (fuel : ℕ) (t : ℤ) (ss : List Source) (buf : List Field)
    → size ss < fuel
    → gather feed_stream fuel t (map embed ss) buf
      ≡ (map embed (drop_all t ss), gathered (row_from t ss buf))
unfolding gather
gather-row_from fuel t [] buf h = refl
gather-row_from fuel t ((n, vs) ∷ ss) buf h =
    gather-cons fuel t (embed (n, vs)) (map embed ss) buf
      (gather_stream-put_at fuel t n vs buf (omega arith))
    ∙ rw (gather-row_from fuel t ss (put_at t n vs buf) (omega arith)) refl

length-drop_at : (t : ℤ) (vs : List Value) → length (drop_at t vs) ≤ length vs
unfolding drop_at
length-drop_at t [] = omega arith
length-drop_at t (v ∷ vs) = let ih = length-drop_at t vs in ground arith

length-drop_at_head :
    (t : ℤ) (v : Value) (vs : List Value)
    → v.unix_nano ≡ t
    → length (drop_at t (v ∷ vs)) < suc (length vs)
unfolding drop_at
length-drop_at_head t v vs e =
    rw ((same_iff v.unix_nano t).1 e, drop_at) (omega (arith, length-drop_at t vs))

size-drop_all : (t : ℤ) (ss : List Source) → size (drop_all t ss) ≤ size ss
size-drop_all t [] = omega arith
size-drop_all t ((n, vs) ∷ ss) = omega (arith, length-drop_at t vs, size-drop_all t ss)

lower-cases : (m : Option ℤ) (u : ℤ) → (lower m u ≡ m) ⊎ (lower m u ≡ some u)
unfolding lower
lower-cases none u = inr refl
lower-cases (some m) u = ground arith

-- The time that is found is one that the search started with, or taking it away shrinks the sources.
size-next_time :
    (m : Option ℤ) (t : ℤ) (ss : List Source)
    → next_time m ss ≡ some t
    → (m ≡ some t) ⊎ (size (drop_all t ss) < size ss)
size-next_time m t [] h = inl h
size-next_time m t ((n, []) ∷ ss) h = elim (size-next_time m t ss h) [
  | inl e ↦ inl e
  | inr lt ↦ inr (unfold drop_at in omega arith)
]
size-next_time m t ((n, v ∷ vs) ∷ ss) h = elim (size-next_time (lower m v.unix_nano) t ss h) [
  | inr lt ↦ inr (omega (arith, length-drop_at t (v ∷ vs)))
  | inl e ↦ elim (lower-cases m v.unix_nano) [
    | inl k ↦ inl (sym k ∙ e)
    | inr k ↦
        let same_time : v.unix_nano ≡ t = cc in
        inr (omega (arith, length-drop_at_head t v vs same_time, size-drop_all t ss))
  ]
]

pub size-next_time-none :
    (t : ℤ) (ss : List Source) → next_time none ss ≡ some t → size (drop_all t ss) < size ss
size-next_time-none t ss h = elim (size-next_time none t ss h) [ inl e ↦ cc | inr lt ↦ lt ]

-- With fuel beyond the number of values, the merge of whole lists ends, and its points are the rows.
pub merge_loop-rows :
    (fuel : ℕ) (point : ℤ → List Field → Point) (ss : List Source) (st : Stats)
    → size ss < fuel
    → merge_loop feed_stream fuel point (map embed ss) st
      ≡ (to_points point (rows fuel ss), counted st (rows fuel ss), done)
unfolding merge_loop rows
merge_loop-rows zero point ss st h = absurd (omega arith)
merge_loop-rows (suc fuel) point ss st h = elim (Option-cases (next_time none ss)) [
  | inl e ↦ rw (find_min-next_time none ss, e, merge_loop, rows) refl
  | inr (t, e) ↦
      let less = size-next_time-none t ss e in
      let ih =
        merge_loop-rows fuel point (drop_all t ss) (emit st t (row_from t ss [])) (omega arith) in
      let found = find_min-next_time none ss ∙ rw e refl in
      merge_loop-round fuel point (map embed ss) st found (gather-row_from (suc fuel) t ss [] h) ih
      ∙ rw (e, rows) refl
]
