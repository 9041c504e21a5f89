-- ===== src/Extract/Shard/Resumed.antt =====
-- A shard of internal/extract/extract.go that is read again from a resume cursor.
use mathlib.Core.Path.{subst}
use tsm2arc.Prelude.{
  List, [], ◌∷◌, ◌++◌, Bool, true, false, ◌&&◌, ◌||◌, none, some, if◌then◌else◌, Bytes, ◌≡◌, refl,
  sym, ap, ap₂, ◌∙◌, inl, inr, arith, All, Bool-cases,
}
use tsm2arc.Prelude.Int64.{ℤ}
use tsm2arc.Prelude.Times.{earlier}
use tsm2arc.Prelude.Strings.{str_eq, str_lt, str_eq_iff, str_lt_irrefl, str_lt_asymm}
use tsm2arc.Prelude.Sorting.{sort_strings, has_string, has_string-sort_strings}
use tsm2arc.Extract.Merge.{Point}
use tsm2arc.Extract.Merge.Points.{points_after}
use tsm2arc.Extract.Cursor.{Cursor, series_start_for}
use tsm2arc.Extract.Cursor.Apply.{
  strings_from, apply_cursor-strings_from, strings_from_whole, has_string_before,
}
use tsm2arc.Extract.Shard.{series_round, emit_series, shard_points}

-- The point is behind the cursor: of a later series, or of the same one and later.
abbrev pub is_past : Cursor → Point → Bool
is_past cur p =
    str_lt cur.series_key p.series_key
    || (str_eq p.series_key cur.series_key && earlier cur.unix_nano p.unix_nano)

unfoldable pub points_past : Cursor → List Point → List Point
points_past cur [] = []
points_past cur (p ∷ ps) = let rest = points_past cur ps in if is_past cur p then p ∷ rest else rest

-- Each series is there once, in order.
abbrev pub AreDistinct : List Bytes → Type 0
AreDistinct [] = Unit
AreDistinct (s ∷ ss) = All (λ t. str_lt s t ≡ true) ss × AreDistinct ss

abbrev pub OfSeries : Bytes → List Point → Type 0
OfSeries sk ps = All (λ p. p.series_key ≡ sk) ps

points_past_append :
    (cur : Cursor) (ps qs : List Point)
    → points_past cur (ps ++ qs) ≡ points_past cur ps ++ points_past cur qs
unfolding points_past
points_past_append cur [] qs = refl
points_past_append cur (p ∷ ps) qs = elim (Bool-cases (is_past cur p)) [
  | inl e ↦ rw (e, points_past) (ap (λ rs. p ∷ rs) (points_past_append cur ps qs))
  | inr e ↦ rw (e, points_past) (points_past_append cur ps qs)
]

points_past_before :
    (cur : Cursor) (sk : Bytes) (ps : List Point)
    → str_lt sk cur.series_key ≡ true
    → OfSeries sk ps
    → points_past cur ps ≡ []
unfolding points_past
points_past_before cur sk [] h k = refl
points_past_before cur sk (p ∷ ps) h (k, ks) =
    let out : is_past cur p ≡ false = rw k (of_tests sk cur.series_key h) in
    rw (out, points_past) (points_past_before cur sk ps h ks)
  where
    of_tests :
        (s t : Bytes)
        → str_lt s t ≡ true
        → (str_lt t s || (str_eq s t && earlier cur.unix_nano p.unix_nano)) ≡ false
    of_tests s t h = ground (arith, str_lt_asymm s t h, str_eq_iff s t, str_lt_irrefl s)

points_past_later :
    (cur : Cursor) (sk : Bytes) (ps : List Point)
    → str_lt cur.series_key sk ≡ true
    → OfSeries sk ps
    → points_past cur ps ≡ ps
unfolding points_past
points_past_later cur sk [] h k = refl
points_past_later cur sk (p ∷ ps) h (k, ks) =
    let past : is_past cur p ≡ true = rw (k, h) refl in
    rw (past, points_past) (ap (λ rs. p ∷ rs) (points_past_later cur sk ps h ks))

points_past-points_after :
    (cur : Cursor) (ps : List Point)
    → OfSeries cur.series_key ps
    → points_past cur ps ≡ points_after cur.unix_nano ps
unfolding points_past points_after
points_past-points_after cur [] k = refl
points_past-points_after cur (p ∷ ps) (k, ks) =
    let same_test : is_past cur p ≡ earlier cur.unix_nano p.unix_nano =
      rw k (of_tests cur.series_key) in
    rw same_test (
      ap (λ rs. if earlier cur.unix_nano p.unix_nano then p ∷ rs else rs)
        (points_past-points_after cur ps ks))
  where
    of_tests :
        (s : Bytes)
        → (str_lt s s || (str_eq s s && earlier cur.unix_nano p.unix_nano))
          ≡ earlier cur.unix_nano p.unix_nano
    of_tests s = ground (arith, str_eq_iff s s, str_lt_irrefl s)

module _ (points : Bytes → ℤ → List Point) (start : ℤ) (cur : Cursor)
    (own : (sk : Bytes) → OfSeries sk (points sk start))
    (resumes : series_round points start (some cur) cur.series_key
      ≡ points_after cur.unix_nano (points cur.series_key start)) where
  round_other :
      (sk : Bytes)
      → str_eq sk cur.series_key ≡ false
      → series_round points start (some cur) sk ≡ points sk start
  unfolding series_start_for
  round_other sk h = rw h refl

  round_own :
      (sk : Bytes)
      → sk ≡ cur.series_key
      → series_round points start (some cur) sk ≡ points_past cur (points sk start)
  round_own sk e = rw e (
      resumes
      ∙ sym (points_past-points_after cur (points cur.series_key start) (own cur.series_key)))

  emit_series_later :
      (sks : List Bytes)
      → All (λ sk. str_lt cur.series_key sk ≡ true) sks
      → emit_series points start (some cur) sks
        ≡ points_past cur (emit_series points start none sks)
  unfolding emit_series series_start_for
  emit_series_later [] h = unfold points_past in refl
  emit_series_later (sk ∷ sks) (h, hs) =
      let differ : str_eq sk cur.series_key ≡ false =
        ground (arith, str_eq_iff sk cur.series_key, str_lt_irrefl sk) in
      ap₂ (λ ps qs. ps ++ qs)
        (round_other sk differ ∙ sym (points_past_later cur sk (points sk start) h (own sk)))
        (emit_series_later sks hs)
      ∙ sym (points_past_append cur (points sk start) (emit_series points start none sks))

  not_below :
      (s : Bytes) (ss : List Bytes)
      → All (λ t. str_lt s t ≡ true) ss
      → All (λ t. str_lt t s ≡ false) ss
  not_below s [] h = tt
  not_below s (t ∷ ss) (h, hs) = (str_lt_asymm s t h, not_below s ss hs)

  emit_series-strings_from :
      (ss : List Bytes)
      → AreDistinct ss
      → has_string cur.series_key ss ≡ true
      → emit_series points start (some cur) (strings_from cur.series_key ss)
        ≡ points_past cur (emit_series points start none ss)
  unfolding emit_series strings_from has_string series_start_for
  emit_series-strings_from [] d h = cc
  emit_series-strings_from (s ∷ ss) (d, ds) h =
      let ih = emit_series-strings_from ss ds in
      let split = points_past_append cur (points s start) (emit_series points start none ss) in
      elim (Bool-cases (str_lt s cur.series_key)) [
        | inl e ↦
            let differ : str_eq s cur.series_key ≡ false =
              ground (arith, str_eq_iff s cur.series_key, str_lt_irrefl s) in
            rw (e, strings_from)
              (ih (rw differ at h)
                ∙ ap (λ ps. ps ++ points_past cur (emit_series points start none ss))
                    (sym (points_past_before cur s (points s start) e (own s)))
                ∙ sym split)
        | inr e ↦
            let whole = strings_from_whole cur.series_key s ss e (not_below s ss d) in
            elim (Bool-cases (str_eq s cur.series_key)) [
              | inl q ↦
                  let own_series : s ≡ cur.series_key = (str_eq_iff s cur.series_key).0 q in
                  let later = subst (λ k. All (λ sk. str_lt k sk ≡ true) ss) own_series d in
                  rw (e, strings_from)
                    (rw whole (
                      ap₂ (λ ps qs. ps ++ qs) (round_own s own_series) (emit_series_later ss later)
                      ∙ sym split))
              | inr q ↦
                  let gone = has_string_before cur.series_key s ss e q (not_below s ss d) in
                  let there : has_string cur.series_key ss ≡ true = rw q at h in cc
            ]
      ]

  -- For a cursor whose series is in the shard, where the points of the series from the start that the
  -- cursor leaves are those after it, the shard emits from the cursor on exactly the points of the
  -- whole shard that are behind the cursor, in their order.
  pub shard_points-points_past :
      (order : List Bytes)
      → AreDistinct (sort_strings order)
      → has_string cur.series_key order ≡ true
      → shard_points points start (some cur) order
        ≡ some (points_past cur (emit_series points start none (sort_strings order)))
  unfolding shard_points
  shard_points-points_past order d h =
      rw (apply_cursor-strings_from order cur, shard_points)
        (rw h (
          ap some (
            emit_series-strings_from (sort_strings order) d
              (has_string-sort_strings cur.series_key order ∙ h))))
