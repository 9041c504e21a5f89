-- ===== src/Extract/Slice/Sources.antt =====
-- `sliceStream`s of internal/extract/extract.go: from values in the order in which clients wrote them
-- to the sources of a merge.
use tsm2arc.Prelude.{
  ◌≤◌, List, [], ◌∷◌, map, Bool, not, ◌&&◌, Option, some, if◌then◌else◌, Bytes, length, ◌≡◌, refl,
  ap, inl, inr, arith, All, Bool-cases,
}
use tsm2arc.Prelude.Int64.{ℤ}
use tsm2arc.Prelude.Times.{earlier, same, same_iff}
use tsm2arc.Prelude.Strings.{str_eq}
use tsm2arc.Tsm.{Value}
use tsm2arc.Extract.Slice.{SliceStream, new_slice_stream, ascending_by_time, sort_by_time}
use tsm2arc.Extract.Slice.Sort.{
  ascending_by_time-IsAscending, sort_by_time-IsAscending, last_value-sort_by_time,
  length-sort_by_time,
}
use tsm2arc.Extract.Slice.Lawful.{in_window, slice_laws}
use tsm2arc.Extract.Merge.Rows.{Source, embed, size}
use tsm2arc.Extract.Merge.Row.{NotBefore, IsAscending, AreAscending, last_value, last_write}

-- A stream per field and its values, in their order.
unfoldable pub slice_streams : ℤ → ℤ → List Source → List SliceStream
slice_streams start end [] = []
slice_streams start end ((f, vs) ∷ raws) =
    new_slice_stream f vs start end ∷ slice_streams start end raws

unfoldable pub ordered : List Value → List Value
ordered vs = if ascending_by_time vs then vs else sort_by_time vs

abbrev pub window_sources : ℤ → ℤ → List Source → List Source
window_sources start end [] = []
window_sources start end ((f, vs) ∷ raws) =
    (f, in_window start end (ordered vs)) ∷ window_sources start end raws

unfoldable pub in_range : ℤ → ℤ → ℤ → Bool
in_range start end u = not (earlier u start) && not (earlier end u)

pub ordered-IsAscending : (vs : List Value) → IsAscending (ordered vs)
unfolding ordered
ordered-IsAscending vs = elim (Bool-cases (ascending_by_time vs)) [
  | inl e ↦ rw e (ascending_by_time-IsAscending vs e)
  | inr e ↦ rw e (sort_by_time-IsAscending vs)
]

last_value-ordered :
    (t : ℤ) (vs : List Value) (before : Option Value)
    → last_value t (ordered vs) before ≡ last_value t vs before
unfolding ordered
last_value-ordered t vs before = elim (Bool-cases (ascending_by_time vs)) [
  | inl e ↦ rw e refl
  | inr e ↦ rw e (last_value-sort_by_time t vs before)
]

pub length-ordered : (vs : List Value) → length (ordered vs) ≡ length vs
unfolding ordered
length-ordered vs = elim (Bool-cases (ascending_by_time vs)) [
  | inl e ↦ rw e refl
  | inr e ↦ rw e (length-sort_by_time vs)
]

pub length-in_window :
    (start end : ℤ) (vs : List Value) → length (in_window start end vs) ≤ length vs
unfolding in_window
length-in_window start end [] = omega arith
length-in_window start end (v ∷ vs) = let ih = length-in_window start end vs in ground arith

NotBefore-in_window :
    (start end t : ℤ) (vs : List Value) → NotBefore t vs → NotBefore t (in_window start end vs)
unfolding in_window
NotBefore-in_window start end t [] h = tt
NotBefore-in_window start end t (v ∷ vs) (h, hs) =
    let ih = NotBefore-in_window start end t vs hs in
    elim (Bool-cases (earlier v.unix_nano start)) [
      | inl e ↦ rw (e, in_window) ih
      | inr e ↦ elim (Bool-cases (earlier end v.unix_nano)) [
        | inl f ↦ rw (e, in_window) (rw f ih)
        | inr f ↦ rw (e, in_window) (rw f (h, ih))
      ]
    ]

pub in_window-IsAscending :
    (start end : ℤ) (vs : List Value) → IsAscending vs → IsAscending (in_window start end vs)
unfolding in_window
in_window-IsAscending start end [] h = tt
in_window-IsAscending start end (v ∷ vs) (h, hs) =
    let ih = in_window-IsAscending start end vs hs in
    elim (Bool-cases (earlier v.unix_nano start)) [
      | inl e ↦ rw (e, in_window) ih
      | inr e ↦ elim (Bool-cases (earlier end v.unix_nano)) [
        | inl f ↦ rw (e, in_window) (rw f ih)
        | inr f ↦ rw (e, in_window) (rw f (NotBefore-in_window start end v.unix_nano vs h, ih))
      ]
    ]

last_value-in_window :
    (start end t : ℤ) (vs : List Value) (before : Option Value)
    → last_value t (in_window start end vs) before
      ≡ (if in_range start end t then last_value t vs before else before)
unfolding in_window last_value in_range
last_value-in_window start end t [] before = ground arith
last_value-in_window start end t (v ∷ vs) before = elim (Bool-cases (same v.unix_nano t)) [
  | inl e ↦
      let at_t : v.unix_nano ≡ t = (same_iff v.unix_nano t).0 e in
      ground (
        arith,
        last_value-in_window start end t vs (some v),
        last_value-in_window start end t vs before,
        at_t,
      )
  | inr e ↦ ground (arith, last_value-in_window start end t vs before)
]

module _ (start end : ℤ) where
  pub window_sources-AreAscending :
      (raws : List Source) → AreAscending (window_sources start end raws)
  window_sources-AreAscending [] = tt
  window_sources-AreAscending ((f, vs) ∷ raws) = (
    in_window-IsAscending start end (ordered vs) (ordered-IsAscending vs),
    window_sources-AreAscending raws,
  )

  pub size-window_sources : (raws : List Source) → size (window_sources start end raws) ≤ size raws
  size-window_sources [] = omega arith
  size-window_sources ((f, vs) ∷ raws) =
      omega (
        arith,
        length-in_window start end (ordered vs),
        length-ordered vs,
        size-window_sources raws,
      )

  pub last_write-window_sources :
      (f : Bytes) (u : ℤ) (raws : List Source) (before : Option Value)
      → last_write f u (window_sources start end raws) before
        ≡ (if in_range start end u then last_write f u raws before else before)
  unfolding last_write
  last_write-window_sources f u [] before = ground arith
  last_write-window_sources f u ((n, vs) ∷ raws) before =
      let own = last_value-in_window start end u (ordered vs) before in
      let ih =
        last_write-window_sources f u raws
          (if str_eq n f then last_value u (in_window start end (ordered vs)) before else before) in
      let sorted = last_value-ordered u vs before in
      elim (Bool-cases (in_range start end u)) [ inl e ↦ ground (arith) | inr e ↦ ground (arith) ]

  pub slice_streams-valid :
      (raws : List Source) → All slice_laws.IsValid (slice_streams start end raws)
  unfolding slice_streams new_slice_stream
  slice_streams-valid [] = tt
  slice_streams-valid ((f, vs) ∷ raws) =
      (unfold ordered in ordered-IsAscending vs, slice_streams-valid raws)

  pub slice_streams-embed :
      (raws : List Source)
      → map slice_laws.feed (slice_streams start end raws)
        ≡ map embed (window_sources start end raws)
  unfolding slice_streams new_slice_stream ordered
  slice_streams-embed [] = refl
  slice_streams-embed ((f, vs) ∷ raws) =
      ap (λ fs. embed (f, in_window start end (ordered vs)) ∷ fs) (slice_streams-embed raws)
