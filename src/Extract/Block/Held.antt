-- ===== src/Extract/Block/Held.antt =====
-- Ascending values in blocks, for `blockStream` of internal/extract/extract.go.
use tsm2arc.Prelude.{
  List, [], ◌∷◌, ◌++◌, append-nil, true, false, none, All, ◌≡◌, refl, ap, ◌∙◌, inl, inr, Bool-cases,
}
use tsm2arc.Prelude.Int64.{ℤ}
use tsm2arc.Prelude.Times.{earlier}
use tsm2arc.Tsm.{Value, IndexEntry}
use tsm2arc.Extract.Slice.{ascending_by_time, ascending_from}
use tsm2arc.Extract.Slice.Sort.{ascending_by_time-IsAscending, sort_by_time-IsAscending}
use tsm2arc.Extract.Slice.Lawful.{in_window, in_window_past}
use tsm2arc.Extract.Merge.Row.{NotBefore, IsAscending, NotBefore-trans}
use tsm2arc.Extract.Block.{Answer, got, in_order}
use tsm2arc.Extract.Block.Scan.{through}

-- No value is after `t`.
abbrev pub NotAfter : ℤ → List Value → Type 0
NotAfter t vs = All (λ v. earlier t v.unix_nano ≡ false) vs

-- The blocks of `es` can be read: each has ascending values within its entry's bounds, and together
-- they are the values `vals`.
abbrev pub Holds : (IndexEntry → Answer (List Value)) → List IndexEntry → List Value → Type 0
Holds read [] vals = vals ≡ []
Holds read (e ∷ es) vals =
    (b : List Value) × (rest : List Value) × (read e ≡ got b)
    × IsAscending b
    × NotBefore e.min_time b
    × NotAfter e.max_time b
    × (vals ≡ b ++ rest)
    × Holds read es rest

ascending_from_back :
    (v : Value) (vs : List Value)
    → NotBefore v.unix_nano vs
    → IsAscending vs
    → ascending_from v vs ≡ true
unfolding ascending_from
ascending_from_back v [] h a = refl
ascending_from_back v (w ∷ vs) (h, hs) (k, a) = rw h (ascending_from_back w vs k a)

pub in_order_kept : (vs : List Value) → IsAscending vs → in_order vs ≡ vs
unfolding in_order ascending_by_time
in_order_kept [] a = refl
in_order_kept (v ∷ vs) (k, a) = rw (ascending_from_back v vs k a) refl

pub in_order-IsAscending : (vs : List Value) → IsAscending (in_order vs)
unfolding in_order
in_order-IsAscending vs = elim (Bool-cases (ascending_by_time vs)) [
  | inl e ↦ rw e (ascending_by_time-IsAscending vs e)
  | inr e ↦ rw e (sort_by_time-IsAscending vs)
]

pub through-in_window :
    (start end : ℤ) (b rest : List Value)
    → IsAscending (b ++ rest)
    → through start end b (in_window start end rest, none) ≡ (in_window start end (b ++ rest), none)
unfolding through in_window
through-in_window start end [] rest a = refl
through-in_window start end (v ∷ vs) rest (k, a) =
    let ih = through-in_window start end vs rest a in
    elim (Bool-cases (earlier v.unix_nano start)) [
      | inl e ↦ rw (e, through, in_window) ih
      | inr e ↦ elim (Bool-cases (earlier end v.unix_nano)) [
        | inl f ↦
            rw (e, through, in_window)
              (rw (f, in_window_past start end v.unix_nano (vs ++ rest) f k) refl)
        | inr f ↦ rw (e, through, in_window) (rw (f, ih) refl)
      ]
    ]

pub through_all :
    (start end : ℤ) (vs : List Value)
    → IsAscending vs
    → through start end vs ([], none) ≡ (in_window start end vs, none)
unfolding in_window
through_all start end vs a =
    through-in_window start end vs [] (rw (append-nil vs) a)
    ∙ ap (λ ws. (in_window start end ws, none)) (append-nil vs)

pub NotBefore-append :
    (t : ℤ) (xs ys : List Value) → NotBefore t xs → NotBefore t ys → NotBefore t (xs ++ ys)
NotBefore-append t [] ys h k = k
NotBefore-append t (x ∷ xs) ys (h, hs) k = (h, NotBefore-append t xs ys hs k)

pub IsAscending-append :
    (t : ℤ) (xs ys : List Value)
    → IsAscending xs
    → NotAfter t xs
    → NotBefore t ys
    → IsAscending ys
    → IsAscending (xs ++ ys)
IsAscending-append t [] ys a h k b = b
IsAscending-append t (x ∷ xs) ys (k, a) (h, hs) m b = (
  NotBefore-append x.unix_nano xs ys k (NotBefore-trans x.unix_nano t ys h m),
  IsAscending-append t xs ys a hs m b,
)
