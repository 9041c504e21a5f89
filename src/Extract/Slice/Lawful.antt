-- ===== src/Extract/Slice/Lawful.antt =====
-- `sliceStream` of internal/extract/extract.go stands for the values of its window.
use tsm2arc.Prelude.{
  ℕ, suc, ◌+◌, List, [], ◌∷◌, true, Option, none, some, if◌then◌else◌, length, drop, length-drop,
  zero, ◌≤◌, ◌≡◌, refl, ap, inl, inr, arith, Bool-cases,
}
use tsm2arc.Prelude.Int64.{ℤ}
use tsm2arc.Prelude.Times.{earlier, earlier_le_trans}
use tsm2arc.Tsm.{Value}
use tsm2arc.Extract.Stream.{Feed, head, tail, head_of, tail_of, Laws}
use tsm2arc.Extract.Slice.{SliceStream, seek, found, slice_peek, slice_advance, slice_stream}
use tsm2arc.Extract.Merge.Row.{NotBefore, IsAscending}

-- The values from `start` through `end`.
unfoldable pub in_window : ℤ → ℤ → List Value → List Value
in_window start end [] = []
in_window start end (v ∷ vs) =
    let rest = in_window start end vs in
    if earlier v.unix_nano start then rest else if earlier end v.unix_nano then rest else v ∷ rest

pub in_window_past :
    (start end t : ℤ) (vs : List Value)
    → earlier end t ≡ true
    → NotBefore t vs
    → in_window start end vs ≡ []
unfolding in_window
in_window_past start end t [] h k = refl
in_window_past start end t (v ∷ vs) h (k, ks) =
    let past = earlier_le_trans end t v.unix_nano h k in
    elim (Bool-cases (earlier v.unix_nano start)) [
      | inl e ↦ rw (e, in_window) (in_window_past start end t vs h ks)
      | inr e ↦ rw (e, in_window) (rw past (in_window_past start end t vs h ks))
    ]

drop_next :
    {A : Type 0}
    → (i : ℕ) (xs : List A) (y : A) (ys : List A) → drop i xs ≡ y ∷ ys
    → drop (suc i) xs ≡ ys
drop_next zero [] y ys h = cc
drop_next zero (x ∷ xs) y ys h = cc
drop_next (suc i) [] y ys h = cc
drop_next (suc i) (x ∷ xs) y ys h = drop_next i xs y ys h

drop_past : {A : Type 0} → (i : ℕ) (xs : List A) → length xs ≤ i → drop i xs ≡ []
drop_past zero [] h = refl
drop_past zero (x ∷ xs) h = absurd (omega arith)
drop_past (suc i) [] h = refl
drop_past (suc i) (x ∷ xs) h = drop_past i xs (omega arith)

-- A place from which the values of the window still to come are `wanted`, the first of them found.
record Sought (start end : ℤ) (vals wanted : List Value) (place : ℕ × Option Value) : Type 0 where
  ascending : IsAscending (drop place.0 vals)
  kept : in_window start end (drop place.0 vals) ≡ wanted
  first : found place.1 ≡ head_of wanted none
  ascending_next : IsAscending (drop (suc place.0) vals)
  next : in_window start end (drop (suc place.0) vals) ≡ tail_of wanted

module _ (start end : ℤ) (vals : List Value) where
  Sought-end : (j : ℕ) → length vals ≤ j → Sought start end vals [] (j, none)
  unfolding in_window
  Sought-end j h =
      let gone = drop_past j vals h in
      let gone_next = drop_past (suc j) vals (omega arith) in
      record {
        ascending = rw gone tt;
        kept = rw gone refl;
        first = refl;
        ascending_next = rw gone_next tt;
        next = rw gone_next refl;
      }

  Sought-here :
      (j : ℕ) (v : Value) (vs : List Value)
      → drop j vals ≡ v ∷ vs
      → IsAscending (v ∷ vs)
      → in_window start end (v ∷ vs) ≡ v ∷ in_window start end vs
      → Sought start end vals (v ∷ in_window start end vs) (j, some v)
  Sought-here j v vs h a w =
      let h' = drop_next j vals v vs h in
      record {
        ascending = rw h a;
        kept = rw h w;
        first = refl;
        ascending_next = rw h' a.1;
        next = rw h' refl;
      }

  seek-Sought :
      (i : ℕ) (rest : List Value)
      → drop i vals ≡ rest
      → length vals ≤ i + length rest
      → IsAscending rest
      → Sought start end vals (in_window start end rest) (seek start end i rest)
  unfolding seek in_window
  seek-Sought i [] h l a = Sought-end i (omega arith)
  seek-Sought i (v ∷ vs) h l (k, a) =
      let ih = seek-Sought (suc i) vs (drop_next i vals v vs h) (omega arith) a in
      elim (Bool-cases (earlier v.unix_nano start)) [
        | inl e ↦ rw (e, seek, in_window) ih
        | inr e ↦ elim (Bool-cases (earlier end v.unix_nano)) [
          | inl f ↦
              rw (e, seek, in_window)
                (rw (f, in_window_past start end v.unix_nano vs f k)
                  (Sought-end (i + length (v ∷ vs)) l))
          | inr f ↦
              rw (e, seek, in_window)
                (rw f (Sought-here i v vs h (k, a) (rw (e, in_window) (rw f refl))))
        ]
      ]

abbrev pub slice_feed : SliceStream → Feed
slice_feed s = record {
  field = s.field;
  values = in_window s.start s.end (drop s.i s.vals);
  failure = none;
}

sought :
    (s : SliceStream)
    → IsAscending (drop s.i s.vals)
    → Sought s.start s.end s.vals
        (in_window s.start s.end (drop s.i s.vals))
        (seek s.start s.end s.i (drop s.i s.vals))
sought s a =
    seek-Sought s.start s.end s.vals s.i (drop s.i s.vals) refl
      (omega (arith, length-drop s.i s.vals)) a

abbrev IsSorted : SliceStream → Type 0
IsSorted s = IsAscending (drop s.i s.vals)

abbrev with_values : SliceStream → List Value → Feed
with_values s vs = record { field = s.field; values = vs; failure = none }

module _ (s : SliceStream) (a : IsSorted s) where
  pub slice_peek-IsSorted : IsSorted (slice_peek s).0
  unfolding slice_peek
  slice_peek-IsSorted = (sought s a).ascending

  pub slice_peek-slice_feed : slice_feed (slice_peek s).0 ≡ slice_feed s
  unfolding slice_peek
  slice_peek-slice_feed = ap (with_values s) (sought s a).kept

  pub slice_peek-head : (slice_peek s).1 ≡ head (slice_feed s)
  unfolding slice_peek
  slice_peek-head = (sought s a).first

  pub slice_advance-IsSorted : IsSorted (slice_advance (slice_peek s).0)
  unfolding slice_peek slice_advance
  slice_advance-IsSorted = (sought s a).ascending_next

  pub slice_advance-tail : slice_feed (slice_advance (slice_peek s).0) ≡ tail (slice_feed s)
  unfolding slice_peek slice_advance
  slice_advance-tail = ap (with_values s) (sought s a).next

abbrev pub slice_laws : Laws slice_stream
slice_laws = record {
  IsValid = IsSorted;
  feed = slice_feed;
  name_feed = λ s. refl;
  peek_valid = slice_peek-IsSorted;
  peek_feed = slice_peek-slice_feed;
  peek_head = slice_peek-head;
  advance_valid = slice_advance-IsSorted;
  advance_feed = slice_advance-tail;
}
