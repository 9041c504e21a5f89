-- ===== src/Extract/Slice.antt =====
-- `sliceStream` of internal/extract/extract.go: the stream over values in memory.
pub mod Sort
pub mod Lawful
pub mod Sources
use tsm2arc.Prelude.{
  ℕ, suc, ◌+◌, List, [], ◌∷◌, Bool, true, false, Option, none, some, if◌then◌else◌, length, drop,
  Bytes,
}
use tsm2arc.Prelude.Int64.{ℤ}
use tsm2arc.Prelude.Times.{earlier}
use tsm2arc.Tsm.{Value}
use tsm2arc.Extract.Stream.{Stream, Peek, value, exhausted}

pub record SliceStream : Type 0 where
  pub field : Bytes
  pub vals : List Value
  pub i : ℕ
  pub start : ℤ
  pub end : ℤ

-- The loop from the second value on, `prev` the value before.
unfoldable pub ascending_from : Value → List Value → Bool
ascending_from prev [] = true
ascending_from prev (v ∷ vs) =
    let rest = ascending_from v vs in if earlier v.unix_nano prev.unix_nano then false else rest

unfoldable pub ascending_by_time : List Value → Bool
unfolding ascending_from
ascending_by_time [] = true
ascending_by_time (v ∷ vs) = ascending_from v vs

unfoldable pub insert_value : Value → List Value → List Value
insert_value v [] = v ∷ []
insert_value v (w ∷ ws) =
    let rest = insert_value v ws in if earlier w.unix_nano v.unix_nano then w ∷ rest else v ∷ w ∷ ws

-- `sort.SliceStable` by time.
unfoldable pub sort_by_time : List Value → List Value
sort_by_time [] = []
sort_by_time (v ∷ vs) = insert_value v (sort_by_time vs)

unfoldable pub new_slice_stream : Bytes → List Value → ℤ → ℤ → SliceStream
new_slice_stream field vals start end = record {
  field = field;
  vals = if ascending_by_time vals then vals else sort_by_time vals;
  i = 0;
  start = start;
  end = end;
}

-- The loop of `peek` over the values from the index `i` on: the index it stops at, and the value.
unfoldable pub seek : ℤ → ℤ → ℕ → List Value → ℕ × Option Value
seek start end i [] = (i, none)
seek start end i (v ∷ vs) =
    let later = seek start end (suc i) vs in
    if earlier v.unix_nano start
    then later
    else if earlier end v.unix_nano
    then (i + length (v ∷ vs), none)
    else (i, some v)

abbrev pub found : Option Value → Peek
found none = exhausted
found (some v) = value v

unfoldable pub slice_peek : SliceStream → SliceStream × Peek
slice_peek s =
    let (i, v) = seek s.start s.end s.i (drop s.i s.vals) in (record s { i = i }, found v)

unfoldable pub slice_advance : SliceStream → SliceStream
slice_advance s = record s { i = suc s.i }

unfoldable pub slice_release : SliceStream → SliceStream
slice_release s = record s { vals = []; i = 0 }

abbrev pub slice_stream : Stream SliceStream
slice_stream = record { name = λ s. s.field; peek = slice_peek; advance = slice_advance }
