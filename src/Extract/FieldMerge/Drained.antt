-- ===== src/Extract/FieldMerge/Drained.antt =====
-- The values that a client of `fieldMergeStream` in internal/extract/extract.go gets.
use tsm2arc.Prelude.{
  ℕ, zero, suc, ◌≤◌, List, [], ◌∷◌, Bytes, Option, none, some, length, ◌≡◌, refl, ap, ap₂, ◌∙◌,
  arith,
}
use tsm2arc.Tsm.{Value, Error}
use tsm2arc.Extract.Stream.{Stream, Peek, value, exhausted, broken, head_of, tail_of, Laws}
use tsm2arc.Extract.FieldMerge.{new_field_merge, field_merge_stream}
use tsm2arc.Extract.FieldMerge.Merged.{merge_all}
use tsm2arc.Extract.FieldMerge.Values.{total, length-merge_all}
use tsm2arc.Extract.FieldMerge.Children.{values_of, AllSound}
use tsm2arc.Extract.FieldMerge.Lawful.{field_merge_laws, new_field_merge-IsState}

abbrev pub take_head : Peek → List Value → List Value
take_head (value v) rest = v ∷ rest
take_head exhausted rest = []
take_head (broken e) rest = []

-- What is peeked at and taken, at most as often as the fuel says.
unfoldable pub drain : {S : Type 0} → Stream S → ℕ → S → List Value
drain ops zero s = []
drain ops (suc fuel) s = take_head (ops.peek s).1 (drain ops fuel (ops.advance (ops.peek s).0))

take_head_lem :
    (vs : List Value) (end : Option Error) → take_head (head_of vs end) (tail_of vs) ≡ vs
take_head_lem [] none = refl
take_head_lem [] (some e) = refl
take_head_lem (v ∷ vs) end = refl

length-tail_of : (n : ℕ) (vs : List Value) → length vs ≤ suc n → length (tail_of vs) ≤ n
length-tail_of n [] h = omega arith
length-tail_of n (v ∷ vs) h = omega arith

module _ {S : Type 0} (ops : Stream S) (laws : Laws ops) where
  pub drain-feed :
      (fuel : ℕ) (s : S)
      → laws.IsValid s
      → length (laws.feed s).values ≤ fuel
      → drain ops fuel s ≡ (laws.feed s).values
  unfolding drain
  drain-feed zero s v h = nothing (laws.feed s).values h
    where
      nothing : (vs : List Value) → length vs ≤ 0 → [] ≡ vs
      nothing [] h = refl
      nothing (w ∷ vs) h = absurd (omega arith)
  drain-feed (suc fuel) s v h =
      let left : (laws.feed (ops.advance (ops.peek s).0)).values ≡ tail_of (laws.feed s).values =
        ap (λ f. f.values) (laws.advance_feed s v) in
      let short = length-tail_of fuel (laws.feed s).values h in
      let fits : length (laws.feed (ops.advance (ops.peek s).0)).values ≤ fuel =
        omega (arith, ap length left) in
      ap₂ take_head (laws.peek_head s v)
        (drain-feed fuel (ops.advance (ops.peek s).0) (laws.advance_valid s v) fits ∙ left)
      ∙ take_head_lem (laws.feed s).values (laws.feed s).failure

module _ {S : Type 0} (ops : Stream S) (laws : Laws ops) where
  -- Over children that keep the laws of the interface and end without an error, a client that peeks and
  -- advances as often as they have values gets all of them in one stable merge: by time, and at equal
  -- times by the order of the children.
  pub drain-merge_all :
      (field : Bytes) (cs : List S)
      → AllSound ops laws cs
      → (fuel : ℕ) → total (values_of ops laws cs) ≤ fuel
      → drain (field_merge_stream ops) fuel (new_field_merge field cs)
        ≡ merge_all (values_of ops laws cs)
  drain-merge_all field cs sound fuel enough =
      drain-feed (field_merge_stream ops) (field_merge_laws ops laws) fuel
        (new_field_merge field cs) (new_field_merge-IsState ops laws field cs sound)
        (omega (arith, length-merge_all (values_of ops laws cs)))
