-- ===== src/Extract/Block/Emitted.antt =====
-- What a client that peeks and advances gets from `blockStream` of internal/extract/extract.go.
use tsm2arc.Prelude.{
  ℕ, zero, suc, ◌≤◌, List, [], ◌∷◌, Bytes, Option, none, if◌then◌else◌, length, ◌≡◌, refl, ap, ◌∙◌,
  inl, inr, arith, Bool-cases,
}
use tsm2arc.Prelude.Int64.{ℤ}
use tsm2arc.Prelude.Times.{same, same_iff, earlier_irrefl}
use tsm2arc.Tsm.{Value, Error}
use tsm2arc.Extract.Stream.{Stream, exhausted, head_of, tail_of, Laws}
use tsm2arc.Extract.Slice.{insert_value, sort_by_time, ascending_by_time, new_slice_stream}
use tsm2arc.Extract.Slice.Lawful.{in_window}
use tsm2arc.Extract.Slice.Sources.{
  ordered, ordered-IsAscending, length-ordered, in_range, in_window-IsAscending, length-in_window,
}
use tsm2arc.Extract.Merge.Row.{IsAscending}
use tsm2arc.Extract.FieldMerge.Drained.{drain, drain-feed}
use tsm2arc.Extract.Block.{got, TsmFile, BlockStream, new_block_stream, block_peek, block_stream}
use tsm2arc.Extract.Block.Lawful.{block_laws}
use tsm2arc.Extract.Block.Whole.{Answers, block_feed-slice_feed}

-- The stream behind as many rounds of peeking and advancing as the fuel says.
unfoldable pub drained_stream : {S : Type 0} → Stream S → ℕ → S → S
drained_stream ops zero s = s
drained_stream ops (suc fuel) s = drained_stream ops fuel (ops.advance (ops.peek s).0)

module _ {S : Type 0} (ops : Stream S) (laws : Laws ops) where
  drained_stream-exhausted :
      (fuel : ℕ) (s : S)
      → laws.IsValid s
      → length (laws.feed s).values ≤ fuel
      → (laws.feed s).failure ≡ none
      → (ops.peek (drained_stream ops fuel s)).1 ≡ exhausted
  unfolding drained_stream
  drained_stream-exhausted zero s v h e =
      laws.peek_head s v ∙ nothing (laws.feed s).values (laws.feed s).failure h e
    where
      nothing :
          (vs : List Value) (end : Option Error)
          → length vs ≤ 0
          → end ≡ none
          → head_of vs end ≡ exhausted
      nothing [] end h e = rw e refl
      nothing (w ∷ vs) end h e = absurd (omega arith)
  drained_stream-exhausted (suc fuel) s v h e =
      let left = laws.advance_feed s v in
      let short = shorter (laws.feed s).values h in
      drained_stream-exhausted fuel (ops.advance (ops.peek s).0) (laws.advance_valid s v)
        (omega (arith, ap (λ f. length f.values) left)) (ap (λ f. f.failure) left ∙ e)
    where
      shorter : (vs : List Value) → length vs ≤ suc fuel → length (tail_of vs) ≤ fuel
      shorter [] h = omega arith
      shorter (w ∷ vs) h = omega arith

-- The values at a time, in their order.
unfoldable pub values_at : ℤ → List Value → List Value
values_at u [] = []
values_at u (v ∷ vs) = let rest = values_at u vs in if same v.unix_nano u then v ∷ rest else rest

values_at-in_window :
    (start end u : ℤ) (vs : List Value)
    → values_at u (in_window start end vs) ≡ (if in_range start end u then values_at u vs else [])
unfolding values_at in_window in_range
values_at-in_window start end u [] = ground arith
values_at-in_window start end u (v ∷ vs) =
    let ih = values_at-in_window start end u vs in ground (arith, same_iff v.unix_nano u)

values_at-insert_value :
    (u : ℤ) (v : Value) (ws : List Value) → values_at u (insert_value v ws) ≡ values_at u (v ∷ ws)
unfolding values_at insert_value
values_at-insert_value u v [] = refl
values_at-insert_value u v (w ∷ ws) =
    let ih = values_at-insert_value u v ws in
    ground (arith, same_iff v.unix_nano u, same_iff w.unix_nano u, earlier_irrefl u)

values_at-sort_by_time : (u : ℤ) (vs : List Value) → values_at u (sort_by_time vs) ≡ values_at u vs
unfolding values_at sort_by_time
values_at-sort_by_time u [] = refl
values_at-sort_by_time u (v ∷ vs) =
    values_at-insert_value u v (sort_by_time vs)
    ∙ ap (λ rest. if same v.unix_nano u then v ∷ rest else rest) (values_at-sort_by_time u vs)

values_at-ordered : (u : ℤ) (vs : List Value) → values_at u (ordered vs) ≡ values_at u vs
unfolding ordered
values_at-ordered u vs = elim (Bool-cases (ascending_by_time vs)) [
  | inl e ↦ rw e refl
  | inr e ↦ rw e (values_at-sort_by_time u vs)
]

module _ (f : Bytes) (r : TsmFile) (key : Bytes) (start end : ℤ) (vals : List Value) where
  abbrev opened : BlockStream
  opened = new_block_stream f (got r) key start end

  -- A client that peeks and advances the stream of a key of a file that answers for it, as often as
  -- the key has values, gets values whose times do not fall: of each time in the window all values
  -- that the key has there, in their order, and of the other times none. Then the stream is
  -- exhausted, without an error.
  pub drain-values_at :
      Answers r key vals
      → (fuel : ℕ) → length vals ≤ fuel
      → IsAscending (drain block_stream fuel opened)
        × ((u : ℤ)
            → values_at u (drain block_stream fuel opened)
              ≡ (if in_range start end u then values_at u vals else []))
        × ((block_peek (drained_stream block_stream fuel opened)).1 ≡ exhausted)
  unfolding new_slice_stream ordered
  drain-values_at h fuel enough =
      let given = block_feed-slice_feed f r key start end vals h in
      let window = in_window start end (ordered vals) in
      let here : (block_laws.feed opened).values ≡ window = ap (λ w. w.values) given in
      let fits : length (block_laws.feed opened).values ≤ fuel =
        omega
          (arith, ap length here, length-in_window start end (ordered vals), length-ordered vals) in
      let all = drain-feed block_stream block_laws fuel opened tt fits ∙ here in
      (
        rw all (in_window-IsAscending start end (ordered vals) (ordered-IsAscending vals)),
        λ u.
            ap (values_at u) all
            ∙ values_at-in_window start end u (ordered vals)
            ∙ ap (λ vs. if in_range start end u then vs else []) (values_at-ordered u vals),
        drained_stream-exhausted block_stream block_laws fuel opened tt fits
            (ap (λ w. w.failure) given),
      )
