-- ===== src/Extract/Merge/Refine.antt =====
-- The merge of internal/extract/extract.go over streams that stand for feeds is the merge over the
-- feeds.
use tsm2arc.Prelude.{
  ℕ, zero, suc, List, [], ◌∷◌, map, Option, none, some, ◌≡◌, refl, ap, ap₂, ◌∙◌, ◌⊎◌, inl, inr, All,
  Bool-cases,
}
use tsm2arc.Prelude.Int64.{ℤ}
use tsm2arc.Prelude.Times.{same}
use tsm2arc.Tsm.{Error, Value}
use tsm2arc.Lp.{Field}
use tsm2arc.Extract.Stream.{Stream, Peek, value, exhausted, broken, Feed, head, feed_stream, Laws}
use tsm2arc.Extract.Merge.{
  Point, Stats, Least, least, unread, Gathered, gathered, lost, starved, lower, put_field, emit,
  find_min, gather_stream, gather, merge_loop,
}

Peek-cases :
    (p : Peek) → ((e : Error) × (p ≡ broken e)) ⊎ ((p ≡ exhausted) ⊎ ((v : Value) × (p ≡ value v)))
Peek-cases (broken e) = inl (e, refl)
Peek-cases exhausted = inr (inl refl)
Peek-cases (value v) = inr (inr (v, refl))

Gathered-cases :
    (g : Gathered)
    → ((e : Error) × (g ≡ lost e)) ⊎ ((g ≡ starved) ⊎ ((b : List Field) × (g ≡ gathered b)))
Gathered-cases (lost e) = inl (e, refl)
Gathered-cases starved = inr (inl refl)
Gathered-cases (gathered b) = inr (inr (b, refl))

find_min-feeds_kept : (m : Option ℤ) (fs : List Feed) → (find_min feed_stream m fs).0 ≡ fs
unfolding find_min
find_min-feeds_kept m [] = refl
find_min-feeds_kept m (f ∷ fs) = elim (Peek-cases (head f)) [
  | inl (e, h) ↦ rw (h, find_min) refl
  | inr (inl h) ↦ rw (h, find_min) (ap (λ t. f ∷ t) (find_min-feeds_kept m fs))
  | inr (inr (v, h)) ↦
      rw (h, find_min) (ap (λ t. f ∷ t) (find_min-feeds_kept (lower m v.unix_nano) fs))
]

module _ {S : Type 0} (ops : Stream S) (laws : Laws ops) where
  abbrev feeds : List S → List Feed
  feeds ss = map laws.feed ss

  -- Streams that stand for the feeds `fs`.
  abbrev Stands : List S → List Feed → Type 0
  Stands ss fs = All laws.IsValid ss × (feeds ss ≡ fs)

  find_min-feeds :
      (m : Option ℤ) (ss : List S)
      → All laws.IsValid ss
      → Stands (find_min ops m ss).0 (feeds ss)
        × ((find_min ops m ss).1 ≡ (find_min feed_stream m (feeds ss)).1)
  unfolding find_min
  find_min-feeds m [] h = ((tt, refl), refl)
  find_min-feeds m (s ∷ ss) (hs, h) =
      let v' = laws.peek_valid s hs in
      let f' = laws.peek_feed s hs in
      elim (Peek-cases (head (laws.feed s))) [
        | inl (e, p) ↦
            rw (laws.peek_head s hs, p, find_min) (((v', h), ap (λ t. t ∷ feeds ss) f'), refl)
        | inr (inl p) ↦
            let ((vs, fs), r) = find_min-feeds m ss h in
            rw (laws.peek_head s hs, p, find_min) (((v', vs), ap₂ (λ t ts. t ∷ ts) f' fs), r)
        | inr (inr (v, p)) ↦
            let ((vs, fs), r) = find_min-feeds (lower m v.unix_nano) ss h in
            rw (laws.peek_head s hs, p, find_min) (((v', vs), ap₂ (λ t ts. t ∷ ts) f' fs), r)
      ]

  gather_stream-feeds :
      (fuel : ℕ) (t : ℤ) (s : S) (buf : List Field)
      → laws.IsValid s
      → laws.IsValid (gather_stream ops fuel t s buf).0
        × (laws.feed (gather_stream ops fuel t s buf).0
            ≡ (gather_stream feed_stream fuel t (laws.feed s) buf).0)
        × ((gather_stream ops fuel t s buf).1
            ≡ (gather_stream feed_stream fuel t (laws.feed s) buf).1)
  unfolding gather_stream
  gather_stream-feeds zero t s buf hs = (hs, refl, refl)
  gather_stream-feeds (suc fuel) t s buf hs =
      let v' = laws.peek_valid s hs in
      let f' = laws.peek_feed s hs in
      elim (Peek-cases (head (laws.feed s))) [
        | inl (e, p) ↦ rw (laws.peek_head s hs, p, gather_stream) (v', f', refl)
        | inr (inl p) ↦ rw (laws.peek_head s hs, p, gather_stream) (v', f', refl)
        | inr (inr (v, p)) ↦
            let more =
              gather_stream-feeds fuel t (ops.advance (ops.peek s).0) (put_field (ops.name s) v buf)
                (laws.advance_valid s hs) in
            elim (Bool-cases (same v.unix_nano t)) [
              | inl e ↦
                  rw (laws.peek_head s hs, p, e, gather_stream, laws.name_feed s)
                    (rw (laws.advance_feed s hs, laws.name_feed s) at more)
              | inr e ↦ rw (laws.peek_head s hs, p, e, gather_stream) (v', f', refl)
            ]
      ]

  gather-feeds :
      (fuel : ℕ) (t : ℤ) (ss : List S) (buf : List Field)
      → All laws.IsValid ss
      → Stands (gather ops fuel t ss buf).0 (gather feed_stream fuel t (feeds ss) buf).0
        × ((gather ops fuel t ss buf).1 ≡ (gather feed_stream fuel t (feeds ss) buf).1)
  unfolding gather
  gather-feeds fuel t [] buf h = ((tt, refl), refl)
  gather-feeds fuel t (s ∷ ss) buf (hs, h) =
      let (v, f, r) = gather_stream-feeds fuel t s buf hs in
      elim (Gathered-cases (gather_stream feed_stream fuel t (laws.feed s) buf).1) [
        | inl (e, p) ↦ rw (r, p, gather) (((v, h), ap (λ x. x ∷ feeds ss) f), refl)
        | inr (inl p) ↦ rw (r, p, gather) (((v, h), ap (λ x. x ∷ feeds ss) f), refl)
        | inr (inr (b, p)) ↦
            let ((vs, fs), q) = gather-feeds fuel t ss b h in
            rw (r, p, gather) (((v, vs), ap₂ (λ x xs. x ∷ xs) f fs), q)
      ]

  Least-cases :
      (l : Least)
      → ((e : Error) × (l ≡ unread e)) ⊎ ((l ≡ least none) ⊎ ((t : ℤ) × (l ≡ least (some t))))
  Least-cases (unread e) = inl (e, refl)
  Least-cases (least none) = inr (inl refl)
  Least-cases (least (some t)) = inr (inr (t, refl))

  -- The merge reads its streams through the interface alone: over streams that stand for feeds it
  -- emits the points, counts and ends, or fails, as over the feeds themselves.
  pub merge_loop-feeds :
      (fuel : ℕ) (point : ℤ → List Field → Point) (ss : List S) (st : Stats)
      → All laws.IsValid ss
      → merge_loop ops fuel point ss st ≡ merge_loop feed_stream fuel point (feeds ss) st
  unfolding merge_loop
  merge_loop-feeds zero point ss st h = refl
  merge_loop-feeds (suc fuel) point ss st h =
      let ((vs, fs), r) = find_min-feeds none ss h in
      let kept = find_min-feeds_kept none (feeds ss) in
      elim (Least-cases (find_min feed_stream none (feeds ss)).1) [
        | inl (e, p) ↦ rw (r, p, merge_loop) refl
        | inr (inl p) ↦ rw (r, p, merge_loop) refl
        | inr (inr (t, p)) ↦
            let ss' = (find_min ops none ss).0 in
            let ((ws, gs), q) = gather-feeds (suc fuel) t ss' [] vs in
            let q' = q ∙ ap (λ x. (gather feed_stream (suc fuel) t x []).1) fs in
            let gs' = gs ∙ ap (λ x. (gather feed_stream (suc fuel) t x []).0) fs in
            elim (Gathered-cases (gather feed_stream (suc fuel) t (feeds ss) []).1) [
              | inl (e, g) ↦ rw (r, p, kept, q', g, merge_loop) refl
              | inr (inl g) ↦ rw (r, p, kept, q', g, merge_loop) refl
              | inr (inr (b, g)) ↦
                  let ih =
                    merge_loop-feeds fuel point (gather ops (suc fuel) t ss' []).0 (emit st t b)
                      ws in
                  rw (r, p, kept, q', g, merge_loop, ih, gs', kept) refl
            ]
      ]
