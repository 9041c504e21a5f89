-- ===== src/Chunk/Refine.antt =====
-- The accumulator of internal/chunk/chunk.go, with a callback that records or fails, against the
-- groups of lines.
use tsm2arc.Prelude.{
  ℕ, suc, ◌+◌, ◌≤◌, ◌<◌, List, [], ◌∷◌, ◌++◌, ◌&&◌, true, false, Option, none, some, ltb, length,
  length-append, Bytes, ◌≡◌, refl, sym, ◌∙◌, ap, All, arith, Option-cases, inl, inr,
}
use tsm2arc.Chunk.{
  Marker, Accumulator, Call, after_flush, end_flush, in_callback, do_flush, add_line, append, flush,
  append_all, and_then,
}
use tsm2arc.Chunk.Groups.{
  Entry, Group, size, Step, grow, join, cut, cut_alone, step, closed, opened, groups, IsLine,
  IsOpen, step-Fits, groups-cons,
}
use tsm2arc.Chunk.Deliveries.{Delivery, delivery, number, length-lines, recorder, deliver, outcome}
use tsm2arc.Chunk.Holds.{Holds, after_flush-Holds, in_callback-Holds, with_line-Holds}

module _ {E : Type 0} (calls : ℕ → Bytes → Marker → List Call)
    (fails : ℕ → Bytes → Marker → Option E) where
  do_flush_ok :
      (a : Accumulator) (w : List Delivery) (d : Delivery)
      → a.seq ≡ d.seq
      → a.buf ≡ d.lp
      → a.last_marker ≡ d.marker
      → fails d.seq d.lp d.marker ≡ none
      → do_flush (recorder calls fails) a w
        ≡ (after_flush (in_callback a (calls d.seq d.lp d.marker)), w ++ d ∷ [], none)
  unfolding do_flush recorder end_flush
  do_flush_ok a w d s b m e = ground arith

  do_flush_err :
      (a : Accumulator) (w : List Delivery) (d : Delivery) (x : E)
      → a.seq ≡ d.seq
      → a.buf ≡ d.lp
      → a.last_marker ≡ d.marker
      → fails d.seq d.lp d.marker ≡ some x
      → outcome (do_flush (recorder calls fails) a w) ≡ (w, some x)
  unfolding do_flush recorder end_flush
  do_flush_err a w d x s b m e = ground arith

  deliver_ok :
      (w : List Delivery) (d : Delivery) (ds : List Delivery)
      → fails d.seq d.lp d.marker ≡ none
      → deliver fails w (d ∷ ds) ≡ deliver fails (w ++ d ∷ []) ds
  unfolding deliver
  deliver_ok w d ds z = ground arith

  deliver_err :
      (w : List Delivery) (d : Delivery) (ds : List Delivery) (x : E)
      → fails d.seq d.lp d.marker ≡ some x
      → deliver fails w (d ∷ ds) ≡ (w, some x)
  unfolding deliver
  deliver_err w d ds x z = ground arith

  and_then-error :
      (r : Accumulator × List Delivery × Option E)
      → (k : Accumulator → List Delivery → Accumulator × List Delivery × Option E)
      → {w : List Delivery} {x : E} → outcome r ≡ (w, some x)
      → outcome (and_then r k) ≡ (w, some x)
  and_then-error (a, w, some e) k h = h
  and_then-error (a, w, none) k h = cc

  -- A flush delivers the open group; what follows starts from an empty one, or the error ends it.
  flush_then :
      (a : Accumulator) (w : List Delivery) {max n : ℕ} {e : Entry} {p : Group}
      → (k : Accumulator → List Delivery → Accumulator × List Delivery × Option E)
      → (ds : List Delivery) → Holds a max (e ∷ p) n
      → ((a' : Accumulator)
          → Holds a' max [] (suc n)
          → outcome (k a' (w ++ delivery n (e ∷ p) ∷ []))
            ≡ deliver fails (w ++ delivery n (e ∷ p) ∷ []) ds)
      → outcome (and_then (do_flush (recorder calls fails) a w) k)
        ≡ deliver fails w (delivery n (e ∷ p) ∷ ds)
  flush_then a w {n = n} {e = e} {p = p} k ds h next =
      let d = delivery n (e ∷ p) in
      elim (Option-cases (fails n d.lp d.marker)) [
        | inl z ↦
            rw (do_flush_ok a w d h.next h.bytes h.marker z)
              (next _ (after_flush-Holds _ (in_callback-Holds a _ h)) ∙ sym (deliver_ok w d ds z))
        | inr (x, z) ↦
            and_then-error (do_flush (recorder calls fails) a w) k
              (do_flush_err a w d x h.next h.bytes h.marker z)
            ∙ sym (deliver_err w d ds x z)
      ]

  add_line-grow :
      (a : Accumulator) (w : List Delivery) {max n : ℕ} {p : Group} (e : Entry)
      → Holds a max p n
      → size p + length e.0 < max
      → (a' : Accumulator) × (add_line (recorder calls fails) a w e.0 e.1 ≡ (a', w, none))
        × Holds a' max (p ++ e ∷ []) n
  unfolding add_line
  add_line-grow a w {p = p} e h lt = (
    record a { buf = a.buf ++ e.0; last_marker = e.1 },
    ground (arith, length-append a.buf e.0, length-lines p),
    with_line-Holds a e h,
  )

  add_line-join :
      (a : Accumulator) (w : List Delivery) {max n : ℕ} {p : Group} (e : Entry)
      → Holds a max p n
      → max ≤ size p + length e.0
      → (a' : Accumulator) × (add_line (recorder calls fails) a w e.0 e.1
          ≡ do_flush (recorder calls fails) a' w)
        × Holds a' max (p ++ e ∷ []) n
  unfolding add_line
  add_line-join a w {p = p} e h le = (
    record a { buf = a.buf ++ e.0; last_marker = e.1 },
    ground (arith, length-append a.buf e.0, length-lines p),
    with_line-Holds a e h,
  )

  and_then_assoc :
      (r : Accumulator × List Delivery × Option E)
      → (f k : Accumulator → List Delivery → Accumulator × List Delivery × Option E)
      → and_then (and_then r f) k ≡ and_then r (λ a w. and_then (f a w) k)
  and_then_assoc (a, w, some e) f k = refl
  and_then_assoc (a, w, none) f k = refl

  append-add_line :
      (a : Accumulator) (w : List Delivery) {max n : ℕ} {p : Group} (e : Entry)
      → Holds a max p n
      → (ltb 0 (size p) && ltb max (size p + length e.0)) ≡ false
      → append (recorder calls fails) a w e.0 e.1 ≡ add_line (recorder calls fails) a w e.0 e.1
  unfolding append
  append-add_line a w {p = p} e h t = ground (arith, length-lines p)

  append-do_flush :
      (a : Accumulator) (w : List Delivery) {max n : ℕ} {p : Group} (e : Entry)
      → Holds a max p n
      → (ltb 0 (size p) && ltb max (size p + length e.0)) ≡ true
      → append (recorder calls fails) a w e.0 e.1
        ≡ and_then
            (do_flush (recorder calls fails) a w)
            (λ a' w'. add_line (recorder calls fails) a' w' e.0 e.1)
  unfolding append
  append-do_flush a w {p = p} e h t = ground (arith, length-lines p)

  deliver_nil : (w : List Delivery) → deliver fails w [] ≡ (w, none)
  unfolding deliver
  deliver_nil w = refl

  flush-do_flush :
      (a : Accumulator) (w : List Delivery)
      → 0 < length a.buf
      → outcome (flush (recorder calls fails) a w)
        ≡ outcome (and_then (do_flush (recorder calls fails) a w) (λ b w'. (b, w', none)))
  unfolding flush
  flush-do_flush a w h = ground arith

  -- What follows an `append` continues from the group that its step leaves open.
  abbrev Continues :
      ℕ
      → Group
      → List Group
      → (Accumulator → List Delivery → Accumulator × List Delivery × Option E)
      → Type 0
  Continues max p gs k =
      (a : Accumulator) (w : List Delivery) (n : ℕ)
      → Holds a max p n
      → outcome (k a w) ≡ deliver fails w (number n gs)

  add_line_grow :
      (a : Accumulator) (w : List Delivery) {max n : ℕ} {p : Group} (e : Entry)
      → (k : Accumulator → List Delivery → Accumulator × List Delivery × Option E)
      → (gs : List Group) → Holds a max p n
      → size p + length e.0 < max
      → Continues max (p ++ e ∷ []) gs k
      → outcome (and_then (add_line (recorder calls fails) a w e.0 e.1) k)
        ≡ deliver fails w (number n gs)
  add_line_grow a w {n = n} e k gs h lt next =
      let (a', same, h') = add_line-grow a w e h lt in rw same (next a' w n h')

  add_line_join :
      (a : Accumulator) (w : List Delivery) {max n : ℕ} (p : Group) (e : Entry)
      → (k : Accumulator → List Delivery → Accumulator × List Delivery × Option E)
      → (gs : List Group) → Holds a max p n
      → max ≤ size p + length e.0
      → Continues max [] gs k
      → outcome (and_then (add_line (recorder calls fails) a w e.0 e.1) k)
        ≡ deliver fails w (number n ((p ++ e ∷ []) ∷ gs))
  add_line_join a w {n = n} [] e k gs h le next =
      let (a', same, h') = add_line-join a w e h le in
      rw same (flush_then a' w k _ h' (λ b hb. next b _ (suc n) hb))
  add_line_join a w {n = n} (x ∷ p) e k gs h le next =
      let (a', same, h') = add_line-join a w e h le in
      rw same (flush_then a' w k _ h' (λ b hb. next b _ (suc n) hb))

  append-step :
      (s : Step) (a : Accumulator) (w : List Delivery) {max n : ℕ} (p : Group) (e : Entry)
      → (k : Accumulator → List Delivery → Accumulator × List Delivery × Option E)
      → (gs : List Group) → s ≡ step max (size p) (length e.0)
      → Holds a max p n
      → Continues max (opened s p e) gs k
      → outcome (and_then (append (recorder calls fails) a w e.0 e.1) k)
        ≡ deliver fails w (number n (closed s p e ++ gs))
  unfolding step
  append-step grow a w p e k gs q h next =
      rw (append-add_line a w e h (ground arith)) (add_line_grow a w e k gs h (ground arith) next)
  append-step join a w p e k gs q h next =
      rw (append-add_line a w e h (ground arith)) (add_line_join a w p e k gs h (ground arith) next)
  append-step cut a w [] e k gs q h next = absurd (ground arith)
  append-step cut a w (x ∷ p) e k gs q h next = rw (append-do_flush a w e h (ground arith)) (
      rw and_then_assoc
        (flush_then a w _ _ h (λ b hb. add_line_grow b _ e k gs hb (ground arith) next)))
  append-step cut_alone a w [] e k gs q h next = absurd (ground arith)
  append-step cut_alone a w (x ∷ p) e k gs q h next = rw (append-do_flush a w e h (ground arith)) (
      rw and_then_assoc
        (flush_then a w _ _ h (λ b hb. add_line_join b _ [] e k gs hb (ground arith) next)))

  flush_final :
      (a : Accumulator) (w : List Delivery) {max n : ℕ} (p : Group)
      → Holds a max p n
      → IsOpen max p
      → outcome (flush (recorder calls fails) a w) ≡ deliver fails w (number n (groups max p []))
  unfolding flush groups
  flush_final a w [] h o = ground (arith, deliver_nil w)
  flush_final a w (e ∷ p) h o =
      flush-do_flush a w (omega (arith, ap length h.bytes, length-lines (e ∷ p)))
      ∙ flush_then a w (λ b w'. (b, w', none)) [] h (λ b hb. sym (deliver_nil _))

  pub append_all-Holds :
      (es : List Entry) (a : Accumulator) (w : List Delivery) {max n : ℕ} (p : Group)
      → Holds a max p n
      → IsOpen max p
      → All IsLine es
      → outcome (append_all (recorder calls fails) a w es)
        ≡ deliver fails w (number n (groups max p es))
  unfolding append_all
  append_all-Holds [] a w p h o l = flush_final a w p h o
  append_all-Holds (e ∷ es) a w {max = max} {n = n} p h o l =
      append-step (step max (size p) (length e.0)) a w p e _ _ refl h
        (λ b w' n' hb. append_all-Holds es b w' _ hb (step-Fits max p e o l.0).1 l.1)
      ∙ ap (λ (gs : List Group). deliver fails w (number n gs)) (sym (groups-cons max p e es))
