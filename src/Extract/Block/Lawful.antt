-- ===== src/Extract/Block/Lawful.antt =====
-- `blockStream` of internal/extract/extract.go stands for the values of its blocks, up to the first
-- that is past the window or an error.
use mathlib.Core.Path.{subst}
use tsm2arc.Prelude.{
  List, [], ◌∷◌, Bool, true, false, not, none, ◌≡◌, refl, ap, ◌∙◌, inl, inr, arith, Bool-cases,
  Option-cases,
}
use tsm2arc.Tsm.{IndexEntry, Error}
use tsm2arc.Extract.{entries_ascending, prune_entries}
use tsm2arc.Extract.Stream.{Feed, head, tail, tail_of, Laws}
use tsm2arc.Extract.Block.{
  got, refused, TsmFile, BlockStream, finish, fail, in_order, load_entries, load_index, answer,
  needs_index, with_index, block_peek, block_advance, block_stream,
}
use tsm2arc.Extract.Block.Scan.{Course, settled, Stands, scan-Stands, Answer-cases}

-- A stream that has its index or its end is answered as it stands.
answer-Stands : (s : BlockStream) → needs_index s ≡ false → Stands s.field (settled s) (answer s)
unfolding answer settled needs_index
answer-Stands s h = elim (Option-cases s.err) [
  | inr (e, k) ↦ rw k (record {
    named = refl;
    kept = refl;
    first = refl;
    next = unfold block_advance in refl;
    ready = refl;
    ready_next = unfold block_advance in refl;
  })
  | inl k ↦ elim (Bool-cases s.done) [
    | inl d ↦
        rw (k, d)
          (record {
            named = refl;
            kept = refl;
            first = refl;
            next = unfold block_advance in refl;
            ready = refl;
            ready_next = unfold block_advance in refl;
          })
    | inr d ↦
        let indexed : s.loaded ≡ true = loaded_of s.loaded (rw (k, d) at h) in
        rw (k, d)
          (scan-Stands (record s { err = none; done = false })
            (record { no_error = refl; not_done = refl; has_index = indexed }) s.buf s.entries)
  ]
]
  where
    loaded_of : (b : Bool) → not b ≡ false → b ≡ true
    loaded_of true h = refl
    loaded_of false h = cc

needs_index-finish : (s : BlockStream) → needs_index (finish s) ≡ false
unfolding needs_index finish
needs_index-finish s = ground arith

needs_index-fail : (s : BlockStream) (e : Error) → needs_index (fail s e) ≡ false
unfolding needs_index fail
needs_index-fail s e = ground arith

needs_index-loaded : (s : BlockStream) → s.loaded ≡ true → needs_index s ≡ false
unfolding needs_index
needs_index-loaded s h = elim (Option-cases s.err) [
  | inl k ↦ rw (k, h) (elim (Bool-cases s.done) [ inl d ↦ rw d refl | inr d ↦ rw d refl ])
  | inr (e, k) ↦ rw k refl
]

needs_index-load_entries :
    (s : BlockStream) (r : TsmFile) (es : List IndexEntry)
    → s.loaded ≡ true
    → needs_index (load_entries s r es) ≡ false
unfolding load_entries
needs_index-load_entries s r [] h = needs_index-finish s
needs_index-load_entries s r (e ∷ es) h = elim (Bool-cases (entries_ascending (e ∷ es))) [
  | inl a ↦
      rw a (needs_index-loaded (record s { entries = prune_entries (e ∷ es) s.start s.end }) h)
  | inr a ↦ elim (Answer-cases (r.read_key_by_name s.key)) [
    | inl (err, k) ↦ rw (a, k) (needs_index-fail s err)
    | inr (vals, k) ↦
        rw (a, k) (needs_index-loaded (record s { buf = in_order vals; entries = [] }) h)
  ]
]

needs_index-with_index : (s : BlockStream) → needs_index (with_index s) ≡ false
unfolding with_index load_index
needs_index-with_index s = elim (Bool-cases (needs_index s)) [
  | inr h ↦ rw (h, with_index) h
  | inl h ↦ elim (Answer-cases s.file) [
    | inl (err, k) ↦
        rw (h, with_index)
          (rw k (needs_index-fail (record s { file = refused err; loaded = true }) err))
    | inr (r, k) ↦
        rw (h, with_index)
          (rw k (
            needs_index-load_entries (record s { file = got r; loaded = true }) r (r.blocks s.key)
              refl))
  ]
]

-- What a stream will still give.
abbrev pub block_feed : BlockStream → Feed
block_feed s = record {
  field = s.field;
  values = (settled (with_index s)).0;
  failure = (settled (with_index s)).1;
}

with_index_kept : (s : BlockStream) → needs_index s ≡ false → with_index s ≡ s
unfolding with_index
with_index_kept s h = rw h refl

field-finish : (s : BlockStream) → (finish s).field ≡ s.field
unfolding finish
field-finish s = ground arith

field-fail : (s : BlockStream) (e : Error) → (fail s e).field ≡ s.field
unfolding fail
field-fail s e = ground arith

field-load_entries :
    (s : BlockStream) (r : TsmFile) (es : List IndexEntry) → (load_entries s r es).field ≡ s.field
unfolding load_entries
field-load_entries s r [] = field-finish s
field-load_entries s r (e ∷ es) = elim (Bool-cases (entries_ascending (e ∷ es))) [
  | inl a ↦ rw a refl
  | inr a ↦ elim (Answer-cases (r.read_key_by_name s.key)) [
    | inl (err, k) ↦ rw (a, k) (field-fail s err)
    | inr (vals, k) ↦ rw (a, k) refl
  ]
]

field-with_index : (s : BlockStream) → (with_index s).field ≡ s.field
unfolding with_index load_index
field-with_index s = elim (Bool-cases (needs_index s)) [
  | inr h ↦ rw (h, with_index) refl
  | inl h ↦ elim (Answer-cases s.file) [
    | inl (err, k) ↦
        rw (h, with_index) (rw k (field-fail (record s { file = refused err; loaded = true }) err))
    | inr (r, k) ↦
        rw (h, with_index)
          (rw k (field-load_entries (record s { file = got r; loaded = true }) r (r.blocks s.key)))
  ]
]

module _ (s : BlockStream) where
  block_peek-Stands : Stands s.field (settled (with_index s)) (block_peek s)
  unfolding block_peek
  block_peek-Stands =
      subst (λ n. Stands n (settled (with_index s)) (answer (with_index s))) (field-with_index s)
        (answer-Stands (with_index s) (needs_index-with_index s))

  block_feed_ready :
      (w : Course)
      → needs_index s ≡ false
      → settled s ≡ w
      → block_feed s ≡ record { field = s.field; values = w.0; failure = w.1 }
  block_feed_ready w h k = rw (with_index_kept s h, k) refl

module _ (s : BlockStream) (valid : Unit {0}) where
  pub block_peek-block_feed : block_feed (block_peek s).0 ≡ block_feed s
  block_peek-block_feed =
      let st = block_peek-Stands s in
      block_feed_ready (block_peek s).0 (settled (with_index s)) st.ready st.kept
      ∙ ap
          (λ n. record {
            field = n;
            values = (block_feed s).values;
            failure = (block_feed s).failure;
          })
          st.named

  pub block_peek-head : (block_peek s).1 ≡ head (block_feed s)
  block_peek-head = (block_peek-Stands s).first

  pub block_advance-tail : block_feed (block_advance (block_peek s).0) ≡ tail (block_feed s)
  unfolding block_advance
  block_advance-tail =
      let st = block_peek-Stands s in
      block_feed_ready (block_advance (block_peek s).0)
        (tail_of (settled (with_index s)).0, (settled (with_index s)).1) st.ready_next st.next
      ∙ ap
          (λ n. record {
            field = n;
            values = tail_of (settled (with_index s)).0;
            failure = (settled (with_index s)).1;
          })
          st.named

abbrev pub block_laws : Laws block_stream
block_laws = record {
  IsValid = λ s. Unit;
  feed = block_feed;
  name_feed = λ s. refl;
  peek_valid = λ s h. h;
  peek_feed = block_peek-block_feed;
  peek_head = block_peek-head;
  advance_valid = λ s h. h;
  advance_feed = block_advance-tail;
}
