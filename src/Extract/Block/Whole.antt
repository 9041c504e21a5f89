-- ===== src/Extract/Block/Whole.antt =====
-- `blockStream` of internal/extract/extract.go over a key whose blocks can be read gives what
-- `sliceStream` gives over all the values of the key.
use tsm2arc.Prelude.{
  List, [], ◌∷◌, ◌++◌, true, false, none, Bytes, ◌≡◌, refl, sym, ap, ap₂, ◌∙◌, inl, inr, Bool-cases,
}
use tsm2arc.Prelude.Int64.{ℤ}
use tsm2arc.Prelude.Times.{earlier, le_earlier_trans, not_earlier_trans}
use tsm2arc.Tsm.{Value, IndexEntry}
use tsm2arc.Extract.{entries_ascending, prune_entries, ascending_after, skip_before, take_through}
use tsm2arc.Extract.Window.{ascending_after-cons, first_after}
use tsm2arc.Extract.Slice.{new_slice_stream, ascending_by_time}
use tsm2arc.Extract.Slice.Lawful.{in_window, in_window_past, slice_feed}
use tsm2arc.Extract.Merge.Row.{NotBefore, IsAscending, NotBefore-trans}
use tsm2arc.Extract.Block.{
  Answer, got, TsmFile, BlockStream, new_block_stream, in_order, load_entries, load_index,
  with_index, needs_index, finish,
}
use tsm2arc.Extract.Block.Scan.{through, blocks_course, settled}
use tsm2arc.Extract.Block.Lawful.{block_feed}
use tsm2arc.Extract.Block.Held.{
  NotAfter, Holds, in_order_kept, in_order-IsAscending, through-in_window, through_all,
  NotBefore-append, IsAscending-append,
}

module _ (read : IndexEntry → Answer (List Value)) where
  Holds-IsAscending :
      (prev : ℤ) (es : List IndexEntry) (vals : List Value)
      → ascending_after prev es ≡ true
      → Holds read es vals
      → NotBefore prev vals × IsAscending vals
  unfolding earlier
  Holds-IsAscending prev [] vals a h = rw h (tt, tt)
  Holds-IsAscending prev (e ∷ es) vals a (b, rest, r, asc, low, high, whole, h) =
      let (m, p, later) = ascending_after-cons prev e es a in
      let (from, rising) = Holds-IsAscending e.max_time es rest later h in
      rw whole (
        NotBefore-append prev b rest (NotBefore-trans prev e.min_time b p low) (
            NotBefore-trans prev e.max_time rest (not_earlier_trans prev e.min_time e.max_time p m)
              from),
        IsAscending-append e.max_time b rest asc high from rising,
      )

  -- The first block of ascending entries: its values and the later ones ascend together.
  Holds-first :
      (e : IndexEntry) (es : List IndexEntry) (b rest : List Value)
      → earlier e.max_time e.min_time ≡ false
      → ascending_after e.max_time es ≡ true
      → IsAscending b
      → NotBefore e.min_time b
      → NotAfter e.max_time b
      → Holds read es rest
      → NotBefore e.min_time (b ++ rest) × IsAscending (b ++ rest)
  Holds-first e es b rest m later asc low high h =
      let (from, rising) = Holds-IsAscending e.max_time es rest later h in
      (
        NotBefore-append e.min_time b rest low (NotBefore-trans e.min_time e.max_time rest m from),
        IsAscending-append e.max_time b rest asc high from rising,
      )

  module _ (start end : ℤ) where
    blocks_course-take_through :
        (prev : ℤ) (es : List IndexEntry) (vals : List Value)
        → ascending_after prev es ≡ true
        → Holds read es vals
        → blocks_course start end read (take_through end es) ≡ (in_window start end vals, none)
    unfolding take_through blocks_course earlier
    blocks_course-take_through prev [] vals a h = rw h (unfold in_window in refl)
    blocks_course-take_through prev (e ∷ es) vals a (b, rest, r, asc, low, high, whole, h) =
        let (m, p, later) = ascending_after-cons prev e es a in
        let (from, rising) = Holds-first e es b rest m later asc low high h in
        let ih = blocks_course-take_through e.max_time es rest later h in
        elim (Bool-cases (earlier end e.min_time)) [
          | inl late ↦
              rw (late, take_through)
                (rw (whole, in_window_past start end e.min_time (b ++ rest) late from) refl)
          | inr soon ↦
              rw (soon, take_through)
                (rw (r, blocks_course)
                  (rw (in_order_kept b asc, ih, whole) (through-in_window start end b rest rising)))
        ]

    in_window_early :
        (t : ℤ) (b rest : List Value)
        → earlier t start ≡ true
        → NotAfter t b
        → in_window start end (b ++ rest) ≡ in_window start end rest
    unfolding in_window
    in_window_early t [] rest h k = refl
    in_window_early t (v ∷ vs) rest h (k, ks) =
        rw (le_earlier_trans v.unix_nano t start k h, in_window) (in_window_early t vs rest h ks)

    blocks_course-prune_entries :
        (prev : ℤ) (es : List IndexEntry) (vals : List Value)
        → ascending_after prev es ≡ true
        → Holds read es vals
        → blocks_course start end read (prune_entries es start end)
          ≡ (in_window start end vals, none)
    unfolding prune_entries skip_before earlier
    blocks_course-prune_entries prev [] vals a h = blocks_course-take_through prev [] vals a h
    blocks_course-prune_entries prev (e ∷ es) vals a (b, rest, r, asc, low, high, whole, h) =
        let (m, p, later) = ascending_after-cons prev e es a in
        let ih = blocks_course-prune_entries e.max_time es rest later h in
        elim (Bool-cases (earlier e.max_time start)) [
          | inl early ↦
              rw (early, skip_before)
                (ih
                  ∙ ap (λ vs. (vs, none))
                      (sym (
                        ap (in_window start end) whole
                        ∙ in_window_early e.max_time b rest early high)))
          | inr reaches ↦
              rw (reaches, skip_before)
                (blocks_course-take_through prev (e ∷ es) vals a
                  (b, rest, r, asc, low, high, whole, h))
        ]

-- The file answers for the key: all its values, and the same values block by block.
abbrev pub Answers : TsmFile → Bytes → List Value → Type 0
Answers r key vals =
    (r.read_key_by_name key ≡ got vals) × Holds (r.read_block_at key) (r.blocks key) vals

module _ (f : Bytes) (r : TsmFile) (key : Bytes) (start end : ℤ) (vals : List Value) where
  abbrev opened_stream : BlockStream
  opened_stream = record (new_block_stream f (got r) key start end) { loaded = true }

  load_entries_whole :
      (e : IndexEntry) (es : List IndexEntry)
      → entries_ascending (e ∷ es) ≡ false
      → r.read_key_by_name key ≡ got vals
      → load_entries opened_stream r (e ∷ es) ≡ record opened_stream { buf = in_order vals }
  unfolding load_entries
  load_entries_whole e es a k = rw a (rw k refl)

  settled-load_entries :
      (es : List IndexEntry)
      → r.read_key_by_name key ≡ got vals
      → Holds (r.read_block_at key) es vals
      → settled (load_entries opened_stream r es) ≡ (in_window start end (in_order vals), none)
  unfolding settled load_entries finish through blocks_course
  settled-load_entries [] k h = rw h (unfold in_window in_order ascending_by_time in refl)
  settled-load_entries (e ∷ es) k h = elim (Bool-cases (entries_ascending (e ∷ es))) [
    | inl a ↦
        let after = first_after e es a in
        let rising = (Holds-IsAscending (r.read_block_at key) e.min_time (e ∷ es) vals after h).1 in
        rw a (
          rw (in_order_kept vals rising) (
            blocks_course-prune_entries (r.read_block_at key) start end e.min_time (e ∷ es) vals
              after h))
    | inr a ↦
        ap settled (load_entries_whole e es a k)
        ∙ through_all start end (in_order vals) (in_order-IsAscending vals)
  ]

  pub block_feed-slice_feed :
      Answers r key vals
      → block_feed (new_block_stream f (got r) key start end)
        ≡ slice_feed (new_slice_stream f vals start end)
  unfolding with_index load_index needs_index new_slice_stream
  block_feed-slice_feed (k, h) =
      let course = settled-load_entries (r.blocks key) k h in
      ap₂ (λ vs e. record { field = f; values = vs; failure = e }) (ap (λ c. c.0) course)
        (ap (λ c. c.1) course)
      ∙ unfold in_order in refl
