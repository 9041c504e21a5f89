-- ===== src/Extract/Window.antt =====
-- `pruneEntries` of internal/extract/extract.go against the blocks that overlap the window.
use tsm2arc.Prelude.{
  ℕ, List, [], ◌∷◌, Bool, true, false, not, ◌&&◌, if◌then◌else◌, ◌≡◌, refl, sym, ◌∙◌, arith,
  Bool-cases, inl, inr, ltb, ◌+◌,
}
use tsm2arc.Prelude.Int64.{ℤ, ltb_ℤ, pos_part, neg_part}
use tsm2arc.Tsm.{IndexEntry}
use tsm2arc.Extract.{skip_before, take_through, prune_entries, ascending_after, entries_ascending}

-- The block holds a time of the window, by its bounds.
abbrev pub overlaps : ℤ → ℤ → IndexEntry → Bool
overlaps start end e = not (ltb_ℤ e.max_time start) && not (ltb_ℤ end e.min_time)

unfoldable pub overlapping : ℤ → ℤ → List IndexEntry → List IndexEntry
overlapping start end [] = []
overlapping start end (e ∷ es) =
    let later = overlapping start end es in if overlaps start end e then e ∷ later else later

pub ascending_after-cons :
    (prev : ℤ) (e : IndexEntry) (es : List IndexEntry)
    → ascending_after prev (e ∷ es) ≡ true
    → (ltb_ℤ e.max_time e.min_time ≡ false)
      × (ltb_ℤ e.min_time prev ≡ false)
      × (ascending_after e.max_time es ≡ true)
unfolding ascending_after
ascending_after-cons prev e es h =
    three_tests (ltb_ℤ e.max_time e.min_time) (ltb_ℤ e.min_time prev)
      (ascending_after e.max_time es) h
  where
    three_tests :
        (a b c : Bool)
        → (if a then false else if b then false else c) ≡ true
        → (a ≡ false) × (b ≡ false) × (c ≡ true)
    three_tests true b c h = cc
    three_tests false true c h = cc
    three_tests false false c h = (refl, refl, h)

-- `a ≤ b ≤ c` and `a < b ≤ c`, on tests.
not_below_trans : (a b c : ℤ) → ltb_ℤ b a ≡ false → ltb_ℤ c b ≡ false → ltb_ℤ c a ≡ false
not_below_trans a b c h k =
    by_parts (pos_part a) (neg_part a) (pos_part b) (neg_part b) (pos_part c) (neg_part c) h k
  where
    by_parts :
        (a a' b b' c c' : ℕ)
        → ltb (b + a') (a + b') ≡ false
        → ltb (c + b') (b + c') ≡ false
        → ltb (c + a') (a + c') ≡ false
    by_parts a a' b b' c c' h k = ground arith

below_trans : (a b c : ℤ) → ltb_ℤ a b ≡ true → ltb_ℤ c b ≡ false → ltb_ℤ a c ≡ true
below_trans a b c h k =
    by_parts (pos_part a) (neg_part a) (pos_part b) (neg_part b) (pos_part c) (neg_part c) h k
  where
    by_parts :
        (a a' b b' c c' : ℕ)
        → ltb (a + b') (b + a') ≡ true
        → ltb (c + b') (b + c') ≡ false
        → ltb (a + c') (c + a') ≡ true
    by_parts a a' b b' c c' h k = ground arith

overlapping_skip :
    (start end : ℤ) (e : IndexEntry) (es : List IndexEntry)
    → overlaps start end e ≡ false
    → overlapping start end (e ∷ es) ≡ overlapping start end es
unfolding overlapping
overlapping_skip start end e es h = rw h refl

overlaps-late :
    (start end : ℤ) (e : IndexEntry) → ltb_ℤ end e.min_time ≡ true → overlaps start end e ≡ false
overlaps-late start end e h = both_tests (ltb_ℤ e.max_time start) (ltb_ℤ end e.min_time) h
  where
    both_tests : (a b : Bool) → b ≡ true → (not a && not b) ≡ false
    both_tests true b h = refl
    both_tests false true h = refl
    both_tests false false h = cc

overlapping_past :
    (start end prev : ℤ) (es : List IndexEntry)
    → ltb_ℤ end prev ≡ true
    → ascending_after prev es ≡ true
    → overlapping start end es ≡ []
overlapping_past start end prev [] h a = unfold overlapping in refl
overlapping_past start end prev (e ∷ es) h a =
    let (m, p, r) = ascending_after-cons prev e es a in
    let late = below_trans end prev e.min_time h p in
    overlapping_skip start end e es (overlaps-late start end e late)
    ∙ overlapping_past start end e.max_time es (below_trans end e.min_time e.max_time late m) r

take_through-first :
    (start end : ℤ) (e : IndexEntry) (es : List IndexEntry)
    → ltb_ℤ e.max_time start ≡ false
    → ltb_ℤ e.max_time e.min_time ≡ false
    → ascending_after e.max_time es ≡ true
    → take_through end es ≡ overlapping start end es
    → take_through end (e ∷ es) ≡ overlapping start end (e ∷ es)
unfolding take_through overlapping
take_through-first start end e es in_time m r ih = elim (Bool-cases (ltb_ℤ end e.min_time)) [
  | inl late ↦
      rw (late, in_time)
        (sym (
          overlapping_past start end e.max_time es (below_trans end e.min_time e.max_time late m)
            r))
  | inr soon ↦ rw (soon, in_time, ih) refl
]

overlaps-early :
    (start end : ℤ) (e : IndexEntry) → ltb_ℤ e.max_time start ≡ true → overlaps start end e ≡ false
overlaps-early start end e h = rw h refl

skip_early :
    (start end : ℤ) (e : IndexEntry) (es : List IndexEntry)
    → ltb_ℤ e.max_time start ≡ true
    → take_through end (skip_before start (e ∷ es)) ≡ take_through end (skip_before start es)
unfolding skip_before
skip_early start end e es h = rw h refl

skip_none :
    (start end : ℤ) (e : IndexEntry) (es : List IndexEntry)
    → ltb_ℤ e.max_time start ≡ false
    → take_through end (skip_before start (e ∷ es)) ≡ take_through end (e ∷ es)
unfolding skip_before
skip_none start end e es h = rw h refl

ltb_ℤ-irrefl : (a : ℤ) → ltb_ℤ a a ≡ false
ltb_ℤ-irrefl a = itself (pos_part a + neg_part a)
  where
    itself : (n : ℕ) → ltb n n ≡ false
    itself n = ground arith

pub first_after :
    (e : IndexEntry) (es : List IndexEntry)
    → entries_ascending (e ∷ es) ≡ true
    → ascending_after e.min_time (e ∷ es) ≡ true
unfolding entries_ascending ascending_after
first_after e es h = rw (ltb_ℤ-irrefl e.min_time) h

take_through-overlapping :
    (start end prev : ℤ) (es : List IndexEntry)
    → ltb_ℤ prev start ≡ false
    → ascending_after prev es ≡ true
    → take_through end es ≡ overlapping start end es
take_through-overlapping start end prev [] h a = unfold take_through overlapping in refl
take_through-overlapping start end prev (e ∷ es) h a =
    let (m, p, r) = ascending_after-cons prev e es a in
    let in_time =
      not_below_trans start e.min_time e.max_time (not_below_trans start prev e.min_time h p) m in
    take_through-first start end e es in_time m r
      (take_through-overlapping start end e.max_time es in_time r)

-- The block that starts the kept ones, given the rest.
take_through-skip_before :
    (start end prev : ℤ) (es : List IndexEntry)
    → ascending_after prev es ≡ true
    → take_through end (skip_before start es) ≡ overlapping start end es
take_through-skip_before start end prev [] a = unfold take_through skip_before overlapping in refl
take_through-skip_before start end prev (e ∷ es) a =
    let (m, p, r) = ascending_after-cons prev e es a in
    elim (Bool-cases (ltb_ℤ e.max_time start)) [
      | inl early ↦
          skip_early start end e es early
          ∙ take_through-skip_before start end e.max_time es r
          ∙ sym (overlapping_skip start end e es (overlaps-early start end e early))
      | inr in_time ↦
          skip_none start end e es in_time
          ∙ take_through-first start end e es in_time m r
              (take_through-overlapping start end e.max_time es in_time r)
    ]

-- On blocks that ascend, pruning keeps exactly the blocks that overlap the window, in their order.
pub prune_entries-overlapping :
    (ents : List IndexEntry) (start end : ℤ)
    → entries_ascending ents ≡ true
    → prune_entries ents start end ≡ overlapping start end ents
unfolding prune_entries
prune_entries-overlapping [] start end a = unfold skip_before take_through overlapping in refl
prune_entries-overlapping (e ∷ es) start end a =
    take_through-skip_before start end e.min_time (e ∷ es) (first_after e es a)
