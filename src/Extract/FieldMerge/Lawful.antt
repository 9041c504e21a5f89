-- ===== src/Extract/FieldMerge/Lawful.antt =====
-- `fieldMergeStream` of internal/extract/extract.go keeps the laws of the interface when its children
-- do, and stands for the stable merge of what they stand for.
use tsm2arc.Prelude.{
  List, [], ◌∷◌, true, false, Option, none, some, if◌then◌else◌, ◌⊎◌, ◌≡◌, refl, sym, ap, ◌∙◌, inl,
  inr, arith, Bytes,
}
use tsm2arc.Tsm.{Value}
use tsm2arc.Extract.Stream.{Stream, Peek, broken, head_of, tail_of, head, tail, Laws}
use tsm2arc.Extract.Heap.{Entry, entry_at}
use tsm2arc.Extract.FieldMerge.{
  FieldMerge, new_field_merge, top, drop_root, init, merge_peek, advance_child, refill,
  merge_advance, field_merge_stream,
}
use tsm2arc.Extract.FieldMerge.Merged.{merge_all, head_at, pop}
use tsm2arc.Extract.FieldMerge.Heads.{
  Matches, sift_root-Matches, root-merge_all, no_root-merge_all, top-Matches,
}
use tsm2arc.Extract.FieldMerge.Advance.{next-Matches, drop_root-Matches}
use tsm2arc.Extract.FieldMerge.Children.{
  answer, values_of, AllSound, AllPeeked, peeked, heap_of, merged_feed, init_lem, values_of-peeked,
  peeked-AllPeeked, heap_of-Matches, advance_child_lem,
}

module _ {S : Type 0} (ops : Stream S) (laws : Laws ops) where
  pub record IsFresh (s : FieldMerge S) : Type 0 where
    pub no_error : s.err ≡ none
    pub inited : s.inited ≡ false
    pub empty : s.h ≡ []
    pub sound : AllSound ops laws s.children

  pub record IsLive (s : FieldMerge S) : Type 0 where
    pub no_error : s.err ≡ none
    pub inited : s.inited ≡ true
    pub peeked : AllPeeked ops laws s.children
    pub heap : Matches 0 s.h (values_of ops laws s.children)

  abbrev pub IsState : FieldMerge S → Type 0
  IsState s = IsFresh s ⊎ IsLive s

  pub new_field_merge-IsState :
      (field : Bytes) (cs : List S) → AllSound ops laws cs → IsState (new_field_merge field cs)
  new_field_merge-IsState field cs h =
      inl (record { no_error = refl; inited = refl; empty = refl; sound = h })

  merge_peek-live : (s : FieldMerge S) → IsLive s → merge_peek ops s ≡ (s, top s.h)
  unfolding merge_peek
  merge_peek-live s l = rw (l.no_error, l.inited) refl

  merge_peek-fresh :
      (s : FieldMerge S)
      → IsFresh s
      → merge_peek ops s ≡ (
        record s {
          children = peeked ops laws s.children;
          h = heap_of ops laws s.children;
          inited = true;
        },
        top (heap_of ops laws s.children),
      )
  unfolding merge_peek
  merge_peek-fresh s f =
      ap
        (λ o. elim o [
          | some e ↦ (s, broken e)
          | none ↦ if s.inited then (s, top s.h) else init ops s
        ])
        f.no_error
      ∙ ap (λ b. if b then (s, top s.h) else init ops s) f.inited
      ∙ init_lem ops laws s f.empty f.sound

  first_peek-IsLive :
      (s : FieldMerge S)
      → IsFresh s
      → IsLive (record s {
        children = peeked ops laws s.children;
        h = heap_of ops laws s.children;
        inited = true;
      })
  first_peek-IsLive s f = record {
    no_error = f.no_error;
    inited = refl;
    peeked = peeked-AllPeeked ops laws s.children f.sound;
    heap = heap_of-Matches ops laws s.children f.sound;
  }

  pub merge_peek-IsLive : (s : FieldMerge S) → IsState s → IsLive (merge_peek ops s).0
  merge_peek-IsLive s (inl f) = rw (merge_peek-fresh s f) (first_peek-IsLive s f)
  merge_peek-IsLive s (inr l) = rw (merge_peek-live s l) l

  pub merge_peek-feed :
      (s : FieldMerge S)
      → IsState s
      → merged_feed ops laws (merge_peek ops s).0 ≡ merged_feed ops laws s
  merge_peek-feed s (inl f) =
      rw (merge_peek-fresh s f, values_of-peeked ops laws s.children f.sound) refl
  merge_peek-feed s (inr l) = rw (merge_peek-live s l) refl

  pub merge_peek-head :
      (s : FieldMerge S) → IsState s → (merge_peek ops s).1 ≡ head (merged_feed ops laws s)
  merge_peek-head s (inl f) = rw (merge_peek-fresh s f) (
      top-Matches (heap_of ops laws s.children) (values_of ops laws (peeked ops laws s.children))
        (heap_of-Matches ops laws s.children f.sound)
      ∙ ap (λ vss. head_of (merge_all vss) none) (values_of-peeked ops laws s.children f.sound))
  merge_peek-head s (inr l) =
      rw (merge_peek-live s l) (top-Matches s.h (values_of ops laws s.children) l.heap)

  module _ (s : FieldMerge S) (l : IsLive s) (e : Entry) (es : List Entry)
      (m : Matches 0 (e ∷ es) (values_of ops laws s.children)) where
    tail-merged_feed :
        (cs : List S)
        → values_of ops laws cs ≡ pop e.idx (values_of ops laws s.children)
        → merge_all (values_of ops laws cs) ≡ tail_of (merge_all (values_of ops laws s.children))
    tail-merged_feed cs h =
        ap merge_all h ∙ sym (ap tail_of (root-merge_all e es (values_of ops laws s.children) m))

    refill-IsLive :
        (cs : List S) (p : Peek) (o : Option Value)
        → AllPeeked ops laws cs
        → values_of ops laws cs ≡ pop e.idx (values_of ops laws s.children)
        → p ≡ answer o
        → head_at (pop e.idx (values_of ops laws s.children)) e.idx ≡ o
        → IsLive (refill s e es (cs, p))
          × (merged_feed ops laws (refill s e es (cs, p)) ≡ tail (merged_feed ops laws s))
    refill-IsLive cs p none all h ans at = rw ans (
      record {
        no_error = l.no_error;
        inited = l.inited;
        peeked = all;
        heap = rw h (
            sift_root-Matches (drop_root (e ∷ es)) (pop e.idx (values_of ops laws s.children))
              (drop_root-Matches e es (values_of ops laws s.children) m at));
      },
      ap (λ vs. record { field = s.field; values = vs; failure = none }) (tail-merged_feed cs h),
    )
    refill-IsLive cs p (some w) all h ans at = rw ans (
      record {
        no_error = l.no_error;
        inited = l.inited;
        peeked = all;
        heap = rw h (
            sift_root-Matches (record { v = w; idx = e.idx } ∷ es)
              (pop e.idx (values_of ops laws s.children))
              (next-Matches e es (values_of ops laws s.children) m w at));
      },
      ap (λ vs. record { field = s.field; values = vs; failure = none }) (tail-merged_feed cs h),
    )

  merge_advance-cases :
      (s : FieldMerge S) (h : List Entry)
      → s.h ≡ h
      → merge_advance ops s
        ≡ elim h [ [] ↦ s | e ∷ es ↦ refill s e es (advance_child ops e.idx s.children) ]
  unfolding merge_advance
  merge_advance-cases s h q =
      ap (λ g. elim g [ [] ↦ s | e ∷ es ↦ refill s e es (advance_child ops e.idx s.children) ]) q

  pub merge_advance-IsLive :
      (s : FieldMerge S) (h : List Entry)
      → IsLive s
      → s.h ≡ h
      → IsLive (merge_advance ops s)
        × (merged_feed ops laws (merge_advance ops s) ≡ tail (merged_feed ops laws s))
  unfolding entry_at
  merge_advance-IsLive s [] l q = rw (merge_advance-cases s [] q) (
    l,
    ap (λ vs. record { field = s.field; values = vs; failure = none })
        (empty ∙ sym (ap tail_of empty)),
  )
    where
      empty : merge_all (values_of ops laws s.children) ≡ []
      empty = no_root-merge_all (values_of ops laws s.children) (rw q at l.heap)
  merge_advance-IsLive s (e ∷ es) l q =
      let m : Matches 0 (e ∷ es) (values_of ops laws s.children) = rw q at l.heap in
      let (all, vals, ans) =
        advance_child_lem ops laws e.idx s.children e.v l.peeked
          (m.sound e (0, omega arith, refl)) in
      rw (merge_advance-cases s (e ∷ es) q) (
        refill-IsLive s l e es m (advance_child ops e.idx s.children).0
          (advance_child ops e.idx s.children).1
          (head_at (pop e.idx (values_of ops laws s.children)) e.idx) all vals ans refl)

  -- When its children keep the laws and end without an error, so does the stream of their field, and it
  -- stands for the stable merge of their values.
  abbrev pub field_merge_laws : Laws (field_merge_stream ops)
  field_merge_laws = record {
    IsValid = IsState;
    feed = merged_feed ops laws;
    name_feed = λ s. refl;
    peek_valid = λ s v. inr (merge_peek-IsLive s v);
    peek_feed = merge_peek-feed;
    peek_head = merge_peek-head;
    advance_valid = λ s v.
        inr
          (merge_advance-IsLive (merge_peek ops s).0 (merge_peek ops s).0.h (merge_peek-IsLive s v)
            refl).0;
    advance_feed = λ s v.
        (merge_advance-IsLive (merge_peek ops s).0 (merge_peek ops s).0.h (merge_peek-IsLive s v)
          refl).1
        ∙ ap tail (merge_peek-feed s v);
  }
