-- ===== src/Extract/FieldMerge/Children.antt =====
-- The children of `fieldMergeStream` in internal/extract/extract.go behind its calls of their `peek` and
-- `advance`.
use tsm2arc.Prelude.{
  ℕ, zero, suc, ◌/◌, List, [], ◌∷◌, true, Option, none, some, length, ◌≡◌, refl, sym, ap, ap₂, ◌∙◌,
}
use tsm2arc.Tsm.{Value}
use tsm2arc.Extract.Stream.{Stream, Peek, value, exhausted, Feed, head_of, tail_of, Laws}
use tsm2arc.Extract.Heap.{Entry, heapify}
use tsm2arc.Extract.FieldMerge.{FieldMerge, top, peek_children, init, advance_child}
use tsm2arc.Extract.FieldMerge.Merged.{merge_all, first_of, head_at, pop}
use tsm2arc.Extract.FieldMerge.Heads.{heads_from, Matches, heapify-Matches}

abbrev pub answer : Option Value → Peek
answer none = exhausted
answer (some v) = value v

module _ {S : Type 0} (ops : Stream S) (laws : Laws ops) where
  abbrev pub values_of : List S → List (List Value)
  values_of [] = []
  values_of (c ∷ cs) = (laws.feed c).values ∷ values_of cs

  abbrev pub IsSound : S → Type 0
  IsSound c = laws.IsValid c × ((laws.feed c).failure ≡ none)

  -- Every child keeps the laws and ends without an error.
  unfoldable pub AllSound : List S → Type 0
  AllSound [] = Unit
  AllSound (c ∷ cs) = IsSound c × AllSound cs

  -- Every child is behind a peek.
  unfoldable pub AllPeeked : List S → Type 0
  AllPeeked [] = Unit
  AllPeeked (c ∷ cs) = ((b : S) × IsSound b × (c ≡ (ops.peek b).0)) × AllPeeked cs

  -- Before the first peek, and behind it.
  peek-IsSound : (c : S) → IsSound c → IsSound (ops.peek c).0
  peek-IsSound c (v, f) = (laws.peek_valid c v, ap (λ d. d.failure) (laws.peek_feed c v) ∙ f)

  abbrev pub peeked : List S → List S
  peeked [] = []
  peeked (c ∷ cs) = (ops.peek c).0 ∷ peeked cs

  -- What the stream of a field stands for.
  abbrev pub merged_feed : FieldMerge S → Feed
  merged_feed s = record {
    field = s.field;
    values = merge_all (values_of s.children);
    failure = none;
  }

  pub peeked-AllPeeked : (cs : List S) → AllSound cs → AllPeeked (peeked cs)
  unfolding AllSound AllPeeked
  peeked-AllPeeked [] h = tt
  peeked-AllPeeked (c ∷ cs) (h, hs) = ((c, h, refl), peeked-AllPeeked cs hs)

  pub values_of-peeked : (cs : List S) → AllSound cs → values_of (peeked cs) ≡ values_of cs
  unfolding AllSound
  values_of-peeked [] h = refl
  values_of-peeked (c ∷ cs) (h, hs) =
      ap₂ (λ f vs. f.values ∷ vs) (laws.peek_feed c h.0) (values_of-peeked cs hs)

  answer_head : (vs : List Value) → head_of vs none ≡ answer (first_of vs)
  answer_head [] = refl
  answer_head (v ∷ vs) = refl

  peek-answer : (c : S) → IsSound c → (ops.peek c).1 ≡ answer (first_of (laws.feed c).values)
  peek-answer c (v, f) =
      laws.peek_head c v ∙ ap (head_of (laws.feed c).values) f ∙ answer_head (laws.feed c).values

  peek_children_cons :
      (i : ℕ) (c : S) (cs : List S) (vs : List Value)
      → (ops.peek c).1 ≡ answer (first_of vs)
      → peek_children ops (suc i) cs ≡ (peeked cs, none, heads_from (suc i) (values_of cs))
      → peek_children ops i (c ∷ cs)
        ≡ ((ops.peek c).0 ∷ peeked cs, none, heads_from i (vs ∷ values_of cs))
  unfolding peek_children
  peek_children_cons i c cs [] h k = rw (k, h) refl
  peek_children_cons i c cs (v ∷ vs) h k = rw (k, h) refl

  peek_children_lem :
      (i : ℕ) (cs : List S)
      → AllSound cs
      → peek_children ops i cs ≡ (peeked cs, none, heads_from i (values_of cs))
  unfolding peek_children AllSound
  peek_children_lem i [] h = refl
  peek_children_lem i (c ∷ cs) (h, hs) =
      peek_children_cons i c cs (laws.feed c).values (peek-answer c h)
        (peek_children_lem (suc i) cs hs)

  abbrev pub heap_of : List S → List Entry
  heap_of cs = heapify (length (heads_from 0 (values_of cs)) / 2) (heads_from 0 (values_of cs))

  -- The first peek.
  pub init_lem :
      (s : FieldMerge S)
      → s.h ≡ []
      → AllSound s.children
      → init ops s ≡ (
        record s { children = peeked s.children; h = heap_of s.children; inited = true },
        top (heap_of s.children),
      )
  unfolding init
  init_lem s h sound = rw (peek_children_lem 0 s.children sound, h) refl

  pub heap_of-Matches : (cs : List S) → AllSound cs → Matches 0 (heap_of cs) (values_of (peeked cs))
  heap_of-Matches cs sound = rw (values_of-peeked cs sound) (heapify-Matches (values_of cs))

  -- A child behind `advance`.
  abbrev next : S → S
  next b = ops.advance (ops.peek b).0

  next-IsSound : (b : S) → IsSound b → IsSound (next b)
  next-IsSound b (v, f) = (laws.advance_valid b v, ap (λ d. d.failure) (laws.advance_feed b v) ∙ f)

  values-next :
      (b : S) → IsSound b → (laws.feed (next b)).values ≡ tail_of (laws.feed (ops.peek b).0).values
  values-next b (v, f) =
      ap (λ d. d.values) (laws.advance_feed b v)
      ∙ ap (λ d. tail_of d.values) (sym (laws.peek_feed b v))

  pub advance_child_lem :
      (i : ℕ) (cs : List S) (v : Value)
      → AllPeeked cs
      → head_at (values_of cs) i ≡ some v
      → AllPeeked (advance_child ops i cs).0
        × (values_of (advance_child ops i cs).0 ≡ pop i (values_of cs))
        × ((advance_child ops i cs).1 ≡ answer (head_at (pop i (values_of cs)) i))
  unfolding AllPeeked advance_child head_at pop
  advance_child_lem i [] v peeked_all h = cc
  advance_child_lem zero (c ∷ cs) v ((b, sound, is), rest) h =
      let n = next-IsSound b sound in
      rw is (
        (((next b, n, refl), rest)),
        ap (λ vs. vs ∷ values_of cs)
            (ap (λ f. f.values) (laws.peek_feed (next b) n.0) ∙ values-next b sound),
        peek-answer (next b) n ∙ ap (λ vs. answer (first_of vs)) (values-next b sound),
      )
  advance_child_lem (suc i) (c ∷ cs) v (peeked_first, rest) h =
      let (a, b, d) = advance_child_lem i cs v rest h in
      ((peeked_first, a), ap (λ vs. (laws.feed c).values ∷ vs) b, d)
