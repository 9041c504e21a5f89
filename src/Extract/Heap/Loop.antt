-- ===== src/Extract/Heap/Loop.antt =====
-- `siftDown` of internal/extract/extract.go ends with a heap of the same entries.
use tsm2arc.Prelude.{
  ℕ, zero, suc, ◌-◌, ◌/◌, ◌<◌, ◌≤◌, List, true, if◌then◌else◌, length, ◌==◌, ◌≡◌, ◌≢◌, refl, sym,
  ap, ◌∙◌, inl, inr, arith, Bool-cases,
}
use tsm2arc.Extract.Heap.{Entry, entry_at, swap, min_child, sift_loop, sift_down, heapify}
use tsm2arc.Extract.Heap.Order.{AtMost, AtMost-refl, AtMost-trans, length-swap, entry_at-swap}
use tsm2arc.Extract.Heap.Sift.{
  parent, IsHeapFrom, DownInv, IsLeast, min_child-IsLeast, swap-DownInv,
}

-- No child has two entries.
abbrev pub IsDistinct : List Entry → Type 0
IsDistinct h =
    (j k : ℕ) → j < length h → k < length h → (entry_at h j).idx ≡ (entry_at h k).idx → j ≡ k

-- The entry is in the heap.
abbrev pub Holds : List Entry → Entry → Type 0
Holds h e = (k : ℕ) × (k < length h) × (entry_at h k ≡ e)

-- The same entries in another order.
pub record Rearranged (g h : List Entry) : Type 0 where
  pub size : length h ≡ length g
  pub forth : (e : Entry) → Holds g e → Holds h e
  pub back : (e : Entry) → Holds h e → Holds g e
  pub distinct : IsDistinct g → IsDistinct h

pub Rearranged-refl : (h : List Entry) → Rearranged h h
Rearranged-refl h = record { size = refl; forth = λ e k. k; back = λ e k. k; distinct = λ d. d }

Rearranged-trans : (f g h : List Entry) → Rearranged f g → Rearranged g h → Rearranged f h
Rearranged-trans f g h r s = record {
  size = s.size ∙ r.size;
  forth = λ e k. s.forth e (r.forth e k);
  back = λ e k. r.back e (s.back e k);
  distinct = λ d. s.distinct (r.distinct d);
}

module _ (h : List Entry) (i j : ℕ) (p : i < length h) (q : j < length h) where
  -- Where the swap takes the entry at `k`.
  abbrev swapped : ℕ → ℕ
  swapped k = if j == k then i else if i == k then j else k

  entry_at-swapped : (k : ℕ) → entry_at (swap h i j) k ≡ entry_at h (swapped k)
  entry_at-swapped k = entry_at-swap h i j k p q ∙ ground arith

  swapped_lt : (k : ℕ) → k < length h → swapped k < length h
  swapped_lt k r = ground arith

  swapped-swapped : (k : ℕ) → swapped (swapped k) ≡ k
  swapped-swapped k = ground arith

  Rearranged-swap : Rearranged h (swap h i j)
  Rearranged-swap = record {
    size = length-swap h i j;
    forth = λ e (k, r, at). (
      swapped k,
      omega (arith, swapped_lt k r, length-swap h i j),
      entry_at-swapped (swapped k) ∙ ap (entry_at h) (swapped-swapped k) ∙ at,
    );
    back = λ e (k, r, at).
        (swapped k, swapped_lt k (omega (arith, length-swap h i j)), sym (entry_at-swapped k) ∙ at);
    distinct = λ d k l r s same_idx.
        let at = entry_at-swapped k in
        let at' = entry_at-swapped l in
        let one =
          d (swapped k) (swapped l) (swapped_lt k (omega (arith, length-swap h i j)))
            (swapped_lt l (omega (arith, length-swap h i j)))
            (ap (λ e. e.idx) (sym at) ∙ same_idx ∙ ap (λ e. e.idx) at') in
        sym (swapped-swapped k) ∙ ap swapped one ∙ swapped-swapped l;
  }

pub sift_loop-IsHeapFrom :
    (fuel lo : ℕ) (h : List Entry) (i : ℕ)
    → length h - i < fuel
    → i < length h
    → DownInv lo h i
    → IsHeapFrom lo (sift_loop fuel i h) × Rearranged h (sift_loop fuel i h)
unfolding sift_loop
sift_loop-IsHeapFrom zero lo h i f p v = absurd (omega arith)
sift_loop-IsHeapFrom (suc fuel) lo h i f p v =
    let m = min_child h i in
    let s = min_child-IsLeast h i p in
    elim (Bool-cases (m == i)) [
      | inl e ↦ rw (e, sift_loop) (settled s e, Rearranged-refl h)
      | inr e ↦
          let apart : m ≢ i = λ x. ground arith in
          let (order, again) =
            sift_loop-IsHeapFrom fuel lo (swap h i m) m (deeper s apart)
              (omega (arith, length-swap h i m, s.inside)) (swap-DownInv lo h i m p v s apart) in
          rw (e, sift_loop)
            (
              order,
              Rearranged-trans h (swap h i m) (sift_loop fuel m (swap h i m))
                  (Rearranged-swap h i m p s.inside) again,
            )
    ]
  where
    settled : IsLeast h i (min_child h i) → (min_child h i == i) ≡ true → IsHeapFrom lo h
    settled s e c q r t = elim (Bool-cases (parent c == i)) [
      | inl u ↦
          let at_i : parent c ≡ i = ground arith in
          let m_is : min_child h i ≡ i = ground arith in
          let found = s.least c q r at_i in rw at_i (rw m_is at found)
      | inr u ↦ v.edges c q r t (λ x. ground arith)
    ]

    deeper :
        IsLeast h i (min_child h i)
        → min_child h i ≢ i
        → length (swap h i (min_child h i)) - min_child h i < fuel
    deeper s d = elim s.place [
      | inl e ↦ absurd (d e)
      | inr (inl e, x) ↦ omega (arith, length-swap h i (min_child h i), s.inside)
      | inr (inr e, x) ↦ omega (arith, length-swap h i (min_child h i), s.inside)
    ]

-- Below `lo` only, `siftDown` orders the entry at `lo`.
pub sift_down-IsHeapFrom :
    (h : List Entry) (i : ℕ)
    → i < length h
    → IsHeapFrom (suc i) h
    → IsHeapFrom i (sift_down h i) × Rearranged h (sift_down h i)
unfolding sift_down
sift_down-IsHeapFrom h i p v = sift_loop-IsHeapFrom (suc (length h)) i h i (omega arith) p (record {
  edges = λ c q r s t. v c q r (omega arith);
  bridged = λ c q r s t u. absurd (omega arith);
})

-- A new entry at the root sinks to its place.
pub sift_down-root :
    (h : List Entry)
    → 0 < length h
    → IsHeapFrom 1 h
    → IsHeapFrom 0 (sift_down h 0) × Rearranged h (sift_down h 0)
sift_down-root h p v = sift_down-IsHeapFrom h 0 p v

heapify-IsHeapFrom :
    (n : ℕ) (h : List Entry)
    → n ≤ length h
    → IsHeapFrom n h
    → IsHeapFrom 0 (heapify n h) × Rearranged h (heapify n h)
unfolding heapify
heapify-IsHeapFrom zero h p v = (v, Rearranged-refl h)
heapify-IsHeapFrom (suc n) h p v =
    let (order, r) = sift_down-IsHeapFrom h n (omega arith) v in
    let (order', r') = heapify-IsHeapFrom n (sift_down h n) (omega (arith, r.size)) order in
    (order', Rearranged-trans h (sift_down h n) (heapify n (sift_down h n)) r r')

-- The first peek puts its entries in the order of a heap, and keeps every one of them.
pub heapify_lem :
    (h : List Entry)
    → IsHeapFrom 0 (heapify (length h / 2) h) × Rearranged h (heapify (length h / 2) h)
heapify_lem h = heapify-IsHeapFrom (length h / 2) h (omega arith) (λ c p q s. absurd (omega arith))

root_least_below :
    (k : ℕ) (h : List Entry) (i : ℕ)
    → IsHeapFrom 0 h
    → i < k
    → i < length h
    → AtMost (entry_at h 0) (entry_at h i)
root_least_below zero h i v f p = absurd (omega arith)
root_least_below (suc k) h i v f p = elim (Bool-cases (i == 0)) [
  | inl e ↦
      let at_root : i ≡ 0 = ground arith in rw at_root (AtMost-refl (entry_at h 0) (entry_at h 0))
  | inr e ↦
      AtMost-trans (entry_at h 0) (entry_at h (parent i)) (entry_at h i)
        (root_least_below k h (parent i) v (ground arith) (ground arith))
        (v i (ground arith) p (omega arith))
]

-- The root of a heap comes first.
pub root_least :
    (h : List Entry) (i : ℕ) → IsHeapFrom 0 h → i < length h → AtMost (entry_at h 0) (entry_at h i)
root_least h i v p = root_least_below (suc i) h i v (omega arith) p
