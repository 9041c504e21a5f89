-- ===== src/Extract/Heap/Sift.antt =====
-- `siftDown` of internal/extract/extract.go restores the heap order below an index.
use tsm2arc.Prelude.{
  ℕ, ◌+◌, ◌-◌, ◌*◌, ◌/◌, ◌<◌, ◌≤◌, List, true, false, length, ltb, ◌≡◌, ◌≢◌, refl, ◌⊎◌, inl, inr,
  arith, Bool-cases,
}
use tsm2arc.Extract.Heap.{Entry, less, entry_at, swap, comes_first, min_child}
use tsm2arc.Extract.Heap.Order.{
  AtMost, AtMost-refl, less-AtMost, AtMost-trans, less_trans, length-swap, entry_at-swap,
}

abbrev pub parent : ℕ → ℕ
parent c = (c - 1) / 2

-- Every edge with its parent at `lo` or later is in order.
abbrev pub IsHeapFrom : ℕ → List Entry → Type 0
IsHeapFrom lo h =
    (c : ℕ) → 0 < c → c < length h → lo ≤ parent c → AtMost (entry_at h (parent c)) (entry_at h c)

-- The edges but those below `i` are in order, and so are those past `i`.
pub record DownInv (lo : ℕ) (h : List Entry) (i : ℕ) : Type 0 where
  pub edges :
      (c : ℕ)
      → 0 < c
      → c < length h
      → lo ≤ parent c
      → parent c ≢ i
      → AtMost (entry_at h (parent c)) (entry_at h c)
  pub bridged :
      (c : ℕ)
      → 0 < c
      → c < length h
      → parent c ≡ i
      → 0 < i
      → lo ≤ parent i
      → AtMost (entry_at h (parent i)) (entry_at h c)

-- `m` is the least of `i` and its children; when it is not `i`, it is strictly less.
pub record IsLeast (h : List Entry) (i m : ℕ) : Type 0 where
  pub inside : m < length h
  pub place :
      (m ≡ i) ⊎ (((m ≡ 2 * i + 1) ⊎ (m ≡ 2 * i + 2)) × (less (entry_at h m) (entry_at h i) ≡ true))
  pub least : (c : ℕ) → 0 < c → c < length h → parent c ≡ i → AtMost (entry_at h m) (entry_at h c)

children : (c i : ℕ) → 0 < c → parent c ≡ i → (c ≡ 2 * i + 1) ⊎ (c ≡ 2 * i + 2)
children c i p q = ground arith

-- The outcome of one comparison with a child.
comes_first-cases :
    (h : List Entry) (c m : ℕ)
    → ((comes_first h c m ≡ true) × (c < length h) × (less (entry_at h c) (entry_at h m) ≡ true))
      ⊎ ((comes_first h c m ≡ false) × (c < length h → AtMost (entry_at h m) (entry_at h c)))
comes_first-cases h c m = elim (Bool-cases (ltb c (length h))) [
  | inr e ↦ inr (rw e refl, λ k. absurd (ground arith))
  | inl e ↦ elim (Bool-cases (less (entry_at h c) (entry_at h m))) [
    | inl f ↦ inl (rw (e, f) refl, ground arith, f)
    | inr f ↦ inr (rw (e, f) refl, λ k. f)
  ]
]

module _ (h : List Entry) (i : ℕ) (inside : i < length h) where
  -- A bound for both children is one for every child.
  both_children :
      (m : ℕ)
      → (2 * i + 1 < length h → AtMost (entry_at h m) (entry_at h (2 * i + 1)))
      → (2 * i + 2 < length h → AtMost (entry_at h m) (entry_at h (2 * i + 2)))
      → (c : ℕ) → 0 < c
      → c < length h
      → parent c ≡ i
      → AtMost (entry_at h m) (entry_at h c)
  both_children m left right c p q r = elim (children c i p r) [
    | inl e ↦ rw e (left (omega arith))
    | inr e ↦ rw e (right (omega arith))
  ]

  pub min_child-IsLeast : IsLeast h i (min_child h i)
  unfolding min_child
  min_child-IsLeast =
      let l = 2 * i + 1 in
      let r = 2 * i + 2 in
      elim (comes_first-cases h l i) [
        | inl (e, l_in, l_less) ↦ elim (comes_first-cases h r l) [
          | inl (f, r_in, r_less) ↦ rw e (
              rw f (record {
                inside = r_in;
                place = inr (
                  inr refl,
                  less_trans (entry_at h r) (entry_at h l) (entry_at h i) r_less l_less,
                );
                least =
                    both_children r (λ k. less-AtMost (entry_at h r) (entry_at h l) r_less)
                      (λ k. AtMost-refl (entry_at h r) (entry_at h r));
              }))
          | inr (f, bound) ↦ rw e (
              rw f (record {
                inside = l_in;
                place = inr (inl refl, l_less);
                least = both_children l (λ k. AtMost-refl (entry_at h l) (entry_at h l)) bound;
              }))
        ]
        | inr (e, l_bound) ↦ elim (comes_first-cases h r i) [
          | inl (f, r_in, r_less) ↦ rw e (
              rw f (record {
                inside = r_in;
                place = inr (inr refl, r_less);
                least =
                    both_children r
                      (λ k.
                        AtMost-trans (entry_at h r) (entry_at h i) (entry_at h l)
                          (less-AtMost (entry_at h r) (entry_at h i) r_less) (l_bound k))
                      (λ k. AtMost-refl (entry_at h r) (entry_at h r));
              }))
          | inr (f, bound) ↦ rw e (
              rw f (record {
                inside = inside;
                place = inl refl;
                least = both_children i l_bound bound;
              }))
        ]
      ]

pub swap-DownInv :
    (lo : ℕ) (h : List Entry) (i m : ℕ)
    → i < length h
    → DownInv lo h i
    → IsLeast h i m
    → m ≢ i
    → DownInv lo (swap h i m) m
swap-DownInv lo h i m inside v s d =
    let size = length-swap h i m in
    let is_child : (m ≡ 2 * i + 1) ⊎ (m ≡ 2 * i + 2) = elim s.place [
      | inl e ↦ absurd (d e)
      | inr (e, x) ↦ e
    ] in
    let smaller : less (entry_at h m) (entry_at h i) ≡ true = elim s.place [
      | inl e ↦ absurd (d e)
      | inr (x, e) ↦ e
    ] in
    let lower = less-AtMost (entry_at h m) (entry_at h i) smaller in
    record {
      edges = λ c p q r t.
          let at = entry_at-swap h i m c inside s.inside in
          let at' = entry_at-swap h i m (parent c) inside s.inside in
          ground (arith, at, at', v.edges c, v.bridged m, s.least c);
      bridged = λ c p q r t u.
          let at = entry_at-swap h i m c inside s.inside in
          let at' = entry_at-swap h i m (parent m) inside s.inside in
          ground (arith, at, at', v.edges c);
    }
