-- ===== src/Extract/FieldMerge/Heads.antt =====
-- The heap of `fieldMergeStream` in internal/extract/extract.go holds the first value of each child.
use tsm2arc.Prelude.{
  ℕ, zero, suc, ◌+◌, ◌/◌, ◌<◌, ◌≤◌, List, [], ◌∷◌, none, some, length, ◌⊎◌, ◌≡◌, refl, sym, ap, ◌∙◌,
  inl, inr, arith,
}
use tsm2arc.Tsm.{Value}
use tsm2arc.Extract.Stream.{head_of}
use tsm2arc.Extract.Heap.{Entry, entry_at, sift_down, heapify}
use tsm2arc.Extract.Heap.Sift.{IsHeapFrom}
use tsm2arc.Extract.Heap.Loop.{
  IsDistinct, Holds, Rearranged, Rearranged-refl, sift_down-root, heapify_lem, root_least,
}
use tsm2arc.Extract.FieldMerge.{top, sift_root}
use tsm2arc.Extract.FieldMerge.Merged.{
  merge_all, head_at, pop, entry, merge_all-pop, head_at-merge_all, Values-cases,
}

-- The entries of the lists that are not empty, numbered from `n`.
abbrev pub heads_from : ℕ → List (List Value) → List Entry
heads_from n [] = []
heads_from n ([] ∷ xss) = heads_from (suc n) xss
heads_from n ((v ∷ vs) ∷ xss) = entry v n ∷ heads_from (suc n) xss

-- The heap is in order from `lo`, and its entries are the first values of the lists.
pub record Matches (lo : ℕ) (h : List Entry) (xss : List (List Value)) : Type 0 where
  pub order : IsHeapFrom lo h
  pub distinct : IsDistinct h
  pub sound : (e : Entry) → Holds h e → head_at xss e.idx ≡ some e.v
  pub complete : (i : ℕ) (v : Value) → head_at xss i ≡ some v → Holds h (entry v i)

Holds-cons : (f e : Entry) (h : List Entry) → Holds h e → Holds (f ∷ h) e
unfolding entry_at
Holds-cons f e h (k, p, q) = (suc k, omega arith, q)

pub Holds-uncons : (f e : Entry) (h : List Entry) → Holds (f ∷ h) e → (f ≡ e) ⊎ Holds h e
unfolding entry_at
Holds-uncons f e h (zero, p, q) = inl q
Holds-uncons f e h (suc k, p, q) = inr (k, omega arith, q)

heads_from_sound :
    (n : ℕ) (xss : List (List Value)) (e : Entry)
    → Holds (heads_from n xss) e
    → (i : ℕ) × (e.idx ≡ n + i) × (head_at xss i ≡ some e.v)
unfolding head_at
heads_from_sound n [] e (k, p, q) = absurd (omega arith)
heads_from_sound n ([] ∷ xss) e h =
    let (i, p, q) = heads_from_sound (suc n) xss e h in (suc i, omega arith, q)
heads_from_sound n ((v ∷ vs) ∷ xss) e h =
    let ih = heads_from_sound (suc n) xss e in
    elim (Holds-uncons (entry v n) e (heads_from (suc n) xss) h) [
      | inl q ↦ (0, sym (ap (λ f. f.idx) q) ∙ omega arith, ap (λ f. some f.v) q)
      | inr h' ↦ let (i, p, q) = ih h' in (suc i, omega arith, q)
    ]

heads_from_complete :
    (n : ℕ) (xss : List (List Value)) (i : ℕ) (v : Value)
    → head_at xss i ≡ some v
    → Holds (heads_from n xss) (entry v (n + i))
unfolding head_at entry_at
heads_from_complete n [] i v h = cc
heads_from_complete n ([] ∷ xss) zero v h = cc
heads_from_complete n ((x ∷ xs) ∷ xss) zero v h =
    let one : x ≡ v = cc in (0, omega arith, rw one (ap (entry v) (omega arith)))
heads_from_complete n ([] ∷ xss) (suc i) v h =
    let (k, p, q) = heads_from_complete (suc n) xss i v h in (k, p, q ∙ ap (entry v) (omega arith))
heads_from_complete n ((x ∷ xs) ∷ xss) (suc i) v h =
    let (k, p, q) = heads_from_complete (suc n) xss i v h in
    Holds-cons (entry x n) (entry v (n + suc i)) (heads_from (suc n) xss)
      (k, p, q ∙ ap (entry v) (omega arith))

idx_bound :
    (n : ℕ) (xss : List (List Value)) (k : ℕ)
    → k < length (heads_from n xss)
    → n ≤ (entry_at (heads_from n xss) k).idx
idx_bound n xss k p =
    let (i, q, r) = heads_from_sound n xss (entry_at (heads_from n xss) k) (k, p, refl) in
    omega arith

heads_from-IsDistinct : (n : ℕ) (xss : List (List Value)) → IsDistinct (heads_from n xss)
unfolding entry_at
heads_from-IsDistinct n [] j k p q e = absurd (omega arith)
heads_from-IsDistinct n ([] ∷ xss) j k p q e = heads_from-IsDistinct (suc n) xss j k p q e
heads_from-IsDistinct n ((v ∷ vs) ∷ xss) zero zero p q e = refl
heads_from-IsDistinct n ((v ∷ vs) ∷ xss) zero (suc k) p q e =
    absurd (omega (arith, idx_bound (suc n) xss k (omega arith)))
heads_from-IsDistinct n ((v ∷ vs) ∷ xss) (suc j) zero p q e =
    absurd (omega (arith, idx_bound (suc n) xss j (omega arith)))
heads_from-IsDistinct n ((v ∷ vs) ∷ xss) (suc j) (suc k) p q e =
    ap suc (heads_from-IsDistinct (suc n) xss j k (omega arith) (omega arith) e)

Matches-Rearranged :
    (lo : ℕ) (g h : List Entry) (xss : List (List Value))
    → Matches lo g xss
    → IsHeapFrom 0 h
    → Rearranged g h
    → Matches 0 h xss
Matches-Rearranged lo g h xss m v r = record {
  order = v;
  distinct = r.distinct m.distinct;
  sound = λ e k. m.sound e (r.back e k);
  complete = λ i x k. r.forth (entry x i) (m.complete i x k);
}

-- The first round of `peek` makes a heap.
pub heapify-Matches :
    (xss : List (List Value))
    → Matches 0 (heapify (length (heads_from 0 xss) / 2) (heads_from 0 xss)) xss
heapify-Matches xss =
    let h = heads_from 0 xss in
    let (order, r) = heapify_lem h in
    Matches-Rearranged (length h / 2) h (heapify (length h / 2) h) xss
      (record {
        order = λ c p q s. absurd (omega arith);
        distinct = heads_from-IsDistinct 0 xss;
        sound = λ e k.
            let (i, p, q) = heads_from_sound 0 xss e k in
            let at : e.idx ≡ i = omega arith in ap (head_at xss) at ∙ q;
        complete = λ i v k.
            let (j, p, q) = heads_from_complete 0 xss i v k in
            (j, p, q ∙ ap (entry v) (omega arith));
      })
      order r

pub sift_root-Matches :
    (h : List Entry) (xss : List (List Value)) → Matches 1 h xss → Matches 0 (sift_root h) xss
sift_root-Matches [] xss m =
    Matches-Rearranged 1 [] [] xss m (λ c p q s. absurd (omega arith)) (Rearranged-refl [])
sift_root-Matches (e ∷ es) xss m =
    let (order, r) = sift_down-root (e ∷ es) (omega arith) m.order in
    Matches-Rearranged 1 (e ∷ es) (sift_down (e ∷ es) 0) xss m order r

-- The root is the first value of the merge, and the rest of the merge is that of the lists without it.
pub root-merge_all :
    (e : Entry) (es : List Entry) (xss : List (List Value))
    → Matches 0 (e ∷ es) xss
    → merge_all xss ≡ e.v ∷ merge_all (pop e.idx xss)
unfolding entry_at
root-merge_all e es xss m =
    merge_all-pop xss e.idx e.v (m.sound e (0, omega arith, refl))
      (λ j w q. let (k, p, at) = m.complete j w q in rw (← at) (root_least (e ∷ es) k m.order p))

pub no_root-merge_all : (xss : List (List Value)) → Matches 0 [] xss → merge_all xss ≡ []
no_root-merge_all xss m = elim (Values-cases (merge_all xss)) [
  | inl p ↦ p
  | inr (y, ys, p) ↦
      let (j, q) = head_at-merge_all xss y ys p in
      let (k, r, at) = m.complete j y q in absurd (omega arith)
]

pub top-Matches :
    (h : List Entry) (xss : List (List Value))
    → Matches 0 h xss
    → top h ≡ head_of (merge_all xss) none
top-Matches [] xss m = rw (no_root-merge_all xss m) refl
top-Matches (e ∷ es) xss m = rw (root-merge_all e es xss m) refl
