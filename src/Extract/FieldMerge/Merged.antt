-- ===== src/Extract/FieldMerge/Merged.antt =====
-- The stable merge that `fieldMergeStream` of internal/extract/extract.go makes of its children.
use tsm2arc.Prelude.{
  ℕ, zero, suc, List, [], ◌∷◌, true, false, Option, none, some, if◌then◌else◌, ltb, ◌⊎◌, ◌≡◌, refl,
  ap, ◌∙◌, inl, inr, arith, Bool-cases,
}
use tsm2arc.Prelude.Int64.{ℤ}
use tsm2arc.Prelude.Times.{earlier, same, same_iff, earlier_connex}
use tsm2arc.Tsm.{Value}
use tsm2arc.Extract.Stream.{tail_of}
use tsm2arc.Extract.Heap.{Entry, less}
use tsm2arc.Extract.Heap.Order.{AtMost, less-cases}

-- `x` among the values `ys`, behind those that are earlier, and then `rest`.
unfoldable pub with_head : Value → (List Value → List Value) → List Value → List Value
with_head x rest [] = x ∷ rest []
with_head x rest (y ∷ ys) =
    let later = with_head x rest ys in
    if earlier y.unix_nano x.unix_nano then y ∷ later else x ∷ rest (y ∷ ys)

-- Of equal times, those of the first list come first.
unfoldable pub merge_two : List Value → List Value → List Value
merge_two [] ys = ys
merge_two (x ∷ xs) ys = with_head x (merge_two xs) ys

unfoldable pub merge_all : List (List Value) → List Value
merge_all [] = []
merge_all (xs ∷ xss) = merge_two xs (merge_all xss)

abbrev pub first_of : List Value → Option Value
first_of [] = none
first_of (x ∷ xs) = some x

-- The first value of the list of an index.
unfoldable pub head_at : List (List Value) → ℕ → Option Value
head_at [] i = none
head_at (xs ∷ xss) zero = first_of xs
head_at (xs ∷ xss) (suc i) = head_at xss i

-- The list of an index loses its first value.
unfoldable pub pop : ℕ → List (List Value) → List (List Value)
pop i [] = []
pop zero (xs ∷ xss) = tail_of xs ∷ xss
pop (suc i) (xs ∷ xss) = xs ∷ pop i xss

head_at-with_head :
    (x y : Value) (rest : List Value → List Value) (ys zs : List Value)
    → with_head x rest ys ≡ y ∷ zs
    → (first_of ys ≡ some y) ⊎ (x ≡ y)
unfolding with_head
head_at-with_head x y rest [] zs h = inr cc
head_at-with_head x y rest (z ∷ ys) zs h = elim (Bool-cases (earlier z.unix_nano x.unix_nano)) [
  | inl e ↦ let h' : z ∷ with_head x rest ys ≡ y ∷ zs = rw e at h in inl cc
  | inr e ↦ let h' : x ∷ rest (z ∷ ys) ≡ y ∷ zs = rw e at h in inr cc
]

pub Values-cases : (xs : List Value) → (xs ≡ []) ⊎ ((y : Value) × (ys : List Value) × (xs ≡ y ∷ ys))
Values-cases [] = inl refl
Values-cases (y ∷ ys) = inr (y, ys, refl)

-- The first value of the merge is the first of one of the lists.
pub head_at-merge_all :
    (xss : List (List Value)) (y : Value) (ys : List Value)
    → merge_all xss ≡ y ∷ ys
    → (j : ℕ) × (head_at xss j ≡ some y)
unfolding merge_all merge_two head_at
head_at-merge_all [] y ys h = cc
head_at-merge_all ([] ∷ xss) y ys h = let (j, k) = head_at-merge_all xss y ys h in (suc j, k)
head_at-merge_all ((x ∷ xs) ∷ xss) y ys h =
    let ih = head_at-merge_all xss in
    elim (head_at-with_head x y (merge_two xs) (merge_all xss) ys h) [
      | inr e ↦ (0, ap some e)
      | inl e ↦ elim (Values-cases (merge_all xss)) [
        | inl p ↦ let none_left : none ≡ some y = rw p at e in cc
        | inr (z, zs, p) ↦
            let first : some z ≡ some y = rw p at e in let (j, k) = ih z zs p in (suc j, k ∙ first)
      ]
    ]

abbrev pub entry : Value → ℕ → Entry
entry v i = record { v = v; idx = i }

entry_shift :
    (v w : Value) (i j : ℕ)
    → AtMost (entry v (suc i)) (entry w (suc j))
    → AtMost (entry v i) (entry w j)
unfolding less
entry_shift v w i j h = elim (Bool-cases (same w.unix_nano v.unix_nano)) [
  | inl e ↦ rw e (by_index (rw e at h))
  | inr e ↦ rw e (rw e at h)
]
  where
    by_index : ltb (suc j) (suc i) ≡ false → ltb j i ≡ false
    by_index k = ground arith

-- An entry of a later list that is at most one of an earlier list is strictly before it.
entry_before :
    (v w : Value) (i : ℕ)
    → AtMost (entry v (suc i)) (entry w 0)
    → earlier v.unix_nano w.unix_nano ≡ true
unfolding less
entry_before v w i h = elim (Bool-cases (same w.unix_nano v.unix_nano)) [
  | inl e ↦ absurd (refuted (rw e at h))
  | inr e ↦ strict w.unix_nano v.unix_nano e (rw e at h)
]
  where
    refuted : ltb 0 (suc i) ≡ false → ⊥
    refuted k = ground arith

    strict : (a b : ℤ) → same a b ≡ false → earlier a b ≡ false → earlier b a ≡ true
    strict a b p q = ground (arith, earlier_connex a b, same_iff a b)

-- The first of the lists that no other comes before gives the first value of the merge.
pub merge_all-pop :
    (xss : List (List Value)) (i : ℕ) (v : Value)
    → head_at xss i ≡ some v
    → ((j : ℕ) (w : Value) → head_at xss j ≡ some w → AtMost (entry v i) (entry w j))
    → merge_all xss ≡ v ∷ merge_all (pop i xss)
unfolding merge_all merge_two head_at pop with_head
merge_all-pop [] i v h k = cc
merge_all-pop ([] ∷ xss) zero v h k = cc
merge_all-pop ((x ∷ xs) ∷ xss) zero v h k =
    let one : x ≡ v = cc in
    elim (Values-cases (merge_all xss)) [
      | inl p ↦ rw (p, with_head) (rw one refl)
      | inr (y, ys, p) ↦
          let (j, q) = head_at-merge_all xss y ys p in
          let bound = less-cases (entry y (suc j)) (entry v 0) (k (suc j) y q) in
          rw (p, with_head) (rw one (rw bound refl))
    ]
merge_all-pop ([] ∷ xss) (suc i) v h k =
    merge_all-pop xss i v h (λ j w q. entry_shift v w i j (k (suc j) w q))
merge_all-pop ((x ∷ xs) ∷ xss) (suc i) v h k =
    let ih = merge_all-pop xss i v h (λ j w q. entry_shift v w i j (k (suc j) w q)) in
    let first = entry_before v x i (k 0 x refl) in rw (ih, with_head) (rw first refl)
