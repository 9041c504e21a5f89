-- ===== src/Extract/FieldMerge/Advance.antt =====
-- `advance` of `fieldMergeStream` in internal/extract/extract.go keeps its heap.
use tsm2arc.Prelude.{
  ℕ, zero, suc, ◌<◌, List, [], ◌∷◌, none, some, length, take, ◌==◌, ◌≡◌, ◌≢◌, refl, sym, ap, ◌∙◌,
  inl, inr, arith, Bool-cases, length-take,
}
use tsm2arc.Tsm.{Value}
use tsm2arc.Extract.Heap.{Entry, entry_at, set_entry}
use tsm2arc.Extract.Heap.Order.{length-set_entry}
use tsm2arc.Extract.Heap.Sift.{parent}
use tsm2arc.Extract.Heap.Loop.{Holds}
use tsm2arc.Extract.FieldMerge.{drop_root}
use tsm2arc.Extract.FieldMerge.Merged.{head_at, pop, entry}
use tsm2arc.Extract.FieldMerge.Heads.{Matches, Holds-uncons}

head_at-pop : (i j : ℕ) (xss : List (List Value)) → j ≢ i → head_at (pop i xss) j ≡ head_at xss j
unfolding head_at pop
head_at-pop zero j [] d = refl
head_at-pop (suc i) j [] d = refl
head_at-pop zero zero (xs ∷ xss) d = absurd (d refl)
head_at-pop zero (suc j) (xs ∷ xss) d = refl
head_at-pop (suc i) zero (xs ∷ xss) d = refl
head_at-pop (suc i) (suc j) (xs ∷ xss) d = head_at-pop i j xss (λ e. d (ap suc e))

entry_at-take : (n k : ℕ) (h : List Entry) → k < n → entry_at (take n h) k ≡ entry_at h k
unfolding entry_at
entry_at-take zero k h p = absurd (omega arith)
entry_at-take (suc n) k [] p = refl
entry_at-take (suc n) zero (e ∷ h) p = refl
entry_at-take (suc n) (suc k) (e ∷ h) p = entry_at-take n k h (omega arith)

module _ (e : Entry) (es : List Entry) (xss : List (List Value)) (m : Matches 0 (e ∷ es) xss) where
  -- No other entry has the child of the root.
  not_root : (k : ℕ) → k < length es → (entry_at es k).idx ≢ e.idx
  unfolding entry_at
  not_root k p same_idx =
      absurd (omega (arith, m.distinct (suc k) 0 (omega arith) (omega arith) same_idx))

  sound_behind :
      (f : Entry) (k : ℕ)
      → k < length es
      → entry_at es k ≡ f
      → head_at (pop e.idx xss) f.idx ≡ some f.v
  unfolding entry_at
  sound_behind f k p at =
      head_at-pop e.idx f.idx xss (λ q. not_root k p (ap (λ g. g.idx) at ∙ q))
      ∙ m.sound f (suc k, omega arith, at)

  complete_behind :
      (i : ℕ) (v : Value)
      → i ≢ e.idx
      → head_at (pop e.idx xss) i ≡ some v
      → (k : ℕ) × (k < length es) × (entry_at es k ≡ entry v i)
  unfolding entry_at
  complete_behind i v d q =
      elim (Holds-uncons e (entry v i) es (m.complete i v (sym (head_at-pop e.idx i xss d) ∙ q))) [
        | inl at ↦ absurd (d (sym (ap (λ g. g.idx) at)))
        | inr held ↦ held
      ]

  -- The next value of the child takes the place of its value at the root.
  pub next-Matches :
      (w : Value)
      → head_at (pop e.idx xss) e.idx ≡ some w
      → Matches 1 (entry w e.idx ∷ es) (pop e.idx xss)
  unfolding entry_at
  next-Matches w h = record {
    order = λ c p q r. rw (behind c p, behind (parent c) r) (m.order c p q (omega arith));
    distinct = λ j k p q same_idx. m.distinct j k p q (as_before j ∙ same_idx ∙ sym (as_before k));
    sound = sound;
    complete = λ i v q. elim (Bool-cases (i == e.idx)) [
      | inl at_root ↦
          let one : i ≡ e.idx = ground arith in
          let found : some w ≡ some v = sym h ∙ rw one at q in
          (0, omega arith, rw one (ap (λ u. entry u e.idx) cc))
      | inr other ↦
          let (k, p, at) = complete_behind i v (λ x. ground arith) q in (suc k, omega arith, at)
    ];
  }
    where
      behind : (c : ℕ) → 0 < c → entry_at (entry w e.idx ∷ es) c ≡ entry_at (e ∷ es) c
      behind zero p = absurd (omega arith)
      behind (suc c) p = refl

      as_before : (j : ℕ) → (entry_at (e ∷ es) j).idx ≡ (entry_at (entry w e.idx ∷ es) j).idx
      as_before zero = refl
      as_before (suc j) = refl

      sound : (f : Entry) → Holds (entry w e.idx ∷ es) f → head_at (pop e.idx xss) f.idx ≡ some f.v
      sound f (zero, p, at) =
          ap (λ g. head_at (pop e.idx xss) g.idx) (sym at) ∙ h ∙ ap (λ g. some g.v) at
      sound f (suc k, p, at) = sound_behind f k (omega arith) at

  -- Where the entry at `k` comes from.
  abbrev from : ℕ → ℕ
  from zero = length es
  from (suc k) = suc k

  length-drop_root : length (drop_root (e ∷ es)) ≡ length es
  length-drop_root =
      let moved = set_entry (e ∷ es) 0 (entry_at (e ∷ es) (length es)) in
      omega (
        arith,
        length-take (length es) moved,
        length-set_entry (e ∷ es) 0 (entry_at (e ∷ es) (length es)),
      )

  entry_at-drop_root :
      (k : ℕ) → k < length es → entry_at (drop_root (e ∷ es)) k ≡ entry_at (e ∷ es) (from k)
  unfolding entry_at set_entry
  entry_at-drop_root k p =
      entry_at-take (length es) k (set_entry (e ∷ es) 0 (entry_at (e ∷ es) (length es))) p ∙ moved k
    where
      moved :
          (c : ℕ)
          → entry_at (set_entry (e ∷ es) 0 (entry_at (e ∷ es) (length es))) c
            ≡ entry_at (e ∷ es) (from c)
      moved zero = refl
      moved (suc c) = refl

  from_inside : (k : ℕ) → k < length es → from k < length (e ∷ es)
  from_inside zero p = omega arith
  from_inside (suc k) p = omega arith

  from_injective : (j k : ℕ) → j < length es → k < length es → from j ≡ from k → j ≡ k
  from_injective zero zero p q r = refl
  from_injective zero (suc k) p q r = absurd (omega arith)
  from_injective (suc j) zero p q r = absurd (omega arith)
  from_injective (suc j) (suc k) p q r = r

  -- The entry behind the root that comes to the place `k`.
  from_behind :
      (k : ℕ)
      → k < length es
      → (c : ℕ) × (c < length es) × (entry_at (e ∷ es) (from k) ≡ entry_at es c)
  unfolding entry_at
  from_behind zero p = let (n, q) = length-cases es p in (n, omega arith, rw q refl)
    where
      length-cases : (hs : List Entry) → 0 < length hs → (n : ℕ) × (length hs ≡ suc n)
      length-cases [] q = absurd (omega arith)
      length-cases (h ∷ hs) q = (length hs, omega arith)
  from_behind (suc k) p = (k, omega arith, refl)

  -- Where the entry behind the root goes.
  to_place : (c : ℕ) → c < length es → (k : ℕ) × (k < length es) × (from k ≡ suc c)
  to_place c p = elim (Bool-cases (suc c == length es)) [
    | inl at_end ↦ (0, omega arith, ground arith)
    | inr inside ↦ (suc c, ground arith, refl)
  ]

  -- An exhausted child leaves the heap, and the last entry comes to the root.
  pub drop_root-Matches :
      head_at (pop e.idx xss) e.idx ≡ none → Matches 1 (drop_root (e ∷ es)) (pop e.idx xss)
  unfolding entry_at
  drop_root-Matches h = record {
    order = λ c p q r.
        let q' : c < length es = omega (arith, length-drop_root) in
        rw
          (
            entry_at-drop_root c q',
            entry_at-drop_root (parent c) (ground arith),
            from_same c p,
            from_same (parent c) r,
          )
          (m.order c p (omega arith) (omega arith));
    distinct = λ j k p q same_idx.
        let p' : j < length es = omega (arith, length-drop_root) in
        let q' : k < length es = omega (arith, length-drop_root) in
        from_injective j k p' q' (
          m.distinct (from j) (from k) (from_inside j p') (from_inside k q') (
            ap (λ g. g.idx) (sym (entry_at-drop_root j p'))
            ∙ same_idx
            ∙ ap (λ g. g.idx) (entry_at-drop_root k q')));
    sound = λ f (k, p, at).
        let p' : k < length es = omega (arith, length-drop_root) in
        let (c, q, is) = from_behind k p' in
        sound_behind f c q (sym is ∙ sym (entry_at-drop_root k p') ∙ at);
    complete = λ i v q. elim (Bool-cases (i == e.idx)) [
      | inl at_root ↦
          let one : i ≡ e.idx = ground arith in
          let none_left : none ≡ some v = sym h ∙ rw one at q in cc
      | inr other ↦
          let (c, p, at) = complete_behind i v (λ x. ground arith) q in
          let (k, r, is) = to_place c p in
          (
            k,
            omega (arith, length-drop_root),
            entry_at-drop_root k r ∙ ap (entry_at (e ∷ es)) is ∙ at,
          )
    ];
  }
    where
      from_same : (k : ℕ) → 0 < k → from k ≡ k
      from_same zero p = absurd (omega arith)
      from_same (suc k) p = refl
