-- ===== src/Extract/Heap/Order.antt =====
-- The order of the entries in the heap of internal/extract/extract.go, and its array.
use tsm2arc.Prelude.{
  ℕ, zero, suc, ◌<◌, List, [], ◌∷◌, true, false, if◌then◌else◌, length, ltb, ◌==◌, ◌≡◌, refl, ap,
  ◌∙◌, inl, inr, arith, Bool-cases,
}
use tsm2arc.Prelude.Int64.{ℤ}
use tsm2arc.Prelude.Times.{
  earlier, same, same_iff, same_refl, earlier_irrefl, earlier_asymm, earlier_connex,
  not_earlier_trans,
}
use tsm2arc.Extract.Heap.{Entry, less, entry_at, set_entry, swap}

-- `a` does not come after `b`.
abbrev pub AtMost : Entry → Entry → Type 0
AtMost a b = less b a ≡ false

module _ (a b : Entry) where
  pub less-cases : less a b ≡ false → earlier a.v.unix_nano b.v.unix_nano ≡ false
  unfolding less
  less-cases h = elim (Bool-cases (same a.v.unix_nano b.v.unix_nano)) [
    | inl e ↦
        let one = (same_iff a.v.unix_nano b.v.unix_nano).0 e in
        rw one (earlier_irrefl b.v.unix_nano)
    | inr e ↦ rw e at h
  ]

  pub AtMost-refl : AtMost a a
  unfolding less
  AtMost-refl = ground (arith, same_iff a.v.unix_nano a.v.unix_nano, earlier_irrefl a.v.unix_nano)

  pub less-AtMost : less a b ≡ true → AtMost a b
  unfolding less
  less-AtMost h = ground (
    arith,
    same_iff a.v.unix_nano b.v.unix_nano,
    same_iff b.v.unix_nano a.v.unix_nano,
    earlier_asymm a.v.unix_nano b.v.unix_nano,
    earlier_irrefl a.v.unix_nano,
  )

-- Equal times at both ends are equal in between.
same_between :
    (s t u : ℤ) → earlier t s ≡ false → earlier u t ≡ false → same u s ≡ true → (t ≡ s) × (u ≡ s)
same_between s t u h k e =
    let ends : u ≡ s = (same_iff u s).0 e in
    let below : earlier s t ≡ false = rw ends at k in (earlier_connex t s h below, ends)

pub AtMost-trans : (a b c : Entry) → AtMost a b → AtMost b c → AtMost a c
unfolding less
AtMost-trans a b c h k = elim (Bool-cases (same c.v.unix_nano a.v.unix_nano)) [
  | inr e ↦ rw e (
      not_earlier_trans a.v.unix_nano b.v.unix_nano c.v.unix_nano (less-cases b a h)
        (less-cases c b k))
  | inl e ↦
      let (middle, end) =
        same_between a.v.unix_nano b.v.unix_nano c.v.unix_nano (less-cases b a h) (less-cases c b k)
          e in
      rw e (by_index a.v.unix_nano b.v.unix_nano c.v.unix_nano a.idx b.idx c.idx middle end h k)
]
  where
    by_index :
        (s t u : ℤ) (i j k : ℕ)
        → t ≡ s
        → u ≡ s
        → (if same t s then ltb j i else earlier t s) ≡ false
        → (if same u t then ltb k j else earlier u t) ≡ false
        → ltb k i ≡ false
    by_index s t u i j k p q = rw (p, q, same_refl s) (λ x y. ground arith)

pub less_trans : (a b c : Entry) → less a b ≡ true → less b c ≡ true → less a c ≡ true
less_trans a b c h k = elim (Bool-cases (less a c)) [
  | inl e ↦ e
  | inr e ↦ let back : less b c ≡ false = AtMost-trans c a b e (less-AtMost a b h) in cc
]

pub length-set_entry : (h : List Entry) (i : ℕ) (e : Entry) → length (set_entry h i e) ≡ length h
unfolding set_entry
length-set_entry [] i e = refl
length-set_entry (f ∷ h) zero e = refl
length-set_entry (f ∷ h) (suc i) e = ap suc (length-set_entry h i e)

pub entry_at-set_entry :
    (h : List Entry) (i c : ℕ) (e : Entry)
    → i < length h
    → entry_at (set_entry h i e) c ≡ (if i == c then e else entry_at h c)
unfolding entry_at set_entry
entry_at-set_entry [] i c e k = absurd (omega arith)
entry_at-set_entry (f ∷ h) zero zero e k = refl
entry_at-set_entry (f ∷ h) zero (suc c) e k = ground arith
entry_at-set_entry (f ∷ h) (suc i) zero e k = ground arith
entry_at-set_entry (f ∷ h) (suc i) (suc c) e k = ground (arith, entry_at-set_entry h i c e)

pub length-swap : (h : List Entry) (i j : ℕ) → length (swap h i j) ≡ length h
unfolding swap
length-swap h i j =
    length-set_entry (set_entry h i (entry_at h j)) j (entry_at h i)
    ∙ length-set_entry h i (entry_at h j)

pub entry_at-swap :
    (h : List Entry) (i j c : ℕ)
    → i < length h
    → j < length h
    → entry_at (swap h i j) c
      ≡ (if j == c then entry_at h i else if i == c then entry_at h j else entry_at h c)
unfolding swap
entry_at-swap h i j c p q =
    entry_at-set_entry (set_entry h i (entry_at h j)) j c (entry_at h i)
      (omega (arith, length-set_entry h i (entry_at h j)))
    ∙ rw (entry_at-set_entry h i c (entry_at h j) p) refl
