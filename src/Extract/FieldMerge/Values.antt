-- ===== src/Extract/FieldMerge/Values.antt =====
-- The stable merge of `fieldMergeStream` of internal/extract/extract.go: its order, its length, its
-- last write at a time, and its values after a time.
use tsm2arc.Prelude.{
  ℕ, ◌+◌, List, [], ◌∷◌, map, true, false, Option, some, if◌then◌else◌, length, ◌≡◌, refl, ap, ◌∙◌,
  inl, inr, arith, All, Bool-cases,
}
use tsm2arc.Prelude.Int64.{ℤ}
use tsm2arc.Prelude.Times.{
  earlier, same, same_iff, earlier_irrefl, earlier_asymm, earlier_le_trans, earlier_trans,
}
use tsm2arc.Tsm.{Value}
use tsm2arc.Extract.Merge.Row.{
  last_value, NotBefore, NotBefore-trans, IsAscending, last_value-later,
}
use tsm2arc.Extract.Merge.Resume.{values_after}
use tsm2arc.Extract.FieldMerge.Merged.{with_head, merge_two, merge_all}

-- The last of the values of the lists at a time, the lists in their order.
abbrev pub last_of : ℤ → List (List Value) → Option Value → Option Value
last_of t [] before = before
last_of t (vs ∷ vss) before = last_of t vss (last_value t vs before)

abbrev pub AllAscending : List (List Value) → Type 0
AllAscending vss = All IsAscending vss

abbrev pub total : List (List Value) → ℕ
total [] = 0
total (vs ∷ vss) = length vs + total vss

NotBefore-with_head :
    (t : ℤ) (x : Value) (rest : List Value → List Value) (ys : List Value)
    → earlier x.unix_nano t ≡ false
    → ((zs : List Value) → NotBefore t zs → NotBefore t (rest zs))
    → NotBefore t ys
    → NotBefore t (with_head x rest ys)
unfolding with_head
NotBefore-with_head t x rest [] p k h = (p, k [] tt)
NotBefore-with_head t x rest (y ∷ ys) p k (q, h) =
    let ih = NotBefore-with_head t x rest ys p k h in
    elim (Bool-cases (earlier y.unix_nano x.unix_nano)) [
      | inl e ↦ rw (e, with_head) (q, ih)
      | inr e ↦ rw (e, with_head) (p, k (y ∷ ys) (q, h))
    ]

NotBefore-merge_two :
    (t : ℤ) (xs ys : List Value) → NotBefore t xs → NotBefore t ys → NotBefore t (merge_two xs ys)
unfolding merge_two
NotBefore-merge_two t [] ys h k = k
NotBefore-merge_two t (x ∷ xs) ys (p, h) k =
    let ih = NotBefore-merge_two t xs in
    NotBefore-with_head t x (merge_two xs) ys p (λ zs m. ih zs h m) k

with_head-IsAscending :
    (x : Value) (rest : List Value → List Value) (ys : List Value)
    → ((zs : List Value) → IsAscending zs → IsAscending (rest zs))
    → ((zs : List Value) → NotBefore x.unix_nano zs → NotBefore x.unix_nano (rest zs))
    → ((t : ℤ) (zs : List Value)
        → earlier x.unix_nano t ≡ false
        → NotBefore t zs
        → NotBefore t (rest zs))
    → IsAscending ys
    → IsAscending (with_head x rest ys)
unfolding with_head
with_head-IsAscending x rest [] a b c h = (b [] tt, a [] tt)
with_head-IsAscending x rest (y ∷ ys) a b c (k, h) =
    let ih = with_head-IsAscending x rest ys a b c h in
    elim (Bool-cases (earlier y.unix_nano x.unix_nano)) [
      | inl e ↦
          let later = earlier_asymm y.unix_nano x.unix_nano e in
          rw (e, with_head)
            (
              NotBefore-with_head y.unix_nano x rest ys later (λ zs m. c y.unix_nano zs later m) k,
              ih,
            )
      | inr e ↦
          rw (e, with_head)
            (b (y ∷ ys) (e, NotBefore-trans x.unix_nano y.unix_nano ys e k), a (y ∷ ys) (k, h))
    ]

merge_two-IsAscending :
    (xs ys : List Value) → IsAscending xs → IsAscending ys → IsAscending (merge_two xs ys)
unfolding merge_two
merge_two-IsAscending [] ys h k = k
merge_two-IsAscending (x ∷ xs) ys (p, h) k =
    let ih = merge_two-IsAscending xs in
    with_head-IsAscending x (merge_two xs) ys (λ zs m. ih zs h m)
      (λ zs m. NotBefore-merge_two x.unix_nano xs zs p m)
      (λ t zs q m. NotBefore-merge_two t xs zs (NotBefore-trans t x.unix_nano xs q p) m) k

pub merge_all-IsAscending :
    (vss : List (List Value)) → AllAscending vss → IsAscending (merge_all vss)
unfolding merge_all
merge_all-IsAscending [] h = tt
merge_all-IsAscending (vs ∷ vss) (h, hs) =
    merge_two-IsAscending vs (merge_all vss) h (merge_all-IsAscending vss hs)

last_value-with_head :
    (t : ℤ) (x : Value) (xs : List Value) (rest : List Value → List Value) (ys : List Value)
    (before : Option Value)
    → NotBefore x.unix_nano xs
    → ((zs : List Value) (b : Option Value)
        → last_value t (rest zs) b ≡ last_value t zs (last_value t xs b))
    → last_value t (with_head x rest ys) before ≡ last_value t ys (last_value t (x ∷ xs) before)
unfolding last_value with_head
last_value-with_head t x xs rest [] before h k =
    k [] (if same x.unix_nano t then some x else before)
last_value-with_head t x xs rest (y ∷ ys) before h k =
    let ih : (b : Option Value)
        → last_value t (with_head x rest ys) b ≡ last_value t ys (last_value t (x ∷ xs) b) =
      λ b. last_value-with_head t x xs rest ys b h k in
    elim (Bool-cases (earlier y.unix_nano x.unix_nano)) [
      | inr e ↦ rw (e, with_head) (k (y ∷ ys) (if same x.unix_nano t then some x else before))
      | inl e ↦ elim (Bool-cases (same y.unix_nano t)) [
        | inr f ↦ rw (e, with_head) (rw (f, last_value) (ih before))
        | inl f ↦
            let now : y.unix_nano ≡ t = (same_iff y.unix_nano t).0 f in
            let later : earlier t x.unix_nano ≡ true = rw now at e in
            rw (e, with_head)
              (rw (f, last_value)
                (ih (some y)
                  ∙ ap (last_value t ys) (
                      last_value-later t x (x ∷ xs) (some y) later
                        (earlier_irrefl x.unix_nano, h))))
      ]
    ]

last_value-merge_two :
    (t : ℤ) (xs ys : List Value) (before : Option Value)
    → IsAscending xs
    → last_value t (merge_two xs ys) before ≡ last_value t ys (last_value t xs before)
unfolding merge_two last_value
last_value-merge_two t [] ys before h = refl
last_value-merge_two t (x ∷ xs) ys before (p, h) =
    let ih = last_value-merge_two t xs in
    last_value-with_head t x xs (merge_two xs) ys before p (λ zs b. ih zs b h)

-- The last write in the merge is that of the last list that has one.
pub last_value-merge_all :
    (t : ℤ) (vss : List (List Value)) (before : Option Value)
    → AllAscending vss
    → last_value t (merge_all vss) before ≡ last_of t vss before
unfolding merge_all last_value
last_value-merge_all t [] before h = refl
last_value-merge_all t (vs ∷ vss) before (h, hs) =
    last_value-merge_two t vs (merge_all vss) before h
    ∙ last_value-merge_all t vss (last_value t vs before) hs

length-with_head :
    (x : Value) (n : ℕ) (rest : List Value → List Value) (ys : List Value)
    → ((zs : List Value) → length (rest zs) ≡ n + length zs)
    → length (with_head x rest ys) ≡ (n + length ys) + 1
unfolding with_head
length-with_head x n rest [] k = omega (arith, k [])
length-with_head x n rest (y ∷ ys) k = elim (Bool-cases (earlier y.unix_nano x.unix_nano)) [
  | inl e ↦ rw (e, with_head) (omega (arith, length-with_head x n rest ys k))
  | inr e ↦ rw (e, with_head) (omega (arith, k (y ∷ ys)))
]

length-merge_two : (xs ys : List Value) → length (merge_two xs ys) ≡ length xs + length ys
unfolding merge_two
length-merge_two [] ys = omega arith
length-merge_two (x ∷ xs) ys =
    omega (arith, length-with_head x (length xs) (merge_two xs) ys (length-merge_two xs))

pub length-merge_all : (vss : List (List Value)) → length (merge_all vss) ≡ total vss
unfolding merge_all
length-merge_all [] = refl
length-merge_all (vs ∷ vss) =
    omega (arith, length-merge_two vs (merge_all vss), length-merge_all vss)

merge_two-nil : (xs : List Value) → merge_two xs [] ≡ xs
unfolding merge_two with_head
merge_two-nil [] = refl
merge_two-nil (x ∷ xs) = ap (λ ys. x ∷ ys) (merge_two-nil xs)

-- The merge of one list is the list.
pub merge_all-one : (vs : List Value) → merge_all (vs ∷ []) ≡ vs
unfolding merge_all
merge_all-one vs = merge_two-nil vs

values_after-with_head :
    (c : ℤ) (x : Value) (rest rest' : List Value → List Value) (ys : List Value)
    → ((zs : List Value) → values_after c (rest zs) ≡ rest' (values_after c zs))
    → values_after c (with_head x rest ys) ≡ (
        if earlier c x.unix_nano
        then with_head x rest' (values_after c ys)
        else rest' (values_after c ys))
unfolding values_after with_head
values_after-with_head c x rest rest' [] k =
    ap (λ zs. if earlier c x.unix_nano then x ∷ zs else zs) (k [])
values_after-with_head c x rest rest' (y ∷ ys) k =
    let ih = values_after-with_head c x rest rest' ys k in
    elim (Bool-cases (earlier y.unix_nano x.unix_nano)) [
      | inl e ↦ elim (Bool-cases (earlier c y.unix_nano)) [
        | inl f ↦
            let after : earlier c x.unix_nano ≡ true =
              earlier_trans c y.unix_nano x.unix_nano f e in
            let ih' : values_after c (with_head x rest ys) ≡ with_head x rest' (values_after c ys) =
              rw after at ih in
            rw (e, with_head, f, after) (rw (e, with_head) (ap (λ zs. y ∷ zs) ih'))
        | inr f ↦ rw (e, with_head, f, values_after) ih
      ]
      | inr e ↦ elim (Bool-cases (earlier c x.unix_nano)) [
        | inl g ↦
            let after = earlier_le_trans c x.unix_nano y.unix_nano g e in
            rw (e, with_head, g, after)
              (rw e (ap (λ zs. x ∷ zs) (k (y ∷ ys) ∙ rw (after, values_after) refl)))
        | inr g ↦ rw (e, with_head, g, values_after) (k (y ∷ ys))
      ]
    ]

values_after-merge_two :
    (c : ℤ) (xs ys : List Value)
    → values_after c (merge_two xs ys) ≡ merge_two (values_after c xs) (values_after c ys)
unfolding values_after merge_two
values_after-merge_two c [] ys = refl
values_after-merge_two c (x ∷ xs) ys =
    let ih = values_after-merge_two c xs in
    values_after-with_head c x (merge_two xs) (merge_two (values_after c xs)) ys ih
    ∙ elim (Bool-cases (earlier c x.unix_nano)) [
      | inl e ↦ rw (e, values_after) refl
      | inr e ↦ rw (e, values_after) refl
    ]

-- The merge of what is after a time is what is after it in the merge.
pub values_after-merge_all :
    (c : ℤ) (vss : List (List Value))
    → values_after c (merge_all vss) ≡ merge_all (map (values_after c) vss)
unfolding merge_all values_after
values_after-merge_all c [] = refl
values_after-merge_all c (vs ∷ vss) =
    values_after-merge_two c vs (merge_all vss)
    ∙ ap (merge_two (values_after c vs)) (values_after-merge_all c vss)
