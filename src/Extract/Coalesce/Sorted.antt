-- ===== src/Extract/Coalesce/Sorted.antt =====
-- The stable sort by name of `mergeSeries` in internal/extract/extract.go.
use tsm2arc.Prelude.{
  ◌+◌, List, [], ◌∷◌, map, true, Option, if◌then◌else◌, length, Bytes, ◌≡◌, refl, sym, ap, ◌∙◌, inl,
  inr, arith, All, Bool-cases,
}
use tsm2arc.Prelude.Int64.{ℤ}
use tsm2arc.Prelude.Strings.{str_eq, str_lt, str_eq_iff, str_lt_irrefl}
use tsm2arc.Tsm.{Value}
use tsm2arc.Extract.Merge.Rows.{Source, size}
use tsm2arc.Extract.Merge.Row.{last_value, last_write, AreAscending}
use tsm2arc.Extract.Coalesce.{insert_by_name, sort_by_name}

module _ {A : Type 0} (name : A → Bytes) (P : A → Type 0) where
  All-insert_by_name : (x : A) (ys : List A) → P x → All P ys → All P (insert_by_name name x ys)
  unfolding insert_by_name
  All-insert_by_name x [] h k = (h, tt)
  All-insert_by_name x (y ∷ ys) h (k, ks) =
      let ih = All-insert_by_name x ys h ks in
      elim (Bool-cases (str_lt (name y) (name x))) [
        | inl e ↦ rw (e, insert_by_name) (k, ih)
        | inr e ↦ rw (e, insert_by_name) (h, (k, ks))
      ]

  pub All-sort_by_name : (xs : List A) → All P xs → All P (sort_by_name name xs)
  unfolding sort_by_name
  All-sort_by_name [] h = tt
  All-sort_by_name (x ∷ xs) (h, hs) =
      All-insert_by_name x (sort_by_name name xs) h (All-sort_by_name xs hs)

module _ {A B : Type 0} (name : A → Bytes) (name' : B → Bytes) (f : A → B)
    (keeps : (x : A) → name' (f x) ≡ name x) where
  insert_by_name-map :
      (x : A) (ys : List A)
      → insert_by_name name' (f x) (map f ys) ≡ map f (insert_by_name name x ys)
  unfolding insert_by_name
  insert_by_name-map x [] = refl
  insert_by_name-map x (y ∷ ys) =
      let ih = insert_by_name-map x ys in
      elim (Bool-cases (str_lt (name y) (name x))) [
        | inl e ↦ rw (keeps x, keeps y, e, insert_by_name) (ap (λ zs. f y ∷ zs) ih)
        | inr e ↦ rw (keeps x, keeps y, e, insert_by_name) refl
      ]

  pub sort_by_name-map :
      (xs : List A) → sort_by_name name' (map f xs) ≡ map f (sort_by_name name xs)
  unfolding sort_by_name
  sort_by_name-map [] = refl
  sort_by_name-map (x ∷ xs) =
      ap (insert_by_name name' (f x)) (sort_by_name-map xs)
      ∙ insert_by_name-map x (sort_by_name name xs)

abbrev pub source_name : Source → Bytes
source_name s = s.0

-- The writes of two fields do not meet.
last_write-swap :
    (f : Bytes) (t : ℤ) (s r : Source) (ss : List Source) (before : Option Value)
    → str_lt s.0 r.0 ≡ true
    → last_write f t (r ∷ s ∷ ss) before ≡ last_write f t (s ∷ r ∷ ss) before
unfolding last_write
last_write-swap f t (m, xs) (n, ys) ss before h = elim (Bool-cases (str_eq m f)) [
  | inr e ↦ rw e refl
  | inl e ↦ elim (Bool-cases (str_eq n f)) [
    | inr k ↦ rw k refl
    | inl k ↦
        let one : m ≡ n = (str_eq_iff m f).0 e ∙ sym ((str_eq_iff n f).0 k) in
        let itself : str_lt n n ≡ true = rw one at h in let never = str_lt_irrefl n in cc
  ]
]

last_write-insert_by_name :
    (f : Bytes) (t : ℤ) (s : Source) (ss : List Source) (before : Option Value)
    → last_write f t (insert_by_name source_name s ss) before ≡ last_write f t (s ∷ ss) before
unfolding last_write insert_by_name
last_write-insert_by_name f t s [] before = refl
last_write-insert_by_name f t s ((m, vs) ∷ ss) before =
    let ih =
      last_write-insert_by_name f t s ss (if str_eq m f then last_value t vs before else before) in
    elim (Bool-cases (str_lt m s.0)) [
      | inl e ↦ rw (e, insert_by_name) (ih ∙ sym (last_write-swap f t (m, vs) s ss before e))
      | inr e ↦ rw (e, insert_by_name) refl
    ]

pub last_write-sort_by_name :
    (f : Bytes) (t : ℤ) (ss : List Source) (before : Option Value)
    → last_write f t (sort_by_name source_name ss) before ≡ last_write f t ss before
unfolding last_write sort_by_name
last_write-sort_by_name f t [] before = refl
last_write-sort_by_name f t ((n, vs) ∷ ss) before =
    last_write-insert_by_name f t (n, vs) (sort_by_name source_name ss) before
    ∙ last_write-sort_by_name f t ss (if str_eq n f then last_value t vs before else before)

size-insert_by_name :
    (s : Source) (ss : List Source) → size (insert_by_name source_name s ss) ≡ length s.1 + size ss
unfolding insert_by_name
size-insert_by_name s [] = refl
size-insert_by_name s ((m, vs) ∷ ss) =
    let ih = size-insert_by_name s ss in
    elim (Bool-cases (str_lt m s.0)) [
      | inl e ↦ rw (e, insert_by_name) (omega arith)
      | inr e ↦ rw (e, insert_by_name) refl
    ]

pub size-sort_by_name : (ss : List Source) → size (sort_by_name source_name ss) ≡ size ss
unfolding sort_by_name
size-sort_by_name [] = refl
size-sort_by_name ((n, vs) ∷ ss) =
    omega (arith, size-insert_by_name (n, vs) (sort_by_name source_name ss), size-sort_by_name ss)

AreAscending-insert_by_name :
    (s : Source) (ss : List Source)
    → AreAscending (s ∷ ss)
    → AreAscending (insert_by_name source_name s ss)
unfolding insert_by_name
AreAscending-insert_by_name s [] h = h
AreAscending-insert_by_name s ((m, vs) ∷ ss) (h, (k, ks)) =
    let ih = AreAscending-insert_by_name s ss (h, ks) in
    elim (Bool-cases (str_lt m s.0)) [
      | inl e ↦ rw (e, insert_by_name) (k, ih)
      | inr e ↦ rw (e, insert_by_name) (h, (k, ks))
    ]

pub AreAscending-sort_by_name :
    (ss : List Source) → AreAscending ss → AreAscending (sort_by_name source_name ss)
unfolding sort_by_name
AreAscending-sort_by_name [] h = h
AreAscending-sort_by_name ((n, vs) ∷ ss) (h, hs) =
    AreAscending-insert_by_name (n, vs) (sort_by_name source_name ss)
      (h, AreAscending-sort_by_name ss hs)
