-- ===== src/Extract/Coalesce/Groups.antt =====
-- The groups of `coalesceByField` in internal/extract/extract.go.
use tsm2arc.Prelude.{
  List, [], ◌∷◌, ◌++◌, map, true, false, Bytes, ◌≡◌, refl, sym, ap, ◌∙◌, inl, inr, All, Bool-cases,
}
use tsm2arc.Prelude.Strings.{str_eq, str_eq_iff}
use tsm2arc.Extract.Coalesce.{add_to_group, group_onto}

module _ {A : Type 0} (name : A → Bytes) where
  module _ (P : Bytes → A → Type 0) where
    -- Every element of a group has the property for the group's name.
    abbrev pub Grouped : List (Bytes × List A) → Type 0
    Grouped [] = Unit
    Grouped ((n, xs) ∷ gs) = All (P n) xs × Grouped gs

    All-snoc : (n : Bytes) (xs : List A) (a : A) → All (P n) xs → P n a → All (P n) (xs ++ a ∷ [])
    All-snoc n [] a h k = (k, tt)
    All-snoc n (b ∷ xs) a (h, hs) k = (h, All-snoc n xs a hs k)

    pub Grouped-add_to_group :
        (a : A) (gs : List (Bytes × List A))
        → P (name a) a
        → Grouped gs
        → Grouped (add_to_group name a gs)
    unfolding add_to_group
    Grouped-add_to_group a [] h k = ((h, tt), tt)
    Grouped-add_to_group a ((m, xs) ∷ gs) h (k, ks) =
        let ih = Grouped-add_to_group a gs h ks in
        elim (Bool-cases (str_eq m (name a))) [
          | inl e ↦
              let same_name : m ≡ name a = (str_eq_iff m (name a)).0 e in
              rw (e, add_to_group) (All-snoc m xs a k (rw same_name h), ks)
          | inr e ↦ rw (e, add_to_group) (k, ih)
        ]

    pub Grouped-group_onto :
        (gs : List (Bytes × List A)) (xs : List A)
        → Grouped gs
        → All (λ a. P (name a) a) xs
        → Grouped (group_onto name gs xs)
    unfolding group_onto
    Grouped-group_onto gs [] h k = h
    Grouped-group_onto gs (a ∷ xs) h (k, ks) =
        Grouped-group_onto (add_to_group name a gs) xs (Grouped-add_to_group a gs k h) ks

  -- No two groups have the same name.
  abbrev pub AreApart : List (Bytes × List A) → Type 0
  AreApart [] = Unit
  AreApart ((n, xs) ∷ gs) = All (λ g. str_eq g.0 n ≡ false) gs × AreApart gs

  other-add_to_group :
      (n : Bytes) (a : A) (gs : List (Bytes × List A))
      → str_eq (name a) n ≡ false
      → All (λ g. str_eq g.0 n ≡ false) gs
      → All (λ g. str_eq g.0 n ≡ false) (add_to_group name a gs)
  unfolding add_to_group
  other-add_to_group n a [] d h = (d, tt)
  other-add_to_group n a ((m, xs) ∷ gs) d (h, hs) =
      let ih = other-add_to_group n a gs d hs in
      elim (Bool-cases (str_eq m (name a))) [
        | inl e ↦ rw (e, add_to_group) (h, hs)
        | inr e ↦ rw (e, add_to_group) (h, ih)
      ]

  pub add_to_group-AreApart :
      (a : A) (gs : List (Bytes × List A)) → AreApart gs → AreApart (add_to_group name a gs)
  unfolding add_to_group
  add_to_group-AreApart a [] h = (tt, tt)
  add_to_group-AreApart a ((m, xs) ∷ gs) (h, hs) =
      let ih = add_to_group-AreApart a gs hs in
      elim (Bool-cases (str_eq m (name a))) [
        | inl e ↦ rw (e, add_to_group) (h, hs)
        | inr e ↦ rw (e, add_to_group) (other-add_to_group m a gs (str_eq_sym m (name a) e) h, ih)
      ]
    where
      str_eq_sym : (x y : Bytes) → str_eq x y ≡ false → str_eq y x ≡ false
      str_eq_sym x y e = elim (Bool-cases (str_eq y x)) [
        | inr k ↦ k
        | inl k ↦
            let back : str_eq x y ≡ true = (str_eq_iff x y).1 (sym ((str_eq_iff y x).0 k)) in cc
      ]

-- The groups of a list of elements each of which a function changes but for its name.
module _ {A B : Type 0} (name : A → Bytes) (name' : B → Bytes) (f : A → B)
    (keeps : (a : A) → name' (f a) ≡ name a) where
  abbrev pub map_groups : List (Bytes × List A) → List (Bytes × List B)
  map_groups [] = []
  map_groups ((n, xs) ∷ gs) = (n, map f xs) ∷ map_groups gs

  map-snoc : (xs : List A) (a : A) → map f (xs ++ a ∷ []) ≡ map f xs ++ f a ∷ []
  map-snoc [] a = refl
  map-snoc (b ∷ xs) a = ap (λ bs. f b ∷ bs) (map-snoc xs a)

  add_to_group-map_groups :
      (a : A) (gs : List (Bytes × List A))
      → add_to_group name' (f a) (map_groups gs) ≡ map_groups (add_to_group name a gs)
  unfolding add_to_group
  add_to_group-map_groups a [] = rw (keeps a) refl
  add_to_group-map_groups a ((m, xs) ∷ gs) =
      let ih = add_to_group-map_groups a gs in
      elim (Bool-cases (str_eq m (name a))) [
        | inl e ↦
            rw (keeps a, e, add_to_group) (ap (λ bs. (m, bs) ∷ map_groups gs) (sym (map-snoc xs a)))
        | inr e ↦ rw (keeps a, e, add_to_group) (ap (λ hs. (m, map f xs) ∷ hs) ih)
      ]

  pub group_onto-map_groups :
      (gs : List (Bytes × List A)) (xs : List A)
      → group_onto name' (map_groups gs) (map f xs) ≡ map_groups (group_onto name gs xs)
  unfolding group_onto
  group_onto-map_groups gs [] = refl
  group_onto-map_groups gs (a ∷ xs) =
      ap (λ hs. group_onto name' hs (map f xs)) (add_to_group-map_groups a gs)
      ∙ group_onto-map_groups (add_to_group name a gs) xs
