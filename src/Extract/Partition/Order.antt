-- ===== src/Extract/Partition/Order.antt =====
-- The sorts of `partitionRuns` in internal/extract/extract.go.
use tsm2arc.Prelude.{
  ℕ, ◌+◌, List, [], ◌∷◌, Bool, false, if◌then◌else◌, ltb, ◌≡◌, refl, ap, ◌∙◌, inl, inr, arith, All,
  Bool-cases,
}
use tsm2arc.Extract.Partition.{FileKeys, insert_by, sort_by, index_before}

-- The number of files with a property.
unfoldable pub count_files : (FileKeys → Bool) → List FileKeys → ℕ
count_files p [] = 0
count_files p (f ∷ fs) = let rest = count_files p fs in if p f then 1 + rest else rest

abbrev pub count_runs : (FileKeys → Bool) → List (List FileKeys) → ℕ
count_runs p [] = 0
count_runs p (r ∷ rs) = count_files p r + count_runs p rs

-- The indices rise, as far as they differ.
abbrev pub InIndexOrder : List FileKeys → Type 0
InIndexOrder [] = Unit
InIndexOrder (f ∷ fs) = All (λ g. ltb g.index f.index ≡ false) fs × InIndexOrder fs

module _ (before : FileKeys → FileKeys → Bool) where
  count_files-insert_by :
      (p : FileKeys → Bool) (f : FileKeys) (fs : List FileKeys)
      → count_files p (insert_by before f fs) ≡ count_files p (f ∷ fs)
  unfolding insert_by count_files
  count_files-insert_by p f [] = refl
  count_files-insert_by p f (g ∷ gs) = ground (arith, count_files-insert_by p f gs)

  pub count_files-sort_by :
      (p : FileKeys → Bool) (fs : List FileKeys)
      → count_files p (sort_by before fs) ≡ count_files p fs
  unfolding sort_by count_files
  count_files-sort_by p [] = refl
  count_files-sort_by p (f ∷ fs) =
      count_files-insert_by p f (sort_by before fs)
      ∙ ap (λ n. if p f then 1 + n else n) (count_files-sort_by p fs)

  pub All-insert_by :
      (P : FileKeys → Type 0) (f : FileKeys) (fs : List FileKeys)
      → P f
      → All P fs
      → All P (insert_by before f fs)
  unfolding insert_by
  All-insert_by P f [] h k = (h, tt)
  All-insert_by P f (g ∷ gs) h (k, ks) = elim (Bool-cases (before g f)) [
    | inl e ↦ rw (e, insert_by) (k, All-insert_by P f gs h ks)
    | inr e ↦ rw (e, insert_by) (h, (k, ks))
  ]

  pub All-sort_by :
      (P : FileKeys → Type 0) (fs : List FileKeys) → All P fs → All P (sort_by before fs)
  unfolding sort_by
  All-sort_by P [] h = tt
  All-sort_by P (f ∷ fs) (h, hs) = All-insert_by P f (sort_by before fs) h (All-sort_by P fs hs)

insert_by-InIndexOrder :
    (f : FileKeys) (fs : List FileKeys)
    → InIndexOrder fs
    → InIndexOrder (insert_by index_before f fs)
unfolding insert_by
insert_by-InIndexOrder f [] h = (tt, tt)
insert_by-InIndexOrder f (g ∷ gs) (k, ks) = elim (Bool-cases (index_before g f)) [
  | inl e ↦
      let not_before : ltb f.index g.index ≡ false = ground arith in
      rw (e, insert_by)
        (
          All-insert_by index_before (λ h. ltb h.index g.index ≡ false) f gs not_before k,
          insert_by-InIndexOrder f gs ks,
        )
  | inr e ↦ rw (e, insert_by) ((e, lower_bound gs e k), (k, ks))
]
  where
    lower_bound :
        (hs : List FileKeys)
        → ltb g.index f.index ≡ false
        → All (λ h. ltb h.index g.index ≡ false) hs
        → All (λ h. ltb h.index f.index ≡ false) hs
    lower_bound [] e h = tt
    lower_bound (x ∷ xs) e (h, hs) = (ground arith, lower_bound xs e hs)

pub sort_by-InIndexOrder : (fs : List FileKeys) → InIndexOrder (sort_by index_before fs)
unfolding sort_by
sort_by-InIndexOrder [] = tt
sort_by-InIndexOrder (f ∷ fs) =
    insert_by-InIndexOrder f (sort_by index_before fs) (sort_by-InIndexOrder fs)
