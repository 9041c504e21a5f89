-- ===== src/Extract/Coalesce/LastWrite.antt =====
-- The streams of `coalesceByField` in internal/extract/extract.go write what the streams before it do.
use tsm2arc.Prelude.{
  ◌+◌, List, [], ◌∷◌, ◌++◌, true, false, Option, if◌then◌else◌, length, ◌==◌, Bytes, ◌≡◌, refl, sym,
  ap, ◌∙◌, inl, inr, arith, All, Bool-cases,
}
use tsm2arc.Prelude.Int64.{ℤ}
use tsm2arc.Prelude.Strings.{str_eq, str_eq_iff}
use tsm2arc.Tsm.{Value}
use tsm2arc.Extract.Merge.Rows.{Source, size}
use tsm2arc.Extract.Merge.Row.{last_value, last_write, IsAscending, AreAscending}
use tsm2arc.Extract.FieldMerge.Merged.{merge_all}
use tsm2arc.Extract.FieldMerge.Values.{
  last_of, AllAscending, total, merge_all-IsAscending, last_value-merge_all, length-merge_all,
  merge_all-one,
}
use tsm2arc.Extract.Coalesce.{add_to_group, group_onto, sort_by_name}
use tsm2arc.Extract.Coalesce.Groups.{Grouped, Grouped-add_to_group, AreApart, add_to_group-AreApart}
use tsm2arc.Extract.Coalesce.Sorted.{source_name}

abbrev pub Group : Type 0
Group = Bytes × List Source

abbrev pub lists : List Source → List (List Value)
lists [] = []
lists ((n, vs) ∷ ss) = vs ∷ lists ss

-- The source of one group.
abbrev pub merged_source : Group → Source
merged_source (n, ss) = (n, merge_all (lists ss))

abbrev pub merged_sources : List Group → List Source
merged_sources [] = []
merged_sources (g ∷ gs) = merged_source g ∷ merged_sources gs

abbrev pub groups_of : List Source → List Group
groups_of ss = group_onto source_name [] ss

-- What the streams of `coalesceByField` stand for.
unfoldable pub coalesced : List Source → List Source
coalesced ss = if length (groups_of ss) == length ss then ss else merged_sources (groups_of ss)

-- What the loop of `mergeSeries` runs over.
abbrev pub series_sources : List Source → List Source
series_sources ss = sort_by_name source_name (coalesced ss)

abbrev pub Ascends : Bytes → Source → Type 0
Ascends n s = IsAscending s.1

lists-AllAscending : (n : Bytes) (ss : List Source) → All (Ascends n) ss → AllAscending (lists ss)
lists-AllAscending n [] h = tt
lists-AllAscending n ((m, vs) ∷ ss) (h, hs) = (h, lists-AllAscending n ss hs)

last_of-snoc :
    (t : ℤ) (ss : List Source) (n : Bytes) (vs : List Value) (before : Option Value)
    → last_of t (lists (ss ++ (n, vs) ∷ [])) before ≡ last_value t vs (last_of t (lists ss) before)
last_of-snoc t [] n vs before = refl
last_of-snoc t ((m, ws) ∷ ss) n vs before = last_of-snoc t ss n vs (last_value t ws before)

snoc-AllAscending :
    (ss : List Source) (n : Bytes) (vs : List Value)
    → AllAscending (lists ss)
    → IsAscending vs
    → AllAscending (lists (ss ++ (n, vs) ∷ []))
snoc-AllAscending [] n vs h k = (k, tt)
snoc-AllAscending ((m, ws) ∷ ss) n vs (h, hs) k = (h, snoc-AllAscending ss n vs hs k)

-- No group of the field: nothing of it is written.
unwritten :
    (f : Bytes) (t : ℤ) (gs : List Group) (before : Option Value)
    → All (λ g. str_eq g.0 f ≡ false) gs
    → last_write f t (merged_sources gs) before ≡ before
unfolding last_write
unwritten f t [] before h = refl
unwritten f t ((m, ss) ∷ gs) before (h, hs) = rw (h, last_write) (unwritten f t gs before hs)

last_write-add_to_group :
    (f : Bytes) (t : ℤ) (n : Bytes) (vs : List Value) (gs : List Group) (before : Option Value)
    → AreApart source_name gs
    → Grouped source_name Ascends gs
    → IsAscending vs
    → last_write f t (merged_sources (add_to_group source_name (n, vs) gs)) before ≡ (
        if str_eq n f
        then last_value t vs (last_write f t (merged_sources gs) before)
        else last_write f t (merged_sources gs) before)
unfolding last_write add_to_group
last_write-add_to_group f t n vs [] before a g h = rw (merge_all-one vs) refl
last_write-add_to_group f t n vs ((m, ss) ∷ gs) before (a, apart) (g, gr) h =
    let ih =
      last_write-add_to_group f t n vs gs
        (if str_eq m f then last_value t (merge_all (lists ss)) before else before) apart gr h in
    elim (Bool-cases (str_eq m n)) [
      | inr e ↦ rw (e, add_to_group) ih
      | inl e ↦
          let one : m ≡ n = (str_eq_iff m n).0 e in
          let asc = lists-AllAscending m ss g in
          rw (e, add_to_group)
            (elim (Bool-cases (str_eq m f)) [
              | inr k ↦ let k' : str_eq n f ≡ false = rw one at k in rw (k, k', last_write) refl
              | inl k ↦
                  let k' : str_eq n f ≡ true = rw one at k in
                  let field : m ≡ f = (str_eq_iff m f).0 k in
                  let rest = λ (b : Option Value). unwritten f t gs b (rw field at a) in
                  rw (k, k', last_write)
                    (rest (last_value t (merge_all (lists (ss ++ (n, vs) ∷ []))) before)
                      ∙ last_value-merge_all t (lists (ss ++ (n, vs) ∷ [])) before
                          (snoc-AllAscending ss n vs asc h)
                      ∙ last_of-snoc t ss n vs before
                      ∙ ap (last_value t vs) (
                          sym (
                            rest (last_value t (merge_all (lists ss)) before)
                            ∙ last_value-merge_all t (lists ss) before asc)))
            ])
    ]

pub last_write-group_onto :
    (f : Bytes) (t : ℤ) (ss : List Source) (gs : List Group) (before : Option Value)
    → AreApart source_name gs
    → Grouped source_name Ascends gs
    → AreAscending ss
    → last_write f t (merged_sources (group_onto source_name gs ss)) before
      ≡ last_write f t ss (last_write f t (merged_sources gs) before)
unfolding last_write group_onto
last_write-group_onto f t [] gs before a g h = refl
last_write-group_onto f t ((n, vs) ∷ ss) gs before a g (h, hs) =
    last_write-group_onto f t ss (add_to_group source_name (n, vs) gs) before
      (add_to_group-AreApart source_name (n, vs) gs a)
      (Grouped-add_to_group source_name Ascends (n, vs) gs h g) hs
    ∙ ap (last_write f t ss) (last_write-add_to_group f t n vs gs before a g h)

pub Ascends-All : (ss : List Source) → AreAscending ss → All (λ s. Ascends s.0 s) ss
Ascends-All [] h = tt
Ascends-All ((n, vs) ∷ ss) (h, hs) = (h, Ascends-All ss hs)

pub merged_sources-AreAscending :
    (gs : List Group) → Grouped source_name Ascends gs → AreAscending (merged_sources gs)
merged_sources-AreAscending [] h = tt
merged_sources-AreAscending ((n, ss) ∷ gs) (h, hs) = (
  merge_all-IsAscending (lists ss) (lists-AllAscending n ss h),
  merged_sources-AreAscending gs hs,
)

size-add_to_group :
    (n : Bytes) (vs : List Value) (gs : List Group)
    → size (merged_sources (add_to_group source_name (n, vs) gs))
      ≡ length vs + size (merged_sources gs)
unfolding add_to_group
size-add_to_group n vs [] = omega (arith, ap length (merge_all-one vs))
size-add_to_group n vs ((m, ss) ∷ gs) =
    let ih = size-add_to_group n vs gs in
    elim (Bool-cases (str_eq m n)) [
      | inr e ↦ rw (e, add_to_group) (omega arith)
      | inl e ↦
          rw (e, add_to_group)
            (omega (
              arith,
              length-merge_all (lists (ss ++ (n, vs) ∷ [])),
              length-merge_all (lists ss),
              total-snoc ss,
            ))
    ]
  where
    total-snoc :
        (ss : List Source) → total (lists (ss ++ (n, vs) ∷ [])) ≡ total (lists ss) + length vs
    total-snoc [] = omega arith
    total-snoc ((m, ws) ∷ ss) = omega (arith, total-snoc ss)

pub size-group_onto :
    (ss : List Source) (gs : List Group)
    → size (merged_sources (group_onto source_name gs ss)) ≡ size (merged_sources gs) + size ss
unfolding group_onto
size-group_onto [] gs = omega arith
size-group_onto ((n, vs) ∷ ss) gs =
    omega
      (arith, size-group_onto ss (add_to_group source_name (n, vs) gs), size-add_to_group n vs gs)
