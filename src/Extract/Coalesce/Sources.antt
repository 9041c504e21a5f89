-- ===== src/Extract/Coalesce/Sources.antt =====
-- The sources that the loop of `mergeSeries` in internal/extract/extract.go runs over: their order, their
-- size, their last writes, and what is left of them after a time.
use tsm2arc.Prelude.{
  suc, List, [], ◌∷◌, map, Option, length, ◌==◌, Bytes, ◌≡◌, refl, sym, ap, ap₂, ◌∙◌, inl, inr,
  arith, Bool-cases,
}
use tsm2arc.Prelude.Int64.{ℤ}
use tsm2arc.Tsm.{Value}
use tsm2arc.Extract.Merge.Rows.{Source, size}
use tsm2arc.Extract.Merge.Row.{last_write, AreAscending}
use tsm2arc.Extract.Merge.Resume.{values_after, sources_after}
use tsm2arc.Extract.FieldMerge.Merged.{merge_all}
use tsm2arc.Extract.FieldMerge.Values.{values_after-merge_all}
use tsm2arc.Extract.Coalesce.{sort_by_name}
use tsm2arc.Extract.Coalesce.Groups.{Grouped-group_onto, map_groups, group_onto-map_groups}
use tsm2arc.Extract.Coalesce.Sorted.{
  source_name, sort_by_name-map, last_write-sort_by_name, size-sort_by_name,
  AreAscending-sort_by_name,
}
use tsm2arc.Extract.Coalesce.LastWrite.{
  Group, lists, merged_sources, groups_of, coalesced, series_sources, Ascends,
  last_write-group_onto, Ascends-All, merged_sources-AreAscending, size-group_onto,
}

abbrev source_after : ℤ → Source → Source
source_after c (n, vs) = (n, values_after c vs)

abbrev groups_after : ℤ → List Group → List Group
groups_after c gs = map_groups source_name source_name (source_after c) (λ s. refl) gs

map-source_after : (c : ℤ) (ss : List Source) → map (source_after c) ss ≡ sources_after c ss
map-source_after c [] = refl
map-source_after c ((n, vs) ∷ ss) = ap (λ rs. (n, values_after c vs) ∷ rs) (map-source_after c ss)

lists-after :
    (c : ℤ) (ss : List Source) → map (values_after c) (lists ss) ≡ lists (map (source_after c) ss)
lists-after c [] = refl
lists-after c ((n, vs) ∷ ss) = ap (λ rs. values_after c vs ∷ rs) (lists-after c ss)

merged_sources-groups_after :
    (c : ℤ) (gs : List Group)
    → merged_sources (groups_after c gs) ≡ sources_after c (merged_sources gs)
merged_sources-groups_after c [] = refl
merged_sources-groups_after c ((n, ss) ∷ gs) =
    ap₂ (λ vs rs. (n, vs) ∷ rs)
      (ap merge_all (sym (lists-after c ss)) ∙ sym (values_after-merge_all c (lists ss)))
      (merged_sources-groups_after c gs)

-- A property of the groups' sources, when it is one of the sources.
coalesced-cases :
    (P : List Source → Type 0) (ss : List Source)
    → P ss
    → P (merged_sources (groups_of ss))
    → P (coalesced ss)
unfolding coalesced
coalesced-cases P ss h k = elim (Bool-cases (length (groups_of ss) == length ss)) [
  | inl e ↦ rw e h
  | inr e ↦ rw e k
]

pub last_write-series_sources :
    (f : Bytes) (t : ℤ) (ss : List Source) (before : Option Value)
    → AreAscending ss
    → last_write f t (series_sources ss) before ≡ last_write f t ss before
unfolding last_write
last_write-series_sources f t ss before h =
    last_write-sort_by_name f t (coalesced ss) before
    ∙ coalesced-cases (λ rs. last_write f t rs before ≡ last_write f t ss before) ss refl
        (last_write-group_onto f t ss [] before tt tt h)

pub series_sources-AreAscending :
    (ss : List Source) → AreAscending ss → AreAscending (series_sources ss)
series_sources-AreAscending ss h = AreAscending-sort_by_name (coalesced ss) (
    coalesced-cases AreAscending ss h (
      merged_sources-AreAscending (groups_of ss)
        (Grouped-group_onto source_name Ascends [] ss tt (Ascends-All ss h))))

pub size-series_sources : (ss : List Source) → size (series_sources ss) ≡ size ss
size-series_sources ss =
    size-sort_by_name (coalesced ss)
    ∙ coalesced-cases (λ rs. size rs ≡ size ss) ss refl (omega (arith, size-group_onto ss []))

length-sources_after : (c : ℤ) (ss : List Source) → length (sources_after c ss) ≡ length ss
length-sources_after c [] = refl
length-sources_after c ((n, vs) ∷ ss) = ap suc (length-sources_after c ss)

length-groups_after : (c : ℤ) (gs : List Group) → length (groups_after c gs) ≡ length gs
length-groups_after c [] = refl
length-groups_after c ((n, ss) ∷ gs) = ap suc (length-groups_after c gs)

groups_of-sources_after :
    (c : ℤ) (ss : List Source) → groups_of (sources_after c ss) ≡ groups_after c (groups_of ss)
groups_of-sources_after c ss =
    ap groups_of (sym (map-source_after c ss))
    ∙ group_onto-map_groups source_name source_name (source_after c) (λ s. refl) [] ss

coalesced-sources_after :
    (c : ℤ) (ss : List Source) → coalesced (sources_after c ss) ≡ sources_after c (coalesced ss)
unfolding coalesced
coalesced-sources_after c ss =
    rw
      (
        groups_of-sources_after c ss,
        length-groups_after c (groups_of ss),
        length-sources_after c ss,
      )
      (elim (Bool-cases (length (groups_of ss) == length ss)) [
        | inl e ↦ rw e refl
        | inr e ↦ rw e (merged_sources-groups_after c (groups_of ss))
      ])

-- The sources of a merge that starts after a time are those of the whole merge, after it.
pub series_sources-sources_after :
    (c : ℤ) (ss : List Source)
    → series_sources (sources_after c ss) ≡ sources_after c (series_sources ss)
series_sources-sources_after c ss =
    ap (sort_by_name source_name)
      (coalesced-sources_after c ss ∙ sym (map-source_after c (coalesced ss)))
    ∙ sort_by_name-map source_name source_name (source_after c) (λ s. refl) (coalesced ss)
    ∙ map-source_after c (series_sources ss)
