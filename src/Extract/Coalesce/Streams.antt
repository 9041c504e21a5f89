-- ===== src/Extract/Coalesce/Streams.antt =====
-- The streams of `coalesceByField` in internal/extract/extract.go, and what they stand for.
use tsm2arc.Prelude.{
  suc, List, [], ◌∷◌, map, length, ◌==◌, Bytes, ◌≡◌, refl, sym, ap, ap₂, ◌∙◌, inl, inr, All,
  Bool-cases,
}
use tsm2arc.Extract.Stream.{Stream, Laws}
use tsm2arc.Extract.Merge.Rows.{Source, embed}
use tsm2arc.Extract.FieldMerge.Merged.{merge_all}
use tsm2arc.Extract.FieldMerge.Values.{merge_all-one}
use tsm2arc.Extract.FieldMerge.Children.{values_of, IsSound, AllSound}
use tsm2arc.Extract.FieldMerge.Lawful.{new_field_merge-IsState}
use tsm2arc.Extract.Coalesce.{plain, wrap, group_onto, coalesce_by_field}
use tsm2arc.Extract.Coalesce.Groups.{Grouped, Grouped-group_onto, map_groups, group_onto-map_groups}
use tsm2arc.Extract.Coalesce.Sorted.{source_name}
use tsm2arc.Extract.Coalesce.LastWrite.{
  Group, lists, merged_source, merged_sources, groups_of, coalesced,
}
use tsm2arc.Extract.Coalesce.Lawful.{AnyValid, any_feed}

module _ {S : Type 0} (ops : Stream S) (laws : Laws ops) where
  -- What a stream that ends without an error stands for.
  abbrev pub to_source : S → Source
  to_source s = ((laws.feed s).field, (laws.feed s).values)

  feed-to_source : (s : S) → IsSound ops laws s → laws.feed s ≡ embed (to_source s)
  feed-to_source s (v, f) =
      ap (λ e. record { field = (laws.feed s).field; values = (laws.feed s).values; failure = e }) f

  abbrev pub Named : Bytes → S → Type 0
  Named n s = IsSound ops laws s × ((laws.feed s).field ≡ n)

  values_of-lists : (ss : List S) → values_of ops laws ss ≡ lists (map to_source ss)
  values_of-lists [] = refl
  values_of-lists (s ∷ ss) = ap (λ vss. (laws.feed s).values ∷ vss) (values_of-lists ss)

  Named-AllSound : (n : Bytes) (ss : List S) → All (Named n) ss → AllSound ops laws ss
  unfolding AllSound
  Named-AllSound n [] h = tt
  Named-AllSound n (s ∷ ss) ((h, e), hs) = (h, Named-AllSound n ss hs)

  wrap-AnyValid : (n : Bytes) (ss : List S) → All (Named n) ss → AnyValid ops laws (wrap (n, ss))
  wrap-AnyValid n [] h = new_field_merge-IsState ops laws n [] (Named-AllSound n [] h)
  wrap-AnyValid n (s ∷ []) h = h.0.0.0
  wrap-AnyValid n (s ∷ t ∷ ss) h =
      new_field_merge-IsState ops laws n (s ∷ t ∷ ss) (Named-AllSound n (s ∷ t ∷ ss) h)

  any_feed-wrap :
      (n : Bytes) (ss : List S)
      → All (Named n) ss
      → any_feed ops laws (wrap (n, ss)) ≡ embed (merged_source (n, map to_source ss))
  any_feed-wrap n [] h = refl
  any_feed-wrap n (s ∷ []) ((sound, e), h) =
      feed-to_source s sound
      ∙ ap₂ (λ m vs. embed (m, vs)) e (sym (merge_all-one (laws.feed s).values))
  any_feed-wrap n (s ∷ t ∷ ss) h =
      ap (λ vss. embed (n, merge_all vss)) (values_of-lists (s ∷ t ∷ ss))

  abbrev pub groups : List S → List (Bytes × List S)
  groups ss = group_onto ops.name [] ss

  groups-Named : (ss : List S) → All (IsSound ops laws) ss → Grouped ops.name Named (groups ss)
  groups-Named ss h = Grouped-group_onto ops.name Named [] ss tt (named ss h)
    where
      named : (ss : List S) → All (IsSound ops laws) ss → All (λ s. Named (ops.name s) s) ss
      named [] h = tt
      named (s ∷ ss) (h, hs) = ((h, sym (laws.name_feed s)), named ss hs)

  abbrev pub as_sources : List (Bytes × List S) → List Group
  as_sources gs = map_groups ops.name source_name to_source (λ s. sym (laws.name_feed s)) gs

  wrap-All :
      (gs : List (Bytes × List S))
      → Grouped ops.name Named gs
      → All (AnyValid ops laws) (map wrap gs)
        × (map (any_feed ops laws) (map wrap gs) ≡ map embed (merged_sources (as_sources gs)))
  wrap-All [] h = (tt, refl)
  wrap-All ((n, ss) ∷ gs) (h, hs) =
      let (v, f) = wrap-All gs hs in
      ((wrap-AnyValid n ss h, v), ap₂ (λ a b. a ∷ b) (any_feed-wrap n ss h) f)

  plain-All :
      (ss : List S)
      → All (IsSound ops laws) ss
      → All (AnyValid ops laws) (map plain ss)
        × (map (any_feed ops laws) (map plain ss) ≡ map embed (map to_source ss))
  plain-All [] h = (tt, refl)
  plain-All (s ∷ ss) (h, hs) =
      let (v, f) = plain-All ss hs in ((h.0, v), ap₂ (λ a b. a ∷ b) (feed-to_source s h) f)

  length-map : {A B : Type 0} (f : A → B) (xs : List A) → length (map f xs) ≡ length xs
  length-map f [] = refl
  length-map f (x ∷ xs) = ap suc (length-map f xs)

  length-as_sources : (gs : List (Bytes × List S)) → length (as_sources gs) ≡ length gs
  length-as_sources [] = refl
  length-as_sources ((n, ss) ∷ gs) = ap suc (length-as_sources gs)

  groups_of-as_sources : (ss : List S) → groups_of (map to_source ss) ≡ as_sources (groups ss)
  groups_of-as_sources ss =
      group_onto-map_groups ops.name source_name to_source (λ s. sym (laws.name_feed s)) [] ss

  -- The streams of `coalesceByField` are valid, and stand for the merged sources of their groups.
  pub coalesce_by_field-coalesced :
      (ss : List S)
      → All (IsSound ops laws) ss
      → All (AnyValid ops laws) (coalesce_by_field ops ss)
        × (map (any_feed ops laws) (coalesce_by_field ops ss)
            ≡ map embed (coalesced (map to_source ss)))
  unfolding coalesce_by_field coalesced
  coalesce_by_field-coalesced ss h =
      rw (groups_of-as_sources ss, length-as_sources (groups ss), length-map to_source ss)
        (elim (Bool-cases (length (groups ss) == length ss)) [
          | inl e ↦ rw e (plain-All ss h)
          | inr e ↦ rw e (wrap-All (groups ss) (groups-Named ss h))
        ])
