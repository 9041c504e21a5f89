-- ===== src/Extract/Coalesce.antt =====
-- `mergeSeries` and `coalesceByField` of internal/extract/extract.go: one stream for each field, in the
-- order of the names, and the loop over the times.
pub mod Groups
pub mod Sorted
pub mod LastWrite
pub mod Sources
pub mod Lawful
pub mod Streams
pub mod Series
pub mod Runs
use tsm2arc.Prelude.{ℕ, List, [], ◌∷◌, ◌++◌, map, Bool, if◌then◌else◌, length, ◌==◌, Bytes}
use tsm2arc.Prelude.Strings.{str_eq, str_lt}
use tsm2arc.Series.{Tag}
use tsm2arc.Extract.Stream.{Stream, Peek}
use tsm2arc.Extract.Merge.{Point, Stats, End, done, merge_loop}
use tsm2arc.Extract.Merge.Points.{series_point}
use tsm2arc.Extract.FieldMerge.{FieldMerge, new_field_merge, merge_peek, merge_advance}

-- A stream xs it was, or those of one field xs one.
pub data MergeStream (S : Type 0) : Type 0 where
  plain : S → MergeStream S
  merged : FieldMerge S → MergeStream S

module _ {S : Type 0} (ops : Stream S) where
  abbrev pub merge_name : MergeStream S → Bytes
  merge_name (plain s) = ops.name s
  merge_name (merged s) = s.field

  abbrev pub peek_any : MergeStream S → MergeStream S × Peek
  peek_any (plain s) = let (s', p) = ops.peek s in (plain s', p)
  peek_any (merged s) = let (s', p) = merge_peek ops s in (merged s', p)

  abbrev pub advance_any : MergeStream S → MergeStream S
  advance_any (plain s) = plain (ops.advance s)
  advance_any (merged s) = merged (merge_advance ops s)

  abbrev pub merge_stream : Stream (MergeStream S)
  merge_stream = record { name = merge_name; peek = peek_any; advance = advance_any }

module _ {A : Type 0} (name : A → Bytes) where
  -- `byName[n] = append(byName[n], s)`, with the names in the order of `order`.
  unfoldable pub add_to_group : A → List (Bytes × List A) → List (Bytes × List A)
  add_to_group a [] = (name a, a ∷ []) ∷ []
  add_to_group a ((m, xs) ∷ gs) =
      let rest = add_to_group a gs in
      if str_eq m (name a) then (m, xs ++ a ∷ []) ∷ gs else (m, xs) ∷ rest

  unfoldable pub group_onto : List (Bytes × List A) → List A → List (Bytes × List A)
  group_onto gs [] = gs
  group_onto gs (a ∷ xs) = group_onto (add_to_group a gs) xs

  -- `sort.SliceStable` by name: every stable sort gives this list.
  unfoldable pub insert_by_name : A → List A → List A
  insert_by_name a [] = a ∷ []
  insert_by_name a (b ∷ bs) =
      let rest = insert_by_name a bs in if str_lt (name b) (name a) then b ∷ rest else a ∷ b ∷ bs

  unfoldable pub sort_by_name : List A → List A
  sort_by_name [] = []
  sort_by_name (a ∷ xs) = insert_by_name a (sort_by_name xs)

-- The stream of one group.
abbrev pub wrap : {S : Type 0} → Bytes × List S → MergeStream S
wrap (n, []) = merged (new_field_merge n [])
wrap (n, s ∷ []) = plain s
wrap (n, s ∷ t ∷ ss) = merged (new_field_merge n (s ∷ t ∷ ss))

module _ {S : Type 0} (ops : Stream S) where
  unfoldable pub coalesce_by_field : List S → List (MergeStream S)
  coalesce_by_field streams =
      let groups = group_onto ops.name [] streams in
      if length groups == length streams then map plain streams else map wrap groups

  unfoldable pub merge_series :
      ℕ → Bytes → Bytes → List Tag → List S → Stats → List Point × Stats × End
  merge_series fuel key measurement tags [] st = ([], st, done)
  merge_series fuel key measurement tags (s ∷ ss) st =
      merge_loop (merge_stream ops) fuel (series_point key measurement tags)
        (sort_by_name (merge_name ops) (coalesce_by_field (s ∷ ss))) st
