-- ===== src/Extract/Partition.antt =====
-- `partitionRuns` of internal/extract/extract.go: the groups of files that are merged together. A run
-- is a list of the entries of `byFile` that its indices stand for.
pub mod Order
pub mod Split
pub mod Apart
mod Runs
use tsm2arc.Prelude.{
  ℕ, List, [], ◌∷◌, ◌++◌, map, Bool, true, false, ◌&&◌, ◌||◌, if◌then◌else◌, length, ltb, Bytes,
}
use tsm2arc.Prelude.Int64.{ℤ, min_int64}
use tsm2arc.Prelude.Times.{earlier, same}

-- One series' keys within the file of an index.
pub record FileKeys : Type 0 where
  pub index : ℕ
  pub keys : List Bytes
  pub min : ℤ
  pub max : ℤ

unfoldable pub insert_by : (FileKeys → FileKeys → Bool) → FileKeys → List FileKeys → List FileKeys
insert_by before f [] = f ∷ []
insert_by before f (g ∷ gs) =
    let rest = insert_by before f gs in if before g f then g ∷ rest else f ∷ g ∷ gs

-- `sort.Ints` on the indices, and `sort.SliceStable`.
unfoldable pub sort_by : (FileKeys → FileKeys → Bool) → List FileKeys → List FileKeys
sort_by before [] = []
sort_by before (f ∷ fs) = insert_by before f (sort_by before fs)

abbrev pub index_before : FileKeys → FileKeys → Bool
index_before f g = ltb f.index g.index

-- By the start time, and the index between equal ones.
unfoldable pub starts_before : FileKeys → FileKeys → Bool
starts_before f g = if same f.min g.min then ltb f.index g.index else earlier f.min g.min

abbrev pub max_of : ℤ → ℤ → ℤ
max_of m t = if earlier m t then t else m

abbrev pub is_empty : List FileKeys → Bool
is_empty [] = true
is_empty (f ∷ fs) = false

-- The loop over the files in the order of their starts, with `cur` and `curMax`.
unfoldable pub split_runs : List FileKeys → ℤ → List FileKeys → List (List FileKeys)
split_runs cur cur_max [] = if is_empty cur then [] else cur ∷ []
split_runs cur cur_max (f ∷ fs) =
    let apart = split_runs (f ∷ []) (max_of min_int64 f.max) fs in
    let joined = split_runs (cur ++ f ∷ []) (max_of cur_max f.max) fs in
    if is_empty cur then joined else if earlier cur_max f.min then cur ∷ apart else joined

unfoldable pub partition_runs : List FileKeys → Bool → List (List FileKeys)
unfolding sort_by split_runs
partition_runs by_file has_wal =
    let fis = sort_by index_before by_file in
    if has_wal || ltb (length fis) 2
    then fis ∷ []
    else map (sort_by index_before) (split_runs [] min_int64 (sort_by starts_before fis))
