-- ===== src/Extract.antt =====
-- internal/extract/extract.go: which blocks and values of a key a time window and a cursor leave.
pub mod Window
pub mod Stream
pub mod Merge
pub mod Slice
pub mod Cursor
pub mod Block
pub mod Run
pub mod Files
pub mod Partition
pub mod Shard
pub mod Heap
pub mod FieldMerge
pub mod Coalesce
mod Runs
use tsm2arc.Prelude.{
  ℕ, suc, ◌+◌, List, [], ◌∷◌, Bool, true, false, not, ◌&&◌, ltb, if◌then◌else◌, length,
}
use tsm2arc.Prelude.Int64.{ℤ, ltb_ℤ}
use tsm2arc.Tsm.{IndexEntry, Value}

-- The loop that moves `lo`, then the one that moves `hi`.
unfoldable pub skip_before : ℤ → List IndexEntry → List IndexEntry
skip_before start [] = []
skip_before start (e ∷ es) =
    let later = skip_before start es in if ltb_ℤ e.max_time start then later else e ∷ es

unfoldable pub take_through : ℤ → List IndexEntry → List IndexEntry
take_through end [] = []
take_through end (e ∷ es) =
    let later = take_through end es in if not (ltb_ℤ end e.min_time) then e ∷ later else []

unfoldable pub prune_entries : List IndexEntry → ℤ → ℤ → List IndexEntry
unfolding skip_before take_through
prune_entries ents start end = take_through end (skip_before start ents)

-- The loop from the second block on, `prev` the end of the block before.
unfoldable pub ascending_after : ℤ → List IndexEntry → Bool
ascending_after prev [] = true
ascending_after prev (e ∷ es) =
    let later = ascending_after e.max_time es in
    if ltb_ℤ e.max_time e.min_time then false else if ltb_ℤ e.min_time prev then false else later

unfoldable pub entries_ascending : List IndexEntry → Bool
unfolding ascending_after
entries_ascending [] = true
entries_ascending (e ∷ es) =
    let later = ascending_after e.max_time es in
    if ltb_ℤ e.max_time e.min_time then false else later
