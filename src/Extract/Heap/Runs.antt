-- ===== src/Extract/Heap/Runs.antt =====
-- A run of the heap of internal/extract/extract.go.
use tsm2arc.Prelude.{ℕ, List, [], ◌∷◌, ◌/◌, length}
use tsm2arc.Prelude.Int64.{ℤ, pos}
use tsm2arc.Tsm.{zero_value}
use tsm2arc.Extract.Heap.{Entry, heapify}
use tsm2arc.Extract.Heap.Sift.{IsHeapFrom}
use tsm2arc.Extract.Heap.Loop.{Rearranged, heapify_lem}

abbrev head_at_time : ℤ → ℕ → Entry
head_at_time t i = record { v = record zero_value { unix_nano = t }; idx = i }

abbrev four_heads : List Entry
four_heads =
    head_at_time (pos 7) 0
    ∷ head_at_time (pos 3) 1
    ∷ head_at_time (pos 5) 2
    ∷ head_at_time (pos 3) 3
    ∷ []

heapify_lem_example :
    IsHeapFrom 0 (heapify (length four_heads / 2) four_heads)
    × Rearranged four_heads (heapify (length four_heads / 2) four_heads)
heapify_lem_example = heapify_lem four_heads
