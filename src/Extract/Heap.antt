-- ===== src/Extract/Heap.antt =====
-- The heap of `fieldMergeStream` in internal/extract/extract.go: `fmsEntry`, `less` and `siftDown`. The
-- code reads and writes at indices below the length only; elsewhere the model has an entry of zeros.
pub mod Order
pub mod Sift
pub mod Loop
pub mod Runs
use tsm2arc.Prelude.{
  ℕ, zero, suc, ◌+◌, ◌*◌, List, [], ◌∷◌, Bool, true, false, ◌&&◌, if◌then◌else◌, length, ltb, ◌==◌,
}
use tsm2arc.Prelude.Times.{earlier, same}
use tsm2arc.Tsm.{Value, zero_value}

pub record Entry : Type 0 where
  pub v : Value
  pub idx : ℕ

unfoldable pub less : Entry → Entry → Bool
less a b =
    if same a.v.unix_nano b.v.unix_nano
    then ltb a.idx b.idx
    else earlier a.v.unix_nano b.v.unix_nano

-- `h[i]`
unfoldable pub entry_at : List Entry → ℕ → Entry
entry_at [] i = record { v = zero_value; idx = 0 }
entry_at (e ∷ h) zero = e
entry_at (e ∷ h) (suc i) = entry_at h i

-- `h[i] = e`
unfoldable pub set_entry : List Entry → ℕ → Entry → List Entry
set_entry [] i e = []
set_entry (f ∷ h) zero e = e ∷ h
set_entry (f ∷ h) (suc i) e = f ∷ set_entry h i e

-- `h[i], h[j] = h[j], h[i]`
unfoldable pub swap : List Entry → ℕ → ℕ → List Entry
swap h i j = set_entry (set_entry h i (entry_at h j)) j (entry_at h i)

-- `c < len(h) && less(h[c], h[m])`
abbrev pub comes_first : List Entry → ℕ → ℕ → Bool
comes_first h c m = if ltb c (length h) then less (entry_at h c) (entry_at h m) else false

abbrev pub min_left : List Entry → ℕ → ℕ
min_left h i = if comes_first h (2 * i + 1) i then 2 * i + 1 else i

-- The least of `i` and its two children.
unfoldable pub min_child : List Entry → ℕ → ℕ
min_child h i = if comes_first h (2 * i + 2) (min_left h i) then 2 * i + 2 else min_left h i

-- The loop of `siftDown`, on fuel.
unfoldable pub sift_loop : ℕ → ℕ → List Entry → List Entry
sift_loop zero i h = h
sift_loop (suc fuel) i h =
    let sunk = sift_loop fuel (min_child h i) (swap h i (min_child h i)) in
    if min_child h i == i then h else sunk

unfoldable pub sift_down : List Entry → ℕ → List Entry
unfolding sift_loop
sift_down h i = sift_loop (suc (length h)) i h

-- The loop of `peek` that orders the entries: from the index `n - 1` down to 0.
unfoldable pub heapify : ℕ → List Entry → List Entry
heapify zero h = h
heapify (suc n) h = heapify n (sift_down h n)
