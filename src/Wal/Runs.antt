-- ===== src/Wal/Runs.antt =====
-- Runs of internal/wal/wal.go on a segment of two frames and a torn third.
use tsm2arc.Prelude.{ℕ, ◌^◌, ◌<◌, List, [], ◌∷◌, false, Option, some, Bytes, ◌≡◌, refl, arith, All}
use tsm2arc.Prelude.Int64.{pos, negsuc, IsInt64}
use tsm2arc.Prelude.Strings.{codes}
use tsm2arc.Tsm.Binary.{put_big_endian}
use tsm2arc.Wal.{done, read}
use tsm2arc.Wal.Entries.{raw_integer, raw_string, Batch, BatchFits, put_batches}
use tsm2arc.Wal.Segments.{
  put_frame, Entry, write_entry, delete_entry, put_entries, EntryFits, all_delivered, IsTorn,
  in_body, read-put_entries,
}

abbrev temperatures : Batch
temperatures = record {
  type = 2;
  key = codes "m,t=a#!~#f";
  points = (pos 1, raw_integer (negsuc 4)) ∷ (pos 2, raw_integer (pos 5)) ∷ [];
}

abbrev notes : Batch
notes = record { type = 4; key = codes "m#!~#s"; points = (negsuc 0, raw_string (codes "ok")) ∷ [] }

abbrev two_batches : List Batch
two_batches = temperatures ∷ notes ∷ []

small : (n : ℕ) → n < 2 ^ 63 → IsInt64 (pos n)
small n h = record { above = omega arith; below = omega arith }

small_negative : (n : ℕ) → n < 2 ^ 63 → IsInt64 (negsuc n)
small_negative n h = record { above = omega arith; below = omega arith }

temperatures-BatchFits : BatchFits temperatures
temperatures-BatchFits = record {
  type_fits = omega arith;
  key_fits = omega arith;
  count_fits = omega arith;
  points_fit = (
    (small 1 (omega arith), refl, small_negative 4 (omega arith)),
    ((small 2 (omega arith), refl, small 5 (omega arith)), tt),
  );
}

notes-BatchFits : BatchFits notes
notes-BatchFits = record {
  type_fits = omega arith;
  key_fits = omega arith;
  count_fits = omega arith;
  points_fit = ((small_negative 0 (omega arith), refl, omega arith), tt);
}

two_batches-BatchFits : All BatchFits two_batches
two_batches-BatchFits = (temperatures-BatchFits, (notes-BatchFits, tt))

-- Stored bytes as they are.
abbrev stored : Bytes → Option Bytes
stored b = some b

abbrev segment : List Entry
segment = delete_entry (codes "gone") ∷ write_entry (put_batches two_batches) two_batches ∷ []

segment-EntryFits : All (EntryFits stored) segment
unfolding put_big_endian
segment-EntryFits = (omega arith, ((omega arith, refl, two_batches-BatchFits), tt))

abbrev torn : Bytes
torn = put_frame 1 100 (codes "half")

torn-IsTorn : IsTorn torn
torn-IsTorn = in_body 1 100 (codes "half") (omega arith) (omega arith) (omega arith) refl

read-put_entries_example :
    read stored false (put_entries segment torn) ≡ (all_delivered segment, done)
read-put_entries_example = read-put_entries stored segment torn segment-EntryFits torn-IsTorn
