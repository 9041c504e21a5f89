-- ===== src/Wal/Segments.antt =====
-- `read` of internal/wal/wal.go on a segment of whole frames with a torn one behind them.
use tsm2arc.Prelude.{
  ℕ, zero, suc, ◌+◌, ◌^◌, ◌≤◌, ◌<◌, List, [], ◌∷◌, ◌++◌, Bool, true, false, Option, some, ltb,
  if◌then◌else◌, length, length-append, take, drop, take-length-append, drop-length-append, Bytes,
  ◌≡◌, refl, sym, ap, ◌∙◌, arith, All, append_assoc,
}
use tsm2arc.Tsm.{Value}
use tsm2arc.Tsm.Binary.{big_endian, put_big_endian, big_endian-put, length-put_big_endian}
use tsm2arc.Wal.{
  Outcome, done, max_wal_entry_size, and_then, short_read, read_frame, read_loop, read,
}
use tsm2arc.Wal.Entries.{Batch, BatchFits, put_batches, delivered, decode_write_entry-put_batches}

take_put : (n v : ℕ) (rest : Bytes) → take n (put_big_endian n v ++ rest) ≡ put_big_endian n v
take_put n v rest =
    ap (λ (k : ℕ). take k (put_big_endian n v ++ rest)) (sym (length-put_big_endian n v))
    ∙ take-length-append (put_big_endian n v) rest

drop_put : (n v : ℕ) (rest : Bytes) → drop n (put_big_endian n v ++ rest) ≡ rest
drop_put n v rest =
    ap (λ (k : ℕ). drop k (put_big_endian n v ++ rest)) (sym (length-put_big_endian n v))
    ∙ drop-length-append (put_big_endian n v) rest

-- A frame as it is written: its type, its size, its bytes.
abbrev pub put_frame : ℕ → ℕ → Bytes → Bytes
put_frame type size body = put_big_endian 1 type ++ (put_big_endian 4 size ++ body)

drop_five : (type size : ℕ) (body : Bytes) → drop 5 (put_frame type size body) ≡ body
drop_five type size body =
    let head = put_big_endian 1 type ++ put_big_endian 4 size in
    let five : length head ≡ 5 = omega (
      arith,
      length-append (put_big_endian 1 type) (put_big_endian 4 size),
      length-put_big_endian 1 type,
      length-put_big_endian 4 size,
    ) in
    ap (drop 5) (sym (append_assoc (put_big_endian 1 type) (put_big_endian 4 size) body))
    ∙ ap (λ (k : ℕ). drop k (head ++ body)) (sym five)
    ∙ drop-length-append head body

length-put_frame :
    (type size : ℕ) (body : Bytes) → length (put_frame type size body) ≡ 5 + length body
length-put_frame type size body = omega (
  arith,
  length-append (put_big_endian 1 type) (put_big_endian 4 size ++ body),
  length-append (put_big_endian 4 size) body,
  length-put_big_endian 1 type,
  length-put_big_endian 4 size,
)

module _ (snappy : Bytes → Option Bytes) (fails : Bool) where
  -- A round of the loop on a whole header.
  read_loop_round :
      (fuel type size : ℕ) (body : Bytes)
      → type < 256
      → size < 2 ^ 32
      → read_loop snappy fails (suc fuel) (put_frame type size body) ≡ (
          if ltb max_wal_entry_size size
          then ([], done)
          else if ltb (length body) size
          then short_read snappy fails
          else read_frame snappy fails type
              (take size body)
              (read_loop snappy fails fuel (drop size body)))
  unfolding read_loop
  read_loop_round fuel type size body ht hs =
      let r = put_frame type size body in
      let whole : ltb (length r) 5 ≡ false =
        (let n = length-put_frame type size body in ground arith) in
      let t : big_endian (take 1 r) ≡ type =
        ap big_endian (take_put 1 type (put_big_endian 4 size ++ body))
        ∙ big_endian-put 1 type ht in
      let s : big_endian (take 4 (drop 1 r)) ≡ size =
        ap (λ u. big_endian (take 4 u)) (drop_put 1 type (put_big_endian 4 size ++ body))
        ∙ ap big_endian (take_put 4 size body)
        ∙ big_endian-put 4 size hs in
      rw (whole, t, s, drop_five type size body) refl

  read_loop_whole :
      (fuel type : ℕ) (comp rest : Bytes)
      → type < 256
      → length comp ≤ max_wal_entry_size
      → read_loop snappy fails (suc fuel) (put_frame type (length comp) (comp ++ rest))
        ≡ read_frame snappy fails type comp (read_loop snappy fails fuel rest)
  read_loop_whole fuel type comp rest ht hc =
      let small : ltb max_wal_entry_size (length comp) ≡ false = ground arith in
      let there : ltb (length (comp ++ rest)) (length comp) ≡ false =
        (let n = length-append comp rest in ground arith) in
      read_loop_round fuel type (length comp) (comp ++ rest) ht (omega arith)
      ∙ rw (small, there, take-length-append comp rest, drop-length-append comp rest) refl

-- The frames of a segment: a write entry with what its bytes hold, and the tombstones.
pub data Entry : Type 0 where
  write_entry : Bytes → List Batch → Entry
  delete_entry delete_range_entry : Bytes → Entry

abbrev pub put_entries : List Entry → Bytes → Bytes
put_entries [] tail = tail
put_entries (write_entry comp bs ∷ es) tail =
    put_frame 1 (length comp) (comp ++ put_entries es tail)
put_entries (delete_entry comp ∷ es) tail = put_frame 2 (length comp) (comp ++ put_entries es tail)
put_entries (delete_range_entry comp ∷ es) tail =
    put_frame 3 (length comp) (comp ++ put_entries es tail)

-- The bytes of a write entry are the packed batches, and no frame is over the cap.
abbrev pub EntryFits : (Bytes → Option Bytes) → Entry → Type 0
EntryFits snappy (write_entry comp bs) =
    (length comp ≤ max_wal_entry_size) × (snappy comp ≡ some (put_batches bs)) × All BatchFits bs
EntryFits snappy (delete_entry comp) = length comp ≤ max_wal_entry_size
EntryFits snappy (delete_range_entry comp) = length comp ≤ max_wal_entry_size

abbrev pub all_delivered : List Entry → List (Bytes × List Value)
all_delivered [] = []
all_delivered (write_entry comp bs ∷ es) = delivered bs ++ all_delivered es
all_delivered (delete_entry comp ∷ es) = all_delivered es
all_delivered (delete_range_entry comp ∷ es) = all_delivered es

-- A frame of which the end is missing, or nothing.
pub data IsTorn (tail : Bytes) : Type 0 where
  in_header : length tail < 5 → IsTorn tail
  in_body :
      (type size : ℕ) (part : Bytes)
      → type < 256
      → size < 2 ^ 32
      → length part < size
      → tail ≡ put_frame type size part
      → IsTorn tail

module _ (snappy : Bytes → Option Bytes) where
  read_loop_torn :
      (fuel : ℕ) (tail : Bytes) → IsTorn tail → read_loop snappy false (suc fuel) tail ≡ ([], done)
  read_loop_torn fuel tail (in_header h) = (unfold read_loop short_read in ground arith)
  read_loop_torn fuel tail (in_body type size part ht hs hp e) =
      let short : ltb (length part) size ≡ true = ground arith in
      rw e (
        read_loop_round snappy false fuel type size part ht hs
        ∙ (unfold short_read in ground arith))

  rest_shorter :
      (type : ℕ) (comp rest : Bytes) (fuel : ℕ)
      → length (put_frame type (length comp) (comp ++ rest)) < suc fuel
      → length rest < fuel
  rest_shorter type comp rest fuel h =
      omega (arith, length-put_frame type (length comp) (comp ++ rest), length-append comp rest)

  read_frame_write :
      (comp : Bytes) (bs : List Batch) (rest : Outcome)
      → snappy comp ≡ some (put_batches bs)
      → All BatchFits bs
      → read_frame snappy false 1 comp rest ≡ and_then (delivered bs, done) rest
  unfolding read_frame
  read_frame_write comp bs rest hs hb =
      rw (hs, read_frame) (rw (decode_write_entry-put_batches bs hb) refl)

  read_frame_delete :
      (comp : Bytes) (rest : Outcome)
      → (read_frame snappy false 2 comp rest ≡ rest) × (read_frame snappy false 3 comp rest ≡ rest)
  unfolding read_frame
  read_frame_delete comp rest = (refl, refl)

  read_loop-put_entries :
      (es : List Entry) (tail : Bytes) (fuel : ℕ)
      → All (EntryFits snappy) es
      → IsTorn tail
      → length (put_entries es tail) < fuel
      → read_loop snappy false fuel (put_entries es tail) ≡ (all_delivered es, done)
  read_loop-put_entries es tail zero h t hf = absurd (omega arith)
  read_loop-put_entries [] tail (suc fuel) h t hf = read_loop_torn fuel tail t
  read_loop-put_entries (write_entry comp bs ∷ es) tail (suc fuel) ((hc, hs, hb), h) t hf =
      let ih =
        read_loop-put_entries es tail fuel h t
          (rest_shorter 1 comp (put_entries es tail) fuel hf) in
      read_loop_whole snappy false fuel 1 comp (put_entries es tail) (omega arith) hc
      ∙ read_frame_write comp bs (read_loop snappy false fuel (put_entries es tail)) hs hb
      ∙ rw ih refl
  read_loop-put_entries (delete_entry comp ∷ es) tail (suc fuel) (hc, h) t hf =
      read_loop_whole snappy false fuel 2 comp (put_entries es tail) (omega arith) hc
      ∙ (read_frame_delete comp _).0
      ∙ read_loop-put_entries es tail fuel h t (rest_shorter 2 comp (put_entries es tail) fuel hf)
  read_loop-put_entries (delete_range_entry comp ∷ es) tail (suc fuel) (hc, h) t hf =
      read_loop_whole snappy false fuel 3 comp (put_entries es tail) (omega arith) hc
      ∙ (read_frame_delete comp _).1
      ∙ read_loop-put_entries es tail fuel h t (rest_shorter 3 comp (put_entries es tail) fuel hf)

-- A segment whose end was torn off, within a frame or between two, is read up to the last whole
-- frame, and reading it is no error: `fn` gets every key of every write entry there, in the order
-- of the file, and nothing of the tombstones. It needs that snappy gives back what was compressed.
pub read-put_entries :
    (snappy : Bytes → Option Bytes) (es : List Entry) (tail : Bytes)
    → All (EntryFits snappy) es
    → IsTorn tail
    → read snappy false (put_entries es tail) ≡ (all_delivered es, done)
unfolding read
read-put_entries snappy es tail h t =
    read_loop-put_entries snappy es tail (length (put_entries es tail) + 1) h t (omega arith)
