-- ===== src/Wal/Entries.antt =====
-- `decodeWriteEntry` of internal/wal/wal.go against the payload that its comment lays down.
use tsm2arc.Prelude.{
  ℕ, zero, suc, ◌^◌, ◌≤◌, ◌<◌, List, [], ◌∷◌, ◌++◌, Bool, true, false, some, ltb, if◌then◌else◌,
  length, length-append, take-length-append, drop-length-append, Bytes, ◌≡◌, refl, sym, ap, ◌∙◌,
  arith, All, append_assoc,
}
use tsm2arc.Prelude.Int64.{ℤ, uint64, IsInt64, int64-uint64, uint64-lt}
use tsm2arc.Tsm.{Value}
use tsm2arc.Tsm.Binary.{put_big_endian, big_endian-put, length-put_big_endian}
use tsm2arc.Tsm.Block.{float_value, integer_value, boolean_value, string_value}
use tsm2arc.Wal.{
  done, read_bytes, read_number, read_string, read_value, read_values, read_key, raw_unsigned_value,
  deliver, write_entry_loop, decode_write_entry,
}

pub read_bytes-append : (s rest : Bytes) → read_bytes (length s) (s ++ rest) ≡ some (s, rest)
unfolding read_bytes
read_bytes-append s rest =
    let enough : ltb (length (s ++ rest)) (length s) ≡ false =
      (let n = length-append s rest in ground arith) in
    rw (enough, take-length-append s rest, drop-length-append s rest) refl

pub read_bytes_put :
    (n v : ℕ) (rest : Bytes)
    → read_bytes n (put_big_endian n v ++ rest) ≡ some (put_big_endian n v, rest)
read_bytes_put n v rest =
    ap (λ (k : ℕ). read_bytes k (put_big_endian n v ++ rest)) (sym (length-put_big_endian n v))
    ∙ read_bytes-append (put_big_endian n v) rest

pub read_number-put :
    (n v : ℕ) (rest : Bytes)
    → v < 256 ^ n
    → read_number n (put_big_endian n v ++ rest) ≡ some (v, rest)
unfolding read_number
read_number-put n v rest h = rw (read_bytes_put n v rest, big_endian-put n v h) refl

-- A value without its timestamp.
pub data Raw : Type 0 where
  raw_float raw_unsigned : ℕ → Raw
  raw_integer : ℤ → Raw
  raw_boolean : Bool → Raw
  raw_string : Bytes → Raw

abbrev pub raw_type : Raw → ℕ
raw_type (raw_float v) = 1
raw_type (raw_integer v) = 2
raw_type (raw_boolean v) = 3
raw_type (raw_string v) = 4
raw_type (raw_unsigned v) = 5

abbrev pub raw_value : ℤ → Raw → Value
raw_value t (raw_float v) = float_value t v
raw_value t (raw_integer v) = integer_value t v
raw_value t (raw_boolean v) = boolean_value t v
raw_value t (raw_string v) = string_value t v
raw_value t (raw_unsigned v) = raw_unsigned_value t v

abbrev pub put_raw : Raw → Bytes
put_raw (raw_float v) = put_big_endian 8 v
put_raw (raw_integer v) = put_big_endian 8 (uint64 v)
put_raw (raw_boolean v) = put_big_endian 1 (if v then 1 else 0)
put_raw (raw_string v) = put_big_endian 4 (length v) ++ v
put_raw (raw_unsigned v) = put_big_endian 8 v

-- The value fits its field.
abbrev pub RawFits : Raw → Type 0
RawFits (raw_float v) = v < 2 ^ 64
RawFits (raw_integer v) = IsInt64 v
RawFits (raw_boolean v) = Unit {0}
RawFits (raw_string v) = length v < 2 ^ 32
RawFits (raw_unsigned v) = v < 2 ^ 64

read_string-put :
    (s rest : Bytes)
    → length s < 2 ^ 32
    → read_string (put_big_endian 4 (length s) ++ (s ++ rest)) ≡ some (s, rest)
unfolding read_string
read_string-put s rest h =
    rw (read_number-put 4 (length s) (s ++ rest) h, read_bytes-append s rest) refl

read_value-put :
    (t : ℤ) (r : Raw) (rest : Bytes)
    → RawFits r
    → read_value (raw_type r) t (put_raw r ++ rest) ≡ some (raw_value t r, rest)
unfolding read_value
read_value-put t (raw_float v) rest h = rw (read_number-put 8 v rest h) refl
read_value-put t (raw_integer v) rest h =
    rw (read_number-put 8 (uint64 v) rest (uint64-lt v), int64-uint64 v h) refl
read_value-put t (raw_boolean true) rest h = rw (read_number-put 1 1 rest (omega arith)) refl
read_value-put t (raw_boolean false) rest h = rw (read_number-put 1 0 rest (omega arith)) refl
read_value-put t (raw_string v) rest h =
    rw (append_assoc (put_big_endian 4 (length v)) v rest, read_string-put v rest h) refl
read_value-put t (raw_unsigned v) rest h = rw (read_number-put 8 v rest h) refl

abbrev pub put_values : List (ℤ × Raw) → Bytes
put_values [] = []
put_values ((t, r) ∷ vs) = put_big_endian 8 (uint64 t) ++ (put_raw r ++ put_values vs)

-- A timestamp and a value of the type that the key declares.
abbrev pub ValueFits : ℕ → ℤ × Raw → Type 0
ValueFits type (t, r) = IsInt64 t × (raw_type r ≡ type) × RawFits r

abbrev pub values_of : List (ℤ × Raw) → List Value
values_of [] = []
values_of ((t, r) ∷ vs) = raw_value t r ∷ values_of vs

read_values-put :
    (type : ℕ) (vs : List (ℤ × Raw)) (rest : Bytes)
    → All (ValueFits type) vs
    → read_values (length vs) type (put_values vs ++ rest) ≡ some (values_of vs, rest)
unfolding read_values
read_values-put type [] rest h = refl
read_values-put type ((t, r) ∷ vs) rest ((ht, e, hr), h) =
    rw
      (
        append_assoc (put_big_endian 8 (uint64 t)) (put_raw r ++ put_values vs) rest,
        append_assoc (put_raw r) (put_values vs) rest,
        read_number-put 8 (uint64 t) (put_raw r ++ (put_values vs ++ rest)) (uint64-lt t),
        int64-uint64 t ht,
      )
      (rw (← e) (
        rw (read_value-put t r (put_values vs ++ rest) hr)
          (rw (e, read_values-put type vs rest h) refl)))

-- What a write entry holds of one key.
pub record Batch : Type 0 where
  pub type : ℕ
  pub key : Bytes
  pub points : List (ℤ × Raw)

pub record BatchFits (b : Batch) : Type 0 where
  pub type_fits : b.type < 256
  pub key_fits : length b.key < 2 ^ 16
  pub count_fits : length b.points < 2 ^ 32
  pub points_fit : All (ValueFits b.type) b.points

abbrev pub put_batch : Batch → Bytes
put_batch b =
    put_big_endian 1 b.type
    ++ (put_big_endian 2 (length b.key)
        ++ (b.key ++ (put_big_endian 4 (length b.points) ++ put_values b.points)))

abbrev pub put_batches : List Batch → Bytes
put_batches [] = []
put_batches (b ∷ bs) = put_batch b ++ put_batches bs

abbrev pub delivered : List Batch → List (Bytes × List Value)
delivered [] = []
delivered (b ∷ bs) = (b.key, values_of b.points) ∷ delivered bs

read_key-put :
    (b : Batch) (rest : Bytes)
    → BatchFits b
    → read_key (put_batch b ++ rest) ≡ some ((b.key, values_of b.points), rest)
unfolding read_key
read_key-put b rest h =
    let n = put_big_endian 4 (length b.points) in
    let regroup : put_batch b ++ rest
        ≡ put_big_endian 1 b.type
          ++ (put_big_endian 2 (length b.key) ++ (b.key ++ (n ++ (put_values b.points ++ rest)))) =
      simp append_assoc in
    rw regroup (
      rw
        (
          read_number-put 1 b.type _ h.type_fits,
          read_number-put 2 (length b.key) _ h.key_fits,
          read_bytes-append b.key (n ++ (put_values b.points ++ rest)),
          read_number-put 4 (length b.points) (put_values b.points ++ rest) h.count_fits,
          read_values-put b.type b.points rest h.points_fit,
        )
        refl)

length-put_batch : (b : Batch) (rest : Bytes) → length rest < length (put_batch b ++ rest)
length-put_batch b rest = omega (
  arith,
  length-append (put_batch b) rest,
  length-append (put_big_endian 1 b.type) (
      put_big_endian 2 (length b.key)
      ++ (b.key ++ (put_big_endian 4 (length b.points) ++ put_values b.points))),
  length-put_big_endian 1 b.type,
)

-- One round on data that is not empty.
write_entry_loop_round :
    (fuel : ℕ) (b rest : Bytes) (d : Bytes × List Value)
    → 0 < length b
    → read_key b ≡ some (d, rest)
    → write_entry_loop (suc fuel) b ≡ deliver d (write_entry_loop fuel rest)
unfolding write_entry_loop
write_entry_loop_round fuel [] rest d hl h = absurd (omega arith)
write_entry_loop_round fuel (c ∷ b) rest d hl h = rw (h, write_entry_loop) refl

write_entry_loop-put :
    (bs : List Batch) (fuel : ℕ)
    → All BatchFits bs
    → length (put_batches bs) ≤ fuel
    → write_entry_loop fuel (put_batches bs) ≡ (delivered bs, done)
write_entry_loop-put [] fuel h hf = unfold write_entry_loop in refl
write_entry_loop-put (b ∷ bs) zero h hf =
    absurd (omega (arith, length-put_batch b (put_batches bs)))
write_entry_loop-put (b ∷ bs) (suc fuel) (hb, h) hf =
    let n = length-put_batch b (put_batches bs) in
    write_entry_loop_round fuel (put_batch b ++ put_batches bs) (put_batches bs)
      (b.key, values_of b.points) (omega arith) (read_key-put b (put_batches bs) hb)
    ∙ rw (write_entry_loop-put bs fuel h (omega arith)) refl

-- A write entry of any keys, each with values of the type that it declares, is read back: `fn` gets
-- each key with its values, in order, and no error ends the reading.
pub decode_write_entry-put_batches :
    (bs : List Batch)
    → All BatchFits bs
    → decode_write_entry (put_batches bs) ≡ (delivered bs, done)
unfolding decode_write_entry
decode_write_entry-put_batches bs h =
    write_entry_loop-put bs (length (put_batches bs)) h (omega arith)
