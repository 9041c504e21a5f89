-- ===== src/Wal.antt =====
-- internal/wal/wal.go: the write-ahead log. A file is its bytes and whether reading past them fails;
-- the index `i` is what stands behind it. Snappy is a parameter, and `make` is taken to succeed.
pub mod Entries
pub mod Segments
mod Runs
use tsm2arc.Prelude.{
  ℕ, zero, suc, ◌+◌, ◌*◌, List, [], ◌∷◌, ◌++◌, Bool, true, false, not, ◌&&◌, Option, none, some,
  ltb, ◌==◌, if◌then◌else◌, length, take, drop, Bytes,
}
use tsm2arc.Prelude.Int64.{ℤ, int64}
use tsm2arc.Tsm.{Value, zero_value, block_unsigned}
use tsm2arc.Tsm.Binary.{big_endian}
use tsm2arc.Tsm.Block.{float_value, integer_value, boolean_value, string_value}

abbrev pub write_entry_type : ℕ
write_entry_type = 0x01

abbrev pub delete_entry_type : ℕ
delete_entry_type = 0x02

abbrev pub delete_range_entry_type : ℕ
delete_range_entry_type = 0x03

abbrev pub float_value_type : ℕ
float_value_type = 1

abbrev pub integer_value_type : ℕ
integer_value_type = 2

abbrev pub boolean_value_type : ℕ
boolean_value_type = 3

abbrev pub string_value_type : ℕ
string_value_type = 4

abbrev pub unsigned_value_type : ℕ
unsigned_value_type = 5

abbrev pub max_wal_entry_size : ℕ
max_wal_entry_size = 256 * 1024 * 1024

-- How reading ends. `stuck` is no end of the code: the model's fuel ran out.
pub data Stop : Type 0 where
  done corrupt read_failed stuck : Stop

-- What `fn` is called with, in order, and how reading ends.
abbrev pub Outcome : Type 0
Outcome = List (Bytes × List Value) × Stop

infixl 5 ◌>>=◌
abbrev pub ◌>>=◌ : {A B : Type 0} → Option A → (A → Option B) → Option B
none >>= f = none
some a >>= f = f a

-- `if i+n > len(b) { return errCorrupt }`, then the `n` bytes there and what stands behind them.
unfoldable pub read_bytes : ℕ → Bytes → Option (Bytes × Bytes)
read_bytes n b = if ltb (length b) n then none else some (take n b, drop n b)

-- The same, as an unsigned number.
unfoldable pub read_number : ℕ → Bytes → Option (ℕ × Bytes)
unfolding read_bytes
read_number n b = do (s, b') ← read_bytes n b; some (big_endian s, b')

unfoldable pub read_string : Bytes → Option (Bytes × Bytes)
unfolding read_number read_bytes
read_string b = do (slen, b') ← read_number 4 b; read_bytes slen b'

abbrev pub raw_unsigned_value : ℤ → ℕ → Value
raw_unsigned_value t v = record zero_value { unix_nano = t; type = block_unsigned; unsigned = v }

-- One value behind its timestamp: the `switch` over the key's type.
unfoldable pub read_value : ℕ → ℤ → Bytes → Option (Value × Bytes)
unfolding read_number read_string
read_value type t b =
    let word = read_number 8 b in
    if type == float_value_type
    then word >>= (λ p. some (float_value t p.0, p.1))
    else if type == integer_value_type
    then word >>= (λ p. some (integer_value t (int64 p.0), p.1))
    else if type == unsigned_value_type
    then word >>= (λ p. some (raw_unsigned_value t p.0, p.1))
    else if type == boolean_value_type
    then read_number 1 b >>= (λ p. some (boolean_value t (p.0 == 1), p.1))
    else if type == string_value_type
    then read_string b >>= (λ p. some (string_value t p.0, p.1))
    else none

unfoldable pub read_values : ℕ → ℕ → Bytes → Option (List Value × Bytes)
unfolding read_number read_value
read_values zero type b = some ([], b)
read_values (suc nvals) type b = do
  (ts, b') ← read_number 8 b
  (v, b'') ← read_value type (int64 ts) b'
  (vs, b''') ← read_values nvals type b''
  some (v ∷ vs, b''')

-- One round: a type, a key and its values.
unfoldable pub read_key : Bytes → Option ((Bytes × List Value) × Bytes)
unfolding read_number read_bytes read_values
read_key b = do
  (type, b1) ← read_number 1 b
  (key_len, b2) ← read_number 2 b1
  (key, b3) ← read_bytes key_len b2
  (nvals, b4) ← read_number 4 b3
  (vals, b5) ← read_values nvals type b4
  some ((key, vals), b5)

abbrev pub deliver : Bytes × List Value → Outcome → Outcome
deliver d (ds, e) = (d ∷ ds, e)

-- `decodeWriteEntry`; each round takes a byte at least.
unfoldable pub write_entry_loop : ℕ → Bytes → Outcome
unfolding read_key
write_entry_loop fuel [] = ([], done)
write_entry_loop zero (c ∷ b) = ([], stuck)
write_entry_loop (suc fuel) (c ∷ b) = elim (read_key (c ∷ b)) [
  | none ↦ ([], corrupt)
  | some (d, b') ↦ deliver d (write_entry_loop fuel b')
]

unfoldable pub decode_write_entry : Bytes → Outcome
unfolding write_entry_loop
decode_write_entry b = write_entry_loop (length b) b

-- `if err := ...; err != nil { return err }`, then the rest of the loop.
abbrev pub and_then : Outcome → Outcome → Outcome
and_then (ds, done) (es, e) = (ds ++ es, e)
and_then (ds, corrupt) rest = (ds, corrupt)
and_then (ds, read_failed) rest = (ds, read_failed)
and_then (ds, stuck) rest = (ds, stuck)

module _ (snappy : Bytes → Option Bytes) (fails : Bool) where
  -- `io.ReadFull` on too few bytes: an end of the file stops reading cleanly.
  unfoldable pub short_read : Outcome
  short_read = ([], if fails then read_failed else done)

  -- A write entry that snappy refuses ends the reading; `rest` is the rest of the loop.
  unfoldable pub read_frame : ℕ → Bytes → Outcome → Outcome
  read_frame entry_type comp rest =
      if not (entry_type == write_entry_type)
      then (if not (entry_type == delete_entry_type) && not (entry_type == delete_range_entry_type)
          then ([], corrupt)
          else rest)
      else elim (snappy comp) [
        | none ↦ ([], done)
        | some data' ↦ and_then (decode_write_entry data') rest
      ]

  -- The loop over the frames; each round takes five bytes at least.
  unfoldable pub read_loop : ℕ → Bytes → Outcome
  read_loop zero r = ([], stuck)
  read_loop (suc fuel) r =
      let entry_type = big_endian (take 1 r) in
      let size = big_endian (take 4 (drop 1 r)) in
      let body = drop 5 r in
      let rest = read_loop fuel (drop size body) in
      if ltb (length r) 5
      then short_read
      else if ltb max_wal_entry_size size
      then ([], done)
      else if ltb (length body) size
      then short_read
      else read_frame entry_type (take size body) rest

  -- Five bytes a frame: the number of bytes is fuel enough.
  unfoldable pub read : Bytes → Outcome
  read r = read_loop (length r + 1) r
