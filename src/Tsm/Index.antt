-- ===== src/Tsm/Index.antt =====
-- internal/tsm/reader.go: the index of a file, and reading blocks by it. A file is its bytes and its
-- modification time; `ReadAt` fails past the end. `sort.Slice` is taken to keep equal keys in order.
pub mod Written
pub mod Parsed
pub mod Blocks
mod Runs
pub mod Found
use tsm2arc.Prelude.{
  ℕ, zero, suc, ◌+◌, ◌-◌, ◌*◌, ◌%◌, ◌^◌, List, [], ◌∷◌, ◌++◌, map, Bool, true, false, not, ◌||◌,
  Option, none, some, ltb, ◌==◌, if◌then◌else◌, length, take, drop, Bytes,
}
use tsm2arc.Prelude.Int64.{ℤ, pos, negsuc, pos_part, int64, add64, ltb_ℤ}
use tsm2arc.Prelude.Strings.{str_eq, str_lt}
use tsm2arc.Tsm.{
  Result, ok, err, crash, stuck, bad_block, bad_magic, bad_version, read_error, source_changed,
  ◌>>=◌, ◌>>◌, fail_if, magic, version, header_size, footer_size, index_entry_size, IndexEntry,
  KeyBlocks, Value,
}
use tsm2arc.Tsm.Binary.{big_endian}
use tsm2arc.Tsm.Block.{decode_block}

pub record File : Type 0 where
  pub bytes : Bytes
  pub mod_time : ℕ

pub record Index : Type 0 where
  pub keys : List KeyBlocks
  pub size : ℕ
  pub mod_time : ℕ
  pub approx : ℕ

pub record Reader : Type 0 where
  pub f : File
  pub ix : Index

-- `f.ReadAt(buf, off)` with a buffer of `n` bytes.
unfoldable pub read_at : File → ℕ → ℕ → Result Bytes
read_at f n off =
    if ltb (length f.bytes) (off + n) then err read_error else ok (take n (drop off f.bytes))

-- One entry of 28 bytes.
unfoldable pub entry_at : Bytes → IndexEntry
entry_at b =
    let b1 = drop 8 b in
    let b2 = drop 8 b1 in
    let b3 = drop 8 b2 in
    record {
      min_time = int64 (big_endian (take 8 b));
      max_time = int64 (big_endian (take 8 b1));
      offset = int64 (big_endian (take 8 b2));
      size = big_endian (take 4 b3);
    }

unfoldable pub parse_entries : ℕ → Bytes → Result (List IndexEntry × Bytes)
unfolding entry_at
parse_entries zero b = ok ([], b)
parse_entries (suc count) b = do
  fail_if (ltb (length b) index_entry_size) bad_block
  (es, rest) ← parse_entries count (drop index_entry_size b)
  ok (entry_at b ∷ es, rest)

-- One round of the loop over the keys: `b` is what stands behind `p`.
unfoldable pub parse_key_blocks : Bytes → Result (KeyBlocks × Bytes)
unfolding parse_entries
parse_key_blocks b = do
  fail_if (ltb (length b) 2) bad_block
  let key_len = big_endian (take 2 b)
  let b1 = drop 2 b
  fail_if (ltb (length b1) (key_len + 3)) bad_block
  let b2 = drop key_len b1
  let b3 = drop 1 b2
  (entries, rest) ← parse_entries (big_endian (take 2 b3)) (drop 2 b3)
  ok (record { key = take key_len b1; type = big_endian (take 1 b2); entries = entries }, rest)

-- The loop; each round takes five bytes at least.
unfoldable pub parse_keys : ℕ → Bytes → Result (List KeyBlocks)
unfolding parse_key_blocks
parse_keys fuel [] = ok []
parse_keys zero (c ∷ b) = stuck
parse_keys (suc fuel) (c ∷ b) = do
  (kb, rest) ← parse_key_blocks (c ∷ b)
  kbs ← parse_keys fuel rest
  ok (kb ∷ kbs)

unfoldable pub insert_key : KeyBlocks → List KeyBlocks → List KeyBlocks
insert_key kb [] = kb ∷ []
insert_key kb (k ∷ ks) = if str_lt k.key kb.key then k ∷ insert_key kb ks else kb ∷ k ∷ ks

-- `sort.Slice` by key.
unfoldable pub sort_keys : List KeyBlocks → List KeyBlocks
unfolding insert_key
sort_keys [] = []
sort_keys (k ∷ ks) = insert_key k (sort_keys ks)

unfoldable pub make_index : ℕ → File → List KeyBlocks → Index
unfolding sort_keys
make_index index_len f kbs = record {
  keys = sort_keys kbs;
  size = length f.bytes;
  mod_time = f.mod_time;
  approx = index_len * 2 + length kbs * 96;
}

-- The index region, once its offset is known. An offset below the header is refused, negative ones
-- with it.
unfoldable pub parse_region : File → ℤ → Result Index
parse_region f (negsuc n) = err bad_block
parse_region f (pos index_offset) = do
  fail_if (ltb index_offset header_size || ltb (length f.bytes - footer_size) index_offset)
      bad_block
  let index_len = length f.bytes - footer_size - index_offset
  idx ← read_at f index_len index_offset
  kbs ← parse_keys (length idx) idx
  ok (make_index index_len f kbs)

unfoldable pub parse_index : File → Result Index
parse_index f = do
  fail_if (ltb (length f.bytes) (header_size + footer_size)) bad_block
  hdr ← read_at f header_size 0
  fail_if (not (big_endian (take 4 hdr) == magic)) bad_magic
  fail_if (not (big_endian (take 1 (drop 4 hdr)) == version)) bad_version
  foot ← read_at f footer_size (length f.bytes - footer_size)
  parse_region f (int64 (big_endian foot))

unfoldable pub open_reader : File → Result Reader
open_reader f = do ix ← parse_index f; ok (record { f = f; ix = ix })

unfoldable pub open_with_index : File → Index → Result Reader
open_with_index f ix = do
  fail_if (not (length f.bytes == ix.size) || not (f.mod_time == ix.mod_time)) source_changed
  ok (record { f = f; ix = ix })

unfoldable pub key_names : Reader → List Bytes
key_names r = map (λ (k : KeyBlocks). k.key) r.ix.keys

-- The first of the sorted keys that is not below `key`, if it is `key`: `r.ix.keys[r.search(key)]`.
unfoldable pub search : Bytes → List KeyBlocks → Option KeyBlocks
search key [] = none
search key (k ∷ ks) =
    let later = search key ks in
    if str_lt k.key key then later else if str_eq k.key key then some k else none

unfoldable pub blocks : Reader → Bytes → List IndexEntry
blocks r key = elim (search key r.ix.keys) [ none ↦ [] | some kb ↦ kb.entries ]

module _ (snappy : Bytes → Option Bytes) where
  -- `readEntry`: the sum of the offset and the size is an int64.
  unfoldable pub read_entry : Reader → ℕ → IndexEntry → Result (List Value)
  read_entry r type e = do
    fail_if (ltb_ℤ e.offset (pos 0) || ltb_ℤ (pos r.ix.size) (add64 e.offset (pos e.size)))
        bad_block
    buf ← read_at r.f e.size (pos_part e.offset)
    decode_block snappy type buf

  unfoldable pub read_entries : Reader → ℕ → List IndexEntry → Result (List Value)
  read_entries r type [] = ok []
  read_entries r type (e ∷ es) = do
    vals ← read_entry r type e
    more ← read_entries r type es
    ok (vals ++ more)

  unfoldable pub read_key : Reader → KeyBlocks → Result (List Value)
  read_key r kb = read_entries r kb.type kb.entries

  unfoldable pub read_block_at : Reader → Bytes → IndexEntry → Result (List Value)
  read_block_at r key e = elim (search key r.ix.keys) [
    | none ↦ ok []
    | some kb ↦ read_entry r kb.type e
  ]

  unfoldable pub read_key_by_name : Reader → Bytes → Result (List Value)
  read_key_by_name r key = elim (search key r.ix.keys) [ none ↦ ok [] | some kb ↦ read_key r kb ]
