-- ===== src/Tsm/Index/Runs.antt =====
-- Runs of internal/tsm/reader.go on a file of three keys.
use tsm2arc.Prelude.{
  ℕ, ◌^◌, ◌<◌, List, [], ◌∷◌, ◌++◌, Option, none, some, length, Bytes, ◌≡◌, refl, arith, All, ◌⊎◌,
  false,
}
use mathlib.Core.List.{Perm}
use tsm2arc.Prelude.Int64.{pos, IsInt64}
use tsm2arc.Prelude.Strings.{codes, str_eq}
use tsm2arc.Tsm.{IndexEntry, KeyBlocks, ok}
use tsm2arc.Tsm.Binary.{put_big_endian}
use tsm2arc.Tsm.Index.{Index, Reader, make_index, parse_index, search}
use tsm2arc.Tsm.Index.Written.{EntryFits, KeyBlocksFit}
use tsm2arc.Tsm.Index.Parsed.{
  put_keys, put_file, written, parse_index-put_file, parse_index-make_index,
}
use tsm2arc.Tsm.Index.Found.{IsSorted, search-parse_index}
use tsm2arc.Tsm.Index.Blocks.{PointsAt}

abbrev one_entry : IndexEntry
one_entry = record { min_time = pos 1; max_time = pos 9; offset = pos 5; size = 6 }

abbrev key_of : Bytes → KeyBlocks
key_of key = record { key = key; type = 1; entries = one_entry ∷ [] }

abbrev three_keys : List KeyBlocks
three_keys = key_of (codes "m#!~#b") ∷ key_of (codes "m#!~#a") ∷ key_of (codes "k#!~#z") ∷ []

abbrev body : Bytes
body = 0 ∷ 0 ∷ 0 ∷ 0 ∷ 7 ∷ 0 ∷ []

in_range : (n : ℕ) → n < 2 ^ 63 → IsInt64 (pos n)
in_range n h = record { above = omega arith; below = omega arith }

one_entry-EntryFits : EntryFits one_entry
one_entry-EntryFits = record {
  min_fits = in_range 1 (omega arith);
  max_fits = in_range 9 (omega arith);
  offset_fits = in_range 5 (omega arith);
  size_fits = omega arith;
}

key_of-KeyBlocksFit : (key : Bytes) → length key < 2 ^ 16 → KeyBlocksFit (key_of key)
key_of-KeyBlocksFit key h = record {
  key_fits = h;
  type_fits = omega arith;
  count_fits = omega arith;
  entries_fit = (one_entry-EntryFits, tt);
}

three_keys-KeyBlocksFit : All KeyBlocksFit three_keys
three_keys-KeyBlocksFit = (
  key_of-KeyBlocksFit (codes "m#!~#b") (omega arith),
  (
    key_of-KeyBlocksFit (codes "m#!~#a") (omega arith),
    (key_of-KeyBlocksFit (codes "k#!~#z") (omega arith), tt),
  ),
)

small_file : length (put_file body three_keys) < 2 ^ 63
unfolding put_big_endian
small_file = omega arith

abbrev parsed : Index
parsed = make_index (length (put_keys three_keys)) (written 42 body three_keys) three_keys

parse_index-put_file_example :
    (ix : Index) × (parse_index (written 42 body three_keys) ≡ ok ix)
    × Perm ix.keys three_keys
    × IsSorted ix.keys
    × (ix.size ≡ length (put_file body three_keys))
    × (ix.mod_time ≡ 42)
parse_index-put_file_example =
    parse_index-put_file 42 body three_keys three_keys-KeyBlocksFit small_file

parsed_run : parse_index (written 42 body three_keys) ≡ ok parsed
parsed_run = parse_index-make_index 42 body three_keys three_keys-KeyBlocksFit small_file

search-parse_index_example :
    ((kb : KeyBlocks) × (search (codes "m#!~#a") parsed.keys ≡ some kb) × (kb.key ≡ codes "m#!~#a"))
    ⊎ ((search (codes "m#!~#a") parsed.keys ≡ none)
        × All (λ (k : KeyBlocks). str_eq k.key (codes "m#!~#a") ≡ false) parsed.keys)
search-parse_index_example =
    search-parse_index (written 42 body three_keys) parsed (codes "m#!~#a") parsed_run

abbrev stored : Bytes → Option Bytes
stored b = some b

abbrev reader : Reader
reader = record {
  f = written 42 body [];
  ix = record { keys = []; size = 19; mod_time = 42; approx = 0 };
}

one_entry-PointsAt : PointsAt reader one_entry body
unfolding put_big_endian
one_entry-PointsAt = record {
  before = put_big_endian 4 0x16D116D1 ++ put_big_endian 1 1;
  after = put_big_endian 8 11;
  contents = refl;
  at_offset = refl;
  of_size = refl;
  same_size = refl;
  addressable = omega arith;
}
