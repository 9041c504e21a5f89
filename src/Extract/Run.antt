-- ===== src/Extract/Run.antt =====
-- The streams of a run of files in ShardResumeSplit of internal/extract/extract.go: those over the
-- blocks of the files, in the order of the files, and then those over the values of the log.
pub mod Lawful
pub mod Sources
pub mod Points
use tsm2arc.Prelude.{◌+◌, length, List, [], ◌∷◌, ◌++◌, Option, none, some, Bytes}
use tsm2arc.Prelude.Int64.{ℤ}
use tsm2arc.Prelude.Sorting.{sort_strings}
use tsm2arc.Tsm.{Value}
use tsm2arc.Series.{parse_key}
use tsm2arc.Extract.Merge.{Stats}
use tsm2arc.Extract.Stream.{Stream, Peek}
use tsm2arc.Extract.Slice.{SliceStream, new_slice_stream, slice_peek, slice_advance}
use tsm2arc.Extract.Block.{
  Answer, TsmFile, BlockStream, new_block_stream, block_peek, block_advance,
}

-- The two types that stand behind the interface `stream` here.
pub data SeriesStream : Type 0 where
  block : BlockStream → SeriesStream
  slice : SliceStream → SeriesStream

abbrev pub stream_name : SeriesStream → Bytes
stream_name (block s) = s.field
stream_name (slice s) = s.field

abbrev pub stream_peek : SeriesStream → SeriesStream × Peek
stream_peek (block s) = let (s', p) = block_peek s in (block s', p)
stream_peek (slice s) = let (s', p) = slice_peek s in (slice s', p)

abbrev pub stream_advance : SeriesStream → SeriesStream
stream_advance (block s) = block (block_advance s)
stream_advance (slice s) = slice (slice_advance s)

abbrev pub series_stream : Stream SeriesStream
series_stream = record { name = stream_name; peek = stream_peek; advance = stream_advance }

-- `k, _ := series.ParseKey(raw)` and `k.Field`
abbrev pub field_of : Bytes → Bytes
field_of raw = elim (parse_key raw) [ none ↦ [] | some k ↦ k.field ]

-- The streams over the keys of one file.
unfoldable pub key_streams : ℤ → ℤ → Answer TsmFile → List Bytes → List SeriesStream
key_streams start end file [] = []
key_streams start end file (raw ∷ raws) =
    block (new_block_stream (field_of raw) file raw start end) ∷ key_streams start end file raws

unfoldable pub file_streams : ℤ → ℤ → List (Answer TsmFile × List Bytes) → List SeriesStream
file_streams start end [] = []
file_streams start end ((file, keys) ∷ files) =
    key_streams start end file (sort_strings keys) ++ file_streams start end files

unfoldable pub wal_streams : ℤ → ℤ → List (Bytes × List Value) → List SeriesStream
wal_streams start end [] = []
wal_streams start end ((f, vs) ∷ ws) =
    slice (new_slice_stream f vs start end) ∷ wal_streams start end ws

unfoldable pub run_streams :
    ℤ → ℤ → List (Answer TsmFile × List Bytes) → List (Bytes × List Value) → List SeriesStream
unfolding file_streams wal_streams
run_streams start end files wal = file_streams start end files ++ wal_streams start end wal

-- `st.Keys++` for each key of the files.
unfoldable pub count_keys : Stats → List (Answer TsmFile × List Bytes) → Stats
count_keys st [] = st
count_keys st ((file, keys) ∷ files) = count_keys (record st { keys = st.keys + length keys }) files
