-- ===== src/Lib.antt =====
-- tsm2arc reads the storage files of InfluxDB and sends their points as line protocol to Arc, in
-- numbered chunks that a later run can resume from. This library models the parts of it that turn
-- bytes into points and points into chunks, and proves what they are relied on for.
--
-- How the parts interact: the reader (internal/tsm) and the log (internal/wal) give the values of a
-- key; internal/series splits the key into measurement, tags and field; internal/extract merges the
-- values of a series' keys to points, in an order that a cursor can resume; internal/measure decides
-- under which name a measurement is sent; internal/lp writes a line for each point; internal/chunk
-- gathers lines into chunks; and internal/checkpoint records which chunks Arc has acknowledged, and the
-- cursor to resume from.
--
-- Which file models what:
--   Chunk       internal/chunk/chunk.go: `Accumulator` is the struct, `append`, `flush`, `do_flush`,
--               `detach`, `recycle`, `spare_capacity` its methods. The callback is a function of the
--               caller's state that answers with its calls of those methods and its error.
--   Tsm         internal/tsm/tsm.go; below it Simple8b, Timestamp, Integer, Boolean, Float and Text
--               model the decoders simple8b.go, timestamp.go, integer.go, boolean.go, float.go and
--               string.go, Block models decodeBlock of reader.go, and Binary what they use of
--               encoding/binary. Words and Xor hold lemmas.
--               Tsm.Index models the rest of reader.go: `parse_index`, `search`, `read_entry`. A file
--               is its bytes and its modification time.
--   Wal         internal/wal/wal.go: `read` is the loop over the frames, `decode_write_entry` the
--               payload of one.
--   Series      internal/series/series.go: `parse_key` and what it calls.
--   Measure     internal/measure/measure.go: `valid`, `sanitize`, `resolve`, `fingerprint`,
--               `parse_map_entry`, `add_entries`.
--   Lp          internal/lp/encode.go: `encode_point`, `append_point` and the escaping.
--   Extract     internal/extract/extract.go: `prune_entries` and `entries_ascending`, the choice of a
--               key's blocks. Below it Stream is the interface `stream` with what its clients rely
--               on, Slice the type sliceStream, Block the type blockStream, Run the streams of a run
--               in ShardResumeSplit, Merge the loop of mergeSeries (`find_min` is its first inner
--               loop, `gather` the second), Heap and FieldMerge the type fieldMergeStream,
--               Coalesce the functions coalesceByField and mergeSeries, Cursor the resume cursor,
--               Shard the serial loop of ShardResumeSplit over the series, Partition the function
--               partitionRuns, and Files the type fileSet. A TSM file is a record of the functions
--               of TSMFile; a stream over blocks holds the answer that the file set gives it.
--   Checkpoint  internal/checkpoint/checkpoint.go: the store, as a record of its tables with `commit`,
--               `apply_deltas`, `finish_shard`, `progress` and `is_shard_done`. Below it Config is
--               CheckConfig, Migrate is migrate, and Rewind is Summary with RewindForTest and
--               ClearCursorsForTest; Rows holds lemmas, History and Audit what commits leave behind.
--               An upsert changes the first row with the key, the only one under a primary key.
--   Prelude     shared types and lemmas: int64 arithmetic with its wrap-around, byte strings, order.
-- A module's theorems stand in its children, and its runs on concrete input in its child Runs.
--
-- Conventions: a string or a slice of bytes is a list of numbers below 256, a float64 its bit
-- pattern, a Go map the list of its entries. A Go result is a value, an error or a panic (`crash`).
-- Loops whose data shrinks run on fuel that counts the bytes or the bits left, so that it is never
-- used up: each round takes a byte (string blocks, write entries), five bytes (log frames) or a bit
-- (float blocks). Each round of the merge takes a value at least, so that fuel beyond the number of
-- values is enough for it; siftDown goes to a greater index each round, so that fuel beyond the
-- length of the heap is enough. Decimal texts of 64-bit numbers have 20 digits at most.
--
-- Parameters: snappy's decoder and strconv's text of a float64 are functions that the definitions
-- take, and the functions of an open TSM file are the fields of a record that the streams take.
-- What the SQLite driver answers to a statement is a parameter of the operations on the checkpoint,
-- and a transaction whose Commit fails is taken to be rolled back as a whole. The handles that are
-- open for the files of a file set are counted beside its maps: opening a file adds one, and `Close`
-- takes one. `make` is taken to succeed for every length, and the sums in the checkpoint's tables to
-- stay within int64.
--
-- Not modelled: input and output (opening files, S3, HTTP, the SQLite file), the command line and
-- its goroutines, the parquet and InfluxDB 3 readers, which call libraries, and of
-- internal/extract the indexing of a shard and its parallel extraction: the loop over the series
-- merges each as one run.
pub mod Prelude
pub mod Chunk
pub mod Measure
pub mod Series
pub mod Tsm
pub mod Lp
pub mod Wal
pub mod Extract
pub mod Checkpoint
