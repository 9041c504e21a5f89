-- ===== src/Extract/Run/Lawful.antt =====
-- The streams of a run of internal/extract/extract.go keep the laws of the interface.
use tsm2arc.Prelude.{◌≡◌, refl}
use tsm2arc.Extract.Stream.{Feed, head, tail, Laws}
use tsm2arc.Extract.Slice.Lawful.{slice_laws, slice_feed}
use tsm2arc.Extract.Block.Lawful.{block_laws, block_feed}
use tsm2arc.Extract.Run.{SeriesStream, block, slice, series_stream, stream_peek, stream_advance}

abbrev pub StreamValid : SeriesStream → Type 0
StreamValid (block s) = block_laws.IsValid s
StreamValid (slice s) = slice_laws.IsValid s

abbrev pub stream_feed : SeriesStream → Feed
stream_feed (block s) = block_feed s
stream_feed (slice s) = slice_feed s

pub name_law : (s : SeriesStream) → series_stream.name s ≡ (stream_feed s).field
name_law (block s) = refl
name_law (slice s) = refl

pub peek_valid_law : (s : SeriesStream) → StreamValid s → StreamValid (stream_peek s).0
peek_valid_law (block s) h = block_laws.peek_valid s h
peek_valid_law (slice s) h = slice_laws.peek_valid s h

pub peek_feed_law :
    (s : SeriesStream) → StreamValid s → stream_feed (stream_peek s).0 ≡ stream_feed s
peek_feed_law (block s) h = block_laws.peek_feed s h
peek_feed_law (slice s) h = slice_laws.peek_feed s h

pub peek_head_law : (s : SeriesStream) → StreamValid s → (stream_peek s).1 ≡ head (stream_feed s)
peek_head_law (block s) h = block_laws.peek_head s h
peek_head_law (slice s) h = slice_laws.peek_head s h

pub advance_valid_law :
    (s : SeriesStream) → StreamValid s → StreamValid (stream_advance (stream_peek s).0)
advance_valid_law (block s) h = block_laws.advance_valid s h
advance_valid_law (slice s) h = slice_laws.advance_valid s h

pub advance_feed_law :
    (s : SeriesStream)
    → StreamValid s
    → stream_feed (stream_advance (stream_peek s).0) ≡ tail (stream_feed s)
advance_feed_law (block s) h = block_laws.advance_feed s h
advance_feed_law (slice s) h = slice_laws.advance_feed s h

abbrev pub series_laws : Laws series_stream
series_laws = record {
  IsValid = StreamValid;
  feed = stream_feed;
  name_feed = name_law;
  peek_valid = peek_valid_law;
  peek_feed = peek_feed_law;
  peek_head = peek_head_law;
  advance_valid = advance_valid_law;
  advance_feed = advance_feed_law;
}
