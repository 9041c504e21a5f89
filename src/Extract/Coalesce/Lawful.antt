-- ===== src/Extract/Coalesce/Lawful.antt =====
-- The streams of `coalesceByField` in internal/extract/extract.go keep the laws of the interface.
use tsm2arc.Prelude.{◌≡◌, refl}
use tsm2arc.Extract.Stream.{Stream, Feed, head, tail, Laws}
use tsm2arc.Extract.FieldMerge.Children.{merged_feed}
use tsm2arc.Extract.FieldMerge.Lawful.{IsState, field_merge_laws}
use tsm2arc.Extract.Coalesce.{
  MergeStream, plain, merged, merge_name, peek_any, advance_any, merge_stream,
}

module _ {S : Type 0} (ops : Stream S) (laws : Laws ops) where
  abbrev pub AnyValid : MergeStream S → Type 0
  AnyValid (plain s) = laws.IsValid s
  AnyValid (merged s) = IsState ops laws s

  abbrev pub any_feed : MergeStream S → Feed
  any_feed (plain s) = laws.feed s
  any_feed (merged s) = merged_feed ops laws s

  pub any_name : (s : MergeStream S) → merge_name ops s ≡ (any_feed s).field
  any_name (plain s) = laws.name_feed s
  any_name (merged s) = refl

  pub any_peek_valid : (s : MergeStream S) → AnyValid s → AnyValid (peek_any ops s).0
  any_peek_valid (plain s) h = laws.peek_valid s h
  any_peek_valid (merged s) h = (field_merge_laws ops laws).peek_valid s h

  pub any_peek_feed : (s : MergeStream S) → AnyValid s → any_feed (peek_any ops s).0 ≡ any_feed s
  any_peek_feed (plain s) h = laws.peek_feed s h
  any_peek_feed (merged s) h = (field_merge_laws ops laws).peek_feed s h

  pub any_peek_head : (s : MergeStream S) → AnyValid s → (peek_any ops s).1 ≡ head (any_feed s)
  any_peek_head (plain s) h = laws.peek_head s h
  any_peek_head (merged s) h = (field_merge_laws ops laws).peek_head s h

  pub any_advance_valid :
      (s : MergeStream S) → AnyValid s → AnyValid (advance_any ops (peek_any ops s).0)
  any_advance_valid (plain s) h = laws.advance_valid s h
  any_advance_valid (merged s) h = (field_merge_laws ops laws).advance_valid s h

  pub any_advance_feed :
      (s : MergeStream S)
      → AnyValid s
      → any_feed (advance_any ops (peek_any ops s).0) ≡ tail (any_feed s)
  any_advance_feed (plain s) h = laws.advance_feed s h
  any_advance_feed (merged s) h = (field_merge_laws ops laws).advance_feed s h

  abbrev pub merge_stream_laws : Laws (merge_stream ops)
  merge_stream_laws = record {
    IsValid = AnyValid;
    feed = any_feed;
    name_feed = any_name;
    peek_valid = any_peek_valid;
    peek_feed = any_peek_feed;
    peek_head = any_peek_head;
    advance_valid = any_advance_valid;
    advance_feed = any_advance_feed;
  }
