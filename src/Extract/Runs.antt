-- ===== src/Extract/Runs.antt =====
-- Runs of internal/extract/extract.go: three blocks and a window, and the merge of three slices.
use tsm2arc.Prelude.{
  ℕ, ◌<◌, List, [], ◌∷◌, ◌++◌, Bytes, true, none, some, ◌≡◌, refl, if◌then◌else◌, arith, All, map,
}
use tsm2arc.Prelude.Int64.{ℤ, ltb_ℤ, pos, negsuc, add64}
use tsm2arc.Prelude.Times.{earlier, same}
use tsm2arc.Prelude.Strings.{codes, str_eq, str_lt}
use tsm2arc.Prelude.Sorting.{sort_strings}
use tsm2arc.Tsm.{IndexEntry, Value, zero_value, block_integer}
use tsm2arc.Lp.{Field}
use tsm2arc.Extract.{prune_entries, entries_ascending}
use tsm2arc.Extract.Window.{overlapping, prune_entries-overlapping}
use tsm2arc.Extract.Slice.{
  SliceStream, new_slice_stream, slice_stream, slice_peek, seek, ascending_by_time, sort_by_time,
  insert_value, slice_advance,
}
use tsm2arc.Extract.Slice.Lawful.{slice_laws, in_window}
use tsm2arc.Extract.Slice.Sources.{in_range}
use tsm2arc.Extract.Merge.{
  Point, zero_stats, done, merge_loop, find_min, lower, gather, gather_stream,
}
use tsm2arc.Extract.Merge.Rows.{Source, embed, size}
use tsm2arc.Extract.Merge.Row.{last_write, AreAscending}
use tsm2arc.Extract.Merge.Points.{
  series_point, field_at, TimesRise, points_after, merge_loop-TimesRise,
}
use tsm2arc.Extract.Cursor.{Cursor, apply_cursor, search_strings, series_start_for}
use tsm2arc.Extract.Heap.{entry_at, set_entry, heapify, sift_loop, sift_down, min_child, less, swap}
use tsm2arc.Extract.FieldMerge.{init, peek_children, merge_peek, merge_advance, advance_child}
use tsm2arc.Extract.Coalesce.{
  add_to_group, group_onto, insert_by_name, sort_by_name, coalesce_by_field, merge_series,
}
use tsm2arc.Extract.Run.Points.{merge_series-points_after, merge_series-run_streams}
use tsm2arc.Extract.Run.{series_stream, run_streams}
use tsm2arc.Extract.Run.Sources.{FilesAnswer, as_opened, file_sources}
use tsm2arc.Extract.Block.{got, TsmFile, new_block_stream}
use tsm2arc.Extract.Block.Whole.{Answers}
use tsm2arc.Extract.Block.{block_stream, block_peek}
use tsm2arc.Extract.Block.Emitted.{drained_stream, values_at, drain-values_at}
use tsm2arc.Extract.FieldMerge.Drained.{drain}
use tsm2arc.Extract.Merge.Row.{IsAscending}
use tsm2arc.Extract.Stream.{exhausted}
use tsm2arc.Series.{parse_key}

abbrev block_over : ℤ → ℤ → IndexEntry
block_over from to = record { min_time = from; max_time = to; offset = pos 5; size = 40 }

abbrev three_blocks : List IndexEntry
three_blocks =
    block_over (negsuc 9) (pos 3) ∷ block_over (pos 3) (pos 8) ∷ block_over (pos 9) (pos 20) ∷ []

three_blocks_ascending : entries_ascending three_blocks ≡ true
unfolding entries_ascending
three_blocks_ascending = refl

prune_entries_run :
    prune_entries three_blocks (pos 4) (pos 9)
    ≡ block_over (pos 3) (pos 8) ∷ block_over (pos 9) (pos 20) ∷ []
unfolding prune_entries
prune_entries_run = refl

prune_entries-overlapping_example :
    prune_entries three_blocks (pos 4) (pos 8) ≡ overlapping (pos 4) (pos 8) three_blocks
prune_entries-overlapping_example =
    prune_entries-overlapping three_blocks (pos 4) (pos 8) three_blocks_ascending

abbrev reading : ℤ → ℕ → Value
reading t n = record zero_value { unix_nano = t; type = block_integer; integer = pos n }

-- The field `b` is written out of order, and `a` twice at the time 3.
abbrev written : List Source
written =
    (codes "b", reading (pos 7) 1 ∷ reading (pos 3) 2 ∷ reading (pos 7) 3 ∷ [])
    ∷ (codes "a", reading (pos 3) 4 ∷ reading (pos 5) 5 ∷ [])
    ∷ (codes "a", reading (pos 3) 6 ∷ reading (pos 20) 7 ∷ [])
    ∷ []

abbrev cpu_point : ℤ → List Field → Point
cpu_point = series_point (codes "cpu,host=a") (codes "cpu") []

-- The key of the field `a` in a file, in two blocks.
abbrev key_a : Bytes
key_a = codes "cpu,host=a#!~#a"

abbrev first_block : List Value
first_block = reading (pos 1) 8 ∷ reading (pos 3) 9 ∷ []

abbrev second_block : List Value
second_block = reading (pos 4) 10 ∷ []

abbrev small_file : TsmFile
small_file = record {
  keys = key_a ∷ [];
  read_key_by_name = λ key. got (first_block ++ second_block);
  blocks = λ key. block_over (pos 1) (pos 3) ∷ block_over (pos 4) (pos 4) ∷ [];
  read_block_at = λ key e. got (if ltb_ℤ e.min_time (pos 2) then first_block else second_block);
}

abbrev run_files : List (TsmFile × List Bytes)
run_files = (small_file, key_a ∷ []) ∷ []

key_a-Answers : Answers small_file key_a (first_block ++ second_block)
unfolding earlier
key_a-Answers = (
  refl,
  (
    first_block,
    second_block,
    refl,
    ((refl, tt), (tt, tt)),
    (refl, (refl, tt)),
    (refl, (refl, tt)),
    refl,
    (second_block, [], refl, (tt, tt), (refl, tt), (refl, tt), refl, refl),
  ),
)

run_files_answer : FilesAnswer run_files
unfolding sort_strings
run_files_answer = ((key_a-Answers, tt), tt)

run_size : size (file_sources run_files ++ written) < 12
unfolding sort_strings parse_key
run_size = omega arith

drain-values_at_example :
    let opened = new_block_stream (codes "a") (got small_file) key_a (pos 2) (pos 9) in
    IsAscending (drain block_stream 3 opened)
    × ((u : ℤ)
        → values_at u (drain block_stream 3 opened)
          ≡ (if in_range (pos 2) (pos 9) u then values_at u (first_block ++ second_block) else []))
    × ((block_peek (drained_stream block_stream 3 opened)).1 ≡ exhausted)
drain-values_at_example =
    drain-values_at (codes "a") small_file key_a (pos 2) (pos 9) (first_block ++ second_block)
      key_a-Answers 3 (omega arith)

abbrev merged : ℤ → ℤ → List Point
merged start end =
    (merge_series series_stream 12 (codes "cpu,host=a") (codes "cpu") []
      (run_streams start end (as_opened run_files) written) zero_stats).0

times : List Point → List ℤ
times [] = []
times (p ∷ ps) = p.unix_nano ∷ times ps

log_times :
    times
      (merge_series series_stream 8
        (codes "cpu,host=a")
        (codes "cpu")
        []
        (run_streams (pos 0) (pos 9) [] written)
        zero_stats).0
    ≡ pos 3 ∷ pos 5 ∷ pos 7 ∷ []
unfolding times merge_series coalesce_by_field group_onto add_to_group sort_by_name insert_by_name
    str_eq str_lt init peek_children merge_peek merge_advance advance_child set_entry entry_at
    heapify sift_loop sift_down min_child less swap merge_loop run_streams find_min slice_peek seek
    new_slice_stream ascending_by_time earlier sort_by_time insert_value lower gather gather_stream
    same slice_advance
log_times = refl

merge_series-run_streams_example :
    ((merge_series series_stream 12
        (codes "cpu,host=a")
        (codes "cpu")
        []
        (run_streams (pos 0) (pos 9) (as_opened run_files) written)
        zero_stats).2
      ≡ done)
    × (field_at (codes "a") (pos 3) (merged (pos 0) (pos 9)) ≡ (
        if in_range (pos 0) (pos 9) (pos 3)
        then last_write (codes "a") (pos 3) (file_sources run_files ++ written) none
        else none))
merge_series-run_streams_example =
    merge_series-run_streams run_files written run_files_answer 12 run_size (codes "cpu,host=a")
      (codes "cpu") [] (pos 0) (pos 9) zero_stats (codes "a") (pos 3)

abbrev cursor_at : ℤ → Cursor
cursor_at t = record { series_key = codes "cpu,host=a"; unix_nano = t }

cursor_start :
    series_start_for (codes "cpu,host=a") (pos 0) (some (cursor_at (pos 3))) ≡ (pos 4, true)
unfolding series_start_for str_eq same earlier add64
cursor_start = refl

merge_series-points_after_example :
    merged (pos 4) (pos 9) ≡ points_after (pos 3) (merged (pos 0) (pos 9))
merge_series-points_after_example =
    merge_series-points_after (pos 0) (pos 9) (cursor_at (pos 3))
      (record { above = omega arith; below = omega arith }) cursor_start run_files written
      run_files_answer 12 run_size (codes "cpu") [] zero_stats zero_stats

abbrev two_slices : List SliceStream
two_slices =
    record {
      field = codes "a";
      vals = reading (pos 3) 4 ∷ reading (pos 5) 5 ∷ [];
      i = 0;
      start = pos 0;
      end = pos 9;
    }
    ∷ record {
      field = codes "b";
      vals = reading (pos 3) 6 ∷ reading (pos 20) 7 ∷ [];
      i = 0;
      start = pos 0;
      end = pos 9;
    }
    ∷ []

two_slices_valid : All slice_laws.IsValid two_slices
unfolding earlier
two_slices_valid = (((refl, tt), (tt, tt)), (((refl, tt), (tt, tt)), tt))

abbrev two_sources : List Source
two_sources =
    (codes "a", reading (pos 3) 4 ∷ reading (pos 5) 5 ∷ [])
    ∷ (codes "b", reading (pos 3) 6 ∷ [])
    ∷ []

two_slices-two_sources : map slice_laws.feed two_slices ≡ map embed two_sources
unfolding in_window earlier
two_slices-two_sources = refl

two_sources_ascending : AreAscending two_sources
unfolding earlier
two_sources_ascending = (((refl, tt), (tt, tt)), ((tt, tt), tt))

merge_loop-TimesRise_example :
    TimesRise (merge_loop slice_stream 8 cpu_point two_slices zero_stats).0
merge_loop-TimesRise_example =
    merge_loop-TimesRise slice_stream slice_laws two_slices two_slices_valid two_sources
      two_slices-two_sources two_sources_ascending 8 (omega arith) (codes "cpu,host=a")
      (codes "cpu") [] zero_stats

abbrev three_series : List Bytes
three_series = codes "mem" ∷ codes "cpu,host=b" ∷ codes "cpu,host=a" ∷ []

apply_cursor_run :
    apply_cursor three_series (some (record { series_key = codes "cpu,host=b"; unix_nano = pos 4 }))
    ≡ some (codes "cpu,host=b" ∷ codes "mem" ∷ [])
unfolding apply_cursor search_strings sort_strings str_lt str_eq
apply_cursor_run = refl
