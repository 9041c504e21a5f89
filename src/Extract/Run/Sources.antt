-- ===== src/Extract/Run/Sources.antt =====
-- The streams of a run of internal/extract/extract.go stand for the values of their keys.
use tsm2arc.Prelude.{List, [], ◌∷◌, ◌++◌, map, Bytes, ◌≡◌, refl, sym, ap, ap₂, ◌∙◌, All, All-append}
use tsm2arc.Prelude.Int64.{ℤ}
use tsm2arc.Prelude.Sorting.{sort_strings}
use tsm2arc.Tsm.{Value}
use tsm2arc.Extract.Slice.{new_slice_stream}
use tsm2arc.Extract.Slice.Lawful.{slice_feed, in_window}
use tsm2arc.Extract.Slice.Sources.{window_sources, ordered, ordered-IsAscending}
use tsm2arc.Extract.Block.{Answer, got, refused, TsmFile}
use tsm2arc.Extract.Block.Whole.{Answers, block_feed-slice_feed}
use tsm2arc.Extract.Merge.Rows.{Source, embed}
use tsm2arc.Extract.Run.{field_of, key_streams, file_streams, wal_streams, run_streams}
use tsm2arc.Extract.Run.Lawful.{StreamValid, stream_feed}

-- The values that the file holds under a key.
abbrev pub values_of : TsmFile → Bytes → List Value
values_of r raw = elim (r.read_key_by_name raw) [ refused e ↦ [] | got vs ↦ vs ]

abbrev pub key_sources : TsmFile → List Bytes → List Source
key_sources r [] = []
key_sources r (raw ∷ raws) = (field_of raw, values_of r raw) ∷ key_sources r raws

abbrev pub file_sources : List (TsmFile × List Bytes) → List Source
file_sources [] = []
file_sources ((r, keys) ∷ files) = key_sources r (sort_strings keys) ++ file_sources files

-- The files answer for their keys.
abbrev pub KeysAnswer : TsmFile → List Bytes → Type 0
KeysAnswer r keys = All (λ raw. Answers r raw (values_of r raw)) keys

abbrev pub FilesAnswer : List (TsmFile × List Bytes) → Type 0
FilesAnswer [] = Unit
FilesAnswer ((r, keys) ∷ files) = KeysAnswer r (sort_strings keys) × FilesAnswer files

abbrev pub as_opened : List (TsmFile × List Bytes) → List (Answer TsmFile × List Bytes)
as_opened [] = []
as_opened ((r, keys) ∷ files) = (got r, keys) ∷ as_opened files

map_append : {A B : Type 0} → (f : A → B) (xs ys : List A) → map f (xs ++ ys) ≡ map f xs ++ map f ys
map_append f [] ys = refl
map_append f (x ∷ xs) ys = ap (λ zs. f x ∷ zs) (map_append f xs ys)

module _ (start end : ℤ) where
  slice_source :
      (f : Bytes) (vs : List Value) (raws : List Source)
      → map embed (window_sources start end ((f, vs) ∷ raws))
        ≡ slice_feed (new_slice_stream f vs start end) ∷ map embed (window_sources start end raws)
  unfolding new_slice_stream ordered
  slice_source f vs raws = refl

  key_streams-embed :
      (r : TsmFile) (keys : List Bytes)
      → KeysAnswer r keys
      → map stream_feed (key_streams start end (got r) keys)
        ≡ map embed (window_sources start end (key_sources r keys))
  unfolding key_streams
  key_streams-embed r [] h = refl
  key_streams-embed r (raw ∷ raws) (h, hs) =
      ap₂ (λ x xs. x ∷ xs)
        (block_feed-slice_feed (field_of raw) r raw start end (values_of r raw) h)
        (key_streams-embed r raws hs)
      ∙ sym (slice_source (field_of raw) (values_of r raw) (key_sources r raws))

  wal_streams-embed :
      (wal : List Source)
      → map stream_feed (wal_streams start end wal) ≡ map embed (window_sources start end wal)
  unfolding wal_streams
  wal_streams-embed [] = refl
  wal_streams-embed ((f, vs) ∷ wal) =
      ap (λ xs. slice_feed (new_slice_stream f vs start end) ∷ xs) (wal_streams-embed wal)
      ∙ sym (slice_source f vs wal)

  window_sources_append :
      (xs ys : List Source)
      → window_sources start end (xs ++ ys)
        ≡ window_sources start end xs ++ window_sources start end ys
  window_sources_append [] ys = refl
  window_sources_append ((f, vs) ∷ xs) ys =
      ap (λ zs. (f, in_window start end (ordered vs)) ∷ zs) (window_sources_append xs ys)

  embed_append :
      (xs ys : List Source)
      → map embed (window_sources start end (xs ++ ys))
        ≡ map embed (window_sources start end xs) ++ map embed (window_sources start end ys)
  embed_append xs ys =
      ap (map embed) (window_sources_append xs ys)
      ∙ map_append embed (window_sources start end xs) (window_sources start end ys)

  file_streams-embed :
      (files : List (TsmFile × List Bytes))
      → FilesAnswer files
      → map stream_feed (file_streams start end (as_opened files))
        ≡ map embed (window_sources start end (file_sources files))
  unfolding file_streams
  file_streams-embed [] h = refl
  file_streams-embed ((r, keys) ∷ files) (h, hs) =
      map_append stream_feed (key_streams start end (got r) (sort_strings keys))
        (file_streams start end (as_opened files))
      ∙ ap₂ (λ xs ys. xs ++ ys) (key_streams-embed r (sort_strings keys) h)
          (file_streams-embed files hs)
      ∙ sym (embed_append (key_sources r (sort_strings keys)) (file_sources files))

  pub run_streams-embed :
      (files : List (TsmFile × List Bytes)) (wal : List Source)
      → FilesAnswer files
      → map stream_feed (run_streams start end (as_opened files) wal)
        ≡ map embed (window_sources start end (file_sources files ++ wal))
  unfolding run_streams
  run_streams-embed files wal h =
      map_append stream_feed (file_streams start end (as_opened files)) (wal_streams start end wal)
      ∙ ap₂ (λ xs ys. xs ++ ys) (file_streams-embed files h) (wal_streams-embed wal)
      ∙ sym (embed_append (file_sources files) wal)

  key_streams-valid :
      (r : TsmFile) (keys : List Bytes) → All StreamValid (key_streams start end (got r) keys)
  unfolding key_streams
  key_streams-valid r [] = tt
  key_streams-valid r (raw ∷ raws) = (tt, key_streams-valid r raws)

  file_streams-valid :
      (files : List (TsmFile × List Bytes))
      → All StreamValid (file_streams start end (as_opened files))
  unfolding file_streams
  file_streams-valid [] = tt
  file_streams-valid ((r, keys) ∷ files) =
      All-append StreamValid (key_streams start end (got r) (sort_strings keys)) _
        (key_streams-valid r (sort_strings keys)) (file_streams-valid files)

  wal_streams-valid : (wal : List Source) → All StreamValid (wal_streams start end wal)
  unfolding wal_streams new_slice_stream
  wal_streams-valid [] = tt
  wal_streams-valid ((f, vs) ∷ wal) =
      (unfold ordered in ordered-IsAscending vs, wal_streams-valid wal)

  pub run_streams-valid :
      (files : List (TsmFile × List Bytes)) (wal : List Source)
      → All StreamValid (run_streams start end (as_opened files) wal)
  unfolding run_streams
  run_streams-valid files wal =
      All-append StreamValid (file_streams start end (as_opened files)) (wal_streams start end wal)
        (file_streams-valid files) (wal_streams-valid wal)
