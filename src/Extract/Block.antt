-- ===== src/Extract/Block.antt =====
-- `TSMFile` and `blockStream` of internal/extract/extract.go: a key's values, a block at a time.
-- `entries` and `buf` are the parts that the indices `nextE` and `i` leave; `file` is what
-- `fs.get(fi)` answers, and the call of `fs.release` is the change of `released`.
pub mod Scan
pub mod Lawful
pub mod Held
pub mod Whole
pub mod Emitted
use tsm2arc.Prelude.{
  List, [], ◌∷◌, Bool, true, false, not, ◌&&◌, Option, none, some, if◌then◌else◌, Bytes,
}
use tsm2arc.Prelude.Int64.{ℤ}
use tsm2arc.Prelude.Times.{earlier}
use tsm2arc.Tsm.{Value, IndexEntry, Error}
use tsm2arc.Extract.{entries_ascending, prune_entries}
use tsm2arc.Extract.Stream.{Stream, Peek, value, exhausted, broken, tail_of}
use tsm2arc.Extract.Slice.{ascending_by_time, sort_by_time}

-- A value or an error.
pub data Answer (A : Type 0) : Type 0 where
  got : A → Answer A
  refused : Error → Answer A

pub record TsmFile : Type 0 where
  pub keys : List Bytes
  pub read_key_by_name : Bytes → Answer (List Value)
  pub blocks : Bytes → List IndexEntry
  pub read_block_at : Bytes → IndexEntry → Answer (List Value)

pub record BlockStream : Type 0 where
  pub field : Bytes
  pub file : Answer TsmFile
  pub key : Bytes
  pub start : ℤ
  pub end : ℤ
  pub loaded : Bool
  pub entries : List IndexEntry
  pub buf : List Value
  pub done : Bool
  pub released : Bool
  pub err : Option Error

abbrev pub new_block_stream : Bytes → Answer TsmFile → Bytes → ℤ → ℤ → BlockStream
new_block_stream field file key start end = record {
  field = field;
  file = file;
  key = key;
  start = start;
  end = end;
  loaded = false;
  entries = [];
  buf = [];
  done = false;
  released = false;
  err = none;
}

unfoldable pub block_release : BlockStream → BlockStream
block_release s = if s.released then s else record s { released = true; buf = []; entries = [] }

unfoldable pub finish : BlockStream → BlockStream
unfolding block_release
finish s = block_release (record s { done = true })

unfoldable pub fail : BlockStream → Error → BlockStream
unfolding block_release
fail s e = block_release (record s { err = some e; done = true })

-- The check and the sort of `loadIndex` and `loadNext`.
unfoldable pub in_order : List Value → List Value
in_order vals = if ascending_by_time vals then vals else sort_by_time vals

-- `loadIndex` with the entries of the key.
unfoldable pub load_entries : BlockStream → TsmFile → List IndexEntry → BlockStream
load_entries s r [] = finish s
load_entries s r (e ∷ es) =
    if not (entries_ascending (e ∷ es))
    then elim (r.read_key_by_name s.key) [
      | refused err ↦ fail s err
      | got vals ↦ record s { buf = in_order vals; entries = [] }
    ]
    else record s { entries = prune_entries (e ∷ es) s.start s.end }

unfoldable pub load_index : BlockStream → BlockStream
load_index s = elim s.file [
  | refused err ↦ fail (record s { loaded = true }) err
  | got r ↦ load_entries (record s { loaded = true }) r (r.blocks s.key)
]

-- Where the loop of `peek` stops in a buffer: at a value, behind the window, or at the end.
pub data Place : Type 0 where
  at : Value → List Value → Place
  past : Place
  drained : Place

unfoldable pub seek_buf : ℤ → ℤ → List Value → Place
seek_buf start end [] = drained
seek_buf start end (v ∷ vs) =
    let later = seek_buf start end vs in
    if earlier v.unix_nano start then later else if earlier end v.unix_nano then past else at v vs

-- `loadNext` for the entry `e`.
abbrev pub load_next : BlockStream → IndexEntry → Answer (List Value)
load_next s e = elim s.file [ refused err ↦ refused err | got r ↦ r.read_block_at s.key e ]

-- The loop of `peek` on a loaded stream: the buffer `buf`, then the blocks of `entries`.
unfoldable pub scan : BlockStream → List Value → List IndexEntry → BlockStream × Peek
scan s buf [] = elim (seek_buf s.start s.end buf) [
  | at v vs ↦ (record s { buf = v ∷ vs; entries = [] }, value v)
  | past ↦ (finish s, exhausted)
  | drained ↦ (finish s, exhausted)
]
scan s buf (e ∷ es) = elim (seek_buf s.start s.end buf) [
  | at v vs ↦ (record s { buf = v ∷ vs; entries = e ∷ es }, value v)
  | past ↦ (finish s, exhausted)
  | drained ↦ elim (load_next s e) [
    | refused err ↦ (fail s err, broken err)
    | got vals ↦ scan s (in_order vals) es
  ]
]

-- `s.err != nil`, `s.done`, and a loaded stream.
unfoldable pub answer : BlockStream → BlockStream × Peek
answer s = elim s.err [
  | some e ↦ (s, broken e)
  | none ↦ if s.done then (s, exhausted) else scan s s.buf s.entries
]

unfoldable pub needs_index : BlockStream → Bool
needs_index s = elim s.err [ some e ↦ false | none ↦ if s.done then false else not s.loaded ]

-- One round of the loop of `peek` loads the index where that is due.
unfoldable pub with_index : BlockStream → BlockStream
with_index s = if needs_index s then load_index s else s

unfoldable pub block_peek : BlockStream → BlockStream × Peek
unfolding with_index answer
block_peek s = answer (with_index s)

unfoldable pub block_advance : BlockStream → BlockStream
block_advance s = record s { buf = tail_of s.buf }

abbrev pub block_stream : Stream BlockStream
block_stream = record { name = λ s. s.field; peek = block_peek; advance = block_advance }
