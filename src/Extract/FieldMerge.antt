-- ===== src/Extract/FieldMerge.antt =====
-- `fieldMergeStream` of internal/extract/extract.go: the streams of one field as one, by a heap of
-- their heads.
pub mod Merged
pub mod Heads
pub mod Advance
pub mod Children
pub mod Lawful
pub mod Values
pub mod Drained
pub mod Runs
use tsm2arc.Prelude.{
  ℕ, zero, suc, ◌/◌, List, [], ◌∷◌, ◌++◌, map, Bool, true, false, Option, none, some, if◌then◌else◌,
  length, take, Bytes,
}
use tsm2arc.Tsm.{Error}
use tsm2arc.Extract.Stream.{Stream, Peek, value, exhausted, broken}
use tsm2arc.Extract.Heap.{Entry, entry_at, set_entry, sift_down, heapify}

pub record FieldMerge (S : Type 0) : Type 0 where
  pub field : Bytes
  pub children : List S
  pub h : List Entry
  pub inited : Bool
  pub err : Option Error
  pub released : Bool

abbrev pub new_field_merge : {S : Type 0} → Bytes → List S → FieldMerge S
new_field_merge field children = record {
  field = field;
  children = children;
  h = [];
  inited = false;
  err = none;
  released = false;
}

-- The end of `peek`.
abbrev pub top : List Entry → Peek
top [] = exhausted
top (e ∷ h) = value e.v

-- The last entry takes the root's place, and the slice is one shorter.
abbrev pub drop_root : List Entry → List Entry
drop_root [] = []
drop_root (e ∷ es) = take (length es) (set_entry (e ∷ es) 0 (entry_at (e ∷ es) (length es)))

-- `if len(s.h) > 0 { s.siftDown(0) }`
abbrev pub sift_root : List Entry → List Entry
sift_root [] = []
sift_root (e ∷ es) = sift_down (e ∷ es) 0

-- `advance` for the root `e` and the other entries, behind the peek at the child.
abbrev pub refill : {S : Type 0} → FieldMerge S → Entry → List Entry → List S × Peek → FieldMerge S
refill s e es (cs, broken err) = record s { children = cs; err = some err }
refill s e es (cs, value v) = record s {
  children = cs;
  h = sift_down (record { v = v; idx = e.idx } ∷ es) 0;
}
refill s e es (cs, exhausted) = record s { children = cs; h = sift_root (drop_root (e ∷ es)) }

-- What a child's peek adds to the outcome of the rest of the loop, with `cs` the children not reached.
abbrev pub add_head :
    {S : Type 0}
    → ℕ
    → S
    → List S
    → Peek
    → List S × Option Error × List Entry
    → List S × Option Error × List Entry
add_head i c cs (broken e) rest = (c ∷ cs, some e, [])
add_head i c cs exhausted (cs', r, es) = (c ∷ cs', r, es)
add_head i c cs (value v) (cs', r, es) = (c ∷ cs', r, record { v = v; idx = i } ∷ es)

-- The loop's error, or the heap and its root.
abbrev pub set_heads :
    {S : Type 0} → FieldMerge S → List S × Option Error × List Entry → FieldMerge S × Peek
set_heads s (cs, some e, es) =
    (record s { children = cs; h = s.h ++ es; inited = true; err = some e }, broken e)
set_heads s (cs, none, es) =
    let h = heapify (length (s.h ++ es) / 2) (s.h ++ es) in
    (record s { children = cs; h = h; inited = true }, top h)

module _ {S : Type 0} (ops : Stream S) where
  -- The first loop of `peek`: the children behind their peeks, the error that ends it, and the
  -- entries that it appends.
  unfoldable pub peek_children : ℕ → List S → List S × Option Error × List Entry
  peek_children i [] = ([], none, [])
  peek_children i (c ∷ cs) =
      let rest = peek_children (suc i) cs in add_head i (ops.peek c).0 cs (ops.peek c).1 rest

  -- The block under `!s.inited`.
  unfoldable pub init : FieldMerge S → FieldMerge S × Peek
  init s = set_heads s (peek_children 0 s.children)

  unfoldable pub merge_peek : FieldMerge S → FieldMerge S × Peek
  merge_peek s = elim s.err [
    | some e ↦ (s, broken e)
    | none ↦ if s.inited then (s, top s.h) else init s
  ]

  -- `c.advance()` and `c.peek()` for the child of an index.
  unfoldable pub advance_child : ℕ → List S → List S × Peek
  advance_child i [] = ([], exhausted)
  advance_child zero (c ∷ cs) = let (c', p) = ops.peek (ops.advance c) in (c' ∷ cs, p)
  advance_child (suc i) (c ∷ cs) = let (cs', p) = advance_child i cs in (c ∷ cs', p)

  unfoldable pub merge_advance : FieldMerge S → FieldMerge S
  merge_advance s = elim s.h [ [] ↦ s | e ∷ es ↦ refill s e es (advance_child e.idx s.children) ]

  abbrev pub field_merge_stream : Stream (FieldMerge S)
  field_merge_stream = record { name = λ s. s.field; peek = merge_peek; advance = merge_advance }

unfoldable pub merge_release : {S : Type 0} → (S → S) → FieldMerge S → FieldMerge S
merge_release release s =
    if s.released
    then s
    else record s { released = true; children = map release s.children; h = [] }
