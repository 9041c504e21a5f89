-- ===== src/Extract/Stream.antt =====
-- The `stream` interface of internal/extract/extract.go: its operations, what its clients rely on,
-- and the plainest implementation, a list of values that may end in a failure.
use tsm2arc.Prelude.{List, [], ◌∷◌, Option, none, some, Bytes, ◌≡◌}
use tsm2arc.Tsm.{Error, Value}

-- What `peek` answers: a value, that there are no more, or an error.
pub data Peek : Type 0 where
  value : Value → Peek
  exhausted : Peek
  broken : Error → Peek

pub record Stream (S : Type 0) : Type 0 where
  pub name : S → Bytes
  pub peek : S → S × Peek
  pub advance : S → S

-- The values still to come and how they end.
pub record Feed : Type 0 where
  pub field : Bytes
  pub values : List Value
  pub failure : Option Error

abbrev pub head_of : List Value → Option Error → Peek
head_of [] none = exhausted
head_of [] (some e) = broken e
head_of (v ∷ vs) end = value v

abbrev pub tail_of : List Value → List Value
tail_of [] = []
tail_of (v ∷ vs) = vs

abbrev pub head : Feed → Peek
head f = head_of f.values f.failure

abbrev pub tail : Feed → Feed
tail f = record f { values = tail_of f.values }

abbrev pub feed_stream : Stream Feed
feed_stream = record { name = λ f. f.field; peek = λ f. (f, head f); advance = tail }

-- A stream is the feed that it stands for: peeking changes nothing of it, and advancing behind a
-- peek takes the value away.
pub record Laws {S : Type 0} (ops : Stream S) : Type 1 where
  pub IsValid : S → Type 0
  pub feed : S → Feed
  pub name_feed : (s : S) → ops.name s ≡ (feed s).field
  pub peek_valid : (s : S) → IsValid s → IsValid (ops.peek s).0
  pub peek_feed : (s : S) → IsValid s → feed (ops.peek s).0 ≡ feed s
  pub peek_head : (s : S) → IsValid s → (ops.peek s).1 ≡ head (feed s)
  pub advance_valid : (s : S) → IsValid s → IsValid (ops.advance (ops.peek s).0)
  pub advance_feed : (s : S) → IsValid s → feed (ops.advance (ops.peek s).0) ≡ tail (feed s)
