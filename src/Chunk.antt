-- ===== src/Chunk.antt =====
-- internal/chunk/chunk.go: the accumulator that cuts a stream of line-protocol lines into chunks.
-- A buffer is its contents (capacities and reallocation are not modelled). The flush callback is a
-- function of the caller's state; what it does to the accumulator is the list of its calls.
pub mod Groups
pub mod Deliveries
mod Holds
mod Refine
pub mod Cuts
mod Runs
use tsm2arc.Prelude.{
  ℕ, suc, ◌+◌, ◌*◌, List, [], ◌∷◌, ◌++◌, Bool, true, false, Option, none, some, ◌&&◌, ltb, leb,
  if◌then◌else◌, length, Bytes,
}
use tsm2arc.Prelude.Int64.{ℤ, pos, ltb_ℤ, pos_part}

abbrev pub default_max_bytes : ℕ
default_max_bytes = 450 * 1024 * 1024

pub record Marker : Type 0 where
  pub series_key : Bytes
  pub unix_nano : ℤ
  pub tally : List (Bytes × ℤ)

abbrev pub zero_marker : Marker
zero_marker = record { series_key = []; unix_nano = pos 0; tally = [] }

pub record Accumulator : Type 0 where
  pub max_bytes : ℕ
  pub buf : Bytes
  pub seq : ℕ
  pub last_marker : Marker
  pub in_flush : Bool
  pub detached : Bool
  pub spare_cap : ℕ
  pub spares : List Bytes

-- The methods that a flush callback may call on the accumulator.
pub data Call : Type 0 where
  detach_buffer : Call
  recycle_buffer : Bytes → Call
  raise_spares : ℕ → Call

-- What a flush callback does: the caller's new state, its calls, and its error.
pub record Reply (W E : Type 0) : Type 0 where
  pub world : W
  pub calls : List Call
  pub error : Option E

abbrev pub FlushFunc : Type 0 → Type 0 → Type 0
FlushFunc W E = W → ℕ → Bytes → Marker → Reply W E

pub new_at : ℤ → ℕ → Accumulator
new_at max start_seq = record {
  max_bytes = if ltb_ℤ (pos 0) max then pos_part max else default_max_bytes;
  buf = [];
  seq = start_seq;
  last_marker = zero_marker;
  in_flush = false;
  detached = false;
  spare_cap = 2;
  spares = [];
}

pub new : ℤ → Accumulator
unfolding new_at
new max = new_at max 0

pub detach : Accumulator → Accumulator
detach a = if a.in_flush then record a { detached = true } else a

-- `buf[:0]` is the empty buffer.
pub recycle : Accumulator → Bytes → Accumulator
recycle a b =
    if ltb (length a.spares) a.spare_cap then record a { spares = a.spares ++ [] ∷ [] } else a

pub spare_capacity : Accumulator → ℕ → Accumulator
spare_capacity a n = if ltb a.spare_cap n then record a { spare_cap = n } else a

pub call : Accumulator → Call → Accumulator
unfolding detach recycle spare_capacity
call a detach_buffer = detach a
call a (recycle_buffer b) = recycle a b
call a (raise_spares n) = spare_capacity a n

pub call_all : Accumulator → List Call → Accumulator
unfolding call
call_all a [] = a
call_all a (c ∷ cs) = call_all (call a c) cs

-- `a.spares[n-1]` and `a.spares[:n-1]` of a non-empty list.
pub last_spare : Bytes → List Bytes → Bytes
last_spare x [] = x
last_spare x (y ∷ ys) = last_spare y ys

pub but_last : Bytes → List Bytes → List Bytes
but_last x [] = []
but_last x (y ∷ ys) = x ∷ but_last y ys

-- The buffer that follows a flush.
pub next_buf : Accumulator → List Bytes → Accumulator
unfolding last_spare but_last
next_buf a [] = record a { detached = false; buf = [] }
next_buf a (x ∷ xs) = record a { detached = false; buf = last_spare x xs; spares = but_last x xs }

-- `if err := f(...); err != nil { return err }`
abbrev pub and_then :
    {W E : Type 0}
    → Accumulator × W × Option E
    → (Accumulator → W → Accumulator × W × Option E)
    → Accumulator × W × Option E
and_then (a, w, some e) k = (a, w, some e)
and_then (a, w, none) k = k a w

pub after_flush : Accumulator → Accumulator
unfolding next_buf
after_flush a =
    let a' = record a { seq = suc a.seq } in
    if a'.detached then next_buf a' a'.spares else record a' { buf = [] }

pub end_flush : {W E : Type 0} → Accumulator → W → Option E → Accumulator × W × Option E
unfolding after_flush
end_flush a w (some e) = (a, w, some e)
end_flush a w none = (after_flush a, w, none)

-- The accumulator when the callback has returned.
pub in_callback : Accumulator → List Call → Accumulator
unfolding call_all
in_callback a cs =
    let a' = call_all (record a { in_flush = true }) cs in record a' { in_flush = false }

module _ {W E : Type 0} (flush_fn : FlushFunc W E) where
  pub do_flush : Accumulator → W → Accumulator × W × Option E
  unfolding in_callback end_flush
  do_flush a w =
      let r = flush_fn w a.seq a.buf a.last_marker in
      end_flush (in_callback a r.calls) r.world r.error

  pub add_line : Accumulator → W → Bytes → Marker → Accumulator × W × Option E
  unfolding do_flush
  add_line a w line m =
      let a' = record a { buf = a.buf ++ line; last_marker = m } in
      if leb a'.max_bytes (length a'.buf) then do_flush a' w else (a', w, none)

  pub append : Accumulator → W → Bytes → Marker → Accumulator × W × Option E
  unfolding do_flush add_line
  append a w line m =
      if ltb 0 (length a.buf) && ltb a.max_bytes (length a.buf + length line)
      then and_then (do_flush a w) (λ a' w'. add_line a' w' line m)
      else add_line a w line m

  pub flush : Accumulator → W → Accumulator × W × Option E
  unfolding do_flush
  flush a w = if ltb 0 (length a.buf) then do_flush a w else (a, w, none)

  -- A caller's loop: one `append` for each line, ended by the first error, then the final `flush`.
  pub append_all : Accumulator → W → List (Bytes × Marker) → Accumulator × W × Option E
  unfolding append flush
  append_all a w [] = flush a w
  append_all a w ((line, m) ∷ es) = and_then (append a w line m) (λ a' w'. append_all a' w' es)
