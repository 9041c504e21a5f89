-- ===== src/Chunk/Holds.antt =====
-- The state of the accumulator of internal/chunk/chunk.go while a group of lines is open.
use tsm2arc.Prelude.{
  ℕ, suc, List, [], ◌∷◌, ◌++◌, true, Bytes, ◌≡◌, refl, sym, ap, All, arith, append-nil,
}
use tsm2arc.Chunk.{
  Accumulator, Call, detach_buffer, recycle_buffer, raise_spares, call, call_all, last_spare,
  but_last, next_buf, after_flush, in_callback,
}
use tsm2arc.Chunk.Groups.{Entry, Group}
use tsm2arc.Chunk.Deliveries.{lines, lines-append, last_of-append, IsEmpty, MarkerIs}

-- The accumulator holds the open group `p`, and the next chunk has the number `n`.
pub record Holds (a : Accumulator) (max : ℕ) (p : Group) (n : ℕ) : Type 0 where
  pub bound : a.max_bytes ≡ max
  pub bytes : a.buf ≡ lines p
  pub next : a.seq ≡ n
  pub marker : MarkerIs p a.last_marker
  pub spares : All IsEmpty a.spares

pub All-IsEmpty-snoc : (xs : List Bytes) → All IsEmpty xs → All IsEmpty (xs ++ [] ∷ [])
All-IsEmpty-snoc [] h = (refl, tt)
All-IsEmpty-snoc (x ∷ xs) h = (h.0, All-IsEmpty-snoc xs h.1)

pub call-Holds :
    (a : Accumulator) (c : Call) {max n : ℕ} {p : Group}
    → Holds a max p n
    → Holds (call a c) max p n
unfolding call
call-Holds a detach_buffer h = ground arith
call-Holds a (recycle_buffer b) h = ground (arith, All-IsEmpty-snoc a.spares h.spares)
call-Holds a (raise_spares n) h = ground arith

pub call_all-Holds :
    (a : Accumulator) (cs : List Call) {max n : ℕ} {p : Group}
    → Holds a max p n
    → Holds (call_all a cs) max p n
unfolding call_all
call_all-Holds a [] h = h
call_all-Holds a (c ∷ cs) h = call_all-Holds (call a c) cs (call-Holds a c h)

pub last_spare-IsEmpty : (x : Bytes) (xs : List Bytes) → All IsEmpty (x ∷ xs) → last_spare x xs ≡ []
unfolding last_spare
last_spare-IsEmpty x [] h = h.0
last_spare-IsEmpty x (y ∷ ys) h = last_spare-IsEmpty y ys h.1

pub but_last-IsEmpty :
    (x : Bytes) (xs : List Bytes) → All IsEmpty (x ∷ xs) → All IsEmpty (but_last x xs)
unfolding but_last
but_last-IsEmpty x [] h = tt
but_last-IsEmpty x (y ∷ ys) h = (h.0, but_last-IsEmpty y ys h.1)

pub next_buf-Holds :
    (a : Accumulator) (xs : List Bytes) {max n : ℕ}
    → a.max_bytes ≡ max
    → a.seq ≡ n
    → All IsEmpty a.spares
    → All IsEmpty xs
    → Holds (next_buf a xs) max [] n
unfolding next_buf
next_buf-Holds a [] b s e h = ground arith
next_buf-Holds a (x ∷ xs) b s e h =
    ground (arith, last_spare-IsEmpty x xs h, but_last-IsEmpty x xs h)

pub after_flush-Holds :
    (a : Accumulator) {max n : ℕ} {p : Group}
    → Holds a max p n
    → Holds (after_flush a) max [] (suc n)
unfolding after_flush
after_flush-Holds a h = ground (
  arith,
  next_buf-Holds (record a { seq = suc a.seq }) a.spares h.bound (ap suc h.next) h.spares h.spares,
)

pub in_callback-Holds :
    (a : Accumulator) (cs : List Call) {max n : ℕ} {p : Group}
    → Holds a max p n
    → Holds (in_callback a cs) max p n
unfolding in_callback
in_callback-Holds a cs {max} {n} {p} h =
    let h' =
      call_all-Holds (record a { in_flush = true }) cs {max = max} {n = n} {p = p} (ground arith) in
    ground arith

pub MarkerIs-snoc : (p : Group) (e : Entry) → MarkerIs (p ++ e ∷ []) e.1
MarkerIs-snoc [] e = refl
MarkerIs-snoc (x ∷ p) e = sym (last_of-append x.1 p e)

pub with_line-Holds :
    (a : Accumulator) {max n : ℕ} {p : Group} (e : Entry)
    → Holds a max p n
    → Holds (record a { buf = a.buf ++ e.0; last_marker = e.1 }) max (p ++ e ∷ []) n
with_line-Holds a {p = p} e h =
    let m = MarkerIs-snoc p e in ground (arith, lines-append p (e ∷ []), append-nil e.0)
