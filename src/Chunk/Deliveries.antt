-- ===== src/Chunk/Deliveries.antt =====
-- What a flush callback of internal/chunk/chunk.go receives, and a callback that records it.
use tsm2arc.Prelude.{
  ℕ, suc, List, [], ◌∷◌, ◌++◌, Option, none, some, if◌then◌else◌, length, length-append, Bytes, ◌≡◌,
  refl, sym, arith, append_assoc,
}
use tsm2arc.Prelude.Int64.{ℤ, pos, ltb_ℤ, pos_part}
use tsm2arc.Chunk.{Marker, zero_marker, Accumulator, Call, FlushFunc, default_max_bytes}
use tsm2arc.Chunk.Groups.{Entry, Group, size}

-- What a flush callback receives.
pub record Delivery : Type 0 where
  pub seq : ℕ
  pub lp : Bytes
  pub marker : Marker

abbrev pub lines : Group → Bytes
lines [] = []
lines (e ∷ es) = e.0 ++ lines es

abbrev pub last_of : Marker → Group → Marker
last_of m [] = m
last_of m (e ∷ es) = last_of e.1 es

-- The bytes of a group under its number, with the marker of its last line.
abbrev pub delivery : ℕ → Group → Delivery
delivery n g = record { seq = n; lp = lines g; marker = last_of zero_marker g }

abbrev pub number : ℕ → List Group → List Delivery
number n [] = []
number n (g ∷ gs) = delivery n g ∷ number (suc n) gs

pub lines-append : (p q : Group) → lines (p ++ q) ≡ lines p ++ lines q
lines-append [] q = refl
lines-append (e ∷ p) q = rw (lines-append p q) (sym (append_assoc e.0 (lines p) (lines q)))

pub length-lines : (p : Group) → length (lines p) ≡ size p
length-lines [] = refl
length-lines (e ∷ p) = omega (arith, length-append e.0 (lines p), length-lines p)

pub last_of-append : (m : Marker) (p : Group) (e : Entry) → last_of m (p ++ e ∷ []) ≡ e.1
last_of-append m [] e = refl
last_of-append m (x ∷ p) e = last_of-append x.1 p e

abbrev pub IsEmpty : Bytes → Type 0
IsEmpty b = b ≡ []

abbrev pub MarkerIs : Group → Marker → Type 0
MarkerIs [] m = Unit {0}
MarkerIs (e ∷ p) m = m ≡ last_of zero_marker (e ∷ p)

abbrev pub bound : ℤ → ℕ
bound max = if ltb_ℤ (pos 0) max then pos_part max else default_max_bytes

module _ {E : Type 0} where
  -- The callback of a caller that keeps what it is given, unless it fails. `calls` is whatever it
  -- does to the accumulator meanwhile.
  unfoldable pub recorder :
      (ℕ → Bytes → Marker → List Call)
      → (ℕ → Bytes → Marker → Option E)
      → FlushFunc (List Delivery) E
  recorder calls fails w seq lp m = record {
    world = elim (fails seq lp m) [
      | none ↦ w ++ record { seq = seq; lp = lp; marker = m } ∷ []
      | some e ↦ w
    ];
    calls = calls seq lp m;
    error = fails seq lp m;
  }

  -- Deliveries in order, up to the first that fails.
  unfoldable pub deliver :
      (ℕ → Bytes → Marker → Option E) → List Delivery → List Delivery → List Delivery × Option E
  deliver fails w [] = (w, none)
  deliver fails w (d ∷ ds) = elim (fails d.seq d.lp d.marker) [
    | some e ↦ (w, some e)
    | none ↦ deliver fails (w ++ d ∷ []) ds
  ]

  abbrev pub outcome : Accumulator × List Delivery × Option E → List Delivery × Option E
  outcome (a, w, e) = (w, e)
