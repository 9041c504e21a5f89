-- ===== src/Chunk/Cuts.antt =====
-- What a shard's caller relies on of internal/chunk/chunk.go: where the chunks are cut, what they
-- hold, and that a later run takes up after any of them.
use tsm2arc.Prelude.{
  ℕ, suc, ◌+◌, ◌<◌, List, [], ◌∷◌, ◌++◌, Option, none, length, Bytes, ◌≡◌, refl, sym, ◌∙◌, ap, All,
  All-append_right, arith, append-nil, append_assoc,
}
use mathlib.Core.List.{flatten}
use tsm2arc.Prelude.Int64.{ℤ}
use tsm2arc.Chunk.{Marker, Call, new_at, append_all}
use tsm2arc.Chunk.Groups.{
  Entry, Group, groups, IsLine, Fits, groups-Fits, flatten-groups, groups_resume,
}
use tsm2arc.Chunk.Deliveries.{Delivery, number, bound, recorder, deliver, outcome}
use tsm2arc.Chunk.Holds.{Holds}
use tsm2arc.Chunk.Refine.{append_all-Holds}

new_at-Holds : (max : ℤ) (start : ℕ) → Holds (new_at max start) (bound max) [] start
unfolding new_at
new_at-Holds max start = record {
  bound = refl;
  bytes = refl;
  next = refl;
  marker = tt;
  spares = tt;
}

bound_pos : (max : ℤ) → 0 < bound max
bound_pos max = ground arith

-- Feeding lines to a new accumulator and flushing it hands the callback exactly the greedy groups
-- of the lines, numbered from the start, in order and up to the first delivery that fails; the
-- error of that delivery is the error of the run. This holds whatever the callback detaches and
-- recycles meanwhile. No line is empty.
pub append_all-groups :
    {E : Type 0} (calls : ℕ → Bytes → Marker → List Call)
    → (fails : ℕ → Bytes → Marker → Option E) → (max : ℤ) (start : ℕ) (es : List Entry)
    → All IsLine es
    → outcome (append_all (recorder calls fails) (new_at max start) [] es)
      ≡ deliver fails [] (number start (groups (bound max) [] es))
append_all-groups calls fails max start es l =
    append_all-Holds calls fails es (new_at max start) [] [] (new_at-Holds max start)
      (bound_pos max) l

-- A callback that never fails.
abbrev pub accept : {E : Type 0} → ℕ → Bytes → Marker → Option E
accept seq lp m = none

deliver-accept : {E : Type 0} (w ds : List Delivery) → deliver {E = E} accept w ds ≡ (w ++ ds, none)
unfolding deliver
deliver-accept w [] = rw append-nil
deliver-accept w (d ∷ ds) = deliver-accept (w ++ d ∷ []) ds ∙ rw append_assoc

accepted :
    {E : Type 0} (calls : ℕ → Bytes → Marker → List Call) (max : ℤ) (start : ℕ) (es : List Entry)
    → All IsLine es
    → outcome (append_all (recorder {E = E} calls accept) (new_at max start) [] es)
      ≡ (number start (groups (bound max) [] es), none)
accepted calls max start es l = append_all-groups calls accept max start es l ∙ deliver-accept [] _

-- When no delivery fails, the chunks split the lines: some division of the lines into consecutive
-- groups, numbered from the start, is what is delivered, each with the marker of its last line,
-- and a chunk passes the byte bound only if it is a single line. No line is empty.
append_all_chunks :
    {E : Type 0} (calls : ℕ → Bytes → Marker → List Call) (max : ℤ) (start : ℕ) (es : List Entry)
    → All IsLine es
    → (gs : List Group) × (outcome
          (append_all (recorder {E = E} calls accept) (new_at max start) [] es)
        ≡ (number start gs, none))
      × (flatten gs ≡ es)
      × All (Fits (bound max)) gs
append_all_chunks calls max start es l = (
  groups (bound max) [] es,
  accepted calls max start es l,
  flatten-groups (bound max) [] es,
  groups-Fits (bound max) [] es (bound_pos max) l,
)

number-append :
    (n : ℕ) (gs : List Group) (ds es : List Delivery)
    → number n gs ≡ ds ++ es
    → (hs : List Group) × (ks : List Group) × (gs ≡ hs ++ ks)
      × (ds ≡ number n hs)
      × (es ≡ number (n + length ds) ks)
number-append n gs [] es h = ([], gs, refl, refl, sym h ∙ ap (λ m. number m gs) (omega arith))
number-append n [] (d ∷ ds) es h = absurd (cc)
number-append n (g ∷ gs) (d ∷ ds) es h =
    let (hs, ks, p, q, r) = number-append (suc n) gs ds es (cc) in
    (g ∷ hs, ks, ap (λ t. g ∷ t) p, cc, r ∙ ap (λ m. number m ks) (omega arith))

flatten-append : (gs hs : List Group) → flatten (gs ++ hs) ≡ flatten gs ++ flatten hs
unfolding flatten
flatten-append [] hs = refl
flatten-append (g ∷ gs) hs =
    ap (λ t. g ++ t) (flatten-append gs hs) ∙ sym (append_assoc g (flatten gs) (flatten hs))

-- A run that has delivered the chunks `ds` of a whole `ds ++ ks` holds a cursor that is exact: the
-- lines split into those of `ds` and a rest, and a new accumulator that starts at the next number
-- and is fed that rest alone delivers `ks`, byte for byte. No line is empty.
pub append_all_resume :
    {E : Type 0} (calls calls' : ℕ → Bytes → Marker → List Call)
    → (max : ℤ) (start : ℕ) (es : List Entry) (ds ks : List Delivery) → All IsLine es
    → outcome (append_all (recorder {E = E} calls accept) (new_at max start) [] es)
      ≡ (ds ++ ks, none)
    → (gs : List Group) × (rest : List Entry) × (es ≡ flatten gs ++ rest)
      × (ds ≡ number start gs)
      × (outcome
            (append_all (recorder {E = E} calls' accept) (new_at max (start + length ds)) [] rest)
          ≡ (ks, none))
append_all_resume {E} calls calls' max start es ds ks l h =
    let whole = accepted {E = E} calls max start es l in
    let (gs, hs, p, q, r) = number-append start (groups (bound max) [] es) ds ks (cc) in
    let split : es ≡ flatten gs ++ flatten hs =
      sym (flatten-groups (bound max) [] es) ∙ ap flatten p ∙ flatten-append gs hs in
    let l' = All-append_right IsLine (flatten gs) (flatten hs) (rw (← split) l) in
    (
      gs,
      flatten hs,
      split,
      q,
      accepted calls' max (start + length ds) (flatten hs) l'
          ∙ rw (groups_resume (bound max) es gs hs (bound_pos max) l p) (rw (← r) refl),
    )
