-- ===== src/Chunk/Groups.antt =====
-- The cut points of internal/chunk/chunk.go as a function of the lines alone, without buffers.
use tsm2arc.Prelude.{
  ℕ, ◌+◌, ◌≤◌, ◌<◌, List, [], ◌∷◌, ◌++◌, ◌&&◌, ltb, leb, if◌then◌else◌, length, Bytes, ◌≡◌, refl,
  sym, ◌∙◌, ap, ◌⊎◌, inl, All, arith, append-nil, append_assoc, All-append, All-append_right,
}
use mathlib.Core.List.{flatten}
use tsm2arc.Chunk.{Marker}

-- A line with its marker, and the lines of one chunk.
abbrev pub Entry : Type 0
Entry = Bytes × Marker

abbrev pub Group : Type 0
Group = List Entry

abbrev pub size : Group → ℕ
size [] = 0
size (e ∷ es) = length e.0 + size es

pub size-append : (p q : Group) → size (p ++ q) ≡ size p + size q
size-append [] q = omega arith
size-append (e ∷ p) q = omega (arith, size-append p q)

-- What one more line closes, and what stays open.
pub data Step : Type 0 where
  -- the line joins the open group
  grow : Step
  -- the line joins the open group, which is then closed
  join : Step
  -- the open group is closed, and the line opens the next
  cut : Step
  -- the open group is closed, and so is a group of the line alone
  cut_alone : Step

unfoldable pub step : ℕ → ℕ → ℕ → Step
step max open_size n =
    if ltb 0 open_size && ltb max (open_size + n)
    then (if leb max n then cut_alone else cut)
    else if leb max (open_size + n)
    then join
    else grow

abbrev pub closed : Step → Group → Entry → List Group
closed grow p e = []
closed join p e = (p ++ e ∷ []) ∷ []
closed cut p e = p ∷ []
closed cut_alone p e = p ∷ (e ∷ []) ∷ []

abbrev pub opened : Step → Group → Entry → Group
opened grow p e = p ++ e ∷ []
opened join p e = []
opened cut p e = e ∷ []
opened cut_alone p e = []

abbrev final : Group → List Group
final [] = []
final (e ∷ p) = (e ∷ p) ∷ []

-- The chunks of the lines `es` after the open group `p`.
unfoldable pub groups : ℕ → Group → List Entry → List Group
groups max p [] = final p
groups max p (e ∷ es) =
    let s = step max (size p) (length e.0) in closed s p e ++ groups max (opened s p e) es

pub groups-cons :
    (max : ℕ) (p : Group) (e : Entry) (es : List Entry)
    → groups max p (e ∷ es)
      ≡ closed (step max (size p) (length e.0)) p e
        ++ groups max (opened (step max (size p) (length e.0)) p e) es
unfolding groups
groups-cons max p e es = refl

Step-flatten :
    (s : Step) (p : Group) (e : Entry) (r : List Group) (es : List Entry)
    → flatten r ≡ opened s p e ++ es
    → flatten (closed s p e ++ r) ≡ p ++ e ∷ es
unfolding flatten
Step-flatten grow p e r es h = h ∙ append_assoc p (e ∷ []) es
Step-flatten join p e r es h = rw h (append_assoc p (e ∷ []) es)
Step-flatten cut p e r es h = rw h
Step-flatten cut_alone p e r es h = rw h

-- The groups hold the lines, in order.
pub flatten-groups : (max : ℕ) (p : Group) (es : List Entry) → flatten (groups max p es) ≡ p ++ es
unfolding groups flatten
flatten-groups max [] [] = refl
flatten-groups max (e ∷ p) [] = refl
flatten-groups max p (e ∷ es) =
    Step-flatten (step max (size p) (length e.0)) p e _ es
      (flatten-groups max (opened (step max (size p) (length e.0)) p e) es)

-- A group of several lines does not pass the bound.
abbrev pub Fits : ℕ → Group → Type 0
Fits max g = (size g ≤ max) ⊎ (length g ≡ 1)

abbrev pub IsLine : Entry → Type 0
IsLine e = 0 < length e.0

-- The open group stays below the bound, and is empty or has bytes.
abbrev pub IsOpen : ℕ → Group → Type 0
IsOpen max [] = 0 < max
IsOpen max (e ∷ p) = (0 < size (e ∷ p)) × (size (e ∷ p) < max)

pub step-Fits :
    (max : ℕ) (p : Group) (e : Entry)
    → IsOpen max p
    → IsLine e
    → All (Fits max) (closed (step max (size p) (length e.0)) p e)
      × IsOpen max (opened (step max (size p) (length e.0)) p e)
unfolding step
step-Fits max [] e h l = ground arith
step-Fits max (x ∷ p) e h l = ground (arith, size-append p (e ∷ []))

pub groups-Fits :
    (max : ℕ) (p : Group) (es : List Entry)
    → IsOpen max p
    → All IsLine es
    → All (Fits max) (groups max p es)
unfolding groups
groups-Fits max [] [] h l = tt
groups-Fits max (e ∷ p) [] h l = (inl (omega arith), tt)
groups-Fits max p (e ∷ es) h l =
    let s = step max (size p) (length e.0) in
    All-append (Fits max) (closed s p e) (groups max (opened s p e) es) (step-Fits max p e h l.0).0
      (groups-Fits max (opened s p e) es (step-Fits max p e h l.0).1 l.1)

step_grow : (max m n : ℕ) → m + n < max → step max m n ≡ grow
unfolding step
step_grow max m n h = ground arith

-- Lines that fit an open group stay in it.
groups-open :
    (max : ℕ) (q p : Group) (es : List Entry)
    → size (q ++ p) < max
    → groups max q (p ++ es) ≡ groups max (q ++ p) es
unfolding groups
groups-open max q [] es h = rw append-nil
groups-open max q (e ∷ p) es h =
    rw (step_grow max (size q) (length e.0) (omega (arith, size-append q (e ∷ p))))
      (groups-open max (q ++ e ∷ []) p es (rw append_assoc h) ∙ rw append_assoc)

IsOpen-size : (max : ℕ) (p : Group) → IsOpen max p → size p < max
IsOpen-size max [] h = h
IsOpen-size max (e ∷ p) h = h.1

-- The lines of the groups, cut again from a fresh start, give the same groups.
groups_fresh :
    (max : ℕ) (p : Group) (es : List Entry)
    → IsOpen max p
    → groups max p es ≡ groups max [] (flatten (groups max p es))
groups_fresh max p es h =
    rw (flatten-groups max p es) (sym (groups-open max [] p es (IsOpen-size max p h)))

tails_eq : {g g' : Group} {r r' : List Group} → ◌≡◌ {A = List Group} (g ∷ r) (g' ∷ r') → r ≡ r'
tails_eq e = cc

step_alone : (max m n : ℕ) → step max m n ≡ cut_alone → step max 0 n ≡ join
unfolding step
step_alone max m n h = ground arith

alone_fresh :
    (max : ℕ) (e : Entry) (es : List Entry)
    → 0 < max
    → step max 0 (length e.0) ≡ join
    → (e ∷ []) ∷ groups max [] es ≡ groups max [] (flatten ((e ∷ []) ∷ groups max [] es))
unfolding groups flatten
alone_fresh max e es h s = rw (flatten-groups max [] es) (rw s refl)

-- What follows the first group is cut as from a fresh start.
tail_step :
    (s : Step) (max : ℕ) (p : Group) (e : Entry) (es : List Entry) (g : Group) (r : List Group)
    → 0 < max
    → s ≡ step max (size p) (length e.0)
    → IsOpen max (opened s p e)
    → (groups max (opened s p e) es ≡ g ∷ r → r ≡ groups max [] (flatten r))
    → closed s p e ++ groups max (opened s p e) es ≡ g ∷ r
    → r ≡ groups max [] (flatten r)
tail_step grow max p e es g r m q o ih eq = ih eq
tail_step join max p e es g r m q o ih eq = rw (← tails_eq eq) (groups_fresh max [] es o)
tail_step cut max p e es g r m q o ih eq = rw (← tails_eq eq) (groups_fresh max (e ∷ []) es o)
tail_step cut_alone max p e es g r m q o ih eq =
    rw (← tails_eq eq) (alone_fresh max e es m (step_alone max (size p) (length e.0) (sym q)))

groups-nil : (max : ℕ) (e : Entry) (p : Group) → groups max (e ∷ p) [] ≡ (e ∷ p) ∷ []
unfolding groups
groups-nil max e p = refl

groups-tail :
    (max : ℕ) (p : Group) (es : List Entry) (g : Group) (r : List Group)
    → 0 < max
    → IsOpen max p
    → All IsLine es
    → groups max p es ≡ g ∷ r
    → r ≡ groups max [] (flatten r)
groups-tail max [] [] g r m h l eq = unfold groups in cc
groups-tail max (e ∷ p) [] g r m h l eq =
    rw (← tails_eq (sym (groups-nil max e p) ∙ eq)) (unfold groups flatten in refl)
groups-tail max p (e ∷ es) g r m h l eq =
    let s = step max (size p) (length e.0) in
    let o = (step-Fits max p e h l.0).1 in
    tail_step s max p e es g r m refl o (groups-tail max (opened s p e) es g r m o l.1)
      (unfold groups in eq)

flatten-cons : (g : Group) (r : List Group) → flatten (g ∷ r) ≡ g ++ flatten r
unfolding flatten
flatten-cons g r = refl

-- Once the chunks `gs` are delivered, the lines of the rest are cut into the rest of the chunks.
pub groups_resume :
    (max : ℕ) (es : List Entry) (gs hs : List Group)
    → 0 < max
    → All IsLine es
    → groups max [] es ≡ gs ++ hs
    → groups max [] (flatten hs) ≡ hs
groups_resume max es [] hs m l eq = rw (← eq) (sym (groups_fresh max [] es m))
groups_resume max es (g ∷ gs) hs m l eq =
    groups_resume max (flatten (gs ++ hs)) gs hs m
      (All-append_right IsLine g _ (rw (← flatten_rest) l))
      (sym (groups-tail max [] es g (gs ++ hs) m m l eq))
  where
    flatten_rest : es ≡ g ++ flatten (gs ++ hs)
    flatten_rest = sym (flatten-groups max [] es) ∙ ap flatten eq ∙ flatten-cons g (gs ++ hs)
