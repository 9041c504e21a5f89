-- ===== src/Measure/Entries.antt =====
-- The rename entries of internal/measure/measure.go: reading one, and folding many into a map.
use tsm2arc.Prelude.{
  ℕ, List, [], ◌∷◌, ◌++◌, true, false, none, some, ◌==◌, if◌then◌else◌, Bytes, ◌≡◌, refl, ◌≢◌,
  arith, All, Option-cases, inl, inr,
}
use tsm2arc.Prelude.Strings.{str_eq, str_eq_iff}
use tsm2arc.Measure.{
  valid, all_name_bytes, is_name_byte, map_get, map_set, Result, ok, err, split_last, both_filled,
  parse_map_entry, add_entry, add_entries, ◌>>=◌,
}

name_byte-ne-equals : (c : ℕ) → is_name_byte c ≡ true → (c == b'=') ≡ false
unfolding is_name_byte
name_byte-ne-equals c h = ground arith

split_last-none : (s : Bytes) → all_name_bytes s ≡ true → split_last s ≡ none
unfolding split_last all_name_bytes
split_last-none [] h = refl
split_last-none (c ∷ s) h =
    ground (arith, split_last-none s (ground arith), name_byte-ne-equals c (ground arith))

split_last-append :
    (from to : Bytes) → split_last to ≡ none → split_last (from ++ b'=' ∷ to) ≡ some (from, to)
unfolding split_last
split_last-append [] to h = rw (h, split_last)
split_last-append (c ∷ from) to h = rw (split_last-append from to h)

valid-all_name_bytes : (s : Bytes) → valid s ≡ true → (all_name_bytes s ≡ true) × (s ≢ [])
unfolding valid all_name_bytes
valid-all_name_bytes [] h = cc
valid-all_name_bytes (c ∷ s) h = ground arith

parse_filled :
    (from to : Bytes)
    → from ≢ []
    → to ≢ []
    → split_last to ≡ none
    → parse_map_entry (from ++ b'=' ∷ to) ≡ ok (from, to)
unfolding parse_map_entry
parse_filled [] to f t h = absurd (f refl)
parse_filled (c ∷ from) [] f t h = absurd (t refl)
parse_filled (c ∷ from) (d ∷ to) f t h = rw (split_last-append (c ∷ from) (d ∷ to) h)

-- An entry `old=new` is read back as `old` and `new` when `new` is a name that Arc takes, whatever
-- `old` is, as long as it is not empty: `old` may hold `=`.
parse_map_entry-append :
    (from to : Bytes)
    → from ≢ []
    → valid to ≡ true
    → parse_map_entry (from ++ b'=' ∷ to) ≡ ok (from, to)
parse_map_entry-append from to f v =
    let (names, t) = valid-all_name_bytes to v in
    parse_filled from to f t (split_last-none to names)

split_last_sound :
    (s : Bytes) {from to : Bytes} → split_last s ≡ some (from, to) → s ≡ from ++ b'=' ∷ to
unfolding split_last
split_last_sound [] h = cc
split_last_sound (c ∷ s) {from} {to} h = elim (Option-cases (split_last s)) [
  | inl e ↦ ground arith
  | inr ((f, t), e) ↦ let ih = split_last_sound s e in ground arith
]

both_filled-ne-nil : (f t : Bytes) → both_filled f t ≡ true → (f ≢ []) × (t ≢ [])
unfolding both_filled
both_filled-ne-nil [] t h = cc
both_filled-ne-nil (c ∷ f) [] h = cc
both_filled-ne-nil (c ∷ f) (d ∷ t) h = ground arith

-- What is read from an entry makes up that entry, and neither part is empty.
parse_map_entry_sound :
    (entry from to : Bytes)
    → parse_map_entry entry ≡ ok (from, to)
    → (entry ≡ from ++ b'=' ∷ to) × (from ≢ []) × (to ≢ [])
unfolding parse_map_entry
parse_map_entry_sound entry from to h = elim (Option-cases (split_last entry)) [
  | inl e ↦ ground arith
  | inr ((f, t), e) ↦
      let parts = both_filled-ne-nil f t in let whole = split_last_sound entry e in ground arith
]

map_get-map_set :
    (k j v : Bytes) (m : List (Bytes × Bytes))
    → map_get j (map_set k v m) ≡ (if str_eq k j then some v else map_get j m)
unfolding map_get map_set
map_get-map_set k j v [] = refl
map_get-map_set k j v ((i, w) ∷ m) =
    ground (arith, str_eq_iff k j, str_eq_iff i k, str_eq_iff i j, map_get-map_set k j v m)

add_entry_keeps :
    (m m' : List (Bytes × Bytes)) (from to k v : Bytes)
    → add_entry m from to ≡ ok m'
    → map_get k m ≡ some v
    → map_get k m' ≡ some v
unfolding add_entry
add_entry_keeps m m' from to k v h g =
    ground (arith, map_get-map_set from k to m, str_eq_iff from k, str_eq_iff v to)

add_entry_adds :
    (m m' : List (Bytes × Bytes)) (from to : Bytes)
    → add_entry m from to ≡ ok m'
    → map_get from m' ≡ some to
unfolding add_entry
add_entry_adds m m' from to h = ground (arith, map_get-map_set from from to m, str_eq_iff from from)

-- Inversion of a successful bind.
>>=-eq-ok :
    {A B : Type 0} (r : Result A) (f : A → Result B) {b : B}
    → (r >>= f) ≡ ok b
    → (a : A) × (r ≡ ok a) × (f a ≡ ok b)
>>=-eq-ok (ok a) f h = (a, refl, h)
>>=-eq-ok (err e) f h = cc

add_entries-cons :
    (e : Bytes) (es : List Bytes) (m m' : List (Bytes × Bytes))
    → add_entries m (e ∷ es) ≡ ok m'
    → (p : Bytes × Bytes) × (d : List (Bytes × Bytes)) × (parse_map_entry e ≡ ok p)
      × (add_entry m p.0 p.1 ≡ ok d)
      × (add_entries d es ≡ ok m')
unfolding add_entries
add_entries-cons e es m m' h =
    let (p, parsed, h') = >>=-eq-ok (parse_map_entry e) _ h in
    let (d, added, h'') = >>=-eq-ok (add_entry m p.0 p.1) _ h' in (p, d, parsed, added, h'')

-- A rename that stands in the map stays there, with its target, when more entries are folded in
-- without an error: no entry overrides another.
add_entries_keeps :
    (es : List Bytes) (m m' : List (Bytes × Bytes)) (k v : Bytes)
    → add_entries m es ≡ ok m'
    → map_get k m ≡ some v
    → map_get k m' ≡ some v
add_entries_keeps [] m m' k v h g = unfold add_entries in cc
add_entries_keeps (e ∷ es) m m' k v h g =
    let ((from, to), d, p, q, r) = add_entries-cons e es m m' h in
    add_entries_keeps es d m' k v r (add_entry_keeps m d from to k v q g)

-- Every entry that is folded in without an error stands in the map that results, with its target.
pub add_entries_sound :
    (es : List Bytes) (m m' : List (Bytes × Bytes))
    → add_entries m es ≡ ok m'
    → All
        (λ e.
          (from : Bytes) × (to : Bytes) × (parse_map_entry e ≡ ok (from, to))
          × (map_get from m' ≡ some to))
        es
add_entries_sound [] m m' h = tt
add_entries_sound (e ∷ es) m m' h =
    let ((from, to), d, p, q, r) = add_entries-cons e es m m' h in
    (
      (from, to, p, add_entries_keeps es d m' from to r (add_entry_adds m d from to q)),
      add_entries_sound es d m' r,
    )
