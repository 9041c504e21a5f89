-- ===== src/Measure.antt =====
-- internal/measure/measure.go: Arc's rule for measurement names, the rename map and the policy for
-- names that break the rule. A name is its bytes, and a Go map is the list of its entries, each key
-- once. Error messages carry what they quote.
pub mod Valid
pub mod Entries
pub mod Fingerprint
pub mod Runs
use tsm2arc.Prelude.{
  ℕ, zero, suc, ◌+◌, ◌-◌, List, [], ◌∷◌, ◌++◌, map, Bool, true, false, not, ◌&&◌, ◌||◌, Option,
  none, some, ltb, leb, ◌==◌, if◌then◌else◌, length, Bytes,
}
use tsm2arc.Prelude.Strings.{codes, str_eq, join_strings}
use tsm2arc.Prelude.Sorting.{sort_strings}

is_letter : ℕ → Bool
is_letter c = (leb b'a' c && leb c b'z') || (leb b'A' c && leb c b'Z')

-- A letter, a digit, `_` or `-`.
is_name_byte : ℕ → Bool
unfolding is_letter
is_name_byte c = is_letter c || (leb b'0' c && leb c b'9') || c == b'_' || c == b'-'

all_name_bytes : Bytes → Bool
unfolding is_name_byte
all_name_bytes [] = true
all_name_bytes (c ∷ s) = is_name_byte c && all_name_bytes s

unfoldable pub valid : Bytes → Bool
unfolding all_name_bytes is_letter
valid [] = false
valid (c ∷ s) = is_letter c && all_name_bytes s

-- The continuation bytes that Go's `range` takes with the first byte `b` of a rune: none unless the
-- bytes are well-formed UTF-8.
is_cont : ℕ → ℕ → ℕ → Bool
is_cont lo hi c = leb lo c && leb c hi

cont_two : Bytes → Bool
unfolding is_cont
cont_two [] = false
cont_two (c ∷ s) = is_cont 0x80 0xbf c

cont_three : ℕ → ℕ → Bytes → Bool
unfolding is_cont cont_two
cont_three lo hi [] = false
cont_three lo hi (c ∷ s) = is_cont lo hi c && cont_two s

cont_four : ℕ → ℕ → Bytes → Bool
unfolding is_cont cont_three
cont_four lo hi [] = false
cont_four lo hi (c ∷ s) = is_cont lo hi c && cont_three 0x80 0xbf s

rune_extra : ℕ → Bytes → ℕ
unfolding cont_two cont_three cont_four
rune_extra b s =
    if ltb b 0xc2
    then 0
    else if leb b 0xdf
    then (if cont_two s then 1 else 0)
    else if leb b 0xef
    then (if cont_three (if b == 0xe0 then 0xa0 else 0x80) (if b == 0xed then 0x9f else 0xbf) s
        then 2
        else 0)
    else if leb b 0xf4
    then (if cont_four (if b == 0xf0 then 0x90 else 0x80) (if b == 0xf4 then 0x8f else 0xbf) s
        then 3
        else 0)
    else 0

-- The loop over the runes; the first argument counts the bytes of the current rune still to pass.
replace_runes : ℕ → Bytes → Bytes
unfolding rune_extra is_name_byte
replace_runes n [] = []
replace_runes (suc n) (c ∷ s) = replace_runes n s
replace_runes zero (c ∷ s) = (if is_name_byte c then c else b'_') ∷ replace_runes (rune_extra c s) s

prefix_letter : Bytes → Bytes
unfolding is_letter
prefix_letter [] = codes "m_"
prefix_letter (c ∷ s) = if is_letter c then c ∷ s else codes "m_" ++ c ∷ s

unfoldable pub sanitize : Bytes → Bytes
unfolding replace_runes prefix_letter
sanitize name = prefix_letter (replace_runes 0 name)

pub data Policy : Type 0 where
  policy_fail policy_skip policy_map : Policy

unfoldable pub parse_policy : Bytes → Option Policy
parse_policy s =
    if str_eq s (codes "fail")
    then some policy_fail
    else if str_eq s (codes "skip")
    then some policy_skip
    else if str_eq s (codes "map")
    then some policy_map
    else none

unfoldable pub policy_string : Policy → Bytes
policy_string policy_skip = codes "skip"
policy_string policy_map = codes "map"
policy_string policy_fail = codes "fail"

pub data Action : Type 0 where
  action_pass action_renamed action_auto_renamed action_skipped action_invalid : Action

pub record Resolution : Type 0 where
  pub name : Bytes
  pub action : Action

pub record Resolver : Type 0 where
  pub explicit : List (Bytes × Bytes)
  pub policy : Policy

-- `m[k]` on a map.
unfoldable pub map_get : Bytes → List (Bytes × Bytes) → Option Bytes
map_get k [] = none
map_get k ((j, v) ∷ m) = if str_eq j k then some v else map_get k m

-- `m[k] = v`
unfoldable pub map_set : Bytes → Bytes → List (Bytes × Bytes) → List (Bytes × Bytes)
map_set k v [] = (k, v) ∷ []
map_set k v ((j, w) ∷ m) = if str_eq j k then (j, v) ∷ m else (j, w) ∷ map_set k v m

pub data MapError : Type 0 where
  bad_target : Bytes → Bytes → MapError
  bad_entry : Bytes → MapError
  conflict : Bytes → Bytes → Bytes → MapError

pub data Result (A : Type 0) : Type 0 where
  ok : A → Result A
  err : MapError → Result A

-- The first entry of the walk whose target is not a valid name.
bad_targets : List (Bytes × Bytes) → Option MapError
bad_targets [] = none
bad_targets ((from, to) ∷ m) = if valid to then bad_targets m else some (bad_target to from)

unfoldable pub new_resolver : List (Bytes × Bytes) → Policy → Result Resolver
unfolding bad_targets
new_resolver explicit policy = elim (bad_targets explicit) [
  | some e ↦ err e
  | none ↦ ok (record { explicit = explicit; policy = policy })
]

by_policy : Policy → Bytes → Resolution
by_policy policy_skip name = record { name = []; action = action_skipped }
by_policy policy_map name = record { name = sanitize name; action = action_auto_renamed }
by_policy policy_fail name = record { name = []; action = action_invalid }

-- A nil `*Resolver` is `none`.
unfoldable pub resolve : Option Resolver → Bytes → Resolution
unfolding by_policy
resolve none name = record { name = name; action = action_pass }
resolve (some r) name = elim (map_get name r.explicit) [
  | some to ↦ record { name = to; action = action_renamed }
  | none ↦
      if valid name then record { name = name; action = action_pass } else by_policy r.policy name
]

entry_string : Bytes × Bytes → Bytes
entry_string (from, to) = from ++ b'=' ∷ to

is_default : Resolver → Bool
is_default r = elim r.explicit [
  | [] ↦ elim r.policy [ policy_fail ↦ true | _ ↦ false ]
  | x ∷ xs ↦ false
]

unfoldable pub fingerprint : Option Resolver → Bytes
unfolding entry_string is_default policy_string
fingerprint none = []
fingerprint (some r) =
    if is_default r
    then []
    else codes "mmap="
      ++ join_strings (codes ",") (sort_strings (map entry_string r.explicit))
      ++ codes ";on-invalid="
      ++ policy_string r.policy

-- What stands before and behind the last `=`.
split_last : Bytes → Option (Bytes × Bytes)
split_last [] = none
split_last (c ∷ s) = elim (split_last s) [
  | some (from, to) ↦ some (c ∷ from, to)
  | none ↦ if c == b'=' then some ([], s) else none
]

both_filled : Bytes → Bytes → Bool
both_filled [] to = false
both_filled (c ∷ from) [] = false
both_filled (c ∷ from) (d ∷ to) = true

unfoldable pub parse_map_entry : Bytes → Result (Bytes × Bytes)
unfolding split_last both_filled
parse_map_entry entry = elim (split_last entry) [
  | none ↦ err (bad_entry entry)
  | some (from, to) ↦ if both_filled from to then ok (from, to) else err (bad_entry entry)
]

-- One entry of `AddEntries`; the map is the result, where the code writes into it.
add_entry : List (Bytes × Bytes) → Bytes → Bytes → Result (List (Bytes × Bytes))
add_entry dst from to = elim (map_get from dst) [
  | none ↦ ok (map_set from to dst)
  | some prev ↦ if str_eq prev to then ok (map_set from to dst) else err (conflict from prev to)
]

infixl 5 ◌>>=◌
abbrev pub ◌>>=◌ : {A B : Type 0} → Result A → (A → Result B) → Result B
ok a >>= f = f a
err e >>= f = err e

unfoldable pub add_entries : List (Bytes × Bytes) → List Bytes → Result (List (Bytes × Bytes))
unfolding parse_map_entry add_entry
add_entries dst [] = ok dst
add_entries dst (e ∷ es) = do
  (from, to) ← parse_map_entry e
  dst' ← add_entry dst from to
  add_entries dst' es
