-- ===== src/Measure/Runs.antt =====
-- Runs of internal/measure/measure.go on short names.
use tsm2arc.Prelude.{List, [], ◌∷◌, ◌++◌, true, false, none, some, Bytes, ◌≡◌, refl, ◌≢◌, ◌⊎◌, All}
use mathlib.Core.List.{Perm, Permᴰ}
use tsm2arc.Prelude.Strings.{codes, str_eq}
use tsm2arc.Measure.{
  valid, sanitize, policy_map, Resolver, ok, map_get, map_set, new_resolver, resolve, fingerprint,
  parse_map_entry, add_entries,
}
use tsm2arc.Measure.Valid.{resolve-valid}
use tsm2arc.Measure.Entries.{add_entries_sound}
use tsm2arc.Measure.Fingerprint.{fingerprint-perm}

sanitize_run : sanitize (codes "2024.löad") ≡ codes "m_2024_l_ad"
unfolding sanitize
sanitize_run = refl

cpu_valid : valid (codes "cpu-0") ≡ true
unfolding valid
cpu_valid = refl

abbrev renames : List (Bytes × Bytes)
renames = (codes "a.b", codes "ab") ∷ (codes "c=d", codes "cd") ∷ []

abbrev renaming : Resolver
renaming = record { explicit = renames; policy = policy_map }

renames_good : new_resolver renames policy_map ≡ ok renaming
unfolding new_resolver valid
renames_good = refl

resolve-valid_example :
    (valid (resolve (some renaming) (codes "c=d")).name ≡ true)
    ⊎ (((resolve (some renaming) (codes "c=d")).name ≡ [])
        × (valid (codes "c=d") ≡ false)
        × (map_get (codes "c=d") renames ≡ none)
        × (policy_map ≢ policy_map))
resolve-valid_example = resolve-valid renames policy_map renaming (codes "c=d") renames_good

c_d_ne_nil : codes "c=d" ≢ []
c_d_ne_nil h = cc

cd_valid : valid (codes "cd") ≡ true
unfolding valid
cd_valid = refl

parse_map_entry_run : parse_map_entry (codes "c=d=cd") ≡ ok (codes "c=d", codes "cd")
unfolding parse_map_entry
parse_map_entry_run = refl

add_entries_run : add_entries [] (codes "a.b=ab" ∷ codes "c=d=cd" ∷ []) ≡ ok renames
unfolding add_entries map_get map_set str_eq
add_entries_run = refl

add_entries_sound_example :
    All
      (λ e.
        (from : Bytes) × (to : Bytes) × (parse_map_entry e ≡ ok (from, to))
        × (map_get from renames ≡ some to))
      (codes "a.b=ab" ∷ codes "c=d=cd" ∷ [])
add_entries_sound_example =
    add_entries_sound (codes "a.b=ab" ∷ codes "c=d=cd" ∷ []) [] renames add_entries_run

add_entries_more :
    add_entries renames (codes "x=y" ∷ []) ≡ ok (renames ++ (codes "x", codes "y") ∷ [])
unfolding add_entries map_get map_set str_eq
add_entries_more = refl

a_b_kept : map_get (codes "a.b") renames ≡ some (codes "ab")
unfolding map_get str_eq
a_b_kept = refl

abbrev swapped : List (Bytes × Bytes)
swapped = (codes "c=d", codes "cd") ∷ (codes "a.b", codes "ab") ∷ []

swapped_perm : Perm renames swapped
swapped_perm = ∣ Permᴰ.trans (Permᴰ.swap refl refl) (Permᴰ.cons refl (Permᴰ.cons refl Permᴰ.nil)) ∣₁

fingerprint-perm_example :
    fingerprint (some (record { explicit = renames; policy = policy_map }))
    ≡ fingerprint (some (record { explicit = swapped; policy = policy_map }))
fingerprint-perm_example = fingerprint-perm renames swapped policy_map swapped_perm
