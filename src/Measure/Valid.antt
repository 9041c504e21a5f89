-- ===== src/Measure/Valid.antt =====
-- Which names leave internal/measure/measure.go: the rule, the rewriting and the policy.
use tsm2arc.Prelude.{
  ℕ, zero, suc, List, [], ◌∷◌, true, false, none, some, Bytes, ◌≡◌, refl, ap, ◌∙◌, ◌≢◌, ◌↔◌, ◌⊎◌,
  inl, inr, arith, Option-cases,
}
use tsm2arc.Prelude.Strings.{codes, str_eq, str_eq_iff}
use tsm2arc.Measure.{
  valid, is_letter, is_name_byte, all_name_bytes, rune_extra, replace_runes, prefix_letter,
  sanitize, Policy, policy_fail, policy_skip, policy_map, Resolver, map_get, ok, bad_targets,
  new_resolver, resolve, parse_policy, policy_string,
}

replace_runes-all_name_bytes : (n : ℕ) (s : Bytes) → all_name_bytes (replace_runes n s) ≡ true
unfolding replace_runes all_name_bytes
replace_runes-all_name_bytes n [] = refl
replace_runes-all_name_bytes (suc n) (c ∷ s) = replace_runes-all_name_bytes n s
replace_runes-all_name_bytes zero (c ∷ s) =
    ground (arith, replace_runes-all_name_bytes (rune_extra c s) s)

prefix_letter-valid : (s : Bytes) → all_name_bytes s ≡ true → valid (prefix_letter s) ≡ true
unfolding valid prefix_letter
prefix_letter-valid [] h = refl
prefix_letter-valid (c ∷ s) h = ground arith

-- Every rewritten name satisfies Arc's rule.
valid-sanitize : (name : Bytes) → valid (sanitize name) ≡ true
unfolding sanitize
valid-sanitize name = prefix_letter-valid _ (replace_runes-all_name_bytes 0 name)

rune_extra_ascii : (c : ℕ) (s : Bytes) → is_name_byte c ≡ true → rune_extra c s ≡ 0
unfolding rune_extra is_name_byte
rune_extra_ascii c s h = ground arith

replace_runes_name :
    (c : ℕ) (s : Bytes) → is_name_byte c ≡ true → replace_runes 0 (c ∷ s) ≡ c ∷ replace_runes 0 s
unfolding replace_runes
replace_runes_name c s h = rw (h, rune_extra_ascii c s h)

all_name_bytes-cons :
    (c : ℕ) (s : Bytes)
    → all_name_bytes (c ∷ s) ≡ true
    → (is_name_byte c ≡ true) × (all_name_bytes s ≡ true)
unfolding all_name_bytes
all_name_bytes-cons c s h = ground arith

replace_runes_same : (s : Bytes) → all_name_bytes s ≡ true → replace_runes 0 s ≡ s
replace_runes_same [] h = unfold replace_runes in refl
replace_runes_same (c ∷ s) h =
    let (hc, hs) = all_name_bytes-cons c s h in
    replace_runes_name c s hc ∙ ap (λ t. c ∷ t) (replace_runes_same s hs)

valid-cons :
    (c : ℕ) (s : Bytes)
    → valid (c ∷ s) ≡ true
    → (is_letter c ≡ true) × (all_name_bytes (c ∷ s) ≡ true)
unfolding valid all_name_bytes
valid-cons c s h = ground arith

prefix_letter-letter : (c : ℕ) (s : Bytes) → is_letter c ≡ true → prefix_letter (c ∷ s) ≡ c ∷ s
unfolding prefix_letter
prefix_letter-letter c s h = rw h

-- A name that satisfies the rule is not rewritten.
sanitize-valid : (name : Bytes) → valid name ≡ true → sanitize name ≡ name
unfolding sanitize
sanitize-valid [] h = unfold valid in cc
sanitize-valid (c ∷ s) h =
    let (hc, hs) = valid-cons c s h in
    ap prefix_letter (replace_runes_same (c ∷ s) hs) ∙ prefix_letter-letter c s hc

bad_targets_sound :
    (m : List (Bytes × Bytes)) (k v : Bytes)
    → bad_targets m ≡ none
    → map_get k m ≡ some v
    → valid v ≡ true
unfolding bad_targets map_get
bad_targets_sound [] k v h g = cc
bad_targets_sound ((j, w) ∷ m) k v h g = ground (arith, bad_targets_sound m k v)

new_resolver-ok :
    (explicit : List (Bytes × Bytes)) (policy : Policy) (r : Resolver)
    → new_resolver explicit policy ≡ ok r
    → (bad_targets explicit ≡ none) × (r.explicit ≡ explicit) × (r.policy ≡ policy)
unfolding new_resolver
new_resolver-ok explicit policy r h = ground arith

-- A name that a resolver of `new_resolver` lets through satisfies Arc's rule, whether it is passed,
-- renamed by the map or rewritten. Otherwise nothing is sent: the name breaks the rule, the map
-- does not rename it, and the policy is not to rewrite.
pub resolve-valid :
    (explicit : List (Bytes × Bytes)) (policy : Policy) (r : Resolver) (name : Bytes)
    → new_resolver explicit policy ≡ ok r
    → (valid (resolve (some r) name).name ≡ true)
      ⊎ (((resolve (some r) name).name ≡ [])
          × (valid name ≡ false)
          × (map_get name explicit ≡ none)
          × (policy ≢ policy_map))
unfolding resolve
resolve-valid explicit policy r name h =
    let (good, e, p) = new_resolver-ok explicit policy r h in
    elim (Option-cases (map_get name explicit)) [
      | inl missing ↦ ground (arith, valid-sanitize name)
      | inr (to, found) ↦ ground (arith, bad_targets_sound explicit name to good found)
    ]

policy_texts :
    (s : Bytes)
    → ((str_eq s (codes "fail") ≡ true) ↔ (s ≡ codes "fail"))
      × ((str_eq s (codes "skip") ≡ true) ↔ (s ≡ codes "skip"))
      × ((str_eq s (codes "map") ≡ true) ↔ (s ≡ codes "map"))
policy_texts s = (str_eq_iff s _, str_eq_iff s _, str_eq_iff s _)

-- The flag's text of a policy is read back, and only the three texts are read.
parse_policy_iff : (s : Bytes) (p : Policy) → (parse_policy s ≡ some p) ↔ (s ≡ policy_string p)
unfolding parse_policy policy_string
parse_policy_iff s policy_fail = ground (arith, policy_texts s)
parse_policy_iff s policy_skip = ground (arith, policy_texts s)
parse_policy_iff s policy_map = ground (arith, policy_texts s)
