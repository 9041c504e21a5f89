-- ===== src/Measure/Fingerprint.antt =====
-- The resume fingerprint of internal/measure/measure.go.
use tsm2arc.Prelude.{
  List, [], ◌∷◌, map, Bool, true, false, some, Bytes, ◌≡◌, refl, ap, ◌∙◌, ◌↔◌, arith,
}
use mathlib.Core.Bool.{Bool-set}
use mathlib.Core.List.{Perm, Permᴰ}
use mathlib.Core.Logic.{∥∥₁_elim, ∥∥₁_map}
use tsm2arc.Prelude.Sorting.{sort_strings-perm}
use tsm2arc.Measure.{
  Policy, policy_fail, policy_skip, policy_map, entry_string, is_default, fingerprint,
}

map-Permᴰ {ℓ κ} :
    {A : Type ℓ} {B : Type κ} (f : A → B) {xs ys : List A}
    → Permᴰ xs ys
    → Permᴰ (map f xs) (map f ys)
map-Permᴰ f Permᴰ.nil = Permᴰ.nil
map-Permᴰ f (Permᴰ.cons e p) = Permᴰ.cons (ap f e) (map-Permᴰ f p)
map-Permᴰ f (Permᴰ.swap e g) = Permᴰ.swap (ap f e) (ap f g)
map-Permᴰ f (Permᴰ.trans p q) = Permᴰ.trans (map-Permᴰ f p) (map-Permᴰ f q)

is_nil : List (Bytes × Bytes) → Bool
is_nil [] = true
is_nil (x ∷ xs) = false

Permᴰ-is_nil : {m m' : List (Bytes × Bytes)} → Permᴰ m m' → is_nil m ≡ is_nil m'
unfolding is_nil
Permᴰ-is_nil Permᴰ.nil = refl
Permᴰ-is_nil (Permᴰ.cons e p) = refl
Permᴰ-is_nil (Permᴰ.swap e f) = refl
Permᴰ-is_nil (Permᴰ.trans p q) = Permᴰ-is_nil p ∙ Permᴰ-is_nil q

is_default-is_nil :
    (m m' : List (Bytes × Bytes)) (p : Policy)
    → is_nil m ≡ is_nil m'
    → is_default (record { explicit = m; policy = p })
      ≡ is_default (record { explicit = m'; policy = p })
unfolding is_nil is_default
is_default-is_nil [] [] p h = refl
is_default-is_nil [] (x ∷ m') p h = cc
is_default-is_nil (x ∷ m) [] p h = cc
is_default-is_nil (x ∷ m) (y ∷ m') p h = refl

-- The order in which Go walks the rename map does not show in the fingerprint.
pub fingerprint-perm :
    (m m' : List (Bytes × Bytes)) (p : Policy)
    → Perm m m'
    → fingerprint (some (record { explicit = m; policy = p }))
      ≡ fingerprint (some (record { explicit = m'; policy = p }))
unfolding fingerprint
fingerprint-perm m m' p h = rw (
  sort_strings-perm (∥∥₁_map h (map-Permᴰ entry_string)),
  is_default-is_nil m m' p (∥∥₁_elim h (Bool-set _ _) Permᴰ-is_nil),
)

-- The fingerprint is empty exactly for the defaults: no resolver, or no renames and the policy to
-- fail.
fingerprint-nil_iff :
    (m : List (Bytes × Bytes)) (p : Policy)
    → (fingerprint (some (record { explicit = m; policy = p })) ≡ [])
      ↔ ((m ≡ []) × (p ≡ policy_fail))
unfolding fingerprint
fingerprint-nil_iff [] policy_fail = ground arith
fingerprint-nil_iff [] policy_skip = ground arith
fingerprint-nil_iff [] policy_map = ground arith
fingerprint-nil_iff (x ∷ m) p = ground arith
