-- ===== src/Prelude/Sorting.antt =====
-- What the program uses of Go's `sort` over strings.
use tsm2arc.Prelude.Tests.{if◌then◌else◌, Bool-cases}
use tsm2arc.Prelude.Lists.{Bytes, All}
use tsm2arc.Prelude.Strings.{
  str_eq, str_lt, str_lt_trans, str_lt_asymm, str_lt_connex, str_le_trans,
}
use mathlib.Core.Path.{◌≡◌, refl, ap, ap₂, ◌∙◌}
use mathlib.Core.Logic.{∥∥₁_elim, inl, inr}
use mathlib.Core.Bool.{Bool, false, ◌||◌}
use mathlib.Core.List.{List, [], ◌∷◌, Perm, Permᴰ}
use native.Mathlib.Omega.{arith}

-- `sort.Strings`: equal strings are the same string, so every sort gives this list.
insert_string : Bytes → List Bytes → List Bytes
insert_string s [] = s ∷ []
insert_string s (t ∷ ts) = if str_lt t s then t ∷ insert_string s ts else s ∷ t ∷ ts

unfoldable pub sort_strings : List Bytes → List Bytes
unfolding insert_string
sort_strings [] = []
sort_strings (s ∷ ts) = insert_string s (sort_strings ts)

insert_string_comm :
    (s t : Bytes) (ts : List Bytes)
    → insert_string s (insert_string t ts) ≡ insert_string t (insert_string s ts)
unfolding insert_string
insert_string_comm s t [] = ground (arith, str_lt_asymm s t, str_lt_connex s t)
insert_string_comm s t (u ∷ ts) = ground (
  arith,
  str_lt_asymm s t,
  str_lt_connex s t,
  str_lt_trans u s t,
  str_lt_trans u t s,
  str_lt_asymm t s,
  str_lt_trans s u t,
  str_lt_trans t u s,
  str_lt_connex s u,
  str_lt_connex t u,
  insert_string_comm s t ts,
)

-- Each string is at or after those before it.
abbrev pub AreSorted : List Bytes → Type 0
AreSorted [] = Unit
AreSorted (s ∷ ts) = All (λ t. str_lt t s ≡ false) ts × AreSorted ts

from_lower :
    (s t : Bytes) (us : List Bytes)
    → str_lt t s ≡ false
    → All (λ u. str_lt u t ≡ false) us
    → All (λ u. str_lt u s ≡ false) us
from_lower s t [] h k = tt
from_lower s t (u ∷ us) h (k, ks) = (str_le_trans s t u h k, from_lower s t us h ks)

from_lower-insert_string :
    (s t : Bytes) (us : List Bytes)
    → str_lt t s ≡ false
    → All (λ u. str_lt u s ≡ false) us
    → All (λ u. str_lt u s ≡ false) (insert_string t us)
unfolding insert_string
from_lower-insert_string s t [] h k = (h, tt)
from_lower-insert_string s t (u ∷ us) h (k, ks) = elim (Bool-cases (str_lt u t)) [
  | inl e ↦ rw (e, insert_string) (k, from_lower-insert_string s t us h ks)
  | inr e ↦ rw (e, insert_string) (h, (k, ks))
]

insert_string-AreSorted :
    (s : Bytes) (ts : List Bytes) → AreSorted ts → AreSorted (insert_string s ts)
unfolding insert_string
insert_string-AreSorted s [] a = (tt, tt)
insert_string-AreSorted s (t ∷ ts) (k, a) = elim (Bool-cases (str_lt t s)) [
  | inl e ↦
      rw (e, insert_string)
        (from_lower-insert_string t s ts (str_lt_asymm t s e) k, insert_string-AreSorted s ts a)
  | inr e ↦ rw (e, insert_string) ((e, from_lower s t ts e k), (k, a))
]

pub sort_strings-AreSorted : (ss : List Bytes) → AreSorted (sort_strings ss)
unfolding sort_strings
sort_strings-AreSorted [] = tt
sort_strings-AreSorted (s ∷ ss) =
    insert_string-AreSorted s (sort_strings ss) (sort_strings-AreSorted ss)

-- `s` is among `ts`.
unfoldable pub has_string : Bytes → List Bytes → Bool
has_string s [] = false
has_string s (t ∷ ts) = str_eq t s || has_string s ts

has_string-insert_string :
    (s t : Bytes) (us : List Bytes)
    → has_string s (insert_string t us) ≡ (str_eq t s || has_string s us)
unfolding insert_string has_string
has_string-insert_string s t [] = refl
has_string-insert_string s t (u ∷ us) = ground (arith, has_string-insert_string s t us)

pub has_string-sort_strings :
    (s : Bytes) (ts : List Bytes) → has_string s (sort_strings ts) ≡ has_string s ts
unfolding sort_strings has_string
has_string-sort_strings s [] = refl
has_string-sort_strings s (t ∷ ts) =
    has_string-insert_string s t (sort_strings ts)
    ∙ ap (λ b. str_eq t s || b) (has_string-sort_strings s ts)

-- The order in which a map is walked does not show in a sorted list.
sort_strings-Permᴰ : {ss ts : List Bytes} → Permᴰ ss ts → sort_strings ss ≡ sort_strings ts
unfolding sort_strings
sort_strings-Permᴰ Permᴰ.nil = refl
sort_strings-Permᴰ (Permᴰ.cons e p) = ap₂ insert_string e (sort_strings-Permᴰ p)
sort_strings-Permᴰ (Permᴰ.swap {l = ts} e f) =
    insert_string_comm _ _ (sort_strings ts)
    ∙ ap₂ (λ s t. insert_string s (insert_string t (sort_strings ts))) f e
sort_strings-Permᴰ (Permᴰ.trans p q) = sort_strings-Permᴰ p ∙ sort_strings-Permᴰ q

Strings-set : IsSet (List Bytes)
Strings-set = hlevel

pub sort_strings-perm : {ss ts : List Bytes} → Perm ss ts → sort_strings ss ≡ sort_strings ts
sort_strings-perm p = ∥∥₁_elim p (Strings-set _ _) sort_strings-Permᴰ
