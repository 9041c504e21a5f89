-- ===== src/Extract/Cursor/Apply.antt =====
-- `applyCursor` of internal/extract/extract.go: the series that are left, or that the shard changed.
use tsm2arc.Prelude.{
  List, [], ◌∷◌, false, none, some, if◌then◌else◌, Bytes, ◌≡◌, refl, ap, ◌∙◌, inl, inr, arith, All,
  Bool-cases,
}
use tsm2arc.Prelude.Strings.{str_eq, str_lt, str_eq_iff, str_lt_irrefl, str_lt_connex, str_le_trans}
use tsm2arc.Prelude.Sorting.{
  sort_strings, AreSorted, sort_strings-AreSorted, has_string, has_string-sort_strings,
}
use tsm2arc.Extract.Cursor.{Cursor, search_strings, from_cursor, apply_cursor}

-- The strings at or after `s`.
unfoldable pub strings_from : Bytes → List Bytes → List Bytes
strings_from s [] = []
strings_from s (t ∷ ts) = let rest = strings_from s ts in if str_lt t s then rest else t ∷ rest

pub strings_from_whole :
    (s t : Bytes) (us : List Bytes)
    → str_lt t s ≡ false
    → All (λ u. str_lt u t ≡ false) us
    → strings_from s us ≡ us
unfolding strings_from
strings_from_whole s t [] h k = refl
strings_from_whole s t (u ∷ us) h (k, ks) =
    rw (str_le_trans s t u h k, strings_from) (ap (λ vs. u ∷ vs) (strings_from_whole s t us h ks))

-- A string before all of a list is not in it.
pub has_string_before :
    (s t : Bytes) (us : List Bytes)
    → str_lt t s ≡ false
    → str_eq t s ≡ false
    → All (λ u. str_lt u t ≡ false) us
    → has_string s us ≡ false
unfolding has_string
has_string_before s t [] h d k = refl
has_string_before s t (u ∷ us) h d (k, ks) =
    let differ : str_eq u s ≡ false =
      ground (arith, str_eq_iff u s, str_eq_iff t s, str_lt_connex t s) in
    rw differ (has_string_before s t us h d ks)

from_cursor-search_strings :
    (key : Bytes) (ss : List Bytes)
    → AreSorted ss
    → from_cursor key (search_strings key ss)
      ≡ (if has_string key ss then some (strings_from key ss) else none)
unfolding search_strings has_string strings_from
from_cursor-search_strings key [] a = refl
from_cursor-search_strings key (s ∷ ss) (k, a) = elim (Bool-cases (str_lt s key)) [
  | inl e ↦
      let differ : str_eq s key ≡ false = ground (arith, str_eq_iff s key, str_lt_irrefl s) in
      rw (e, search_strings) (rw differ (from_cursor-search_strings key ss a))
  | inr e ↦
      let kept = strings_from_whole key s ss e k in
      elim (Bool-cases (str_eq s key)) [
        | inl q ↦ rw (e, search_strings) (rw (q, kept) refl)
        | inr q ↦ rw (e, search_strings) (rw (q, has_string_before key s ss e q k) refl)
      ]
]

-- With a cursor whose series is in the shard, the series at or after it are left, sorted; with one
-- whose series is not, there is an error; without a cursor all are left, sorted.
pub apply_cursor-strings_from :
    (order : List Bytes) (cur : Cursor)
    → apply_cursor order (some cur) ≡ (
        if has_string cur.series_key order
        then some (strings_from cur.series_key (sort_strings order))
        else none)
unfolding apply_cursor
apply_cursor-strings_from order cur =
    from_cursor-search_strings cur.series_key (sort_strings order) (sort_strings-AreSorted order)
    ∙ rw (has_string-sort_strings cur.series_key order) refl
