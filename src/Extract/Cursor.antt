-- ===== src/Extract/Cursor.antt =====
-- The resume cursor of internal/extract/extract.go.
pub mod Start
pub mod Apply
use tsm2arc.Prelude.{
  List, [], ◌∷◌, Bool, true, false, not, ◌||◌, Option, none, some, if◌then◌else◌, Bytes,
}
use tsm2arc.Prelude.Int64.{ℤ, pos, add64, max_int64}
use tsm2arc.Prelude.Times.{earlier, same}
use tsm2arc.Prelude.Strings.{str_eq, str_lt}
use tsm2arc.Prelude.Sorting.{sort_strings}

pub record Cursor : Type 0 where
  pub series_key : Bytes
  pub unix_nano : ℤ

-- The slice from `sort.SearchStrings` on: from the first string that is not before `s`.
unfoldable pub search_strings : Bytes → List Bytes → List Bytes
search_strings s [] = []
search_strings s (t ∷ ts) = let rest = search_strings s ts in if str_lt t s then rest else t ∷ ts

-- `i == len(order) || order[i] != key`, and the slice from `i` on.
abbrev pub from_cursor : Bytes → List Bytes → Option (List Bytes)
from_cursor key [] = none
from_cursor key (s ∷ ss) = if not (str_eq s key) then none else some (s ∷ ss)

-- The new order; `none` is the error of a cursor whose series is not in the shard.
unfoldable pub apply_cursor : List Bytes → Option Cursor → Option (List Bytes)
apply_cursor order none = some (sort_strings order)
apply_cursor order (some cur) =
    from_cursor cur.series_key (search_strings cur.series_key (sort_strings order))

unfoldable pub series_start_for : Bytes → ℤ → Option Cursor → ℤ × Bool
series_start_for sk start none = (start, true)
series_start_for sk start (some cur) =
    if not (str_eq sk cur.series_key)
    then (start, true)
    else if same cur.unix_nano max_int64
    then (pos 0, false)
    else if earlier start (add64 cur.unix_nano (pos 1))
    then (add64 cur.unix_nano (pos 1), true)
    else (start, true)
