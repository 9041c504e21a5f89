-- ===== src/Tsm/Block.antt =====
-- internal/tsm/reader.go, `decodeBlock` and the `zip` functions: a block into its values.
pub mod Layout
use tsm2arc.Prelude.{
  ℕ, ◌+◌, ◌^◌, ◌%◌, List, [], ◌∷◌, Bool, true, false, not, Option, none, some, ltb, ◌==◌,
  if◌then◌else◌, length, take, drop, Bytes,
}
use tsm2arc.Prelude.Int64.{ℤ, uint64}
use tsm2arc.Tsm.{
  Error, Result, ok, err, crash, bad_block, unknown_type, ◌>>=◌, ◌>>◌, fail_if, Value, zero_value,
  block_float, block_integer, block_boolean, block_string, block_unsigned,
}
use tsm2arc.Tsm.Binary.{uvarint}
use tsm2arc.Tsm.Timestamp.{decode_timestamps}
use tsm2arc.Tsm.Integer.{decode_integers}
use tsm2arc.Tsm.Boolean.{decode_booleans}
use tsm2arc.Tsm.Float.{decode_floats}
use tsm2arc.Tsm.Text.{decode_strings}

-- The loop that the five `zip` functions share, each with its own value.
abbrev pub zip_with {ℓ} : {A : Type ℓ} → (ℤ → A → Value) → List ℤ → List A → List Value
zip_with f [] vs = []
zip_with f (t ∷ ts) [] = []
zip_with f (t ∷ ts) (v ∷ vs) = f t v ∷ zip_with f ts vs

-- `zipLenCheck`, then the loop.
unfoldable pub zip_checked {ℓ} :
    {A : Type ℓ} → (ℤ → A → Value) → List ℤ → List A → Result (List Value)
zip_checked f ts vs = do fail_if (not (length ts == length vs)) bad_block; ok (zip_with f ts vs)

abbrev pub float_value : ℤ → ℕ → Value
float_value t v = record zero_value { unix_nano = t; type = block_float; float = v }

abbrev pub integer_value : ℤ → ℤ → Value
integer_value t v = record zero_value { unix_nano = t; type = block_integer; integer = v }

abbrev pub unsigned_value : ℤ → ℤ → Value
unsigned_value t v = record zero_value { unix_nano = t; type = block_unsigned; unsigned = uint64 v }

abbrev pub boolean_value : ℤ → Bool → Value
boolean_value t v = record zero_value { unix_nano = t; type = block_boolean; boolean = v }

abbrev pub string_value : ℤ → Bytes → Value
string_value t v = record zero_value { unix_nano = t; type = block_string; string = v }

module _ (snappy : Bytes → Option Bytes) where
  -- The `switch` over the block's type.
  unfoldable pub decode_values : ℕ → List ℤ → Bytes → Result (List Value)
  decode_values type times b =
      if type == block_float
      then decode_floats b >>= zip_checked float_value times
      else if type == block_integer
      then decode_integers b >>= zip_checked integer_value times
      else if type == block_unsigned
      then decode_integers b >>= zip_checked unsigned_value times
      else if type == block_boolean
      then decode_booleans b >>= zip_checked boolean_value times
      else if type == block_string
      then decode_strings snappy b >>= zip_checked string_value times
      else err unknown_type

  -- The two sections; `body[:tsLen]` panics where `tsLen` is past the end, which the check misses
  -- when `n + tsLen` wraps.
  unfoldable pub decode_sections : ℕ → ℕ → ℕ → Bytes → Result (List Value)
  decode_sections type ts_len n body = do
    fail_if (ltb (length body) ((n + ts_len) % 2 ^ 64)) bad_block
    let body' = drop n body
    let sections = (do
      times ← decode_timestamps (take ts_len body')
      decode_values type times (drop ts_len body'))
    if ltb (length body') ts_len then crash else sections

  unfoldable pub decode_body : ℕ → Bytes → Result (List Value)
  decode_body type body = elim (uvarint body) [
    | none ↦ err bad_block
    | some (ts_len, n) ↦ decode_sections type ts_len n body
  ]

  -- `decodeBlock`: the block's own type byte is trusted, whatever the index says.
  unfoldable pub decode_block : ℕ → Bytes → Result (List Value)
  decode_block type (c0 ∷ c1 ∷ c2 ∷ c3 ∷ block_type ∷ body) =
      decode_body (if not (block_type == type) then block_type else type) body
  decode_block type raw = err bad_block
