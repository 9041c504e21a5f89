-- ===== src/Tsm.antt =====
-- internal/tsm/tsm.go: the constants and the types that the readers share. A float64 is its bit
-- pattern, a uint64 a number below 2 ^ 64, an int64 the integer that it stands for.
pub mod Binary
pub mod Xor
pub mod Words
pub mod Simple8b
pub mod Timestamp
pub mod Integer
pub mod Boolean
pub mod Float
pub mod Text
pub mod Block
pub mod Index
pub mod Runs
use tsm2arc.Prelude.{ℕ, List, [], Bool, true, false, Bytes}
use tsm2arc.Prelude.Int64.{ℤ, pos}

abbrev pub magic : ℕ
magic = 0x16D116D1

abbrev pub version : ℕ
version = 0x01

abbrev pub header_size : ℕ
header_size = 5

abbrev pub footer_size : ℕ
footer_size = 8

abbrev pub index_entry_size : ℕ
index_entry_size = 28

abbrev pub block_float : ℕ
block_float = 0

abbrev pub block_integer : ℕ
block_integer = 1

abbrev pub block_boolean : ℕ
block_boolean = 2

abbrev pub block_string : ℕ
block_string = 3

abbrev pub block_unsigned : ℕ
block_unsigned = 4

pub data Error : Type 0 where
  bad_magic bad_version short_buffer bad_block unknown_type bad_time_enc bad_float_enc : Error
  bad_int_enc bad_bool_enc bad_string_enc snappy_error read_error source_changed : Error

-- A Go result: a value, an error, or a run-time panic. `stuck` is no result of the code: a loop ran
-- out of the fuel that the model gives it.
pub data Result {ℓ} (A : Type ℓ) : Type ℓ where
  ok : A → Result A
  err : Error → Result A
  crash : Result A
  stuck : Result A

infixl 5 ◌>>=◌ ◌>>◌
abbrev pub ◌>>=◌ {ℓ κ} : {A : Type ℓ} {B : Type κ} → Result A → (A → Result B) → Result B
ok a >>= f = f a
err e >>= f = err e
crash >>= f = crash
stuck >>= f = stuck

abbrev pub ◌>>◌ {ℓ} : {B : Type ℓ} → Result (Unit {0}) → Result B → Result B
m >> k = m >>= λ _. k

-- `if bad { return nil, e }`
abbrev pub fail_if : Bool → Error → Result (Unit {0})
fail_if true e = err e
fail_if false e = ok tt

pub record Value : Type 0 where
  pub unix_nano : ℤ
  pub type : ℕ
  pub float : ℕ
  pub integer : ℤ
  pub unsigned : ℕ
  pub boolean : Bool
  pub string : Bytes

-- `Value{}`
abbrev pub zero_value : Value
zero_value = record {
  unix_nano = pos 0;
  type = 0;
  float = 0;
  integer = pos 0;
  unsigned = 0;
  boolean = false;
  string = [];
}

pub record IndexEntry : Type 0 where
  pub min_time : ℤ
  pub max_time : ℤ
  pub offset : ℤ
  pub size : ℕ

pub record KeyBlocks : Type 0 where
  pub key : Bytes
  pub type : ℕ
  pub entries : List IndexEntry
