-- ===== src/Tsm/Index/Blocks.antt =====
-- `readEntry` and `ReadKey` of internal/tsm/reader.go on entries that lie within the file.
use tsm2arc.Prelude.{
  ℕ, ◌+◌, ◌^◌, ◌≤◌, ◌<◌, ◌++◌, false, ◌||◌, Option, ltb, length, length-append, take-length-append,
  drop-length-append, Bytes, ◌≡◌, refl, ap, arith,
}
use tsm2arc.Prelude.Int64.{pos, int64, uint64, add64, ltb_ℤ}
use tsm2arc.Tsm.{IndexEntry, ok}
use tsm2arc.Tsm.Block.{decode_block}
use tsm2arc.Tsm.Index.{File, Reader, read_at, read_entry}

-- The entry points at the bytes `s` of the file, which is below 2 ^ 63 bytes and still as long as
-- the index says.
pub record PointsAt (r : Reader) (e : IndexEntry) (s : Bytes) : Type 0 where
  pub before : Bytes
  pub after : Bytes
  pub contents : r.f.bytes ≡ before ++ (s ++ after)
  pub at_offset : e.offset ≡ pos (length before)
  pub of_size : e.size ≡ length s
  pub same_size : r.ix.size ≡ length r.f.bytes
  pub addressable : length r.f.bytes < 2 ^ 63

add64_small : (m n : ℕ) → m + n < 2 ^ 63 → add64 (pos m) (pos n) ≡ pos (m + n)
unfolding add64 int64 uint64
add64_small m n h = ground arith

read_at_inside :
    (f : File) (before s after : Bytes)
    → f.bytes ≡ before ++ (s ++ after)
    → read_at f (length s) (length before) ≡ ok s
unfolding read_at
read_at_inside f before s after h =
    let l = length-append before (s ++ after) in
    let m = length-append s after in
    let whole : ltb (length (before ++ (s ++ after))) (length before + length s) ≡ false =
      ground arith in
    rw (h, whole, drop-length-append before (s ++ after), take-length-append s after) refl

within_file :
    (m n size : ℕ)
    → m + n ≤ size
    → size < 2 ^ 63
    → (ltb_ℤ (pos m) (pos 0) || ltb_ℤ (pos size) (add64 (pos m) (pos n))) ≡ false
within_file m n size h k = rw (add64_small m n (omega arith)) (ground arith)

-- An entry within the file is read to exactly the bytes that it points at, decoded as one block.
read_entry_inside :
    (snappy : Bytes → Option Bytes) (r : Reader) (type : ℕ) (e : IndexEntry) (s : Bytes)
    → PointsAt r e s
    → read_entry snappy r type e ≡ decode_block snappy type s
unfolding read_entry
read_entry_inside snappy r type e s p =
    let n = length-append p.before (s ++ p.after) in
    let m = length-append s p.after in
    let total = ap (λ (b : Bytes). length b) p.contents in
    let free =
      within_file (length p.before) (length s) r.ix.size (omega (arith, p.same_size))
        (omega (arith, p.same_size, p.addressable)) in
    rw (p.at_offset, p.of_size, free, read_at_inside r.f p.before s p.after p.contents) refl
