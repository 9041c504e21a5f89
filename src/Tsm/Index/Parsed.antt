-- ===== src/Tsm/Index/Parsed.antt =====
-- `parseIndex` of internal/tsm/reader.go on a whole file: header, blocks, index, footer.
use tsm2arc.Prelude.{
  ℕ, zero, suc, ◌+◌, ◌-◌, ◌^◌, ◌≤◌, ◌<◌, List, [], ◌∷◌, ◌++◌, false, ◌||◌, ltb, length,
  length-append, take, drop, take-length-append, drop-length-append, Bytes, ◌≡◌, refl, sym, ap, ◌∙◌,
  arith, All, append_assoc, append-nil, Bool-cases, inl, inr,
}
use mathlib.Core.List.{Perm, Permᴰ}
use mathlib.Core.List.Permᴰ
use tsm2arc.Prelude.Int64.{pos, int64}
use tsm2arc.Prelude.Strings.{str_lt}
use tsm2arc.Tsm.Index.Found.{IsSorted, sort_keys-IsSorted}
use tsm2arc.Tsm.{KeyBlocks, ok, header_size, footer_size, magic, version}
use tsm2arc.Tsm.Binary.{big_endian, put_big_endian, length-put_big_endian, big_endian-put}
use tsm2arc.Tsm.Index.{
  File, Index, insert_key, sort_keys, read_at, parse_key_blocks, parse_keys, make_index,
  parse_region, parse_index,
}
use tsm2arc.Tsm.Index.Written.{
  put_key_blocks, KeyBlocksFit, parse_key_blocks-put, length-put_key_blocks_pos,
}

abbrev pub put_keys : List KeyBlocks → Bytes
put_keys [] = []
put_keys (kb ∷ kbs) = put_key_blocks kb ++ put_keys kbs

parse_keys_round :
    (fuel : ℕ) (b rest : Bytes) (kb : KeyBlocks) (kbs : List KeyBlocks)
    → 0 < length b
    → parse_key_blocks b ≡ ok (kb, rest)
    → parse_keys fuel rest ≡ ok kbs
    → parse_keys (suc fuel) b ≡ ok (kb ∷ kbs)
unfolding parse_keys
parse_keys_round fuel [] rest kb kbs hl h g = absurd (omega arith)
parse_keys_round fuel (c ∷ b) rest kb kbs hl h g = rw (h, g) refl

parse_keys-put :
    (kbs : List KeyBlocks) (fuel : ℕ)
    → All KeyBlocksFit kbs
    → length (put_keys kbs) ≤ fuel
    → parse_keys fuel (put_keys kbs) ≡ ok kbs
parse_keys-put [] fuel h hf = unfold parse_keys in refl
parse_keys-put (kb ∷ kbs) zero h hf =
    absurd (
      omega (arith, length-put_key_blocks_pos kb, length-append (put_key_blocks kb) (put_keys kbs)))
parse_keys-put (kb ∷ kbs) (suc fuel) (hk, h) hf =
    let n = length-append (put_key_blocks kb) (put_keys kbs) in
    let p = length-put_key_blocks_pos kb in
    parse_keys_round fuel (put_key_blocks kb ++ put_keys kbs) (put_keys kbs) kb kbs (omega arith)
      (parse_key_blocks-put kb (put_keys kbs) hk) (parse_keys-put kbs fuel h (omega arith))

read_at-middle :
    (before s after : Bytes) (t n off : ℕ)
    → length before ≡ off
    → length s ≡ n
    → read_at (record { bytes = before ++ (s ++ after); mod_time = t }) n off ≡ ok s
unfolding read_at
read_at-middle before s after t n off ho hn =
    let l = length-append before (s ++ after) in
    let m = length-append s after in
    let whole : ltb (length (before ++ (s ++ after))) (off + n) ≡ false = ground arith in
    let there : drop off (before ++ (s ++ after)) ≡ s ++ after =
      rw (← ho) (drop-length-append before (s ++ after)) in
    let exact : take n (s ++ after) ≡ s = rw (← hn) (take-length-append s after) in
    rw (whole, there, exact) refl

abbrev pub put_header : Bytes
put_header = put_big_endian 4 magic ++ put_big_endian 1 version

-- Header, blocks, index, and the offset of the index.
abbrev pub put_file : Bytes → List KeyBlocks → Bytes
put_file body kbs = put_header ++ (body ++ (put_keys kbs ++ put_big_endian 8 (5 + length body)))

abbrev pub written : ℕ → Bytes → List KeyBlocks → File
written t body kbs = record { bytes = put_file body kbs; mod_time = t }

header_fields :
    (big_endian (take 4 put_header) ≡ magic)
    × (big_endian (take 1 (drop 4 put_header)) ≡ version)
    × (length put_header ≡ 5)
unfolding big_endian put_big_endian
header_fields = (refl, refl, refl)

length-put_file :
    (body : Bytes) (kbs : List KeyBlocks)
    → length (put_file body kbs) ≡ 5 + length body + length (put_keys kbs) + 8
length-put_file body kbs =
    let footer = put_big_endian 8 (5 + length body) in
    omega (
      arith,
      length-append put_header (body ++ (put_keys kbs ++ footer)),
      length-append body (put_keys kbs ++ footer),
      length-append (put_keys kbs) footer,
      length-put_big_endian 8 (5 + length body),
      header_fields.2,
    )

int64_small : (n : ℕ) → n < 2 ^ 63 → int64 n ≡ pos n
unfolding int64
int64_small n h = ground arith

read_header :
    (t : ℕ) (body : Bytes) (kbs : List KeyBlocks)
    → read_at (written t body kbs) header_size 0 ≡ ok put_header
read_header t body kbs =
    read_at-middle [] put_header (body ++ (put_keys kbs ++ put_big_endian 8 (5 + length body))) t 5
      0 refl header_fields.2

read_index :
    (t : ℕ) (body : Bytes) (kbs : List KeyBlocks)
    → read_at (written t body kbs) (length (put_keys kbs)) (5 + length body) ≡ ok (put_keys kbs)
read_index t body kbs =
    let footer = put_big_endian 8 (5 + length body) in
    let regroup : put_file body kbs ≡ (put_header ++ body) ++ (put_keys kbs ++ footer) =
      sym (append_assoc put_header body (put_keys kbs ++ footer)) in
    ap (λ b. read_at (record { bytes = b; mod_time = t }) (length (put_keys kbs)) (5 + length body))
      regroup
    ∙ read_at-middle (put_header ++ body) (put_keys kbs) footer t (length (put_keys kbs))
        (5 + length body) (omega (arith, length-append put_header body, header_fields.2)) refl

read_footer :
    (t : ℕ) (body : Bytes) (kbs : List KeyBlocks)
    → read_at (written t body kbs) footer_size (5 + length body + length (put_keys kbs))
      ≡ ok (put_big_endian 8 (5 + length body))
read_footer t body kbs =
    let footer = put_big_endian 8 (5 + length body) in
    let regroup : put_file body kbs ≡ (put_header ++ (body ++ put_keys kbs)) ++ (footer ++ []) =
      simp (append_assoc, append-nil) in
    ap
      (λ b.
        read_at (record { bytes = b; mod_time = t }) 8 (5 + length body + length (put_keys kbs)))
      regroup
    ∙ read_at-middle (put_header ++ (body ++ put_keys kbs)) footer [] t 8
        (5 + length body + length (put_keys kbs))
        (omega (
          arith,
          length-append put_header (body ++ put_keys kbs),
          length-append body (put_keys kbs),
          header_fields.2,
        ))
        (length-put_big_endian 8 (5 + length body))

parse_region-put :
    (t : ℕ) (body : Bytes) (kbs : List KeyBlocks)
    → All KeyBlocksFit kbs
    → parse_region (written t body kbs) (pos (5 + length body))
      ≡ ok (make_index (length (put_keys kbs)) (written t body kbs) kbs)
unfolding parse_region
parse_region-put t body kbs h =
    let n = length-put_file body kbs in
    let inside : (ltb (5 + length body) 5 || ltb (length (put_file body kbs) - 8) (5 + length body))
        ≡ false =
      ground arith in
    let index_len : length (put_file body kbs) - 8 - (5 + length body) ≡ length (put_keys kbs) =
      omega arith in
    rw (inside, index_len, read_index t body kbs)
      (rw (parse_keys-put kbs (length (put_keys kbs)) h (omega arith)) refl)

pub parse_index-make_index :
    (t : ℕ) (body : Bytes) (kbs : List KeyBlocks)
    → All KeyBlocksFit kbs
    → length (put_file body kbs) < 2 ^ 63
    → parse_index (written t body kbs)
      ≡ ok (make_index (length (put_keys kbs)) (written t body kbs) kbs)
unfolding parse_index
parse_index-make_index t body kbs h hs =
    let n = length-put_file body kbs in
    let big : ltb (length (put_file body kbs)) 13 ≡ false = ground arith in
    let off : length (put_file body kbs) - 8 ≡ 5 + length body + length (put_keys kbs) =
      omega arith in
    let region : int64 (big_endian (put_big_endian 8 (5 + length body))) ≡ pos (5 + length body) =
      ap int64 (big_endian-put 8 (5 + length body) (omega arith))
      ∙ int64_small (5 + length body) (omega arith) in
    rw
      (
        big,
        read_header t body kbs,
        header_fields.0,
        header_fields.1,
        off,
        read_footer t body kbs,
        region,
      )
      (parse_region-put t body kbs h)

insert_key-Permᴰ : (kb : KeyBlocks) (kbs : List KeyBlocks) → Permᴰ (insert_key kb kbs) (kb ∷ kbs)
unfolding insert_key
insert_key-Permᴰ kb [] = Permᴰ.refl (kb ∷ [])
insert_key-Permᴰ kb (k ∷ ks) = elim (Bool-cases (str_lt k.key kb.key)) [
  | inl e ↦
      rw (e, insert_key)
        (Permᴰ.trans (Permᴰ.cons refl (insert_key-Permᴰ kb ks)) (Permᴰ.swap refl refl))
  | inr e ↦ rw (e, insert_key) (Permᴰ.refl (kb ∷ k ∷ ks))
]

sort_keys-Permᴰ : (kbs : List KeyBlocks) → Permᴰ (sort_keys kbs) kbs
unfolding sort_keys
sort_keys-Permᴰ [] = Permᴰ.nil
sort_keys-Permᴰ (kb ∷ kbs) =
    Permᴰ.trans (insert_key-Permᴰ kb (sort_keys kbs)) (Permᴰ.cons refl (sort_keys-Permᴰ kbs))

-- A file of the written layout, below 2 ^ 63 bytes and with an index that fits its fields, is parsed
-- to an index of the keys that were written, each with its type and its entries, in ascending order,
-- with the size and the time of the file.
pub parse_index-put_file :
    (t : ℕ) (body : Bytes) (kbs : List KeyBlocks)
    → All KeyBlocksFit kbs
    → length (put_file body kbs) < 2 ^ 63
    → (ix : Index) × (parse_index (written t body kbs) ≡ ok ix)
      × Perm ix.keys kbs
      × IsSorted ix.keys
      × (ix.size ≡ length (put_file body kbs))
      × (ix.mod_time ≡ t)
unfolding make_index
parse_index-put_file t body kbs h hs = (
  make_index (length (put_keys kbs)) (written t body kbs) kbs,
  parse_index-make_index t body kbs h hs,
  ∣ sort_keys-Permᴰ kbs ∣₁,
  sort_keys-IsSorted kbs,
  refl,
  refl,
)
