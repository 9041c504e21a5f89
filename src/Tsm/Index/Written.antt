-- ===== src/Tsm/Index/Written.antt =====
-- `parseIndex` of internal/tsm/reader.go on a file of the layout that its comments lay down.
use tsm2arc.Prelude.{
  ℕ, suc, ◌+◌, ◌^◌, ◌<◌, List, [], ◌∷◌, ◌++◌, false, ltb, length, length-append, take, drop,
  take-length-append, drop-length-append, Bytes, ◌≡◌, refl, ap, ◌∙◌, arith, All, append_assoc,
}
use tsm2arc.Prelude.Int64.{ℤ, int64, uint64, IsInt64, int64-uint64, uint64-lt}
use tsm2arc.Tsm.{IndexEntry, KeyBlocks, ok}
use tsm2arc.Tsm.Binary.{
  big_endian, put_big_endian, length-put_big_endian, big_endian-take_put, drop_put,
}
use tsm2arc.Tsm.Index.{entry_at, parse_entries, parse_key_blocks}

abbrev pub put_entry : IndexEntry → Bytes
put_entry e =
    put_big_endian 8 (uint64 e.min_time)
    ++ (put_big_endian 8 (uint64 e.max_time)
        ++ (put_big_endian 8 (uint64 e.offset) ++ put_big_endian 4 e.size))

pub record EntryFits (e : IndexEntry) : Type 0 where
  pub min_fits : IsInt64 e.min_time
  pub max_fits : IsInt64 e.max_time
  pub offset_fits : IsInt64 e.offset
  pub size_fits : e.size < 2 ^ 32

length-put_entry : (e : IndexEntry) → length (put_entry e) ≡ 28
length-put_entry e = omega (
  arith,
  length-append (put_big_endian 8 (uint64 e.min_time)) (
      put_big_endian 8 (uint64 e.max_time)
      ++ (put_big_endian 8 (uint64 e.offset) ++ put_big_endian 4 e.size)),
  length-append (put_big_endian 8 (uint64 e.max_time))
      (put_big_endian 8 (uint64 e.offset) ++ put_big_endian 4 e.size),
  length-append (put_big_endian 8 (uint64 e.offset)) (put_big_endian 4 e.size),
  length-put_big_endian 8 (uint64 e.min_time),
  length-put_big_endian 8 (uint64 e.max_time),
  length-put_big_endian 8 (uint64 e.offset),
  length-put_big_endian 4 e.size,
)

-- Eight bytes of an int64, and what stands behind them.
int64_front :
    (z : ℤ) (rest : Bytes)
    → IsInt64 z
    → (int64 (big_endian (take 8 (put_big_endian 8 (uint64 z) ++ rest))) ≡ z)
      × (drop 8 (put_big_endian 8 (uint64 z) ++ rest) ≡ rest)
int64_front z rest h = (
  ap int64 (big_endian-take_put 8 (uint64 z) rest (uint64-lt z)) ∙ int64-uint64 z h,
  drop_put 8 (uint64 z) rest,
)

entry_at-fields :
    (a b c : ℤ) (d : ℕ) (rest : Bytes)
    → IsInt64 a
    → IsInt64 b
    → IsInt64 c
    → d < 2 ^ 32
    → entry_at (
        put_big_endian 8 (uint64 a)
        ++ (put_big_endian 8 (uint64 b)
            ++ (put_big_endian 8 (uint64 c) ++ (put_big_endian 4 d ++ rest))))
      ≡ record { min_time = a; max_time = b; offset = c; size = d }
unfolding entry_at
entry_at-fields a b c d rest ha hb hc hd =
    let t3 = put_big_endian 4 d ++ rest in
    let t2 = put_big_endian 8 (uint64 c) ++ t3 in
    let t1 = put_big_endian 8 (uint64 b) ++ t2 in
    let (ea, da) = int64_front a t1 ha in
    let (eb, db) = int64_front b t2 hb in
    let (ec, dc) = int64_front c t3 hc in
    rw (ea, da, eb, db, ec, dc, big_endian-take_put 4 d rest hd) refl

entry_at-put : (e : IndexEntry) (rest : Bytes) → EntryFits e → entry_at (put_entry e ++ rest) ≡ e
entry_at-put e rest h =
    let regroup : put_entry e ++ rest
        ≡ put_big_endian 8 (uint64 e.min_time)
          ++ (put_big_endian 8 (uint64 e.max_time)
              ++ (put_big_endian 8 (uint64 e.offset) ++ (put_big_endian 4 e.size ++ rest))) =
      simp append_assoc in
    ap entry_at regroup
    ∙ entry_at-fields e.min_time e.max_time e.offset e.size rest h.min_fits h.max_fits h.offset_fits
        h.size_fits

abbrev pub put_entries : List IndexEntry → Bytes
put_entries [] = []
put_entries (e ∷ es) = put_entry e ++ put_entries es

parse_entries-put :
    (es : List IndexEntry) (rest : Bytes)
    → All EntryFits es
    → parse_entries (length es) (put_entries es ++ rest) ≡ ok (es, rest)
parse_entries-put [] rest h = unfold parse_entries in refl
parse_entries-put (e ∷ es) rest (he, h) =
    let tail = put_entries es ++ rest in
    ap (parse_entries (suc (length es))) (append_assoc (put_entry e) (put_entries es) rest)
    ∙ parse_entries_round (length es) e tail he (parse_entries-put es rest h)
  where
    parse_entries_round :
        (n : ℕ) (e : IndexEntry) (tail : Bytes)
        → EntryFits e
        → {p : List IndexEntry × Bytes} → parse_entries n tail ≡ ok p
        → parse_entries (suc n) (put_entry e ++ tail) ≡ ok (e ∷ p.0, p.1)
    parse_entries_round n e tail he h =
        let l = length-put_entry e in
        let whole : ltb (length (put_entry e ++ tail)) 28 ≡ false =
          (let k = length-append (put_entry e) tail in ground arith) in
        let behind : drop 28 (put_entry e ++ tail) ≡ tail =
          rw (← l) (drop-length-append (put_entry e) tail) in
        unfold parse_entries in rw (whole, behind, h, entry_at-put e tail he) refl

abbrev pub put_key_blocks : KeyBlocks → Bytes
put_key_blocks kb =
    put_big_endian 2 (length kb.key)
    ++ (kb.key
        ++ (put_big_endian 1 kb.type
            ++ (put_big_endian 2 (length kb.entries) ++ put_entries kb.entries)))

pub record KeyBlocksFit (kb : KeyBlocks) : Type 0 where
  pub key_fits : length kb.key < 2 ^ 16
  pub type_fits : kb.type < 256
  pub count_fits : length kb.entries < 2 ^ 16
  pub entries_fit : All EntryFits kb.entries

key_blocks_round :
    (key : Bytes) (type : ℕ) (es : List IndexEntry) (rest : Bytes)
    → length key < 2 ^ 16
    → type < 256
    → length es < 2 ^ 16
    → All EntryFits es
    → parse_key_blocks (
        put_big_endian 2 (length key)
        ++ (key
            ++ (put_big_endian 1 type
                ++ (put_big_endian 2 (length es) ++ (put_entries es ++ rest)))))
      ≡ ok (record { key = key; type = type; entries = es }, rest)
unfolding parse_key_blocks
key_blocks_round key type es rest hk ht hc he =
    let t4 = put_entries es ++ rest in
    let t3 = put_big_endian 2 (length es) ++ t4 in
    let t2 = put_big_endian 1 type ++ t3 in
    let t1 = key ++ t2 in
    let l1 = length-append key t2 in
    let l2 = length-append (put_big_endian 1 type) t3 in
    let l3 = length-append (put_big_endian 2 (length es)) t4 in
    let l0 = length-append (put_big_endian 2 (length key)) t1 in
    let b1 = length-put_big_endian 1 type in
    let b2 = length-put_big_endian 2 (length es) in
    let b0 = length-put_big_endian 2 (length key) in
    let two : ltb (length (put_big_endian 2 (length key) ++ t1)) 2 ≡ false = ground arith in
    let room : ltb (length t1) (length key + 3) ≡ false = ground arith in
    rw (two, big_endian-take_put 2 (length key) t1 hk, drop_put 2 (length key) t1, room)
      (rw
        (
          take-length-append key t2,
          drop-length-append key t2,
          big_endian-take_put 1 type t3 ht,
          drop_put 1 type t3,
          big_endian-take_put 2 (length es) t4 hc,
          drop_put 2 (length es) t4,
          parse_entries-put es rest he,
        )
        refl)

pub parse_key_blocks-put :
    (kb : KeyBlocks) (rest : Bytes)
    → KeyBlocksFit kb
    → parse_key_blocks (put_key_blocks kb ++ rest) ≡ ok (kb, rest)
parse_key_blocks-put kb rest h =
    let regroup : put_key_blocks kb ++ rest
        ≡ put_big_endian 2 (length kb.key)
          ++ (kb.key
              ++ (put_big_endian 1 kb.type
                  ++ (put_big_endian 2 (length kb.entries) ++ (put_entries kb.entries ++ rest)))) =
      simp append_assoc in
    ap parse_key_blocks regroup
    ∙ key_blocks_round kb.key kb.type kb.entries rest h.key_fits h.type_fits h.count_fits
        h.entries_fit

pub length-put_key_blocks_pos : (kb : KeyBlocks) → 0 < length (put_key_blocks kb)
length-put_key_blocks_pos kb = omega (
  arith,
  length-append (put_big_endian 2 (length kb.key)) (
      kb.key
      ++ (put_big_endian 1 kb.type
          ++ (put_big_endian 2 (length kb.entries) ++ put_entries kb.entries))),
  length-put_big_endian 2 (length kb.key),
)
