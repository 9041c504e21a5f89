-- ===== src/Tsm/Index/Found.antt =====
-- `search` of internal/tsm/reader.go on the keys of an index that `parseIndex` sorted.
use tsm2arc.Prelude.{
  ◌+◌, ◌-◌, ◌||◌, ltb, ◌==◌, not, length, take, drop, List, [], ◌∷◌, true, false, Option, none,
  some, if◌then◌else◌, Bytes, ◌≡◌, refl, arith, All, Option-cases, Bool-cases, inl, inr, ◌⊎◌,
}
use tsm2arc.Prelude.Int64.{ℤ, pos, negsuc, int64}
use tsm2arc.Prelude.Strings.{
  str_eq, str_lt, str_eq_iff, str_lt_irrefl, str_lt_trans, str_lt_asymm, str_lt_connex,
}
use tsm2arc.Tsm.Binary.{big_endian}
use tsm2arc.Tsm.{
  KeyBlocks, Result, ok, err, crash, stuck, ◌>>=◌, fail_if, magic, version, header_size,
  footer_size, bad_block, bad_magic, bad_version,
}
use tsm2arc.Tsm.Index.{
  File, Index, insert_key, sort_keys, make_index, parse_region, parse_index, search, read_at,
  parse_keys,
}

-- No key of the list is below `key`.
abbrev NoneBelow : Bytes → List KeyBlocks → Type 0
NoneBelow key ks = All (λ (k : KeyBlocks). str_lt k.key key ≡ false) ks

-- The keys ascend.
abbrev pub IsSorted : List KeyBlocks → Type 0
IsSorted [] = Unit {0}
IsSorted (k ∷ ks) = NoneBelow k.key ks × IsSorted ks

-- `a ≤ b ≤ c`.
not_below_trans : (a b c : Bytes) → str_lt b a ≡ false → str_lt c b ≡ false → str_lt c a ≡ false
not_below_trans a b c h k = ground (arith, str_lt_trans c a b, str_lt_connex a b)

NoneBelow-trans :
    (a b : Bytes) (ks : List KeyBlocks) → str_lt b a ≡ false → NoneBelow b ks → NoneBelow a ks
NoneBelow-trans a b [] h n = tt
NoneBelow-trans a b (k ∷ ks) h (n, ns) =
    (not_below_trans a b k.key h n, NoneBelow-trans a b ks h ns)

insert_key-NoneBelow :
    (key : Bytes) (kb : KeyBlocks) (ks : List KeyBlocks)
    → str_lt kb.key key ≡ false
    → NoneBelow key ks
    → NoneBelow key (insert_key kb ks)
unfolding insert_key
insert_key-NoneBelow key kb [] h n = (h, tt)
insert_key-NoneBelow key kb (k ∷ ks) h (n, ns) = elim (Bool-cases (str_lt k.key kb.key)) [
  | inl e ↦ rw (e, insert_key) (n, insert_key-NoneBelow key kb ks h ns)
  | inr e ↦ rw (e, insert_key) (h, (n, ns))
]

insert_key-IsSorted :
    (kb : KeyBlocks) (ks : List KeyBlocks) → IsSorted ks → IsSorted (insert_key kb ks)
unfolding insert_key
insert_key-IsSorted kb [] h = (tt, tt)
insert_key-IsSorted kb (k ∷ ks) (n, h) = elim (Bool-cases (str_lt k.key kb.key)) [
  | inl e ↦
      rw (e, insert_key)
        (
          insert_key-NoneBelow k.key kb ks (str_lt_asymm k.key kb.key e) n,
          insert_key-IsSorted kb ks h,
        )
  | inr e ↦ rw (e, insert_key) ((e, NoneBelow-trans kb.key k.key ks e n), (n, h))
]

pub sort_keys-IsSorted : (ks : List KeyBlocks) → IsSorted (sort_keys ks)
unfolding sort_keys
sort_keys-IsSorted [] = tt
sort_keys-IsSorted (k ∷ ks) = insert_key-IsSorted k (sort_keys ks) (sort_keys-IsSorted ks)

above_ne :
    (key b : Bytes) (ks : List KeyBlocks)
    → str_lt key b ≡ true
    → NoneBelow b ks
    → All (λ (k : KeyBlocks). str_eq k.key key ≡ false) ks
above_ne key b [] h n = tt
above_ne key b (k ∷ ks) h (n, ns) = (ground (arith, str_eq_iff k.key key), above_ne key b ks h ns)

first_ne :
    (key j : Bytes) (more : Option KeyBlocks) (k : KeyBlocks)
    → (if str_lt j key then more else if str_eq j key then some k else none) ≡ none
    → (str_eq j key ≡ false) × (((str_lt j key ≡ true) × (more ≡ none)) ⊎ (str_lt key j ≡ true))
first_ne key j more k h = ground (arith, str_eq_iff j key, str_lt_irrefl j, str_lt_connex j key)

-- What a search that finds nothing means on sorted keys.
search-none :
    (key : Bytes) (ks : List KeyBlocks)
    → IsSorted ks
    → search key ks ≡ none
    → All (λ (k : KeyBlocks). str_eq k.key key ≡ false) ks
unfolding search
search-none key [] h e = tt
search-none key (k ∷ ks) (n, h) e =
    let (ne, rest) = first_ne key k.key (search key ks) k e in
    elim rest [
      | inl (below, more) ↦ (ne, search-none key ks h more)
      | inr above ↦ (ne, above_ne key k.key ks above n)
    ]

search_sound :
    (key : Bytes) (ks : List KeyBlocks) (kb : KeyBlocks) → search key ks ≡ some kb → kb.key ≡ key
unfolding search
search_sound key [] kb e = cc
search_sound key (k ∷ ks) kb e = ground (arith, str_eq_iff k.key key, search_sound key ks kb)

-- Inversion of a successful bind.
>>=-eq-ok :
    {A B : Type 0} (r : Result A) (f : A → Result B) {b : B}
    → (r >>= f) ≡ ok b
    → (a : A) × (r ≡ ok a) × (f a ≡ ok b)
>>=-eq-ok (ok a) f h = (a, refl, h)
>>=-eq-ok (err e) f h = cc
>>=-eq-ok crash f h = cc
>>=-eq-ok stuck f h = cc

ok_inj : {A : Type 0} {a b : A} → Path (Result A) (ok a) (ok b) → a ≡ b
ok_inj h = cc

parse_region-IsSorted :
    (f : File) (o : ℤ) (ix : Index) → parse_region f o ≡ ok ix → IsSorted ix.keys
unfolding parse_region make_index
parse_region-IsSorted f (negsuc n) ix h = cc
parse_region-IsSorted f (pos o) ix h =
    let index_len = length f.bytes - footer_size - o in
    let (u, e, h1) =
      >>=-eq-ok (fail_if (ltb o header_size || ltb (length f.bytes - footer_size) o) bad_block) _
        h in
    let (idx, e1, h2) = >>=-eq-ok (read_at f index_len o) _ h1 in
    let (kbs, e2, h3) = >>=-eq-ok (parse_keys (length idx) idx) _ h2 in
    rw (← ok_inj h3) (sort_keys-IsSorted kbs)

parse_index-IsSorted : (f : File) (ix : Index) → parse_index f ≡ ok ix → IsSorted ix.keys
unfolding parse_index
parse_index-IsSorted f ix h =
    let (u, e, h1) =
      >>=-eq-ok (fail_if (ltb (length f.bytes) (header_size + footer_size)) bad_block) _ h in
    let (hdr, e1, h2) = >>=-eq-ok (read_at f header_size 0) _ h1 in
    let (v, e2, h3) = >>=-eq-ok (fail_if (not (big_endian (take 4 hdr) == magic)) bad_magic) _ h2 in
    let (w, e3, h4) =
      >>=-eq-ok (fail_if (not (big_endian (take 1 (drop 4 hdr)) == version)) bad_version) _ h3 in
    let (foot, e4, h5) = >>=-eq-ok (read_at f footer_size (length f.bytes - footer_size)) _ h4 in
    parse_region-IsSorted f (int64 (big_endian foot)) ix h5

search_either :
    (key : Bytes) (ks : List KeyBlocks)
    → IsSorted ks
    → ((kb : KeyBlocks) × (search key ks ≡ some kb) × (kb.key ≡ key))
      ⊎ ((search key ks ≡ none) × All (λ (k : KeyBlocks). str_eq k.key key ≡ false) ks)
search_either key ks h = elim (Option-cases (search key ks)) [
  | inl e ↦ inr (e, search-none key ks h e)
  | inr (kb, e) ↦ inl (kb, e, search_sound key ks kb e)
]

-- On the index of any file that is parsed, a search finds blocks under exactly the key that it
-- looks for, or finds nothing, and then no key of the index is that key.
pub search-parse_index :
    (f : File) (ix : Index) (key : Bytes)
    → parse_index f ≡ ok ix
    → ((kb : KeyBlocks) × (search key ix.keys ≡ some kb) × (kb.key ≡ key))
      ⊎ ((search key ix.keys ≡ none) × All (λ (k : KeyBlocks). str_eq k.key key ≡ false) ix.keys)
search-parse_index f ix key h = search_either key ix.keys (parse_index-IsSorted f ix h)
