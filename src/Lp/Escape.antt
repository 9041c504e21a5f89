-- ===== src/Lp/Escape.antt =====
-- The escaping of internal/lp/encode.go as one pass over the bytes, and what undoes it.
use tsm2arc.Prelude.{
  ℕ, [], ◌∷◌, Bool, true, false, not, ◌&&◌, ◌||◌, ◌==◌, if◌then◌else◌, Bytes, ◌≡◌, refl, sym, ap,
  ◌∙◌, arith, All, Bool-cases, inl, inr,
}
use tsm2arc.Prelude.Strings.{codes, contains_byte, replace_pair}
use tsm2arc.Series.{backslash, unescape_tag, unescape_measurement}
use tsm2arc.Lp.{
  Pairs, needs_replacing, replace_byte, replace_all, replacer, escape_measurement, escape_tag,
}

-- A backslash before each byte that `p` holds of.
unfoldable pub escape_with : (ℕ → Bool) → Bytes → Bytes
escape_with p [] = []
escape_with p (c ∷ s) = if p c then backslash ∷ c ∷ escape_with p s else c ∷ escape_with p s

replacer-replace_all : (pairs : Pairs) (s : Bytes) → replacer s pairs ≡ replace_all pairs s
unfolding replacer
replacer-replace_all pairs s = elim (Bool-cases (needs_replacing pairs s)) [
  | inl e ↦ rw e refl
  | inr e ↦ rw e (sym (untouched s e))
]
  where
    plain_byte :
        (ps : Pairs) (c : ℕ) (t : Bytes)
        → needs_replacing ps (c ∷ t) ≡ false
        → (replace_byte ps c ≡ c ∷ []) × (needs_replacing ps t ≡ false)
    plain_byte [] c t h = unfold needs_replacing replace_byte in (refl, refl)
    plain_byte ((old, new) ∷ ps) c t h =
        unfold needs_replacing replace_byte contains_byte in ground (arith, plain_byte ps c t)

    untouched : (t : Bytes) → needs_replacing pairs t ≡ false → replace_all pairs t ≡ t
    untouched [] h = unfold replace_all in refl
    untouched (c ∷ t) h =
        let (b, r) = plain_byte pairs c t h in
        unfold replace_all in rw b (ap (λ u. c ∷ u) (untouched t r))

abbrev tag_pairs : Pairs
tag_pairs = (b',', codes "\\,") ∷ (b' ', codes "\\ ") ∷ (b'=', codes "\\=") ∷ []

abbrev measurement_pairs : Pairs
measurement_pairs = (b',', codes "\\,") ∷ (b' ', codes "\\ ") ∷ []

abbrev pub in_tag : ℕ → Bool
in_tag c = c == b',' || c == b' ' || c == b'='

abbrev pub in_measurement : ℕ → Bool
in_measurement c = c == b',' || c == b' '

replace_all-tag : (s : Bytes) → replace_all tag_pairs s ≡ escape_with in_tag s
unfolding replace_all replace_byte escape_with
replace_all-tag [] = refl
replace_all-tag (c ∷ s) = ground (arith, replace_all-tag s)

replace_all-measurement :
    (s : Bytes) → replace_all measurement_pairs s ≡ escape_with in_measurement s
unfolding replace_all replace_byte escape_with
replace_all-measurement [] = refl
replace_all-measurement (c ∷ s) = ground (arith, replace_all-measurement s)

pub escape_tag-escape_with : (s : Bytes) → escape_tag s ≡ escape_with in_tag s
unfolding escape_tag
escape_tag-escape_with s = replacer-replace_all tag_pairs s ∙ replace_all-tag s

pub escape_measurement-escape_with :
    (s : Bytes) → escape_measurement s ≡ escape_with in_measurement s
unfolding escape_measurement
escape_measurement-escape_with s =
    replacer-replace_all measurement_pairs s ∙ replace_all-measurement s

-- No byte of the name is a backslash.
abbrev pub IsPlain : Bytes → Type 0
IsPlain s = All (λ c. (c == backslash) ≡ false) s

replace_pair_other :
    (a b c x : ℕ) (s : Bytes)
    → (x == a) ≡ false
    → replace_pair a b c (x ∷ s) ≡ x ∷ replace_pair a b c s
unfolding replace_pair
replace_pair_other a b c x [] h = refl
replace_pair_other a b c x (y ∷ s) h = rw (h, replace_pair)

replace_pair_escaped :
    (b c : ℕ) (s : Bytes)
    → (c == backslash) ≡ false
    → replace_pair backslash b b (backslash ∷ c ∷ s) ≡ (
        if c == b
        then b ∷ replace_pair backslash b b s
        else backslash ∷ c ∷ replace_pair backslash b b s)
unfolding replace_pair
replace_pair_escaped b c s h = elim (Bool-cases (c == b)) [
  | inl e ↦ rw (e, replace_pair) refl
  | inr e ↦ rw (e, replace_pair) (ap (λ t. backslash ∷ t) (replace_pair_other backslash b b c s h))
]

replace_pair-escape_with :
    (b : ℕ) (p : ℕ → Bool) (s : Bytes)
    → p b ≡ true
    → IsPlain s
    → replace_pair backslash b b (escape_with p s) ≡ escape_with (λ c. p c && not (c == b)) s
unfolding escape_with
replace_pair-escape_with b p [] hb h = unfold replace_pair in refl
replace_pair-escape_with b p (c ∷ s) hb (hc, h) = ground (
  arith,
  replace_pair-escape_with b p s hb h,
  replace_pair_escaped b c (escape_with p s) hc,
  replace_pair_other backslash b b c (escape_with p s) hc,
)

escape_with_none : (p : ℕ → Bool) (s : Bytes) → ((c : ℕ) → p c ≡ false) → escape_with p s ≡ s
unfolding escape_with
escape_with_none p [] h = refl
escape_with_none p (c ∷ s) h = rw (h c, escape_with) (ap (λ t. c ∷ t) (escape_with_none p s h))

escape_with_untouched :
    (p : ℕ → Bool) (s : Bytes)
    → contains_byte backslash (escape_with p s) ≡ false
    → escape_with p s ≡ s
unfolding escape_with contains_byte
escape_with_untouched p [] h = refl
escape_with_untouched p (c ∷ s) h = ground (arith, escape_with_untouched p s)

pub unescape_tag-escape_tag : (s : Bytes) → IsPlain s → unescape_tag (escape_tag s) ≡ s
unfolding unescape_tag
unescape_tag-escape_tag s h =
    rw (escape_tag-escape_with s)
      (elim (Bool-cases (contains_byte backslash (escape_with in_tag s))) [
        | inl e ↦
            rw
              (
                e,
                replace_pair-escape_with b',' in_tag s refl h,
                replace_pair-escape_with b' ' (λ c. in_tag c && not (c == b',')) s refl h,
                replace_pair-escape_with b'='
                    (λ c. (in_tag c && not (c == b',')) && not (c == b' ')) s refl h,
              )
              (escape_with_none _ s (λ c. ground arith))
        | inr e ↦ rw (e, unescape_tag) (escape_with_untouched in_tag s e)
      ])

pub unescape_measurement-escape_measurement :
    (s : Bytes) → IsPlain s → unescape_measurement (escape_measurement s) ≡ s
unfolding unescape_measurement
unescape_measurement-escape_measurement s h =
    rw (escape_measurement-escape_with s)
      (elim (Bool-cases (contains_byte backslash (escape_with in_measurement s))) [
        | inl e ↦
            rw
              (
                e,
                replace_pair-escape_with b',' in_measurement s refl h,
                replace_pair-escape_with b' ' (λ c. in_measurement c && not (c == b',')) s refl h,
              )
              (escape_with_none _ s (λ c. ground arith))
        | inr e ↦ rw (e, unescape_measurement) (escape_with_untouched in_measurement s e)
      ])
