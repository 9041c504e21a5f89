-- ===== src/Lp/Split.antt =====
-- The splitting of internal/series/series.go on a series that internal/lp/encode.go escaped.
use tsm2arc.Prelude.{
  ℕ, List, [], ◌∷◌, ◌++◌, Bool, true, false, ◌==◌, Bytes, ◌≡◌, refl, sym, ap, ◌∙◌, arith, All,
  append-nil, append_assoc, Bool-cases, inl, inr,
}
use tsm2arc.Series.{
  Tag, backslash, split_loop, split_unescaped, split_series, from_parts, tags_of, tag_of,
}
use tsm2arc.Lp.{escape_measurement, escape_tag}
use tsm2arc.Lp.Escape.{
  escape_with, in_tag, in_measurement, IsPlain, escape_tag-escape_with,
  escape_measurement-escape_with, unescape_tag-escape_tag, unescape_measurement-escape_measurement,
}

-- The splitting at `sep` takes `t` whole into the current part.
abbrev Passes : ℕ → Bytes → Type 0
Passes sep t =
    (rest cur : Bytes) (out : List Bytes)
    → split_loop (t ++ rest) sep cur false out ≡ split_loop rest sep (cur ++ t) false out

escape_with-Passes :
    (p : ℕ → Bool) (sep : ℕ) (s : Bytes)
    → ((c : ℕ) → p c ≡ false → (c == sep) ≡ false)
    → IsPlain s
    → Passes sep (escape_with p s)
unfolding escape_with split_loop
escape_with-Passes p sep [] hp h rest cur out = rw append-nil
escape_with-Passes p sep (c ∷ s) hp (hc, h) rest cur out = elim (Bool-cases (p c)) [
  | inl e ↦
      rw (e, escape_with)
        (escape_with-Passes p sep s hp h rest (cur ++ backslash ∷ c ∷ []) out ∙ rw append_assoc)
  | inr e ↦
      rw (e, escape_with)
        (rw (hc, hp c e)
          (escape_with-Passes p sep s hp h rest (cur ++ c ∷ []) out ∙ rw append_assoc))
]

append-Passes : (sep : ℕ) (t u : Bytes) → Passes sep t → Passes sep u → Passes sep (t ++ u)
append-Passes sep t u ht hu rest cur out =
    rw (append_assoc t u rest) (ht (u ++ rest) cur out ∙ hu rest (cur ++ t) out ∙ rw append_assoc)

byte-Passes : (sep c : ℕ) → (c == backslash) ≡ false → (c == sep) ≡ false → Passes sep (c ∷ [])
unfolding split_loop
byte-Passes sep c hb hs rest cur out = rw (hb, hs, split_loop)

tag-Passes : (sep : ℕ) (s : Bytes) → in_tag sep ≡ true → IsPlain s → Passes sep (escape_tag s)
tag-Passes sep s hs h =
    rw (escape_tag-escape_with s) (escape_with-Passes in_tag sep s (λ c e. ground arith) h)

measurement-Passes :
    (sep : ℕ) (s : Bytes)
    → in_measurement sep ≡ true
    → IsPlain s
    → Passes sep (escape_measurement s)
measurement-Passes sep s hs h =
    rw (escape_measurement-escape_with s)
      (escape_with-Passes in_measurement sep s (λ c e. ground arith) h)

close_part :
    (sep : ℕ) (rest cur : Bytes) (out : List Bytes)
    → (sep == backslash) ≡ false
    → split_loop (sep ∷ rest) sep cur false out ≡ split_loop rest sep [] false (out ++ cur ∷ [])
unfolding split_loop
close_part sep rest cur out h = ground arith

-- A tag as it is written, and the tags, each behind a comma.
abbrev pub token : Tag → Bytes
token (k, v) = escape_tag k ++ (b'=' ∷ [] ++ escape_tag v)

abbrev pub tokens : List Tag → List Bytes
tokens [] = []
tokens (t ∷ ts) = token t ∷ tokens ts

abbrev pub tags_text : List Tag → Bytes
tags_text [] = []
tags_text (t ∷ ts) = b',' ∷ (token t ++ tags_text ts)

abbrev pub series_text : Bytes → List Tag → Bytes
series_text m tags = escape_measurement m ++ tags_text tags

abbrev pub IsPlainTag : Tag → Type 0
IsPlainTag (k, v) = IsPlain k × IsPlain v

token-Passes :
    (sep : ℕ) (t : Tag)
    → in_tag sep ≡ true
    → (b'=' == sep) ≡ false
    → IsPlainTag t
    → Passes sep (token t)
token-Passes sep (k, v) hs hn (hk, hv) =
    append-Passes sep (escape_tag k) (b'=' ∷ [] ++ escape_tag v) (tag-Passes sep k hs hk) (
      append-Passes sep (b'=' ∷ []) (escape_tag v) (byte-Passes sep b'=' refl hn)
        (tag-Passes sep v hs hv))

tags_text-split :
    (tags : List Tag) (cur : Bytes) (out : List Bytes)
    → All IsPlainTag tags
    → split_loop (tags_text tags) b',' cur false out ≡ out ++ cur ∷ tokens tags
tags_text-split [] cur out h = unfold split_loop in refl
tags_text-split (t ∷ ts) cur out (ht, h) =
    close_part b',' (token t ++ tags_text ts) cur out refl
    ∙ token-Passes b',' t refl refl ht (tags_text ts) [] (out ++ cur ∷ [])
    ∙ tags_text-split ts (token t) (out ++ cur ∷ []) h
    ∙ append_assoc out (cur ∷ []) (token t ∷ tokens ts)

series_text-split :
    (m : Bytes) (tags : List Tag)
    → IsPlain m
    → All IsPlainTag tags
    → split_unescaped (series_text m tags) b',' ≡ escape_measurement m ∷ tokens tags
unfolding split_unescaped
series_text-split m tags hm h =
    measurement-Passes b',' m refl hm (tags_text tags) [] []
    ∙ tags_text-split tags (escape_measurement m) [] h

token-split :
    (k v : Bytes)
    → IsPlain k
    → IsPlain v
    → split_unescaped (token (k, v)) b'=' ≡ escape_tag k ∷ escape_tag v ∷ []
unfolding split_unescaped
token-split k v hk hv =
    tag-Passes b'=' k refl hk (b'=' ∷ [] ++ escape_tag v) [] []
    ∙ close_part b'=' (escape_tag v) (escape_tag k) [] refl
    ∙ ap (λ t. split_loop t b'=' [] false (escape_tag k ∷ [])) (sym (append-nil (escape_tag v)))
    ∙ tag-Passes b'=' v refl hv [] [] (escape_tag k ∷ [])
    ∙ (unfold split_loop in refl)

tags_of-tokens : (tags : List Tag) → All IsPlainTag tags → tags_of (tokens tags) ≡ tags
unfolding tags_of tag_of
tags_of-tokens [] h = refl
tags_of-tokens ((k, v) ∷ ts) ((hk, hv), h) =
    rw (token-split k v hk hv, tag_of, unescape_tag-escape_tag k hk, unescape_tag-escape_tag v hv)
      (ap (λ r. (k, v) ∷ r) (tags_of-tokens ts h))

pub split_series_text :
    (m : Bytes) (tags : List Tag)
    → IsPlain m
    → All IsPlainTag tags
    → split_series (series_text m tags) ≡ (m, tags)
unfolding split_series
split_series_text m tags hm h =
    rw (series_text-split m tags hm h, from_parts, unescape_measurement-escape_measurement m hm)
      (ap (λ r. (m, r)) (tags_of-tokens tags h))

tags_text-Passes : (tags : List Tag) → All IsPlainTag tags → Passes b' ' (tags_text tags)
tags_text-Passes [] h = λ rest cur out. rw append-nil
tags_text-Passes (t ∷ ts) (ht, h) =
    append-Passes b' ' (b',' ∷ []) (token t ++ tags_text ts) (byte-Passes b' ' b',' refl refl) (
      append-Passes b' ' (token t) (tags_text ts) (token-Passes b' ' t refl refl ht)
        (tags_text-Passes ts h))

split_loop-out :
    (s : Bytes) (sep : ℕ) (cur : Bytes) (esc : Bool) (o out : List Bytes)
    → split_loop s sep cur esc (o ++ out) ≡ o ++ split_loop s sep cur esc out
unfolding split_loop
split_loop-out [] sep cur true o out = append_assoc o out _
split_loop-out [] sep cur false o out = append_assoc o out _
split_loop-out (c ∷ s) sep cur true o out = split_loop-out s sep _ false o out
split_loop-out (c ∷ s) sep cur false o out = ground (
  arith,
  split_loop-out s sep cur true o out,
  split_loop-out s sep [] false o (out ++ cur ∷ []),
  split_loop-out s sep (cur ++ c ∷ []) false o out,
  append_assoc o out (cur ∷ []),
)

-- The first part at a space of a text that starts with the series.
pub split_line :
    (m : Bytes) (tags : List Tag) (rest : Bytes)
    → IsPlain m
    → All IsPlainTag tags
    → split_unescaped (series_text m tags ++ (b' ' ∷ [] ++ rest)) b' '
      ≡ series_text m tags ∷ split_unescaped rest b' '
unfolding split_unescaped
split_line m tags rest hm h =
    append-Passes b' ' (escape_measurement m) (tags_text tags) (measurement-Passes b' ' m refl hm)
      (tags_text-Passes tags h) (b' ' ∷ [] ++ rest) [] []
    ∙ close_part b' ' rest (series_text m tags) [] refl
    ∙ split_loop-out rest b' ' [] false (series_text m tags ∷ []) []
