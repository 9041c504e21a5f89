-- ===== src/Extract/Merge/Row.antt =====
-- One row of the merge of internal/extract/extract.go: the last write of each field at its time.
use tsm2arc.Prelude.{
  List, [], ◌∷◌, true, false, Option, none, some, if◌then◌else◌, Bytes, ◌≡◌, refl, sym, ap, ◌∙◌,
  inl, inr, arith, All, Bool-cases,
}
use tsm2arc.Prelude.Int64.{ℤ}
use tsm2arc.Prelude.Times.{
  earlier, same, same_iff, earlier_connex, earlier_irrefl, not_earlier_trans, earlier_asymm,
  earlier_le_trans,
}
use tsm2arc.Prelude.Strings.{str_eq, str_eq_iff, str_eq_refl}
use tsm2arc.Tsm.{Value}
use tsm2arc.Lp.{Field}
use tsm2arc.Extract.Merge.{lower, put_field}
use tsm2arc.Extract.Merge.Rows.{Source, Row, next_time, put_at, row_from}

-- The last of the values at the time `t`, after `before`.
unfoldable pub last_value : ℤ → List Value → Option Value → Option Value
last_value t [] before = before
last_value t (v ∷ vs) before = last_value t vs (if same v.unix_nano t then some v else before)

-- The last write of the field `f` at the time `t`: the sources in their order, each in its own.
unfoldable pub last_write : Bytes → ℤ → List Source → Option Value → Option Value
last_write f t [] before = before
last_write f t ((n, vs) ∷ ss) before =
    last_write f t ss (if str_eq n f then last_value t vs before else before)

unfoldable pub field_value : Bytes → List Field → Option Value
field_value f [] = none
field_value f (g ∷ fs) =
    let rest = field_value f fs in if str_eq g.name f then some g.value else rest

unfoldable pub value_at : Bytes → ℤ → List Row → Option Value
value_at f u [] = none
value_at f u ((t, fields) ∷ rs) =
    let rest = value_at f u rs in if same t u then field_value f fields else rest

-- No value is before `t`.
abbrev pub NotBefore : ℤ → List Value → Type 0
NotBefore t vs = All (λ v. earlier v.unix_nano t ≡ false) vs

abbrev pub IsAscending : List Value → Type 0
IsAscending [] = Unit
IsAscending (v ∷ vs) = NotBefore v.unix_nano vs × IsAscending vs

abbrev pub AreAscending : List Source → Type 0
AreAscending [] = Unit
AreAscending ((n, vs) ∷ ss) = IsAscending vs × AreAscending ss

abbrev pub NoneBefore : ℤ → List Source → Type 0
NoneBefore t [] = Unit
NoneBefore t ((n, vs) ∷ ss) = NotBefore t vs × NoneBefore t ss

field_value-put_field :
    (f n : Bytes) (v : Value) (fs : List Field)
    → field_value f (put_field n v fs) ≡ (if str_eq n f then some v else field_value f fs)
unfolding field_value put_field
field_value-put_field f n v [] = refl
field_value-put_field f n v (g ∷ fs) = ground (
  arith,
  field_value-put_field f n v fs,
  str_eq_iff g.name n,
  str_eq_iff g.name f,
  str_eq_iff n f,
)

pub NotBefore-trans :
    (s t : ℤ) (vs : List Value) → earlier t s ≡ false → NotBefore t vs → NotBefore s vs
NotBefore-trans s t [] h k = tt
NotBefore-trans s t (v ∷ vs) h (k, ks) =
    (not_earlier_trans s t v.unix_nano h k, NotBefore-trans s t vs h ks)

pub last_value-later :
    (t : ℤ) (v : Value) (vs : List Value) (before : Option Value)
    → earlier t v.unix_nano ≡ true
    → NotBefore v.unix_nano vs
    → last_value t vs before ≡ before
unfolding last_value
last_value-later t v [] before h k = refl
last_value-later t v (w ∷ vs) before h (k, ks) =
    let later = earlier_le_trans t v.unix_nano w.unix_nano h k in
    let other = different t w.unix_nano later in rw other (last_value-later t v vs before h ks)
  where
    different : (a b : ℤ) → earlier a b ≡ true → same b a ≡ false
    different a b h = ground (arith, same_iff b a, earlier_irrefl a)

field_value-put_at_same :
    (t : ℤ) (n : Bytes) (vs : List Value) (buf : List Field)
    → IsAscending vs
    → NotBefore t vs
    → field_value n (put_at t n vs buf) ≡ last_value t vs (field_value n buf)
unfolding put_at last_value
field_value-put_at_same t n [] buf a h = refl
field_value-put_at_same t n (v ∷ vs) buf (k, a) (h, hs) = elim (Bool-cases (same v.unix_nano t)) [
  | inl e ↦
      rw (e, put_at)
        (field_value-put_at_same t n vs (put_field n v buf) a hs
          ∙ rw (field_value-put_field n n v buf, str_eq_refl n) refl)
  | inr e ↦
      rw (e, put_at) (sym (last_value-later t v vs (field_value n buf) (after v.unix_nano t h e) k))
]
  where
    after : (a b : ℤ) → earlier a b ≡ false → same a b ≡ false → earlier b a ≡ true
    after a b h k = ground (arith, earlier_connex a b, same_iff a b)

field_value-put_at_other :
    (t : ℤ) (f n : Bytes) (vs : List Value) (buf : List Field)
    → str_eq n f ≡ false
    → field_value f (put_at t n vs buf) ≡ field_value f buf
unfolding put_at
field_value-put_at_other t f n [] buf d = refl
field_value-put_at_other t f n (v ∷ vs) buf d = elim (Bool-cases (same v.unix_nano t)) [
  | inl e ↦
      rw (e, put_at)
        (field_value-put_at_other t f n vs (put_field n v buf) d
          ∙ rw (field_value-put_field f n v buf, d) refl)
  | inr e ↦ rw (e, put_at) refl
]

pub field_value-row_from :
    (t : ℤ) (f : Bytes) (ss : List Source) (buf : List Field)
    → AreAscending ss
    → NoneBefore t ss
    → field_value f (row_from t ss buf) ≡ last_write f t ss (field_value f buf)
unfolding last_write
field_value-row_from t f [] buf a h = refl
field_value-row_from t f ((n, vs) ∷ ss) buf (a, rest) (h, hs) =
    field_value-row_from t f ss (put_at t n vs buf) rest hs
    ∙ ap (last_write f t ss) (elim (Bool-cases (str_eq n f)) [
      | inl e ↦
          let same_name : n ≡ f = (str_eq_iff n f).0 e in
          rw e (rw (← same_name) (field_value-put_at_same t n vs buf a h))
      | inr e ↦ rw e (field_value-put_at_other t f n vs buf e)
    ])

-- The time that the search finds is at or before the one it starts with and every value.
abbrev pub Bounds : Option ℤ → ℤ → Type 0
Bounds none t = Unit
Bounds (some m) t = earlier m t ≡ false

Bounds-lower : (m : Option ℤ) (u t : ℤ) → Bounds (lower m u) t → Bounds m t × (earlier u t ≡ false)
unfolding lower
Bounds-lower none u t h = (tt, h)
Bounds-lower (some m) u t h = elim (Bool-cases (earlier u m)) [
  | inl e ↦
      let below : earlier u t ≡ false = rw e at h in
      (not_earlier_trans t u m below (earlier_asymm u m e), below)
  | inr e ↦ let below : earlier m t ≡ false = rw e at h in (below, not_earlier_trans t m u below e)
]

-- With `next_time-Bounds`, the values of an ascending source are bounded by its first.
pub next_time-NoneBefore :
    (m : Option ℤ) (t : ℤ) (ss : List Source)
    → AreAscending ss
    → next_time m ss ≡ some t
    → Bounds m t × NoneBefore t ss
next_time-NoneBefore m t [] a h = (rw h (earlier_irrefl t), tt)
next_time-NoneBefore m t ((n, []) ∷ ss) (a, rest) h =
    let (b, c) = next_time-NoneBefore m t ss rest h in (b, (tt, c))
next_time-NoneBefore m t ((n, v ∷ vs) ∷ ss) ((k, a), rest) h =
    let (b, c) = next_time-NoneBefore (lower m v.unix_nano) t ss rest h in
    let (b', u) = Bounds-lower m v.unix_nano t b in
    (b', ((u, NotBefore-trans t v.unix_nano vs u k), c))
