-- ===== src/Checkpoint/Config.antt =====
-- `CheckConfig` of internal/checkpoint/checkpoint.go.
use tsm2arc.Prelude.{
  List, [], ◌∷◌, ◌++◌, true, Option, none, some, if◌then◌else◌, Bytes, ◌≡◌, refl, ap, ◌∙◌, inl, inr,
  Bool-cases, Option-cases,
}
use tsm2arc.Prelude.Strings.{codes, str_eq, str_eq_iff, str_eq_refl}
use tsm2arc.Checkpoint.{Meta, Tables, SqlError, Driver, find, meta_key}

pub data ConfigError : Type 0 where
  sql : SqlError → ConfigError
  other_settings : Bytes → Bytes → ConfigError

abbrev pub fingerprint_key : Bytes
fingerprint_key = codes "config_fingerprint"

abbrev pub meta_row : Bytes → Bytes → Meta
meta_row k v = record { key = k; value = v }

abbrev pub compare_config : Bytes → Meta → Option ConfigError
compare_config fp r = if str_eq r.value fp then none else some (other_settings r.value fp)

unfoldable pub check_config : Driver → Bytes → Tables → Tables × Option ConfigError
check_config d fp t = elim (d.statement 0) [
  | some e ↦ (t, some (sql e))
  | none ↦ elim (find meta_key str_eq fingerprint_key t.meta) [
    | some r ↦ (t, compare_config fp r)
    | none ↦ elim (d.statement 1) [
      | some e ↦ (t, some (sql e))
      | none ↦ (record t { meta = t.meta ++ meta_row fingerprint_key fp ∷ [] }, none)
    ]
  ]
]

-- The value under a key behind an insertion at the end.
find-append :
    (k : Bytes) (r : Meta) (rows : List Meta)
    → find meta_key str_eq k rows ≡ none
    → str_eq r.key k ≡ true
    → find meta_key str_eq k (rows ++ r ∷ []) ≡ some r
unfolding find
find-append k r [] h e = rw e refl
find-append k r (a ∷ rows) h e = elim (Bool-cases (str_eq a.key k)) [
  | inl f ↦ let never : some a ≡ none = rw f at h in cc
  | inr f ↦
      let none_left : find meta_key str_eq k rows ≡ none = rw f at h in
      rw f (find-append k r rows none_left e)
]

-- A store that holds a fingerprint takes it and no other.
check_config-held :
    (d : Driver) (fp : Bytes) (t : Tables) (r : Meta)
    → find meta_key str_eq fingerprint_key t.meta ≡ some r
    → d.statement 0 ≡ none
    → check_config d fp t ≡ (t, compare_config fp r)
unfolding check_config
check_config-held d fp t r h clear =
    ap
      (λ o. elim o [
        | some e ↦ (t, some (sql e))
        | none ↦ elim (find meta_key str_eq fingerprint_key t.meta) [
          | some r ↦ (t, compare_config fp r)
          | none ↦ elim (d.statement 1) [
            | some e ↦ (t, some (sql e))
            | none ↦ (record t { meta = t.meta ++ meta_row fingerprint_key fp ∷ [] }, none)
          ]
        ]
      ])
      clear
    ∙ ap
        (λ o. elim o [
          | some r ↦ (t, compare_config fp r)
          | none ↦ elim (d.statement 1) [
            | some e ↦ (t, some (sql e))
            | none ↦ (record t { meta = t.meta ++ meta_row fingerprint_key fp ∷ [] }, none)
          ]
        ])
        h

check_config-stored :
    (d : Driver) (fp : Bytes) (t : Tables)
    → (check_config d fp t).1 ≡ none
    → (r : Meta) × (find meta_key str_eq fingerprint_key (check_config d fp t).0.meta ≡ some r)
      × (r.value ≡ fp)
unfolding check_config
check_config-stored d fp t h = elim (Option-cases (d.statement 0)) [
  | inr (e, p) ↦ let never : some (sql e) ≡ none = rw (p, check_config) at h in cc
  | inl p ↦ elim (Option-cases (find meta_key str_eq fingerprint_key t.meta)) [
    | inr (r, q) ↦
        let fits : compare_config fp r ≡ none = rw (p, check_config, q) at h in
        rw (p, check_config, q) (r, q, same_value r fits)
    | inl q ↦ elim (Option-cases (d.statement 1)) [
      | inr (e, u) ↦ let never : some (sql e) ≡ none = rw (p, check_config, q, u) at h in cc
      | inl u ↦
          rw (p, check_config, q, u)
            (
              meta_row fingerprint_key fp,
              find-append fingerprint_key (meta_row fingerprint_key fp) t.meta q
                  (str_eq_refl fingerprint_key),
              refl,
            )
    ]
  ]
]
  where
    same_value : (r : Meta) → compare_config fp r ≡ none → r.value ≡ fp
    same_value r k = elim (Bool-cases (str_eq r.value fp)) [
      | inl e ↦ (str_eq_iff r.value fp).0 e
      | inr e ↦ let never : some (other_settings r.value fp) ≡ none = rw e at k in cc
    ]

-- A fingerprint that a store takes is the only one that it takes from then on.
pub check_config_again :
    (d d' : Driver) (fp fp' : Bytes) (t : Tables)
    → (check_config d fp t).1 ≡ none
    → d'.statement 0 ≡ none
    → check_config d' fp' (check_config d fp t).0
      ≡ ((check_config d fp t).0, if str_eq fp fp' then none else some (other_settings fp fp'))
check_config_again d d' fp fp' t h clear =
    let (r, found, is) = check_config-stored d fp t h in
    check_config-held d' fp' (check_config d fp t).0 r found clear
    ∙ ap
        (λ v. ((check_config d fp t).0, if str_eq v fp' then none else some (other_settings v fp')))
        is
