-- ===== src/Checkpoint/Migrate/Once.antt =====
-- `migrate` of internal/checkpoint/checkpoint.go is done once.
use tsm2arc.Prelude.{
  ℕ, suc, List, Bool, true, false, Option, none, some, if◌then◌else◌, ◌≡◌, refl, ap, inl, inr,
  Bool-cases, Option-cases,
}
use tsm2arc.Prelude.Strings.{codes, str_eq, str_eq_iff, str_eq_refl}
use tsm2arc.Checkpoint.{Progress, Done, Action, Meta, Tables, Driver, find, meta_key}
use tsm2arc.Checkpoint.Rows.{put_row, find-upsert}
use tsm2arc.Checkpoint.Config.{meta_row}
use tsm2arc.Checkpoint.Migrate.{
  version_key, delete_orphans, set_version, drop_actions, add_columns, is_current, upgrade, migrate,
}

set_version-is_current :
    (d : Driver) (n : ℕ) (t : Tables)
    → (set_version d n t).1 ≡ none
    → is_current (find meta_key str_eq version_key (set_version d n t).0.meta) ≡ true
set_version-is_current d n t h = elim (Option-cases (d.statement n)) [
  | inr (e, p) ↦ let never : some e ≡ none = rw (p, set_version) at h in cc
  | inl p ↦
      let row = meta_row version_key (codes "2") in
      rw (p, set_version)
        (rw
          (find-upsert meta_key str_eq str_eq_iff row (λ old. record old { value = codes "2" })
            (λ r. refl) t.meta version_key)
          (rw (str_eq_refl version_key) (written (find meta_key str_eq version_key t.meta))))
]
  where
    written :
        (o : Option Meta)
        → is_current (
            some (
              put_row
                (meta_row version_key (codes "2"))
                (λ old. record old { value = codes "2" })
                o))
          ≡ true
    written none = str_eq_refl (codes "2")
    written (some r) = str_eq_refl (codes "2")

drop_actions-is_current :
    (d : Driver) (n : ℕ) (t : Tables)
    → (drop_actions d n t).1 ≡ none
    → is_current (find meta_key str_eq version_key (drop_actions d n t).0.meta) ≡ true
drop_actions-is_current d n t h = elim (Option-cases (d.statement n)) [
  | inr (e, p) ↦ let never : some e ≡ none = rw (p, drop_actions) at h in cc
  | inl p ↦
      let left = record t { measurement_actions = delete_orphans t t.measurement_actions } in
      let done : (set_version d (suc n) left).1 ≡ none = rw (p, drop_actions) at h in
      rw (p, drop_actions) (set_version-is_current d (suc n) left done)
]

upgrade-is_current :
    (d : Driver) (t : Tables)
    → (upgrade d t).1 ≡ none
    → is_current (find meta_key str_eq version_key (upgrade d t).0.meta) ≡ true
upgrade-is_current d t h = elim (Option-cases (d.statement 1)) [
  | inr (e, p) ↦ let never : some e ≡ none = rw (p, upgrade) at h in cc
  | inl p ↦
      let step : upgrade d t ≡ (if t.has_series then drop_actions d 2 t else add_columns d t) =
        ap
          (λ o. elim o [
            | some e ↦ (t, some e)
            | none ↦ if t.has_series then drop_actions d 2 t else add_columns d t
          ])
          p in
      rw step (by_columns t.has_series (rw step at h))
]
  where
    added :
        (add_columns d t).1 ≡ none
        → is_current (find meta_key str_eq version_key (add_columns d t).0.meta) ≡ true
    added k = elim (Option-cases (d.statement 2)) [
      | inr (e, q) ↦ let never : some e ≡ none = rw (q, add_columns) at k in cc
      | inl q ↦ elim (Option-cases (d.statement 3)) [
        | inr (e, r) ↦ let never : some e ≡ none = rw (q, add_columns, r) at k in cc
        | inl r ↦
            let wide = record t { has_series = true; has_ts = true } in
            let done : (drop_actions d 4 wide).1 ≡ none = rw (q, add_columns, r) at k in
            rw (q, add_columns, r) (drop_actions-is_current d 4 wide done)
      ]
    ]

    by_columns :
        (b : Bool)
        → (if b then drop_actions d 2 t else add_columns d t).1 ≡ none
        → is_current (
            find meta_key str_eq version_key
              (if b then drop_actions d 2 t else add_columns d t).0.meta)
          ≡ true
    by_columns true k = drop_actions-is_current d 2 t k
    by_columns false k = added k

migrate-current :
    (d : Driver) (t : Tables)
    → d.statement 0 ≡ none
    → is_current (find meta_key str_eq version_key t.meta) ≡ true
    → migrate d t ≡ (t, none)
unfolding migrate
migrate-current d t clear h = rw (clear, migrate, h) refl

migrate-is_current :
    (d : Driver) (t : Tables)
    → (migrate d t).1 ≡ none
    → is_current (find meta_key str_eq version_key (migrate d t).0.meta) ≡ true
unfolding migrate
migrate-is_current d t h = elim (Option-cases (d.statement 0)) [
  | inr (e, p) ↦ let never : some e ≡ none = rw (p, migrate) at h in cc
  | inl p ↦ elim (Bool-cases (is_current (find meta_key str_eq version_key t.meta))) [
    | inl q ↦ rw (p, migrate, q) q
    | inr q ↦
        let done : (upgrade d t).1 ≡ none = rw (p, migrate, q) at h in
        rw (p, migrate, q) (upgrade-is_current d t done)
  ]
]

-- A migration that reports no error is not done again: the actions that accumulate behind it are kept.
pub migrate_again :
    (d d' : Driver) (t : Tables)
    → (migrate d t).1 ≡ none
    → d'.statement 0 ≡ none
    → (progress_then : List Progress) (done_then : List Done) (actions_then : List Action)
    → let u = record (migrate d t).0 {
      shard_progress = progress_then;
      shard_done = done_then;
      measurement_actions = actions_then;
    } in
      migrate d' u ≡ (u, none)
migrate_again d d' t h clear ps ds rows =
    migrate-current d'
      (record (migrate d t).0 { shard_progress = ps; shard_done = ds; measurement_actions = rows })
      clear (migrate-is_current d t h)
