-- ===== src/Checkpoint/Migrate/Columns.antt =====
-- The columns that `migrate` of internal/checkpoint/checkpoint.go adds.
use tsm2arc.Prelude.{
  ℕ, suc, true, false, none, some, if◌then◌else◌, ◌≡◌, refl, ap, ◌∙◌, inl, inr, Bool-cases,
  Option-cases,
}
use tsm2arc.Prelude.Strings.{codes, str_eq}
use tsm2arc.Checkpoint.{ShardKey, Tables, Driver, failed, find, meta_key, progress}
use tsm2arc.Checkpoint.Migrate.{
  version_key, set_version, drop_actions, add_columns, is_current, upgrade, migrate,
}

drop_actions-columns :
    (d : Driver) (n : ℕ) (t : Tables)
    → ((drop_actions d n t).0.has_series ≡ t.has_series)
      × ((drop_actions d n t).0.has_ts ≡ t.has_ts)
drop_actions-columns d n t = elim (Option-cases (d.statement n)) [
  | inr (e, p) ↦ rw (p, drop_actions) (refl, refl)
  | inl p ↦ elim (Option-cases (d.statement (suc n))) [
    | inr (e, q) ↦ rw (p, drop_actions, q, set_version) (refl, refl)
    | inl q ↦ rw (p, drop_actions, q, set_version) (refl, refl)
  ]
]

upgrade-columns :
    (d : Driver) (t : Tables)
    → t.has_series ≡ true
    → ((upgrade d t).0.has_series ≡ t.has_series) × ((upgrade d t).0.has_ts ≡ t.has_ts)
upgrade-columns d t h = elim (Option-cases (d.statement 1)) [
  | inr (e, p) ↦ rw (p, upgrade) (refl, refl)
  | inl p ↦
      let kept : upgrade d t ≡ drop_actions d 2 t =
        ap
          (λ o. elim o [
            | some e ↦ (t, some e)
            | none ↦ if t.has_series then drop_actions d 2 t else add_columns d t
          ])
          p
        ∙ ap (λ b. if b then drop_actions d 2 t else add_columns d t) h in
      rw kept (drop_actions-columns d 2 t)
]

migrate-columns :
    (d : Driver) (t : Tables)
    → t.has_series ≡ true
    → ((migrate d t).0.has_series ≡ t.has_series) × ((migrate d t).0.has_ts ≡ t.has_ts)
unfolding migrate
migrate-columns d t h = elim (Option-cases (d.statement 0)) [
  | inr (e, p) ↦ rw (p, migrate) (refl, refl)
  | inl p ↦ elim (Bool-cases (is_current (find meta_key str_eq version_key t.meta))) [
    | inl q ↦ rw (p, migrate, q) (refl, refl)
    | inr q ↦ rw (p, migrate, q) (upgrade-columns d t h)
  ]
]

progress-failed :
    (d : Driver) (k : ShardKey) (t : Tables)
    → t.has_series ≡ true
    → t.has_ts ≡ false
    → progress d k t ≡ failed (codes "no such column")
unfolding progress
progress-failed d k t h g = rw (h, g) refl

-- A store that has the column `last_series` without `last_ts` never gets it: whatever the driver
-- answers, `migrate` does not add the column, and every look at the progress fails.
pub migrate-progress :
    (d d' : Driver) (k : ShardKey) (t : Tables)
    → t.has_series ≡ true
    → t.has_ts ≡ false
    → ((migrate d t).0.has_ts ≡ false)
      × (progress d' k (migrate d t).0 ≡ failed (codes "no such column"))
migrate-progress d d' k t h g =
    let (a, b) = migrate-columns d t h in
    (b ∙ g, progress-failed d' k (migrate d t).0 (a ∙ h) (b ∙ g))
