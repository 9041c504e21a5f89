-- ===== src/Checkpoint/Migrate/Orphans.antt =====
-- What `migrate` of internal/checkpoint/checkpoint.go deletes.
use tsm2arc.Prelude.{
  ℕ, suc, List, [], ◌∷◌, Bool, true, false, Option, none, some, if◌then◌else◌, Bytes, ◌≡◌, refl, ap,
  ◌∙◌, inl, inr, Bool-cases, Option-cases,
}
use tsm2arc.Checkpoint.{ShardKey, Progress, Done, Action, Tables, Driver, find}
use tsm2arc.Checkpoint.{same_shard, shard_of, done_shard, meta_key}
use tsm2arc.Checkpoint.Audit.{points_of, points_at}
use tsm2arc.Checkpoint.{same_action, action_key}
use tsm2arc.Checkpoint.Rows.{same_action_lem}
use tsm2arc.Prelude.Int64.{ℤ, pos}
use tsm2arc.Prelude.Strings.{str_eq}
use tsm2arc.Checkpoint.Migrate.{
  version_key, is_orphan, delete_orphans, set_version, drop_actions, add_columns, is_current,
  upgrade, migrate,
}

points_of-delete_orphans :
    (t : Tables) (k : ShardKey) (m : Bytes) (rows : List Action)
    → points_of (find action_key same_action (k, m) (delete_orphans t rows))
      ≡ (if is_orphan k t then pos 0 else points_of (find action_key same_action (k, m) rows))
unfolding find delete_orphans
points_of-delete_orphans t k m [] = elim (Bool-cases (is_orphan k t)) [
  | inl e ↦ rw e refl
  | inr e ↦ rw e refl
]
points_of-delete_orphans t k m (a ∷ rows) =
    let ih = points_of-delete_orphans t k m rows in
    elim (Bool-cases (same_action (action_key a) (k, m))) [
      | inl e ↦
          let one = ap (λ x. x.0) ((same_action_lem (action_key a) (k, m)).0 e) in
          elim (Bool-cases (is_orphan k t)) [
            | inl f ↦ let gone = ap (λ x. is_orphan x t) one ∙ f in rw (gone, f) (ih ∙ rw f refl)
            | inr f ↦ let kept = ap (λ x. is_orphan x t) one ∙ f in rw (kept, f) (rw e refl)
          ]
      | inr e ↦ elim (Bool-cases (is_orphan a.shard t)) [
        | inl f ↦ rw (f, e) ih
        | inr f ↦ rw (f, e) ih
      ]
    ]

-- The points that a shard has left, by its row of progress and its done mark.
abbrev pub left_points : Option Progress → Option Done → ℤ → ℤ
left_points none mark n = n
left_points (some row) none n = pos 0
left_points (some row) (some mark) n = n

orphan_points :
    (t : Tables) (k : ShardKey) (n : ℤ)
    → (if is_orphan k t then pos 0 else n)
      ≡ left_points
          (find shard_of same_shard k t.shard_progress)
          (find done_shard same_shard k t.shard_done)
          n
orphan_points t k n = elim (Option-cases (find shard_of same_shard k t.shard_progress)) [
  | inl p ↦ rw (p, is_orphan, left_points) refl
  | inr (row, p) ↦ elim (Option-cases (find done_shard same_shard k t.shard_done)) [
    | inl q ↦ rw (p, q, is_orphan, left_points) refl
    | inr (mark, q) ↦ rw (p, q, is_orphan, left_points) refl
  ]
]

-- New columns are not looked at.
wide_orphans :
    (t : Tables) (rows : List Action)
    → delete_orphans (record t { has_series = true; has_ts = true }) rows ≡ delete_orphans t rows
unfolding delete_orphans
wide_orphans t [] = refl
wide_orphans t (a ∷ rows) =
    ap (λ rest. if is_orphan a.shard t then rest else a ∷ rest) (wide_orphans t rows)

set_version_keeps :
    (d : Driver) (n : ℕ) (t : Tables)
    → (set_version d n t).0.measurement_actions ≡ t.measurement_actions
set_version_keeps d n t = elim (Option-cases (d.statement n)) [
  | inr (e, p) ↦ rw (p, set_version) refl
  | inl p ↦ rw (p, set_version) refl
]

drop_actions-delete_orphans :
    (d : Driver) (n : ℕ) (t : Tables)
    → (drop_actions d n t).1 ≡ none
    → (drop_actions d n t).0.measurement_actions ≡ delete_orphans t t.measurement_actions
drop_actions-delete_orphans d n t h = elim (Option-cases (d.statement n)) [
  | inr (e, p) ↦ let never : some e ≡ none = rw (p, drop_actions) at h in cc
  | inl p ↦
      let left = record t { measurement_actions = delete_orphans t t.measurement_actions } in
      rw (p, drop_actions) (set_version_keeps d (suc n) left)
]

upgrade-delete_orphans :
    (d : Driver) (t : Tables)
    → (upgrade d t).1 ≡ none
    → (upgrade d t).0.measurement_actions ≡ delete_orphans t t.measurement_actions
upgrade-delete_orphans d t h = elim (Option-cases (d.statement 1)) [
  | inr (e, p) ↦ let never : some e ≡ none = rw (p, upgrade) at h in cc
  | inl p ↦
      let step : upgrade d t ≡ (if t.has_series then drop_actions d 2 t else add_columns d t) =
        ap
          (λ o. elim o [
            | some e ↦ (t, some e)
            | none ↦ if t.has_series then drop_actions d 2 t else add_columns d t
          ])
          p in
      rw step (by_columns t.has_series (rw step at h))
]
  where
    added :
        (add_columns d t).1 ≡ none
        → (add_columns d t).0.measurement_actions ≡ delete_orphans t t.measurement_actions
    added k = elim (Option-cases (d.statement 2)) [
      | inr (e, q) ↦ let never : some e ≡ none = rw (q, add_columns) at k in cc
      | inl q ↦ elim (Option-cases (d.statement 3)) [
        | inr (e, r) ↦ let never : some e ≡ none = rw (q, add_columns, r) at k in cc
        | inl r ↦
            let wide = record t { has_series = true; has_ts = true } in
            let done : (drop_actions d 4 wide).1 ≡ none = rw (q, add_columns, r) at k in
            rw (q, add_columns, r)
              (drop_actions-delete_orphans d 4 wide done ∙ wide_orphans t t.measurement_actions)
      ]
    ]

    by_columns :
        (b : Bool)
        → (if b then drop_actions d 2 t else add_columns d t).1 ≡ none
        → (if b then drop_actions d 2 t else add_columns d t).0.measurement_actions
          ≡ delete_orphans t t.measurement_actions
    by_columns true k = drop_actions-delete_orphans d 2 t k
    by_columns false k = added k

migrate-delete_orphans :
    (d : Driver) (t : Tables)
    → (migrate d t).1 ≡ none
    → is_current (find meta_key str_eq version_key t.meta) ≡ false
    → (migrate d t).0.measurement_actions ≡ delete_orphans t t.measurement_actions
unfolding migrate
migrate-delete_orphans d t h q = elim (Option-cases (d.statement 0)) [
  | inr (e, p) ↦ let never : some e ≡ none = rw (p, migrate) at h in cc
  | inl p ↦
      let done : (upgrade d t).1 ≡ none = rw (p, migrate, q) at h in
      rw (p, migrate, q) (upgrade-delete_orphans d t done)
]

-- A migration without an error, of a store that has not the current version, leaves a shard without
-- points for any measurement when the shard has a row of progress and no done mark; a shard
-- without progress, or with a done mark, keeps the points that it has.
pub migrate-left_points :
    (d : Driver) (t : Tables) (k : ShardKey) (m : Bytes)
    → (migrate d t).1 ≡ none
    → is_current (find meta_key str_eq version_key t.meta) ≡ false
    → points_at k m (migrate d t).0
      ≡ left_points
          (find shard_of same_shard k t.shard_progress)
          (find done_shard same_shard k t.shard_done)
          (points_at k m t)
migrate-left_points d t k m h q =
    ap (λ rows. points_of (find action_key same_action (k, m) rows))
      (migrate-delete_orphans d t h q)
    ∙ points_of-delete_orphans t k m t.measurement_actions
    ∙ orphan_points t k (points_at k m t)
