-- ===== src/Checkpoint/Migrate.antt =====
-- `migrate` of internal/checkpoint/checkpoint.go.
pub mod Orphans
pub mod Columns
pub mod Once
use tsm2arc.Prelude.{
  ℕ, suc, List, [], ◌∷◌, Bool, true, false, ◌&&◌, not, Option, none, some, if◌then◌else◌, Bytes,
  ◌≡◌, refl, ap, ◌∙◌, inl, inr, Bool-cases, Option-cases,
}
use tsm2arc.Prelude.Strings.{codes, str_eq, str_eq_iff, str_eq_refl}
use tsm2arc.Checkpoint.{
  ShardKey, Progress, Done, Action, Meta, Tables, SqlError, Driver, failed, same_shard, find,
  upsert, shard_of, done_shard, meta_key, is_some, progress,
}
use tsm2arc.Checkpoint.Rows.{put_row, find-upsert}
use tsm2arc.Checkpoint.Config.{meta_row}
use tsm2arc.Checkpoint.Audit.{points_of}
use tsm2arc.Checkpoint.{same_action, action_key}
use tsm2arc.Checkpoint.Rows.{same_action_lem}
use tsm2arc.Prelude.Int64.{pos}

abbrev pub version_key : Bytes
version_key = codes "schema_version"

-- A shard with progress that is not done.
abbrev pub is_orphan : ShardKey → Tables → Bool
is_orphan k t =
    is_some (find shard_of same_shard k t.shard_progress)
    && not (is_some (find done_shard same_shard k t.shard_done))

-- `DELETE FROM measurement_actions`, over the rows `rows` of `t`.
unfoldable pub delete_orphans : Tables → List Action → List Action
delete_orphans t [] = []
delete_orphans t (a ∷ rows) =
    let rest = delete_orphans t rows in if is_orphan a.shard t then rest else a ∷ rest

-- `INSERT OR REPLACE`, the last statement of `migrate`, as number `n`.
abbrev pub set_version : Driver → ℕ → Tables → Tables × Option SqlError
set_version d n t = elim (d.statement n) [
  | some e ↦ (t, some e)
  | none ↦
      let row = meta_row version_key (codes "2") in
      (
        record t {
          meta = upsert meta_key str_eq row (λ old. record old { value = codes "2" }) t.meta;
        },
        none,
      )
]

-- The statements behind the new columns, from the number `n` on.
abbrev pub drop_actions : Driver → ℕ → Tables → Tables × Option SqlError
drop_actions d n t = elim (d.statement n) [
  | some e ↦ (t, some e)
  | none ↦
      set_version d (suc n)
        (record t { measurement_actions = delete_orphans t t.measurement_actions })
]

-- The two statements that add a column, and the rest.
abbrev pub add_columns : Driver → Tables → Tables × Option SqlError
add_columns d t = elim (d.statement 2) [
  | some e ↦ (t, some e)
  | none ↦ elim (d.statement 3) [
    | some e ↦ (record t { has_series = true }, some e)
    | none ↦ drop_actions d 4 (record t { has_series = true; has_ts = true })
  ]
]

-- `err == nil && v == "2"`
abbrev pub is_current : Option Meta → Bool
is_current none = false
is_current (some r) = str_eq r.value (codes "2")

abbrev pub upgrade : Driver → Tables → Tables × Option SqlError
upgrade d t = elim (d.statement 1) [
  | some e ↦ (t, some e)
  | none ↦ if t.has_series then drop_actions d 2 t else add_columns d t
]

unfoldable pub migrate : Driver → Tables → Tables × Option SqlError
migrate d t = elim (d.statement 0) [
  | some e ↦ (t, some e)
  | none ↦ if is_current (find meta_key str_eq version_key t.meta) then (t, none) else upgrade d t
]
