-- ===== src/Checkpoint.antt =====
-- internal/checkpoint/checkpoint.go: the resume store. A table is the list of its rows; the columns that
-- hold the time of a change are left out, since nothing reads them. What the driver answers to a
-- statement is a parameter of each operation. Sums in a table are taken to stay within int64.
pub mod Rows
pub mod History
pub mod Audit
pub mod Config
pub mod Migrate
pub mod Rewind
pub mod Totals
mod Runs
use tsm2arc.Prelude.{
  ℕ, zero, suc, List, [], ◌∷◌, ◌++◌, Bool, true, false, ◌&&◌, Option, none, some, if◌then◌else◌,
  Bytes, length, not,
}
use tsm2arc.Prelude.Int64.{ℤ, pos, negsuc, ◌+ℤ◌}
use tsm2arc.Prelude.Times.{earlier}
use tsm2arc.Prelude.Strings.{codes, str_eq}

pub record Cursor : Type 0 where
  pub series_key : Bytes
  pub unix_nano : ℤ

pub record ActionDelta : Type 0 where
  pub measurement : Bytes
  pub action : Bytes
  pub renamed_to : Bytes
  pub origin : Bytes
  pub points : ℤ

-- The primary key of a shard: `source_db` and `shard_id`.
abbrev pub ShardKey : Type 0
ShardKey = Bytes × Bytes

-- A row of `shard_progress`.
pub record Progress : Type 0 where
  pub shard : ShardKey
  pub committed_seq : ℤ
  pub rows_sent : ℤ
  pub last_series : Option Bytes
  pub last_ts : Option ℤ

-- A row of `shard_done`.
pub record Done : Type 0 where
  pub shard : ShardKey
  pub total_chunks : ℤ
  pub rows_sent : ℤ

-- A row of `measurement_actions`.
pub record Action : Type 0 where
  pub shard : ShardKey
  pub measurement : Bytes
  pub action : Bytes
  pub renamed_to : Bytes
  pub origin : Bytes
  pub points : ℤ

-- A row of `meta`.
pub record Meta : Type 0 where
  pub key : Bytes
  pub value : Bytes

-- `has_series` and `has_ts`: `shard_progress` has the columns `last_series` and `last_ts`.
pub record Tables : Type 0 where
  pub has_series : Bool
  pub has_ts : Bool
  pub shard_progress : List Progress
  pub shard_done : List Done
  pub meta : List Meta
  pub measurement_actions : List Action

abbrev pub SqlError : Type 0
SqlError = Bytes

-- The answers of the driver to the statements of one operation, by their number, and to the begin and
-- the end of its transaction. It refuses a write to a column that is not there.
pub record Driver : Type 0 where
  pub begin : Option SqlError
  pub statement : ℕ → Option SqlError
  pub end : Option SqlError

pub data Sql (A : Type 0) : Type 0 where
  ok : A → Sql A
  failed : SqlError → Sql A

-- `if err != nil { return err }`
abbrev pub and_then : {A B : Type 0} → Sql A → (A → Sql B) → Sql B
and_then (ok a) f = f a
and_then (failed e) f = failed e

abbrev pub exec : {A : Type 0} → Driver → ℕ → A → Sql A
exec d n a = elim (d.statement n) [ none ↦ ok a | some e ↦ failed e ]

-- `tx.Commit()`, or the deferred `tx.Rollback()`. A Commit that fails is taken to leave the tables as
-- they were before the transaction.
abbrev pub end_tx : Driver → Tables → Sql Tables → Tables × Option SqlError
end_tx d t (failed e) = (t, some e)
end_tx d t (ok t') = elim d.end [ none ↦ (t', none) | some e ↦ (t, some e) ]

abbrev pub transaction : Driver → (Tables → Sql Tables) → Tables → Tables × Option SqlError
transaction d body t = elim d.begin [ none ↦ end_tx d t (body t) | some e ↦ (t, some e) ]

abbrev pub same_shard : ShardKey → ShardKey → Bool
same_shard (a, b) (c, d) = str_eq a c && str_eq b d

-- The key of a row of `measurement_actions`.
abbrev pub same_action : ShardKey × Bytes → ShardKey × Bytes → Bool
same_action (k, m) (l, n) = same_shard k l && str_eq m n

module _ {A K : Type 0} (key : A → K) (same : K → K → Bool) where
  -- `WHERE` the key is `k`.
  unfoldable pub find : K → List A → Option A
  find k [] = none
  find k (a ∷ rows) = let rest = find k rows in if same (key a) k then some a else rest

  -- `INSERT … ON CONFLICT(key) DO UPDATE`
  unfoldable pub upsert : A → (A → A) → List A → List A
  upsert row update [] = row ∷ []
  upsert row update (a ∷ rows) =
      let rest = upsert row update rows in
      if same (key a) (key row) then update a ∷ rows else a ∷ rest

abbrev pub shard_of : Progress → ShardKey
shard_of r = r.shard

abbrev pub done_shard : Done → ShardKey
done_shard r = r.shard

abbrev pub action_key : Action → ShardKey × Bytes
action_key r = (r.shard, r.measurement)

abbrev pub meta_key : Meta → Bytes
meta_key r = r.key

-- The update of `Commit`: it reads the row as it was.
abbrev pub update_progress : Progress → Progress → Progress
update_progress new old = record old {
  last_series =
      if earlier new.committed_seq old.committed_seq then old.last_series else new.last_series;
  last_ts = if earlier new.committed_seq old.committed_seq then old.last_ts else new.last_ts;
  committed_seq =
      if earlier old.committed_seq new.committed_seq then new.committed_seq else old.committed_seq;
  rows_sent = old.rows_sent +ℤ new.rows_sent;
}

abbrev pub put_progress : Progress → Tables → Tables
put_progress row t = record t {
  shard_progress = upsert shard_of same_shard row (update_progress row) t.shard_progress;
}

abbrev pub update_action : Action → Action → Action
update_action new old = record old {
  action = new.action;
  renamed_to = new.renamed_to;
  origin = new.origin;
  points = old.points +ℤ new.points;
}

abbrev pub action_row : ShardKey → ActionDelta → Action
action_row k d = record {
  shard = k;
  measurement = d.measurement;
  action = d.action;
  renamed_to = d.renamed_to;
  origin = d.origin;
  points = d.points;
}

abbrev pub put_action : Action → Tables → Tables
put_action row t = record t {
  measurement_actions = upsert action_key same_action row (update_action row) t.measurement_actions;
}

-- The deltas from the statement number `n` on.
unfoldable pub apply_deltas : Driver → ℕ → ShardKey → List ActionDelta → Tables → Sql Tables
apply_deltas d n k [] t = ok t
apply_deltas d n k (x ∷ xs) t =
    let rest = apply_deltas d (suc n) k xs (put_action (action_row k x) t) in
    elim (d.statement n) [ none ↦ rest | some e ↦ failed e ]

abbrev pub progress_row : ShardKey → ℤ → ℤ → Cursor → Progress
progress_row k seq rows_delta cur = record {
  shard = k;
  committed_seq = seq;
  rows_sent = rows_delta;
  last_series = some cur.series_key;
  last_ts = some cur.unix_nano;
}

unfoldable pub commit :
    Driver → ShardKey → ℤ → ℤ → Cursor → List ActionDelta → Tables → Tables × Option SqlError
commit d k seq rows_delta cur deltas t =
    transaction d
      (λ t.
        and_then (exec d 0 (put_progress (progress_row k seq rows_delta cur) t))
          (apply_deltas d 1 k deltas))
      t

-- `rows_sent` of the shard's progress, 0 without a row.
abbrev pub rows_of : Option Progress → ℤ
rows_of none = pos 0
rows_of (some r) = r.rows_sent

abbrev pub put_done : Done → Tables → Tables
put_done row t = record t {
  shard_done =
      upsert done_shard same_shard row
        (λ old. record old { total_chunks = row.total_chunks; rows_sent = row.rows_sent })
        t.shard_done;
}

unfoldable pub finish_shard :
    Driver → ShardKey → ℤ → List ActionDelta → Tables → Tables × Option SqlError
finish_shard d k total_chunks deltas t =
    transaction d
      (λ t. and_then (apply_deltas d 0 k deltas t) (λ u.
        and_then (exec d (length deltas) (rows_of (find shard_of same_shard k u.shard_progress)))
          (λ rows.
            exec d (suc (length deltas))
              (put_done (record { shard = k; total_chunks = total_chunks; rows_sent = rows }) u))))
      t

-- A query of the two columns: it is refused when one of them is not there.
abbrev pub cursor_columns : Tables → Option SqlError
cursor_columns t = if t.has_series && t.has_ts then none else some (codes "no such column")

-- The sequence number and the cursor of a row, if there is one: `Progress` without a failure.
abbrev pub cursor_of : Option Bytes → Option ℤ → Option Cursor
cursor_of (some s) (some t) = some (record { series_key = s; unix_nano = t })
cursor_of (some s) none = none
cursor_of none t = none

abbrev pub position : Option Progress → ℤ × Option Cursor
position none = (negsuc 0, none)
position (some r) = (r.committed_seq, cursor_of r.last_series r.last_ts)

unfoldable pub progress : Driver → ShardKey → Tables → Sql (ℤ × Option Cursor)
progress d k t = elim (cursor_columns t) [
  | some e ↦ failed e
  | none ↦ exec d 0 (position (find shard_of same_shard k t.shard_progress))
]

unfoldable pub committed_seq_of : Driver → ShardKey → Tables → Sql ℤ
committed_seq_of d k t = and_then (progress d k t) (λ p. ok p.0)

abbrev pub is_some : {A : Type 0} → Option A → Bool
is_some none = false
is_some (some a) = true

unfoldable pub is_shard_done : Driver → ShardKey → Tables → Sql Bool
is_shard_done d k t = exec d 0 (is_some (find done_shard same_shard k t.shard_done))
