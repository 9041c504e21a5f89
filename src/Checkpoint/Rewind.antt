-- ===== src/Checkpoint/Rewind.antt =====
-- `Summary` of internal/checkpoint/checkpoint.go, and the two operations that its tests set a store back
-- with.
use tsm2arc.Prelude.{ℕ, List, [], ◌∷◌, Option, none, some, if◌then◌else◌, Bytes, length, map}
use tsm2arc.Prelude.Int64.{ℤ, pos, negsuc, ◌+ℤ◌}
use tsm2arc.Checkpoint.{
  Cursor, ShardKey, Progress, Done, Tables, SqlError, Driver, Sql, and_then, exec, transaction,
  same_shard,
}

-- `UPDATE shard_progress … WHERE` the shard is `k`.
unfoldable pub update_shard : ShardKey → (Progress → Progress) → List Progress → List Progress
update_shard k f [] = []
update_shard k f (r ∷ rows) = (if same_shard r.shard k then f r else r) ∷ update_shard k f rows

-- `DELETE FROM shard_done WHERE` the shard is `k`.
unfoldable pub delete_done : ShardKey → List Done → List Done
delete_done k [] = []
delete_done k (r ∷ rows) =
    let rest = delete_done k rows in if same_shard r.shard k then rest else r ∷ rest

abbrev pub series_of : Option Cursor → Option Bytes
series_of none = none
series_of (some c) = some c.series_key

abbrev pub ts_of : Option Cursor → Option ℤ
ts_of none = none
ts_of (some c) = some c.unix_nano

abbrev pub rewound : Option Cursor → Progress → Progress
rewound prev r = record r {
  committed_seq = r.committed_seq +ℤ negsuc 0;
  last_series = series_of prev;
  last_ts = ts_of prev;
}

unfoldable pub rewind_for_test :
    Driver → ShardKey → Option Cursor → Tables → Tables × Option SqlError
rewind_for_test d k prev t =
    transaction d
      (λ t.
        and_then
          (exec d 0 (record t { shard_progress = update_shard k (rewound prev) t.shard_progress }))
          (λ u. exec d 1 (record u { shard_done = delete_done k u.shard_done })))
      t

unfoldable pub clear_cursors_for_test : Driver → Tables → Tables × Option SqlError
clear_cursors_for_test d t = elim (d.statement 0) [
  | some e ↦ (t, some e)
  | none ↦ (
    record t {
      shard_progress =
          map {A = Progress} (λ r. record r { last_series = none; last_ts = none })
            t.shard_progress;
    },
    none,
  )
]

-- `SUM(rows_sent)`
unfoldable pub sum_rows : List Progress → ℤ
sum_rows [] = pos 0
sum_rows (r ∷ rows) = r.rows_sent +ℤ sum_rows rows

-- The shards with progress, those that are done, and the rows sent.
unfoldable pub summary : Driver → Tables → Sql (ℕ × ℕ × ℤ)
summary d t =
    and_then (exec d 0 (length t.shard_progress, sum_rows t.shard_progress))
      (λ (started, rows). exec d 1 (started, length t.shard_done, rows))
