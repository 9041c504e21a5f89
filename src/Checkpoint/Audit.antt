-- ===== src/Checkpoint/Audit.antt =====
-- The measurement counts and the done marks of internal/checkpoint/checkpoint.go after any commits.
use tsm2arc.Prelude.{
  suc, List, [], ◌∷◌, true, ◌&&◌, Option, none, some, if◌then◌else◌, Bytes, length, ◌≡◌, ◌⊎◌, refl,
  sym, ap, ◌∙◌, inl, inr, Bool-cases, Option-cases,
}
use tsm2arc.Prelude.Int64.{ℤ, pos, ◌+ℤ◌, zero-+ℤ}
use tsm2arc.Prelude.Strings.{str_eq}
use tsm2arc.Checkpoint.{
  ActionDelta, ShardKey, Done, Action, Tables, SqlError, Driver, same_shard, same_action, find,
  upsert, shard_of, done_shard, action_key, update_action, put_progress, put_action, action_row,
  apply_deltas, progress_row, rows_of, put_done, finish_shard, is_some,
}
use tsm2arc.Checkpoint.Rows.{put_row, find-upsert, same_shard_lem, same_action_lem}
use tsm2arc.Checkpoint.History.{
  Call, run_call, run_calls, accepted, put_deltas, deltas_keep_progress, apply_deltas-cases,
  commit-cases, view, latest, view-latest,
}

abbrev pub points_of : Option Action → ℤ
points_of none = pos 0
points_of (some r) = r.points

-- The points that the store has for a measurement of a shard.
abbrev pub points_at : ShardKey → Bytes → Tables → ℤ
points_at k m t = points_of (find action_key same_action (k, m) t.measurement_actions)

-- A total with the points of a measurement's deltas.
unfoldable pub add_deltas : Bytes → List ActionDelta → ℤ → ℤ
add_deltas m [] n = n
add_deltas m (x ∷ xs) n = add_deltas m xs (if str_eq x.measurement m then n +ℤ x.points else n)

-- A total with the deltas of the accepted commits for a shard.
unfoldable pub tally : ShardKey → Bytes → List Call → ℤ → ℤ
tally k m [] n = n
tally k m (c ∷ cs) n =
    tally k m cs (if accepted c && same_shard c.shard k then add_deltas m c.deltas n else n)

points_at-put_action :
    (k l : ShardKey) (m : Bytes) (x : ActionDelta) (t : Tables)
    → points_at k m (put_action (action_row l x) t) ≡ (
        if same_action (l, x.measurement) (k, m)
        then points_at k m t +ℤ x.points
        else points_at k m t)
points_at-put_action k l m x t =
    rw
      (find-upsert action_key same_action same_action_lem (action_row l x)
        (update_action (action_row l x)) (λ r. refl) t.measurement_actions (k, m))
      (elim (Bool-cases (same_action (l, x.measurement) (k, m))) [
        | inr e ↦ rw e refl
        | inl e ↦
            let one = (same_action_lem (l, x.measurement) (k, m)).0 e in
            rw e (rw one (updated (find action_key same_action (k, m) t.measurement_actions)))
      ])
  where
    updated :
        (r : Option Action)
        → points_of (some (put_row (action_row l x) (update_action (action_row l x)) r))
          ≡ points_of r +ℤ x.points
    updated none = sym (zero-+ℤ x.points)
    updated (some r) = refl

points_at-put_deltas :
    (k l : ShardKey) (m : Bytes) (xs : List ActionDelta) (t : Tables)
    → points_at k m (put_deltas l xs t)
      ≡ (if same_shard l k then add_deltas m xs (points_at k m t) else points_at k m t)
unfolding add_deltas
points_at-put_deltas k l m [] t = elim (Bool-cases (same_shard l k)) [
  | inl e ↦ rw e refl
  | inr e ↦ rw e refl
]
points_at-put_deltas k l m (x ∷ xs) t =
    points_at-put_deltas k l m xs (put_action (action_row l x) t)
    ∙ rw (points_at-put_action k l m x t)
        (elim (Bool-cases (same_shard l k)) [ inl e ↦ rw e refl | inr e ↦ rw e refl ])

points_at-run_call :
    (k : ShardKey) (m : Bytes) (c : Call) (t : Tables)
    → points_at k m (run_call c t).0 ≡ (
        if accepted c && same_shard c.shard k
        then add_deltas m c.deltas (points_at k m t)
        else points_at k m t)
points_at-run_call k m c t = elim (commit-cases c t) [
  | inr (e, p, q) ↦ rw (p, q) refl
  | inl (p, q) ↦
      rw (p, q)
        (points_at-put_deltas k c.shard m c.deltas
          (put_progress (progress_row c.shard (pos c.seq) c.rows_delta c.cur) t))
]

-- Whatever the driver answers, the points of a measurement are those of the accepted commits, each
-- counted once: with the sequence number, or not at all.
pub points_at-tally :
    (k : ShardKey) (m : Bytes) (cs : List Call) (t : Tables)
    → points_at k m (run_calls cs t) ≡ tally k m cs (points_at k m t)
unfolding tally
points_at-tally k m [] t = refl
points_at-tally k m (c ∷ cs) t =
    points_at-tally k m cs (run_call c t).0 ∙ ap (tally k m cs) (points_at-run_call k m c t)

abbrev pub done_rows : Option Done → ℤ
done_rows none = pos 0
done_rows (some r) = r.rows_sent

-- What `FinishShard` changes.
abbrev pub finished : ShardKey → ℤ → List ActionDelta → Tables → Tables
finished k total_chunks deltas t =
    put_done
      (record {
        shard = k;
        total_chunks = total_chunks;
        rows_sent = rows_of (find shard_of same_shard k t.shard_progress);
      })
      (put_deltas k deltas t)

pub finish_shard-cases :
    (d : Driver) (k : ShardKey) (total_chunks : ℤ) (deltas : List ActionDelta) (t : Tables)
    → (finish_shard d k total_chunks deltas t ≡ (finished k total_chunks deltas t, none))
      ⊎ ((e : SqlError) × (finish_shard d k total_chunks deltas t ≡ (t, some e)))
unfolding finish_shard apply_deltas upsert
finish_shard-cases d k total_chunks deltas t = elim (Option-cases d.begin) [
  | inr (e, p) ↦ inr (e, rw p refl)
  | inl p ↦ elim (apply_deltas-cases d 0 k deltas t) [
    | inr (e, q, s) ↦ inr (e, rw (p, q) refl)
    | inl (q, s) ↦ elim (Option-cases (d.statement (length deltas))) [
      | inr (e, r) ↦ inr (e, rw (p, q, r) refl)
      | inl r ↦ elim (Option-cases (d.statement (suc (length deltas)))) [
        | inr (e, u) ↦ inr (e, rw (p, q, r, u) refl)
        | inl u ↦ elim (Option-cases d.end) [
          | inr (e, v) ↦ inr (e, rw (p, q, r, u, v) refl)
          | inl v ↦ inl (rw (p, q, r, u, v, (deltas_keep_progress k deltas t).0) refl)
        ]
      ]
    ]
  ]
]

finished-is_some :
    (k : ShardKey) (total_chunks : ℤ) (deltas : List ActionDelta) (t : Tables)
    → (is_some (find done_shard same_shard k (finished k total_chunks deltas t).shard_done) ≡ true)
      × (done_rows (find done_shard same_shard k (finished k total_chunks deltas t).shard_done)
          ≡ rows_of (find shard_of same_shard k t.shard_progress))
finished-is_some k total_chunks deltas t =
    let rows = rows_of (find shard_of same_shard k t.shard_progress) in
    let row : Done = record { shard = k; total_chunks = total_chunks; rows_sent = rows } in
    let before = (put_deltas k deltas t).shard_done in
    rw
      (find-upsert done_shard same_shard same_shard_lem row
        (λ old. record old { total_chunks = total_chunks; rows_sent = rows }) (λ r. refl) before k)
      (rw ((same_shard_lem k k).1 refl) (refl, rows_put row (find done_shard same_shard k before)))
  where
    rows_put :
        (row : Done) (r : Option Done)
        → done_rows (
            some (
              put_row row
                (λ old. record old { total_chunks = row.total_chunks; rows_sent = row.rows_sent })
                r))
          ≡ row.rows_sent
    rows_put row none = refl
    rows_put row (some r) = refl

-- A shard that is finished without an error after any commits is marked as done, with the rows that the
-- accepted commits for it have sent.
pub finish_shard-latest :
    (d : Driver) (k : ShardKey) (total_chunks : ℤ) (deltas : List ActionDelta) (cs : List Call)
    (t : Tables)
    → (finish_shard d k total_chunks deltas (run_calls cs t)).1 ≡ none
    → (is_some (
          find done_shard same_shard k
            (finish_shard d k total_chunks deltas (run_calls cs t)).0.shard_done)
        ≡ true)
      × (done_rows (
            find done_shard same_shard k
              (finish_shard d k total_chunks deltas (run_calls cs t)).0.shard_done)
          ≡ (latest k cs (view k t)).1)
finish_shard-latest d k total_chunks deltas cs t h =
    elim (finish_shard-cases d k total_chunks deltas (run_calls cs t)) [
      | inr (e, p) ↦ let none_is : some e ≡ none = rw p at h in cc
      | inl p ↦
          let (marked, counted) = finished-is_some k total_chunks deltas (run_calls cs t) in
          rw p (marked, counted ∙ ap (λ v. v.1) (view-latest k cs t))
    ]
