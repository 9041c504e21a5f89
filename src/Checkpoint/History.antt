-- ===== src/Checkpoint/History.antt =====
-- What internal/checkpoint/checkpoint.go reports after any commits: the abstract state of a shard.
use tsm2arc.Prelude.{
  ℕ, zero, suc, List, [], ◌∷◌, Bool, true, false, ◌&&◌, Option, none, some, if◌then◌else◌, length,
  ◌≡◌, ◌⊎◌, refl, ap, ◌∙◌, inl, inr, arith, Bool-cases, Option-cases,
}
use tsm2arc.Prelude.Int64.{ℤ, pos, negsuc, ◌+ℤ◌, zero-+ℤ}
use tsm2arc.Prelude.Times.{earlier, earlier_asymm, earlier_connex, le→not_earlier}
use tsm2arc.Checkpoint.{
  Cursor, ActionDelta, ShardKey, Progress, Tables, SqlError, Driver, ok, failed, same_shard, find,
  upsert, shard_of, update_progress, put_progress, put_action, action_row, apply_deltas,
  progress_row, commit, rows_of, position,
}
use tsm2arc.Checkpoint.Rows.{put_row, find-upsert, same_shard_lem}

-- One call of `Commit`, for a chunk's number.
pub record Call : Type 0 where
  pub driver : Driver
  pub shard : ShardKey
  pub seq : ℕ
  pub rows_delta : ℤ
  pub cur : Cursor
  pub deltas : List ActionDelta

abbrev pub run_call : Call → Tables → Tables × Option SqlError
run_call c t = commit c.driver c.shard (pos c.seq) c.rows_delta c.cur c.deltas t

abbrev pub run_calls : List Call → Tables → Tables
run_calls [] t = t
run_calls (c ∷ cs) t = run_calls cs (run_call c t).0

abbrev pub is_none : Option SqlError → Bool
is_none none = true
is_none (some e) = false

-- The driver answers to `m` statements from the number `n` on.
unfoldable pub answers : Driver → ℕ → ℕ → Bool
answers d n zero = true
answers d n (suc m) = is_none (d.statement n) && answers d (suc n) m

-- The driver carries a transaction of `m` statements through.
abbrev pub carries : Driver → ℕ → Bool
carries d m = is_none d.begin && (answers d 0 m && is_none d.end)

abbrev pub accepted : Call → Bool
accepted c = carries c.driver (suc (length c.deltas))

abbrev pub put_deltas : ShardKey → List ActionDelta → Tables → Tables
put_deltas k [] t = t
put_deltas k (x ∷ xs) t = put_deltas k xs (put_action (action_row k x) t)

-- All that a commit changes.
abbrev pub committed : Call → Tables → Tables
committed c t =
    put_deltas c.shard c.deltas
      (put_progress (progress_row c.shard (pos c.seq) c.rows_delta c.cur) t)

pub apply_deltas-cases :
    (d : Driver) (n : ℕ) (k : ShardKey) (xs : List ActionDelta) (t : Tables)
    → ((apply_deltas d n k xs t ≡ ok (put_deltas k xs t)) × (answers d n (length xs) ≡ true))
      ⊎ ((e : SqlError) × (apply_deltas d n k xs t ≡ failed e) × (answers d n (length xs) ≡ false))
unfolding apply_deltas answers
apply_deltas-cases d n k [] t = inl (refl, refl)
apply_deltas-cases d n k (x ∷ xs) t =
    let ih = apply_deltas-cases d (suc n) k xs (put_action (action_row k x) t) in
    elim (Option-cases (d.statement n)) [
      | inl p ↦ rw (p, apply_deltas) ih
      | inr (e, p) ↦ inr (e, rw (p, apply_deltas) refl, rw p refl)
    ]

pub commit-cases :
    (c : Call) (t : Tables)
    → ((run_call c t ≡ (committed c t, none)) × (accepted c ≡ true))
      ⊎ ((e : SqlError) × (run_call c t ≡ (t, some e)) × (accepted c ≡ false))
unfolding commit answers apply_deltas upsert
commit-cases c t = elim (Option-cases c.driver.begin) [
  | inr (e, p) ↦ inr (e, rw p refl, rw p refl)
  | inl p ↦ elim (Option-cases (c.driver.statement 0)) [
    | inr (e, q) ↦ inr (e, rw (p, q) refl, rw (p, q) refl)
    | inl q ↦
        elim (apply_deltas-cases c.driver 1 c.shard c.deltas
          (put_progress (progress_row c.shard (pos c.seq) c.rows_delta c.cur) t)) [
            | inr (e, r, s) ↦ inr (e, rw (p, q, r) refl, rw (p, q, s) refl)
            | inl (r, s) ↦ elim (Option-cases c.driver.end) [
              | inr (e, u) ↦ inr (e, rw (p, q, r, u) refl, rw (p, q, s, u) refl)
              | inl u ↦ inl (rw (p, q, r, u) refl, rw (p, q, s, u) refl)
            ]
          ]
  ]
]

-- What the store has of a shard: the last sequence number, its cursor, and the rows sent.
abbrev pub View : Type 0
View = (ℤ × Option Cursor) × ℤ

abbrev pub row_view : Option Progress → View
row_view r = (position r, rows_of r)

abbrev pub view : ShardKey → Tables → View
view k t = row_view (find shard_of same_shard k t.shard_progress)

-- A commit takes the place of those with a number that is not greater, and its rows are added.
abbrev pub advance : Call → View → View
advance c ((seq, cur), rows) =
    (if earlier (pos c.seq) seq then (seq, cur) else (pos c.seq, some c.cur), rows +ℤ c.rows_delta)

-- The accepted calls for the shard, in their order.
unfoldable pub latest : ShardKey → List Call → View → View
latest k [] v = v
latest k (c ∷ cs) v = latest k cs (if accepted c && same_shard c.shard k then advance c v else v)

pub deltas_keep_progress :
    (k : ShardKey) (xs : List ActionDelta) (t : Tables)
    → ((put_deltas k xs t).shard_progress ≡ t.shard_progress)
      × ((put_deltas k xs t).shard_done ≡ t.shard_done)
      × ((put_deltas k xs t).meta ≡ t.meta)
deltas_keep_progress k [] t = (refl, refl, refl)
deltas_keep_progress k (x ∷ xs) t = deltas_keep_progress k xs (put_action (action_row k x) t)

-- What the update of a row does to its view.
put_row-advance :
    (c : Call) (r : Option Progress)
    → row_view (
        some (
          put_row
            (progress_row c.shard (pos c.seq) c.rows_delta c.cur)
            (update_progress (progress_row c.shard (pos c.seq) c.rows_delta c.cur))
            r))
      ≡ advance c (row_view r)
put_row-advance c none = rw (not_before c.seq, zero-+ℤ c.rows_delta) refl
  where
    not_before : (n : ℕ) → earlier (pos n) (negsuc 0) ≡ false
    not_before n = le→not_earlier (pos n) (negsuc 0) (omega arith)
put_row-advance c (some old) = elim (Bool-cases (earlier (pos c.seq) old.committed_seq)) [
  | inl e ↦ rw (e, earlier_asymm (pos c.seq) old.committed_seq e) refl
  | inr e ↦ rw (e, greatest (pos c.seq) old.committed_seq e) refl
]
  where
    greatest : (a b : ℤ) → earlier a b ≡ false → (if earlier b a then a else b) ≡ a
    greatest a b h = ground (arith, earlier_connex a b)

-- One commit, accepted or not.
pub view-run_call :
    (k : ShardKey) (c : Call) (t : Tables)
    → view k (run_call c t).0
      ≡ (if accepted c && same_shard c.shard k then advance c (view k t) else view k t)
view-run_call k c t = elim (commit-cases c t) [
  | inr (e, p, q) ↦ rw (p, q) refl
  | inl (p, q) ↦
      let row = progress_row c.shard (pos c.seq) c.rows_delta c.cur in
      let found =
        find-upsert shard_of same_shard same_shard_lem row (update_progress row) (λ r. refl)
          t.shard_progress k in
      let kept = (deltas_keep_progress c.shard c.deltas (put_progress row t)).0 in
      rw (p, q, kept, found)
        (elim (Bool-cases (same_shard c.shard k)) [
          | inr e ↦ rw e refl
          | inl e ↦
              let one = (same_shard_lem c.shard k).0 e in
              rw (e, ← one) (put_row-advance c (find shard_of same_shard c.shard t.shard_progress))
        ])
]

-- Whatever the driver answers, each accepted commit for a shard, in turn, adds its rows to what the store
-- has of the shard and puts its number and its cursor there, unless a greater number is there; the other
-- commits change nothing of it.
pub view-latest :
    (k : ShardKey) (cs : List Call) (t : Tables) → view k (run_calls cs t) ≡ latest k cs (view k t)
unfolding latest
view-latest k [] t = refl
view-latest k (c ∷ cs) t =
    view-latest k cs (run_call c t).0 ∙ ap (latest k cs) (view-run_call k c t)
