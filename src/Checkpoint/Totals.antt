-- ===== src/Checkpoint/Totals.antt =====
-- The rows that `Summary` of internal/checkpoint/checkpoint.go reports.
use tsm2arc.Prelude.{
  ℕ, List, [], ◌∷◌, none, if◌then◌else◌, length, ◌≡◌, refl, sym, ap, ◌∙◌, inl, inr, Bool-cases,
}
use tsm2arc.Prelude.Int64.{ℤ, pos, ◌+ℤ◌, +ℤ_assoc, +ℤ_comm}
use tsm2arc.Checkpoint.{
  Progress, Tables, Driver, Sql, ok, and_then, exec, same_shard, upsert, shard_of, update_progress,
  put_progress, progress_row,
}
use tsm2arc.Checkpoint.History.{
  Call, run_call, run_calls, accepted, deltas_keep_progress, commit-cases,
}
use tsm2arc.Checkpoint.Rewind.{sum_rows, summary}

-- A total with the rows of the accepted commits, whatever their shard.
unfoldable pub add_rows : List Call → ℤ → ℤ
add_rows [] n = n
add_rows (c ∷ cs) n = add_rows cs (if accepted c then n +ℤ c.rows_delta else n)

move_last : (a b c : ℤ) → a +ℤ b +ℤ c ≡ a +ℤ c +ℤ b
move_last a b c = +ℤ_assoc a b c ∙ ap (λ x. a +ℤ x) (+ℤ_comm b c) ∙ sym (+ℤ_assoc a c b)

sum_rows-upsert :
    (row : Progress) (rows : List Progress)
    → sum_rows (upsert shard_of same_shard row (update_progress row) rows)
      ≡ sum_rows rows +ℤ row.rows_sent
unfolding sum_rows upsert
sum_rows-upsert row [] = +ℤ_comm row.rows_sent (pos 0)
sum_rows-upsert row (a ∷ rows) =
    let ih = sum_rows-upsert row rows in
    elim (Bool-cases (same_shard a.shard row.shard)) [
      | inl e ↦ rw (e, upsert) (move_last a.rows_sent row.rows_sent (sum_rows rows))
      | inr e ↦
          rw (e, upsert)
            (ap (λ n. a.rows_sent +ℤ n) ih
              ∙ sym (+ℤ_assoc a.rows_sent (sum_rows rows) row.rows_sent))
    ]

sum_rows-run_call :
    (c : Call) (t : Tables)
    → sum_rows (run_call c t).0.shard_progress ≡ (
        if accepted c then sum_rows t.shard_progress +ℤ c.rows_delta else sum_rows t.shard_progress)
sum_rows-run_call c t = elim (commit-cases c t) [
  | inr (e, p, q) ↦ rw (p, q) refl
  | inl (p, q) ↦
      let row = progress_row c.shard (pos c.seq) c.rows_delta c.cur in
      rw (p, q, (deltas_keep_progress c.shard c.deltas (put_progress row t)).0)
        (sum_rows-upsert row t.shard_progress)
]

sum_rows-run_calls :
    (cs : List Call) (t : Tables)
    → sum_rows (run_calls cs t).shard_progress ≡ add_rows cs (sum_rows t.shard_progress)
unfolding add_rows
sum_rows-run_calls [] t = refl
sum_rows-run_calls (c ∷ cs) t =
    sum_rows-run_calls cs (run_call c t).0 ∙ ap (add_rows cs) (sum_rows-run_call c t)

exec-ok : {A : Type 0} (d : Driver) (n : ℕ) (a : A) → d.statement n ≡ none → exec d n a ≡ ok a
exec-ok d n a h = rw (h, exec) refl

-- Whatever the driver answers to any commits of any shards, a summary that the driver answers behind them
-- reports as rows those that were sent before and those of the accepted commits.
pub summary-add_rows :
    (cs : List Call) (t : Tables) (d : Driver)
    → d.statement 0 ≡ none
    → d.statement 1 ≡ none
    → summary d (run_calls cs t)
      ≡ ok (
        length (run_calls cs t).shard_progress,
        length (run_calls cs t).shard_done,
        add_rows cs (sum_rows t.shard_progress),
      )
unfolding summary
summary-add_rows cs t d h k =
    let u = run_calls cs t in
    ap
      (λ (r : Sql (ℕ × ℤ)).
        and_then r (λ (started, rows). exec d 1 (started, length u.shard_done, rows)))
      (exec-ok d 0 (length u.shard_progress, sum_rows u.shard_progress) h)
    ∙ exec-ok d 1 (length u.shard_progress, length u.shard_done, sum_rows u.shard_progress) k
    ∙ ap (λ n. ok (length u.shard_progress, length u.shard_done, n)) (sum_rows-run_calls cs t)
