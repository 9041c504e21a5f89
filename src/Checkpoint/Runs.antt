-- ===== src/Checkpoint/Runs.antt =====
-- Runs of internal/checkpoint/checkpoint.go: a shard with four commits, one of which the driver refuses.
use tsm2arc.Prelude.{
  ℕ, zero, suc, List, [], ◌∷◌, true, false, Option, none, some, if◌then◌else◌, length, ◌≡◌, refl,
}
use tsm2arc.Prelude.Int64.{pos, negsuc, ◌+ℤ◌}
use tsm2arc.Prelude.Times.{earlier}
use tsm2arc.Prelude.Strings.{codes, str_eq}
use tsm2arc.Checkpoint.{
  ActionDelta, ShardKey, Tables, SqlError, Driver, ok, failed, same_shard, find, upsert, done_shard,
  apply_deltas, finish_shard, is_some, progress,
}
use tsm2arc.Checkpoint.History.{Call, run_calls, answers, view, latest, view-latest}
use tsm2arc.Checkpoint.Audit.{
  points_at, add_deltas, tally, done_rows, points_at-tally, finish_shard-latest,
}
use tsm2arc.Checkpoint.Rewind.{sum_rows, summary}
use tsm2arc.Checkpoint.Totals.{add_rows, summary-add_rows}
use tsm2arc.Checkpoint.Config.{other_settings, check_config, check_config_again}
use tsm2arc.Checkpoint.Migrate.{migrate}
use tsm2arc.Checkpoint.Migrate.Orphans.{migrate-left_points}
use tsm2arc.Checkpoint.Migrate.Columns.{migrate-progress}
use tsm2arc.Checkpoint.Migrate.Once.{migrate_again}

abbrev clear : Driver
clear = record { begin = none; statement = λ n. none; end = none }

-- The driver of a full disk refuses the end of a transaction.
abbrev full : Driver
full = record { begin = none; statement = λ n. none; end = some (codes "disk full") }

abbrev shard_7 : ShardKey
shard_7 = (codes "db", codes "7")

abbrev empty_tables : Tables
empty_tables = record {
  has_series = true;
  has_ts = true;
  shard_progress = [];
  shard_done = [];
  meta = [];
  measurement_actions = [];
}

abbrev renamed : ℕ → ActionDelta
renamed n = record {
  measurement = codes "cpu";
  action = codes "renamed";
  renamed_to = codes "cpu2";
  origin = codes "auto";
  points = pos n;
}

abbrev call : Driver → ℕ → ℕ → Call
call d seq points = record {
  driver = d;
  shard = shard_7;
  seq = seq;
  rows_delta = pos 100;
  cur = record { series_key = codes "cpu,host=a"; unix_nano = pos seq };
  deltas = renamed points ∷ [];
}

-- The second chunk is refused at first; the first is sent again at the end.
abbrev four_calls : List Call
four_calls = call clear 0 2 ∷ call full 1 3 ∷ call clear 1 3 ∷ call clear 0 1 ∷ []

latest_run :
    latest shard_7 four_calls ((negsuc 0, none), pos 0)
    ≡ ((pos 1, some (record { series_key = codes "cpu,host=a"; unix_nano = pos 1 })), pos 300)
unfolding latest answers str_eq earlier ◌+ℤ◌
latest_run = refl

tally_run : tally shard_7 (codes "cpu") four_calls (pos 0) ≡ pos 6
unfolding tally add_deltas answers str_eq ◌+ℤ◌
tally_run = refl

view-latest_example :
    view shard_7 (run_calls four_calls empty_tables)
    ≡ latest shard_7 four_calls (view shard_7 empty_tables)
view-latest_example = view-latest shard_7 four_calls empty_tables

points_at-tally_example :
    points_at shard_7 (codes "cpu") (run_calls four_calls empty_tables)
    ≡ tally shard_7 (codes "cpu") four_calls (points_at shard_7 (codes "cpu") empty_tables)
points_at-tally_example = points_at-tally shard_7 (codes "cpu") four_calls empty_tables

abbrev finish : Tables × Option SqlError
finish = finish_shard clear shard_7 (pos 2) (renamed 5 ∷ []) (run_calls four_calls empty_tables)

finished_clear : finish.1 ≡ none
unfolding finish_shard apply_deltas
finished_clear = refl

finish_shard-latest_example :
    (is_some (find done_shard same_shard shard_7 finish.0.shard_done) ≡ true)
    × (done_rows (find done_shard same_shard shard_7 finish.0.shard_done)
        ≡ (latest shard_7 four_calls (view shard_7 empty_tables)).1)
finish_shard-latest_example =
    finish_shard-latest clear shard_7 (pos 2) (renamed 5 ∷ []) four_calls empty_tables
      finished_clear

first_config : (check_config clear (codes "chunk=1") empty_tables).1 ≡ none
unfolding check_config find
first_config = refl

check_config_again_example :
    check_config clear (codes "chunk=2") (check_config clear (codes "chunk=1") empty_tables).0 ≡ (
      (check_config clear (codes "chunk=1") empty_tables).0,
      if str_eq (codes "chunk=1") (codes "chunk=2")
          then none
          else some (other_settings (codes "chunk=1") (codes "chunk=2")),
    )
check_config_again_example =
    check_config_again clear clear (codes "chunk=1") (codes "chunk=2") empty_tables first_config
      refl

summary-add_rows_example :
    summary clear (run_calls four_calls empty_tables)
    ≡ ok (
      length (run_calls four_calls empty_tables).shard_progress,
      length (run_calls four_calls empty_tables).shard_done,
      add_rows four_calls (sum_rows empty_tables.shard_progress),
    )
summary-add_rows_example = summary-add_rows four_calls empty_tables clear refl refl

-- A store of before the cursors, with progress and an action.
abbrev old_tables : Tables
old_tables = record empty_tables {
  has_series = false;
  has_ts = false;
  shard_progress =
      record {
        shard = shard_7;
        committed_seq = pos 3;
        rows_sent = pos 9;
        last_series = none;
        last_ts = none;
      }
      ∷ [];
  measurement_actions =
      record {
        shard = shard_7;
        measurement = codes "cpu";
        action = codes "renamed";
        renamed_to = codes "cpu2";
        origin = codes "auto";
        points = pos 4;
      }
      ∷ [];
}

migrated_clear : (migrate clear old_tables).1 ≡ none
unfolding migrate find upsert
migrated_clear = refl

-- The same store with the shard done.
abbrev done_tables : Tables
done_tables = record old_tables {
  shard_done = record { shard = shard_7; total_chunks = pos 4; rows_sent = pos 9 } ∷ [];
}

migrate-left_points_example : points_at shard_7 (codes "cpu") (migrate clear done_tables).0 ≡ pos 4
unfolding find str_eq migrate upsert
migrate-left_points_example = migrate-left_points clear done_tables shard_7 (codes "cpu") refl refl

not_done_run : points_at shard_7 (codes "cpu") (migrate clear old_tables).0 ≡ pos 0
unfolding find str_eq migrate upsert
not_done_run = migrate-left_points clear old_tables shard_7 (codes "cpu") refl refl

abbrev reopened : Tables
reopened = record (migrate clear old_tables).0 {
  shard_progress = old_tables.shard_progress;
  shard_done = [];
  measurement_actions = old_tables.measurement_actions;
}

migrate_again_example : migrate clear reopened ≡ (reopened, none)
migrate_again_example =
    migrate_again clear clear old_tables migrated_clear refl old_tables.shard_progress []
      old_tables.measurement_actions

-- The driver stops behind the first of the two columns.
abbrev stops : Driver
stops = record clear {
  statement = λ n. elim n [
    | zero ↦ none
    | suc m ↦ elim m [
      | zero ↦ none
      | suc k ↦ elim k [ zero ↦ none | suc j ↦ some (codes "stopped") ]
    ]
  ];
}

abbrev half : Tables
half = (migrate stops old_tables).0

half_columns : (half.has_series ≡ true) × (half.has_ts ≡ false)
unfolding migrate find
half_columns = (refl, refl)

migrate-progress_example :
    ((migrate clear half).0.has_ts ≡ false)
    × (progress clear shard_7 (migrate clear half).0 ≡ failed (codes "no such column"))
migrate-progress_example = migrate-progress clear clear shard_7 half half_columns.0 half_columns.1
