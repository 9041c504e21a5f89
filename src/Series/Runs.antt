-- ===== src/Series/Runs.antt =====
-- Runs of internal/series/series.go on two keys.
use tsm2arc.Prelude.{[], ◌∷◌, some, none, ◌≡◌, refl}
use tsm2arc.Prelude.Strings.{codes, has_prefix}
use tsm2arc.Series.{parse_key, parse_series_key}

parse_key_run :
    parse_key (codes "my\\ cpu,a=b\\,c#!~#usage")
    ≡ some (record {
      measurement = codes "my cpu";
      tags = (codes "a", codes "b,c") ∷ [];
      field = codes "usage";
      series_key = codes "my\\ cpu,a=b\\,c";
    })
unfolding parse_key has_prefix
parse_key_run = refl

parse_key_without_field : parse_key (codes "cpu,a=b") ≡ none
unfolding parse_key has_prefix
parse_key_without_field = refl

parse_series_key_run : parse_series_key (codes "cpu,flag") ≡ (codes "cpu", (codes "flag", []) ∷ [])
unfolding parse_series_key
parse_series_key_run = refl
