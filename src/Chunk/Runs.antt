-- ===== src/Chunk/Runs.antt =====
-- Runs of the accumulator of internal/chunk/chunk.go on three short lines and a bound of ten bytes.
use tsm2arc.Prelude.{ℕ, List, [], ◌∷◌, ◌++◌, Option, none, some, Bytes, ◌≡◌, refl, arith, zero, suc}
use tsm2arc.Prelude.Int64.{pos}
use tsm2arc.Prelude.Strings.{codes}
use mathlib.Core.List.{flatten}
use tsm2arc.Chunk.{Marker, Call, detach_buffer, recycle_buffer, raise_spares, new_at, append_all}
use tsm2arc.Chunk.Groups.{Entry, Group, groups}
use tsm2arc.Chunk.Deliveries.{Delivery, number, bound, recorder, deliver, outcome}
use tsm2arc.Chunk.Cuts.{accept, append_all-groups, append_all_resume}

abbrev at : ℕ → Marker
at t = record { series_key = codes "cpu"; unix_nano = pos t; tally = [] }

abbrev three : List Entry
three = (codes "cpu v=1", at 1) ∷ (codes "cpu v=2", at 2) ∷ (codes "m v=3", at 3) ∷ []

-- A callback that takes the buffer and gives it back, and one that leaves it.
abbrev taking : ℕ → Bytes → Marker → List Call
taking seq lp m = raise_spares 3 ∷ detach_buffer ∷ recycle_buffer lp ∷ []

abbrev leaving : ℕ → Bytes → Marker → List Call
leaving seq lp m = []

-- Fails from the second chunk on.
abbrev second_fails : ℕ → Bytes → Marker → Option ℕ
second_fails seq lp m = elim seq [ zero ↦ none | suc n ↦ some 7 ]

abbrev chunks : List Delivery
chunks =
    record { seq = 0; lp = codes "cpu v=1"; marker = at 1 }
    ∷ record { seq = 1; lp = codes "cpu v=2"; marker = at 2 }
    ∷ record { seq = 2; lp = codes "m v=3"; marker = at 3 }
    ∷ []

append_all_run :
    outcome (append_all (recorder {E = ℕ} taking accept) (new_at (pos 10) 0) [] three)
    ≡ (chunks, none)
unfolding append_all recorder new_at
append_all_run = refl

append_all-groups_example :
    outcome (append_all (recorder taking second_fails) (new_at (pos 10) 0) [] three)
    ≡ deliver second_fails [] (number 0 (groups (bound (pos 10)) [] three))
append_all-groups_example =
    append_all-groups taking second_fails (pos 10) 0 three
      (omega arith, (omega arith, (omega arith, tt)))

append_all_resume_example :
    (gs : List Group) × (rest : List Entry) × (three ≡ flatten gs ++ rest)
    × (record { seq = 0; lp = codes "cpu v=1"; marker = at 1 } ∷ [] ≡ number 0 gs)
    × (outcome (append_all (recorder {E = ℕ} leaving accept) (new_at (pos 10) 1) [] rest) ≡ (
      record { seq = 1; lp = codes "cpu v=2"; marker = at 2 }
          ∷ record { seq = 2; lp = codes "m v=3"; marker = at 3 }
          ∷ [],
      none,
    ))
append_all_resume_example =
    append_all_resume taking leaving (pos 10) 0 three
      (record { seq = 0; lp = codes "cpu v=1"; marker = at 1 } ∷ [])
      (record { seq = 1; lp = codes "cpu v=2"; marker = at 2 }
        ∷ record { seq = 2; lp = codes "m v=3"; marker = at 3 }
        ∷ [])
      (omega arith, (omega arith, (omega arith, tt))) append_all_run
