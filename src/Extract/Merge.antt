-- ===== src/Extract/Merge.antt =====
-- The loop of `mergeSeries` in internal/extract/extract.go, over any implementation of `stream`.
-- The points that `fn` gets are collected; `fieldBuf` is the list of a point's fields.
pub mod Refine
pub mod Rows
pub mod Row
pub mod LastWrite
pub mod Order
pub mod Resume
pub mod Points
use tsm2arc.Prelude.{
  ℕ, zero, suc, ◌+◌, List, [], ◌∷◌, ◌++◌, Bool, true, false, not, Option, none, some, if◌then◌else◌,
  length, Bytes,
}
use tsm2arc.Prelude.Int64.{ℤ, pos}
use tsm2arc.Prelude.Times.{earlier, same}
use tsm2arc.Prelude.Strings.{str_eq}
use tsm2arc.Tsm.{Error, Value}
use tsm2arc.Series.{Tag}
use tsm2arc.Lp.{Field}
use tsm2arc.Extract.Stream.{Stream, Peek, value, exhausted, broken}

pub record Point : Type 0 where
  pub series_key : Bytes
  pub measurement : Bytes
  pub tags : List Tag
  pub unix_nano : ℤ
  pub fields : List Field

pub record Stats : Type 0 where
  pub keys : ℕ
  pub points : ℕ
  pub fields : ℕ
  pub skipped_key : ℕ
  pub min_time : ℤ
  pub max_time : ℤ
  pub has_time : Bool

abbrev pub zero_stats : Stats
zero_stats = record {
  keys = 0;
  points = 0;
  fields = 0;
  skipped_key = 0;
  min_time = pos 0;
  max_time = pos 0;
  has_time = false;
}

unfoldable pub observe : Stats → ℤ → Stats
observe st ts =
    if not st.has_time
    then record st { min_time = ts; max_time = ts; has_time = true }
    else record st {
      min_time = if earlier ts st.min_time then ts else st.min_time;
      max_time = if earlier st.max_time ts then ts else st.max_time;
    }

-- How the merge ends. `stuck` is no end of the code: the model's fuel ran out.
pub data End : Type 0 where
  done : End
  failed : Error → End
  stuck : End

-- The search for the least time: the streams behind their peeks, and the time or an error.
pub data Least : Type 0 where
  least : Option ℤ → Least
  unread : Error → Least

pub data Gathered : Type 0 where
  gathered : List Field → Gathered
  lost : Error → Gathered
  starved : Gathered

-- `if !have || v.UnixNano < minTS`
unfoldable pub lower : Option ℤ → ℤ → Option ℤ
lower none t = some t
lower (some m) t = if earlier t m then some t else some m

-- The loop over `fieldBuf`: the value of a field that is there is replaced.
unfoldable pub put_field : Bytes → Value → List Field → List Field
put_field n v [] = record { name = n; value = v } ∷ []
put_field n v (f ∷ fs) =
    let rest = put_field n v fs in if str_eq f.name n then record f { value = v } ∷ fs else f ∷ rest

unfoldable pub emit : Stats → ℤ → List Field → Stats
emit st t fields =
    observe (record st { points = suc st.points; fields = st.fields + length fields }) t

abbrev pub on_rest : {S R : Type 0} → S → List S × R → List S × R
on_rest s (ss, r) = (s ∷ ss, r)

module _ {S : Type 0} (ops : Stream S) where
  unfoldable pub find_min : Option ℤ → List S → List S × Least
  find_min m [] = ([], least m)
  find_min m (s ∷ ss) = elim (ops.peek s).1 [
    | broken e ↦ ((ops.peek s).0 ∷ ss, unread e)
    | exhausted ↦ on_rest (ops.peek s).0 (find_min m ss)
    | value v ↦ on_rest (ops.peek s).0 (find_min (lower m v.unix_nano) ss)
  ]

  -- The inner loop on one stream: all its values at the time `t`.
  unfoldable pub gather_stream : ℕ → ℤ → S → List Field → S × Gathered
  gather_stream zero t s buf = (s, starved)
  gather_stream (suc fuel) t s buf = elim (ops.peek s).1 [
    | broken e ↦ ((ops.peek s).0, lost e)
    | exhausted ↦ ((ops.peek s).0, gathered buf)
    | value v ↦
        let more =
          gather_stream fuel t (ops.advance (ops.peek s).0) (put_field (ops.name s) v buf) in
        if not (same v.unix_nano t) then ((ops.peek s).0, gathered buf) else more
  ]

  unfoldable pub gather : ℕ → ℤ → List S → List Field → List S × Gathered
  gather fuel t [] buf = ([], gathered buf)
  gather fuel t (s ∷ ss) buf = elim (gather_stream fuel t s buf).1 [
    | gathered buf' ↦ on_rest (gather_stream fuel t s buf).0 (gather fuel t ss buf')
    | lost e ↦ ((gather_stream fuel t s buf).0 ∷ ss, lost e)
    | starved ↦ ((gather_stream fuel t s buf).0 ∷ ss, starved)
  ]

  -- The loop over the times: the points in order, the counts, the streams left, and the end.
  unfoldable pub merge_loop :
      ℕ → (ℤ → List Field → Point) → List S → Stats → List Point × Stats × End
  merge_loop zero point ss st = ([], st, stuck)
  merge_loop (suc fuel) point ss st = elim (find_min none ss).1 [
    | unread e ↦ ([], st, failed e)
    | least none ↦ ([], st, done)
    | least (some t) ↦ elim (gather (suc fuel) t (find_min none ss).0 []).1 [
      | lost e ↦ ([], st, failed e)
      | starved ↦ ([], st, stuck)
      | gathered fields ↦
          let (ps, st', end) =
            merge_loop fuel point (gather (suc fuel) t (find_min none ss).0 []).0
              (emit st t fields) in
          (point t fields ∷ ps, st', end)
    ]
  ]
