-- ===== src/Extract/Partition/Split.antt =====
-- The loop of `partitionRuns` in internal/extract/extract.go: runs that are apart in time.
use tsm2arc.Prelude.{
  ◌+◌, List, [], ◌∷◌, ◌++◌, Bool, true, false, ◌≡◌, ◌∙◌, inl, inr, arith, All, All-append,
  Bool-cases,
}
use tsm2arc.Prelude.Int64.{ℤ, min_int64}
use tsm2arc.Prelude.Times.{
  earlier, same, not_earlier_trans, earlier_le_trans, earlier_asymm, same_iff, earlier_irrefl,
  le_earlier_trans,
}
use tsm2arc.Extract.Partition.{
  FileKeys, insert_by, sort_by, starts_before, max_of, is_empty, split_runs,
}
use tsm2arc.Extract.Partition.Order.{count_files, count_runs, All-insert_by}

-- Every file of a run ends before any file of a later run starts.
abbrev pub EndsBefore : FileKeys → List (List FileKeys) → Type 0
EndsBefore f rs = All (λ r. All (λ g. earlier f.max g.min ≡ true) r) rs

abbrev pub AreApart : List (List FileKeys) → Type 0
AreApart [] = Unit
AreApart (r ∷ rs) = All (λ f. EndsBefore f rs) r × AreApart rs

-- The files start at `m` or after it; each starts no earlier than those before it.
abbrev pub StartFrom : ℤ → List FileKeys → Type 0
StartFrom m fs = All (λ f. earlier f.min m ≡ false) fs

abbrev pub AreStarting : List FileKeys → Type 0
AreStarting [] = Unit
AreStarting (f ∷ fs) = StartFrom f.min fs × AreStarting fs

starts_before-le : (f g : FileKeys) → starts_before f g ≡ true → earlier g.min f.min ≡ false
unfolding starts_before
starts_before-le f g h = elim (Bool-cases (same f.min g.min)) [
  | inl e ↦ let one = (same_iff f.min g.min).0 e in rw one (earlier_irrefl g.min)
  | inr e ↦ earlier_asymm f.min g.min (rw e at h)
]

starts_before-ge : (f g : FileKeys) → starts_before f g ≡ false → earlier f.min g.min ≡ false
unfolding starts_before
starts_before-ge f g h = elim (Bool-cases (same f.min g.min)) [
  | inl e ↦ let one = (same_iff f.min g.min).0 e in rw one (earlier_irrefl g.min)
  | inr e ↦ rw e at h
]

StartFrom-lower :
    (m n : ℤ) (fs : List FileKeys) → earlier n m ≡ false → StartFrom n fs → StartFrom m fs
StartFrom-lower m n [] h k = tt
StartFrom-lower m n (f ∷ fs) h (k, ks) =
    (not_earlier_trans m n f.min h k, StartFrom-lower m n fs h ks)

insert_by-AreStarting :
    (f : FileKeys) (fs : List FileKeys)
    → AreStarting fs
    → AreStarting (insert_by starts_before f fs)
unfolding insert_by
insert_by-AreStarting f [] h = (tt, tt)
insert_by-AreStarting f (g ∷ gs) (k, ks) = elim (Bool-cases (starts_before g f)) [
  | inl e ↦
      rw (e, insert_by)
        (
          All-insert_by starts_before (λ h. earlier h.min g.min ≡ false) f gs
              (starts_before-le g f e) k,
          insert_by-AreStarting f gs ks,
        )
  | inr e ↦
      let lower = starts_before-ge g f e in
      rw (e, insert_by) ((lower, StartFrom-lower f.min g.min gs lower k), (k, ks))
]

pub sort_by-AreStarting : (fs : List FileKeys) → AreStarting (sort_by starts_before fs)
unfolding sort_by
sort_by-AreStarting [] = tt
sort_by-AreStarting (f ∷ fs) =
    insert_by-AreStarting f (sort_by starts_before fs) (sort_by-AreStarting fs)

All-split_runs :
    (P : FileKeys → Type 0) (cur : List FileKeys) (m : ℤ) (fs : List FileKeys)
    → All P cur
    → All P fs
    → All (λ r. All P r) (split_runs cur m fs)
unfolding split_runs
All-split_runs P cur m [] h k = elim (Bool-cases (is_empty cur)) [
  | inl e ↦ rw e tt
  | inr e ↦ rw e (h, tt)
]
All-split_runs P cur m (f ∷ fs) h (k, ks) =
    let joined =
      All-split_runs P (cur ++ f ∷ []) (max_of m f.max) fs (All-append P cur (f ∷ []) h (k, tt))
        ks in
    let apart = All-split_runs P (f ∷ []) (max_of min_int64 f.max) fs (k, tt) ks in
    elim (Bool-cases (is_empty cur)) [
      | inl e ↦ rw (e, split_runs) joined
      | inr e ↦ elim (Bool-cases (earlier m f.min)) [
        | inl q ↦ rw (e, split_runs) (rw q (h, apart))
        | inr q ↦ rw (e, split_runs) (rw q joined)
      ]
    ]

-- No file of `fs` ends after `m`.
abbrev pub EndBy : ℤ → List FileKeys → Type 0
EndBy m fs = All (λ f. earlier m f.max ≡ false) fs

EndBy-max_of : (m t : ℤ) (fs : List FileKeys) → EndBy m fs → EndBy (max_of m t) fs
EndBy-max_of m t fs h = elim (Bool-cases (earlier m t)) [
  | inl e ↦ rw e (raised fs h e)
  | inr e ↦ rw e h
]
  where
    raised : (fs : List FileKeys) → EndBy m fs → earlier m t ≡ true → EndBy t fs
    raised [] h e = tt
    raised (f ∷ fs) (h, hs) e =
        (not_earlier_trans f.max m t h (earlier_asymm m t e), raised fs hs e)

max_of_le : (m t : ℤ) → earlier (max_of m t) t ≡ false
max_of_le m t = elim (Bool-cases (earlier m t)) [ inl e ↦ rw e (earlier_irrefl t) | inr e ↦ rw e e ]

pub split_runs-AreApart :
    (cur : List FileKeys) (m : ℤ) (fs : List FileKeys)
    → EndBy m cur
    → AreStarting fs
    → AreApart (split_runs cur m fs)
unfolding split_runs
split_runs-AreApart cur m [] h k = elim (Bool-cases (is_empty cur)) [
  | inl e ↦ rw e tt
  | inr e ↦ rw e (no_later cur, tt)
]
  where
    no_later : (fs : List FileKeys) → All (λ f. EndsBefore f []) fs
    no_later [] = tt
    no_later (f ∷ fs) = (tt, no_later fs)
split_runs-AreApart cur m (f ∷ fs) h (k, ks) =
    let joined =
      split_runs-AreApart (cur ++ f ∷ []) (max_of m f.max) fs
        (All-append (λ g. earlier (max_of m f.max) g.max ≡ false) cur (f ∷ [])
          (EndBy-max_of m f.max cur h) (max_of_le m f.max, tt))
        ks in
    let apart =
      split_runs-AreApart (f ∷ []) (max_of min_int64 f.max) fs (max_of_le min_int64 f.max, tt) ks in
    elim (Bool-cases (is_empty cur)) [
      | inl e ↦ rw (e, split_runs) joined
      | inr e ↦ elim (Bool-cases (earlier m f.min)) [
        | inl q ↦ rw (e, split_runs) (rw q (ends cur h q, apart))
        | inr q ↦ rw (e, split_runs) (rw q joined)
      ]
    ]
  where
    follow :
        (g : FileKeys) (hs : List FileKeys)
        → earlier g.max f.min ≡ true
        → StartFrom f.min hs
        → All (λ x. earlier g.max x.min ≡ true) hs
    follow g [] e s = tt
    follow g (x ∷ xs) e (s, ss) = (earlier_le_trans g.max f.min x.min e s, follow g xs e ss)

    ends :
        (gs : List FileKeys)
        → EndBy m gs
        → earlier m f.min ≡ true
        → All (λ g. EndsBefore g (split_runs (f ∷ []) (max_of min_int64 f.max) fs)) gs
    ends [] h q = tt
    ends (g ∷ gs) (h, hs) q =
        let before = le_earlier_trans g.max m f.min h q in
        (
          All-split_runs (λ x. earlier g.max x.min ≡ true) (f ∷ []) (max_of min_int64 f.max) fs
              (before, tt) (follow g fs before k),
          ends gs hs q,
        )

count_files-append :
    (p : FileKeys → Bool) (fs gs : List FileKeys)
    → count_files p (fs ++ gs) ≡ count_files p fs + count_files p gs
unfolding count_files
count_files-append p [] gs = omega arith
count_files-append p (f ∷ fs) gs = ground (arith, count_files-append p fs gs)

count_runs-split_runs :
    (p : FileKeys → Bool) (cur : List FileKeys) (m : ℤ) (fs : List FileKeys)
    → count_runs p (split_runs cur m fs) ≡ count_files p cur + count_files p fs
unfolding split_runs count_files
count_runs-split_runs p [] m [] = omega arith
count_runs-split_runs p (g ∷ cur) m [] = omega arith
count_runs-split_runs p cur m (f ∷ fs) =
    let joined = count_runs-split_runs p (cur ++ f ∷ []) (max_of m f.max) fs in
    let apart = count_runs-split_runs p (f ∷ []) (max_of min_int64 f.max) fs in
    let whole = count_files-append p cur (f ∷ []) in
    elim (Bool-cases (is_empty cur)) [
      | inl e ↦ rw (e, split_runs) (ground arith)
      | inr e ↦ elim (Bool-cases (earlier m f.min)) [
        | inl q ↦ rw (e, split_runs) (rw q (ground arith))
        | inr q ↦ rw (e, split_runs) (rw q (ground arith))
      ]
    ]

pub count_runs-split_runs_start :
    (p : FileKeys → Bool) (fs : List FileKeys)
    → count_runs p (split_runs [] min_int64 fs) ≡ count_files p fs
unfolding count_files
count_runs-split_runs_start p fs = count_runs-split_runs p [] min_int64 fs ∙ omega arith
