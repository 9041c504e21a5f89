-- ===== src/Extract/Files/Reach.antt =====
-- The file set of internal/extract/extract.go under any order of its streams' calls.
use tsm2arc.Prelude.{
  ℕ, suc, ◌-◌, ◌<◌, List, true, false, Option, none, some, Bytes, get_elem?, ltb, ◌==◌, ◌≡◌, refl,
  sym, ap, ◌∙◌, ◌⊎◌, inl, inr, arith, Bool-cases, Option-cases,
}
use tsm2arc.Extract.Block.{Answer, got, refused, TsmFile}
use mathlib.Core.Path.{subst}
use tsm2arc.Extract.Block.Scan.{Answer-cases}
use tsm2arc.Extract.Files.{FileSet, set, new_file_set, register, get, release, close_all}

-- A value of a map after `set` is the new one or one from before, under another index.
set-cases :
    {A : Type 0}
    → (m : ℕ → A) (i : ℕ) (x : A) (j : ℕ) {y : A} → set m i x j ≡ y
    → ((j ≡ i) × (x ≡ y)) ⊎ (((j == i) ≡ false) × (m j ≡ y))
unfolding set
set-cases m i x j h = elim (Bool-cases (j == i)) [
  | inl e ↦ inl (ground arith, rw e at h)
  | inr e ↦ inr (e, rw e at h)
]

module _ (open_tsm : Bytes → Answer TsmFile) (paths : List Bytes) where
  -- The file sets that a shard reaches, with the streams of each file that are not yet released. A
  -- stream is made once, asks for its file only before its release, and is released once.
  pub data Reach : FileSet → (ℕ → ℕ) → Type 0 where
    start : Reach (new_file_set paths) (λ fi. 0)
    made :
        {fs : FileSet} {live : ℕ → ℕ}
        → (fi : ℕ) → Reach fs live
        → Reach (register fs fi) (set live fi (suc (live fi)))
    asked :
        {fs : FileSet} {live : ℕ → ℕ}
        → (fi : ℕ) → {fs' : FileSet} {a : Answer TsmFile} → Reach fs live
        → 0 < live fi
        → get open_tsm fs fi ≡ some (fs', a)
        → Reach fs' live
    freed :
        {fs : FileSet} {live : ℕ → ℕ}
        → (fi : ℕ) → Reach fs live
        → 0 < live fi
        → Reach (release fs fi) (set live fi (live fi - 1))

  -- The handles of a file by its reader.
  abbrev reader_handles : Option TsmFile → ℕ
  reader_handles none = 0
  reader_handles (some r) = 1

  -- The counts are those of the live streams, and an open reader is one of a file with live streams,
  -- as `open_tsm` gave it,
  -- with the one handle of its file.
  record Inv (fs : FileSet) (live : ℕ → ℕ) : Type 0 where
    same_paths : fs.paths ≡ paths
    counts : (fi : ℕ) → fs.refs fi ≡ live fi
    opened : (fi : ℕ) → fs.handles fi ≡ reader_handles (fs.rs fi)
    held : (fi : ℕ) (r : TsmFile) → fs.rs fi ≡ some r → 0 < live fi
    given :
        (fi : ℕ) (r : TsmFile)
        → fs.rs fi ≡ some r
        → (path : Bytes) × (get_elem? paths fi ≡ some path) × (open_tsm path ≡ got r)

  Inv-register :
      (fs : FileSet) (live : ℕ → ℕ) (fi : ℕ)
      → Inv fs live
      → Inv (register fs fi) (set live fi (suc (live fi)))
  unfolding register set
  Inv-register fs live fi i = record {
    same_paths = i.same_paths;
    counts = λ j. ground (arith, i.counts j, i.counts fi);
    opened = i.opened;
    held = λ j r h. ground (arith, i.held j r h);
    given = i.given;
  }

  Inv-release :
      (fs : FileSet) (live : ℕ → ℕ) (fi : ℕ)
      → Inv fs live
      → 0 < live fi
      → Inv (release fs fi) (set live fi (live fi - 1))
  unfolding release set
  Inv-release fs live fi i h = elim (Bool-cases (ltb 0 (fs.refs fi - 1))) [
    | inl e ↦
        rw (e, release)
          (record {
            same_paths = i.same_paths;
            counts = λ j. ground (arith, i.counts j, i.counts fi);
            opened = i.opened;
            held = λ j r k. ground (arith, i.held j r, i.counts fi);
            given = i.given;
          })
    | inr e ↦ elim (Option-cases (fs.rs fi)) [
      | inl none_here ↦
          rw (e, release, none_here)
            (record {
              same_paths = i.same_paths;
              counts = λ j. ground (arith, i.counts j, i.counts fi);
              opened = i.opened;
              held = λ j r k. elim (Bool-cases (j == fi)) [
                | inl same ↦ absurd (empty_there j r same none_here k)
                | inr d ↦ rw d (i.held j r k)
              ];
              given = i.given;
            })
      | inr (here, k0) ↦
          rw (e, release, k0)
            (record {
              same_paths = i.same_paths;
              counts = λ j. ground (arith, i.counts j, i.counts fi);
              opened = λ j. elim (Bool-cases (j == fi)) [
                | inl same ↦ rw same (omega (arith, i.opened fi, ap reader_handles k0))
                | inr d ↦ rw d (i.opened j)
              ];
              held = λ j r k. elim (set-cases fs.rs fi none j k) [
                | inl (same, q) ↦ cc
                | inr (d, q) ↦ let still = i.held j r q in ground arith
              ];
              given = λ j r k. elim (set-cases fs.rs fi none j k) [
                | inl (same, q) ↦ cc
                | inr (d, q) ↦ i.given j r q
              ];
            })
    ]
  ]
    where
      empty_there :
          (j : ℕ) (r : TsmFile) → (j == fi) ≡ true → fs.rs fi ≡ none → fs.rs j ≡ some r → ⊥
      empty_there j r same none_here k =
          let one : j ≡ fi = ground arith in
          let there : fs.rs j ≡ none = ap fs.rs one ∙ none_here in cc

  -- What `get` gives: the file's reader, held for later calls, or the error of opening it.
  abbrev Gets : (ℕ → ℕ) → ℕ → FileSet × Answer TsmFile → Type 0
  Gets live fi (fs, a) =
      Inv fs live × ((path : Bytes) × (get_elem? paths fi ≡ some path) × (a ≡ open_tsm path))

  Gets-some :
      (live : ℕ → ℕ) (fi : ℕ) (x : FileSet × Answer TsmFile) {y : FileSet × Answer TsmFile}
      → some x ≡ some y
      → Gets live fi x
      → Gets live fi y
  Gets-some live fi x e = subst (Gets live fi) (ap inside e)
    where
      inside : Option (FileSet × Answer TsmFile) → FileSet × Answer TsmFile
      inside none = x
      inside (some y) = y

  Inv-get :
      (fs : FileSet) (live : ℕ → ℕ) (fi : ℕ) {fs' : FileSet} {a : Answer TsmFile}
      → Inv fs live
      → 0 < live fi
      → get open_tsm fs fi ≡ some (fs', a)
      → Gets live fi (fs', a)
  unfolding get set
  Inv-get fs live fi i h e = elim (Option-cases (fs.rs fi)) [
    | inr (r, k) ↦
        let (path, at, opens) = i.given fi r k in
        Gets-some live fi (fs, got r) (rw (k, get) at e) (i, (path, at, sym opens))
    | inl k ↦ elim (Option-cases (get_elem? fs.paths fi)) [
      | inl out ↦ absurd (no_files (rw (k, out, get) at e))
      | inr (path, at) ↦
          let at' : get_elem? paths fi ≡ some path =
            ap (λ ps. get_elem? ps fi) (sym i.same_paths) ∙ at in
          elim (Answer-cases (open_tsm path)) [
            | inl (err, o) ↦
                Gets-some live fi (fs, refused err) (rw (k, at, o, get) at e)
                  (i, (path, at', sym o))
            | inr (r, o) ↦
                Gets-some live fi
                  (
                    record fs {
                      rs = set fs.rs fi (some r);
                      handles = set fs.handles fi (suc (fs.handles fi));
                    },
                    got r,
                  )
                  (rw (k, at, o, get) at e)
                  (
                    record {
                      same_paths = i.same_paths;
                      counts = i.counts;
                      opened = λ j. elim (Bool-cases (j == fi)) [
                        | inl same ↦ rw same (omega (arith, i.opened fi, ap reader_handles k))
                        | inr d ↦ rw d (i.opened j)
                      ];
                      held = λ j r' q. elim (set-cases fs.rs fi (some r) j q) [
                        | inl (same, p) ↦ rw same h
                        | inr (d, p) ↦ i.held j r' p
                      ];
                      given = λ j r' q. elim (set-cases fs.rs fi (some r) j q) [
                        | inl (same, p) ↦
                            let one : r ≡ r' = cc in
                            (path, ap (get_elem? paths) same ∙ at', o ∙ ap got one)
                        | inr (d, p) ↦ i.given j r' p
                      ];
                    },
                    (path, at', sym o),
                  )
          ]
    ]
  ]
    where
      no_files : {y : FileSet × Answer TsmFile} → ¬ (none ≡ some y)
      no_files p = cc

  Reach-Inv : {fs : FileSet} {live : ℕ → ℕ} → Reach fs live → Inv fs live
  Reach-Inv start = record {
    same_paths = refl;
    counts = λ j. refl;
    opened = λ j. refl;
    held = λ j r h. cc;
    given = λ j r h. cc;
  }
  Reach-Inv (made {fs} {live} fi h) = Inv-register fs live fi (Reach-Inv h)
  Reach-Inv (asked {fs} {live} fi h l e) = (Inv-get fs live fi (Reach-Inv h) l e).0
  Reach-Inv (freed {fs} {live} fi h l) = Inv-release fs live fi (Reach-Inv h) l

  close_all_lem :
      {fs : FileSet} {live : ℕ → ℕ}
      → Inv fs live
      → (j : ℕ) → ((close_all fs).rs j ≡ none) × ((close_all fs).handles j ≡ 0)
  unfolding close_all
  close_all_lem {fs} {live} i j = elim (Option-cases (fs.rs j)) [
    | inl k ↦ (refl, rw k (i.opened j ∙ ap reader_handles k))
    | inr (r, k) ↦ (refl, rw k (omega (arith, i.opened j, ap reader_handles k)))
  ]

  -- Whatever the order of the calls, a file without live streams has no reader in the set and no
  -- handle that is still open; and `closeAll` leaves no reader and no open handle of any file.
  pub Reach-closed :
      {fs : FileSet} {live : ℕ → ℕ}
      → Reach fs live
      → (fi : ℕ) → live fi ≡ 0
      → (fs.rs fi ≡ none)
        × (fs.handles fi ≡ 0)
        × ((j : ℕ) → ((close_all fs).rs j ≡ none) × ((close_all fs).handles j ≡ 0))
  Reach-closed {fs} {live} h fi z = elim (Option-cases (fs.rs fi)) [
    | inl k ↦ (k, (Reach-Inv h).opened fi ∙ ap reader_handles k, close_all_lem (Reach-Inv h))
    | inr (r, k) ↦ let l = (Reach-Inv h).held fi r k in absurd (omega arith)
  ]

  -- Whatever the order of the calls before, a stream that asks for its file is answered as opening the
  -- file at its path answers.
  pub Reach-get :
      {fs : FileSet} {live : ℕ → ℕ}
      → Reach fs live
      → (fi : ℕ) (path : Bytes) → get_elem? paths fi ≡ some path
      → (fs' : FileSet) × (get open_tsm fs fi ≡ some (fs', open_tsm path))
  unfolding get
  Reach-get {fs} {live} h fi path at =
      let i = Reach-Inv h in
      let at' : get_elem? fs.paths fi ≡ some path = ap (λ ps. get_elem? ps fi) i.same_paths ∙ at in
      elim (Option-cases (fs.rs fi)) [
        | inr (r, k) ↦
            let (path', at'', opens) = i.given fi r k in
            let one : path' ≡ path = cc in
            (fs, rw (k, get) (ap (λ a. some (fs, a)) (sym opens ∙ ap open_tsm one)))
        | inl k ↦ elim (Answer-cases (open_tsm path)) [
          | inl (err, o) ↦ (fs, rw (k, at', o, get) refl)
          | inr (r, o) ↦ (
            record fs {
              rs = set fs.rs fi (some r);
              handles = set fs.handles fi (suc (fs.handles fi));
            },
            rw (k, at', o, get) refl,
          )
        ]
      ]
