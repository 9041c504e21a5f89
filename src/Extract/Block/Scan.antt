-- ===== src/Extract/Block/Scan.antt =====
-- The loop of `peek` of `blockStream` in internal/extract/extract.go over a loaded stream.
use tsm2arc.Prelude.{
  List, [], ◌∷◌, true, false, Option, none, some, if◌then◌else◌, Bytes, ◌≡◌, refl, sym, ◌∙◌, ◌⊎◌,
  inl, inr, Bool-cases,
}
use tsm2arc.Prelude.Int64.{ℤ}
use tsm2arc.Prelude.Times.{earlier}
use tsm2arc.Tsm.{Value, IndexEntry, Error}
use tsm2arc.Extract.Stream.{Peek, value, exhausted, broken, head_of, tail_of}
use tsm2arc.Extract.Block.{
  Answer, got, refused, BlockStream, finish, fail, in_order, Place, at, past, drained, seek_buf,
  load_next, scan, needs_index, block_advance,
}

-- Values, and the error behind them.
abbrev pub Course : Type 0
Course = List Value × Option Error

-- The values of the window, up to one past it, and then `later`.
unfoldable pub through : ℤ → ℤ → List Value → Course → Course
through start end [] later = later
through start end (v ∷ vs) later =
    let (ws, e) = through start end vs later in
    if earlier v.unix_nano start
    then (ws, e)
    else if earlier end v.unix_nano
    then ([], none)
    else (v ∷ ws, e)

unfoldable pub blocks_course : ℤ → ℤ → (IndexEntry → Answer (List Value)) → List IndexEntry → Course
blocks_course start end read [] = ([], none)
blocks_course start end read (e ∷ es) = elim (read e) [
  | refused err ↦ ([], some err)
  | got vals ↦ through start end (in_order vals) (blocks_course start end read es)
]

-- What a stream with its index will still give.
unfoldable pub settled : BlockStream → Course
settled s = elim s.err [
  | some e ↦ ([], some e)
  | none ↦
      if s.done
      then ([], none)
      else through s.start s.end s.buf (blocks_course s.start s.end (load_next s) s.entries)
]

pub record Stands (name : Bytes) (w : Course) (place : BlockStream × Peek) : Type 0 where
  pub named : place.0.field ≡ name
  pub kept : settled place.0 ≡ w
  pub first : place.1 ≡ head_of w.0 w.1
  pub next : settled (block_advance place.0) ≡ (tail_of w.0, w.1)
  pub ready : needs_index place.0 ≡ false
  pub ready_next : needs_index (block_advance place.0) ≡ false

-- A stream that waits for its values, and one that is at an end.
pub record IsOpen (s : BlockStream) : Type 0 where
  pub no_error : s.err ≡ none
  pub not_done : s.done ≡ false
  pub has_index : s.loaded ≡ true

module _ (s : BlockStream) where
  Stands-finish : s.err ≡ none → Stands s.field ([], none) (finish s, exhausted)
  unfolding finish settled block_advance needs_index
  Stands-finish h = elim (Bool-cases s.released) [
    | inl e ↦ record {
      named = rw e refl;
      kept = rw (e, h) refl;
      first = refl;
      next = rw (e, h) refl;
      ready = rw (e, h) refl;
      ready_next = rw (e, h) refl;
    }
    | inr e ↦ record {
      named = rw e refl;
      kept = rw (e, h) refl;
      first = refl;
      next = rw (e, h) refl;
      ready = rw (e, h) refl;
      ready_next = rw (e, h) refl;
    }
  ]

  Stands-fail : (err : Error) → Stands s.field ([], some err) (fail s err, broken err)
  unfolding fail settled block_advance needs_index
  Stands-fail err = elim (Bool-cases s.released) [
    | inl e ↦ record {
      named = rw e refl;
      kept = rw e refl;
      first = refl;
      next = rw e refl;
      ready = rw e refl;
      ready_next = rw e refl;
    }
    | inr e ↦ record {
      named = rw e refl;
      kept = rw e refl;
      first = refl;
      next = rw e refl;
      ready = rw e refl;
      ready_next = rw e refl;
    }
  ]

module _ (start end : ℤ) where
  -- What `seek_buf` finds, and what it says of the values.
  abbrev Found : List Value → Place → Type 0
  Found buf (at v vs) =
      ((later : Course) → through start end buf later ≡ through start end (v ∷ vs) later)
      × (earlier v.unix_nano start ≡ false)
      × (earlier end v.unix_nano ≡ false)
  Found buf past = (later : Course) → through start end buf later ≡ ([], none)
  Found buf drained = (later : Course) → through start end buf later ≡ later

  Found-skip :
      (v : Value) (vs : List Value) (p : Place)
      → earlier v.unix_nano start ≡ true
      → Found vs p
      → Found (v ∷ vs) p
  unfolding through
  Found-skip v vs (at w ws) h (f, g, k) = ((λ later. rw (h, through) (f later)), g, k)
  Found-skip v vs past h f = λ later. rw (h, through) (f later)
  Found-skip v vs drained h f = λ later. rw (h, through) (f later)

  seek_buf-Found : (buf : List Value) → Found buf (seek_buf start end buf)
  unfolding seek_buf through
  seek_buf-Found [] = λ later. refl
  seek_buf-Found (v ∷ vs) =
      let ih = seek_buf-Found vs in
      elim (Bool-cases (earlier v.unix_nano start)) [
        | inl e ↦ rw (e, seek_buf) (Found-skip v vs (seek_buf start end vs) e ih)
        | inr e ↦ elim (Bool-cases (earlier end v.unix_nano)) [
          | inl f ↦ rw (e, seek_buf) (rw f (λ later. rw (e, through) (rw f refl)))
          | inr f ↦ rw (e, seek_buf) (rw f ((λ later. refl), e, f))
        ]
      ]

  through_here :
      (v : Value) (vs : List Value) (later : Course)
      → earlier v.unix_nano start ≡ false
      → earlier end v.unix_nano ≡ false
      → through start end (v ∷ vs) later
        ≡ (v ∷ (through start end vs later).0, (through start end vs later).1)
  unfolding through
  through_here v vs later h k = rw (h, through) (rw k refl)

pub Answer-cases :
    {A : Type 0} → (a : Answer A) → ((e : Error) × (a ≡ refused e)) ⊎ ((x : A) × (a ≡ got x))
Answer-cases (refused e) = inl (e, refl)
Answer-cases (got x) = inr (x, refl)

Place-cases :
    (p : Place) → ((v : Value) × (vs : List Value) × (p ≡ at v vs)) ⊎ ((p ≡ past) ⊎ (p ≡ drained))
Place-cases (at v vs) = inl (v, vs, refl)
Place-cases past = inr (inl refl)
Place-cases drained = inr (inr refl)

module _ (s : BlockStream) (opened : IsOpen s) where
  abbrev course : List Value → List IndexEntry → Course
  course buf es = through s.start s.end buf (blocks_course s.start s.end (load_next s) es)

  Stands-at :
      (buf : List Value) (es : List IndexEntry) (v : Value) (vs : List Value)
      → Found s.start s.end buf (at v vs)
      → Stands s.field (course buf es) (record s { buf = v ∷ vs; entries = es }, value v)
  unfolding settled block_advance needs_index
  Stands-at buf es v vs (f, g, h) =
      let here =
        f (blocks_course s.start s.end (load_next s) es)
        ∙ through_here s.start s.end v vs (blocks_course s.start s.end (load_next s) es) g h in
      record {
        named = refl;
        kept =
            rw (opened.no_error, opened.not_done)
              (sym (f (blocks_course s.start s.end (load_next s) es)));
        first = rw here refl;
        next = rw (opened.no_error, opened.not_done, here) refl;
        ready = rw (opened.no_error, opened.not_done, opened.has_index) refl;
        ready_next = rw (opened.no_error, opened.not_done, opened.has_index) refl;
      }

  pub scan-Stands :
      (buf : List Value) (es : List IndexEntry) → Stands s.field (course buf es) (scan s buf es)
  unfolding scan blocks_course
  scan-Stands buf [] =
      let found = seek_buf-Found s.start s.end buf in
      elim (Place-cases (seek_buf s.start s.end buf)) [
        | inl (v, vs, e) ↦ rw (e, scan) (Stands-at buf [] v vs (rw e at found))
        | inr (inl e) ↦
            rw (e, scan) (rw ((rw e at found) ([], none)) (Stands-finish s opened.no_error))
        | inr (inr e) ↦
            rw (e, scan) (rw ((rw e at found) ([], none)) (Stands-finish s opened.no_error))
      ]
  scan-Stands buf (b ∷ bs) =
      let found = seek_buf-Found s.start s.end buf in
      elim (Place-cases (seek_buf s.start s.end buf)) [
        | inl (v, vs, e) ↦ rw (e, scan) (Stands-at buf (b ∷ bs) v vs (rw e at found))
        | inr (inl e) ↦ rw (e, scan) (rw ((rw e at found) _) (Stands-finish s opened.no_error))
        | inr (inr e) ↦ elim (Answer-cases (load_next s b)) [
          | inl (err, k) ↦
              let w : course buf (b ∷ bs) ≡ ([], some err) =
                (rw e at found) _ ∙ rw (k, blocks_course) refl in
              rw w (rw (e, scan) (rw k (Stands-fail s err)))
          | inr (vals, k) ↦
              let w : course buf (b ∷ bs) ≡ course (in_order vals) bs =
                (rw e at found) _ ∙ rw (k, blocks_course) refl in
              rw w (rw (e, scan) (rw k (scan-Stands (in_order vals) bs)))
        ]
      ]
