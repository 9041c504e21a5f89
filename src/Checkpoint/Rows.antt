-- ===== src/Checkpoint/Rows.antt =====
-- The rows of the tables of internal/checkpoint/checkpoint.go: a look-up behind an upsert, and the tests
-- for equal keys.
use tsm2arc.Prelude.{
  List, [], ◌∷◌, Bool, true, false, ◌&&◌, Option, none, some, if◌then◌else◌, Bytes, ◌≡◌, ◌↔◌, refl,
  sym, ap, ap₂, ◌∙◌, inl, inr, arith, Bool-cases,
}
use tsm2arc.Prelude.Strings.{str_eq, str_eq_iff}
use tsm2arc.Checkpoint.{ShardKey, same_shard, same_action, find, upsert}

-- What an upsert leaves for its key.
abbrev pub put_row : {A : Type 0} → A → (A → A) → Option A → A
put_row row update none = row
put_row row update (some a) = update a

module _ {A K : Type 0} (key : A → K) (same : K → K → Bool)
    (same_lem : (k l : K) → (same k l ≡ true) ↔ (k ≡ l)) where
  pub find-upsert :
      (row : A) (update : A → A)
      → ((a : A) → key (update a) ≡ key a)
      → (rows : List A) (k : K)
      → find key same k (upsert key same row update rows) ≡ (
          if same (key row) k
          then some (put_row row update (find key same (key row) rows))
          else find key same k rows)
  unfolding find upsert
  find-upsert row update keeps [] k = refl
  find-upsert row update keeps (a ∷ rows) k =
      let ih = find-upsert row update keeps rows k in
      elim (Bool-cases (same (key a) (key row))) [
        | inl e ↦
            let one = (same_lem (key a) (key row)).0 e in
            rw (e, upsert)
              (rw (keeps a, one)
                (elim (Bool-cases (same (key row) k)) [ inl f ↦ rw f refl | inr f ↦ rw f refl ]))
        | inr e ↦
            rw (e, upsert)
              (elim (Bool-cases (same (key a) k)) [
                | inr f ↦ rw f ih
                | inl f ↦
                    let apart : same (key row) k ≡ false = elim (Bool-cases (same (key row) k)) [
                      | inr g ↦ g
                      | inl g ↦
                          let one = (same_lem (key a) k).0 f ∙ sym ((same_lem (key row) k).0 g) in
                          let itself = (same_lem (key a) (key row)).1 one in cc
                    ] in
                    rw (f, apart) refl
              ])
      ]

pub same_shard_lem : (k l : ShardKey) → (same_shard k l ≡ true) ↔ (k ≡ l)
same_shard_lem (a, b) (c, d) = (
  λ h. ap₂ (λ x y. (x, y)) ((str_eq_iff a c).0 (both h).0) ((str_eq_iff b d).0 (both h).1),
  λ e. rw ((str_eq_iff a c).1 (ap (λ k. k.0) e), (str_eq_iff b d).1 (ap (λ k. k.1) e)) refl,
)
  where
    both : (str_eq a c && str_eq b d) ≡ true → (str_eq a c ≡ true) × (str_eq b d ≡ true)
    both h = ground arith

pub same_action_lem : (k l : ShardKey × Bytes) → (same_action k l ≡ true) ↔ (k ≡ l)
same_action_lem (k, m) (l, n) = (
  λ h. ap₂ (λ x y. (x, y)) ((same_shard_lem k l).0 (both h).0) ((str_eq_iff m n).0 (both h).1),
  λ e. rw ((same_shard_lem k l).1 (ap (λ x. x.0) e), (str_eq_iff m n).1 (ap (λ x. x.1) e)) refl,
)
  where
    both : (same_shard k l && str_eq m n) ≡ true → (same_shard k l ≡ true) × (str_eq m n ≡ true)
    both h = ground arith
