-- ===== src/Extract/Files/Runs.antt =====
-- Runs of the file set of internal/extract/extract.go with two streams of one file.
use tsm2arc.Prelude.{ℕ, List, [], ◌∷◌, none, some, Bytes, ◌≡◌, refl, arith}
use tsm2arc.Prelude.Strings.{codes}
use tsm2arc.Extract.Block.{Answer, got, TsmFile}
use tsm2arc.Extract.Files.{FileSet, set, new_file_set, register, get, release, close_all}
use tsm2arc.Extract.Files.Reach.{Reach, Reach-closed, Reach-get}

abbrev empty_file : TsmFile
empty_file = record {
  keys = [];
  read_key_by_name = λ key. got [];
  blocks = λ key. [];
  read_block_at = λ key e. got [];
}

abbrev opens : Bytes → Answer TsmFile
opens path = got empty_file

abbrev one_path : List Bytes
one_path = codes "1.tsm" ∷ []

abbrev two_made : FileSet
two_made = register (register (new_file_set one_path) 0) 0

abbrev after_get : FileSet
after_get = record two_made {
  rs = set two_made.rs 0 (some empty_file);
  handles = set two_made.handles 0 1;
}

abbrev no_live : ℕ → ℕ
no_live fi = 0

abbrev one_live : ℕ → ℕ
one_live = set no_live 0 1

abbrev two_live : ℕ → ℕ
two_live = set one_live 0 2

two_made-Reach : Reach opens one_path two_made two_live
unfolding set
two_made-Reach = Reach.made 0 (Reach.made 0 Reach.start)

after_get_lem : get opens two_made 0 ≡ some (after_get, got empty_file)
unfolding get register
after_get_lem = refl

all_freed : Reach opens one_path (release (release after_get 0) 0) (set (set two_live 0 1) 0 0)
unfolding set
all_freed =
    Reach.freed 0
      (Reach.freed 0 (Reach.asked 0 two_made-Reach (omega arith) after_get_lem) (omega arith))
      (omega arith)

all_freed_none : set (set two_live 0 1) 0 0 0 ≡ 0
unfolding set
all_freed_none = refl

Reach-closed_example :
    let closed = release (release after_get 0) 0 in
    (closed.rs 0 ≡ none)
    × (closed.handles 0 ≡ 0)
    × ((j : ℕ) → ((close_all closed).rs j ≡ none) × ((close_all closed).handles j ≡ 0))
Reach-closed_example = Reach-closed opens one_path all_freed 0 all_freed_none

Reach-get_example : (fs : FileSet) × (get opens two_made 0 ≡ some (fs, got empty_file))
Reach-get_example = Reach-get opens one_path two_made-Reach 0 (codes "1.tsm") refl
