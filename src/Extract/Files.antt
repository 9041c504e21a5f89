-- ===== src/Extract/Files.antt =====
-- `fileSet` of internal/extract/extract.go: the readers that the streams of a shard share. The maps
-- `rs` and `refs` are functions of the file's index; a file without an entry in `refs` has none.
-- `handles` is no field of the source: it counts, for each file, the readers that `open` has made and
-- `Close` has not closed.
pub mod Reach
mod Runs
use tsm2arc.Prelude.{
  ℕ, suc, ◌+◌, ◌-◌, List, Bool, true, false, Option, none, some, if◌then◌else◌, Bytes, get_elem?,
  ltb, ◌==◌,
}
use tsm2arc.Extract.Block.{Answer, got, refused, TsmFile}

pub record FileSet : Type 0 where
  pub paths : List Bytes
  pub rs : ℕ → Option TsmFile
  pub refs : ℕ → ℕ
  pub handles : ℕ → ℕ

-- `m[i] = x`
unfoldable pub set : {A : Type 0} → (ℕ → A) → ℕ → A → ℕ → A
set m i x j = if j == i then x else m j

abbrev pub new_file_set : List Bytes → FileSet
new_file_set paths = record { paths = paths; rs = λ fi. none; refs = λ fi. 0; handles = λ fi. 0 }

-- `fs.refs[fi]++` of `newBlockStream`.
unfoldable pub register : FileSet → ℕ → FileSet
unfolding set
register fs fi = record fs { refs = set fs.refs fi (suc (fs.refs fi)) }

-- `fs.get(fi)`; `none` is the panic of an index that is out of range.
unfoldable pub get : (Bytes → Answer TsmFile) → FileSet → ℕ → Option (FileSet × Answer TsmFile)
unfolding set
get open_tsm fs fi = elim (fs.rs fi) [
  | some r ↦ some (fs, got r)
  | none ↦ elim (get_elem? fs.paths fi) [
    | none ↦ none
    | some path ↦ elim (open_tsm path) [
      | refused e ↦ some (fs, refused e)
      | got r ↦ some (
        record fs { rs = set fs.rs fi (some r); handles = set fs.handles fi (suc (fs.handles fi)) },
        got r,
      )
    ]
  ]
]

-- `r.Close()` takes the reader's handle. The count of a file whose last reference goes is deleted, so that it is 0 again.
unfoldable pub release : FileSet → ℕ → FileSet
unfolding set
release fs fi =
    if ltb 0 (fs.refs fi - 1)
    then record fs { refs = set fs.refs fi (fs.refs fi - 1) }
    else elim (fs.rs fi) [
      | none ↦ record fs { refs = set fs.refs fi 0 }
      | some r ↦ record fs {
        refs = set fs.refs fi 0;
        rs = set fs.rs fi none;
        handles = set fs.handles fi (fs.handles fi - 1);
      }
    ]

unfoldable pub close_all : FileSet → FileSet
close_all fs = record fs {
  rs = λ fi. none;
  refs = λ fi. 0;
  handles = λ fi. elim (fs.rs fi) [ none ↦ fs.handles fi | some r ↦ fs.handles fi - 1 ];
}
