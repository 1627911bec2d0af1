-- ===== src/Threads/Filling.antt =====
-- PA-Three/Threads-and-Processes/threads/arrayFill.c: three files are put into an array at the end of a
-- structure that malloc gives.
use csci3757_operating_syste.Base.{
  ℕ, ◌+◌, ◌*◌, ◌-◌, ◌≡◌, refl, inl, inr, Bool, true, false, List, [], ◌∷◌, ◌++◌, Result, ok, err,
  ◌>>=◌, or_err, out_of_bounds, leb, if◌then◌else◌, get_elem?, arith, Bool-cases,
}

pub record FileEntry : Type 0 where
  pub serviced : Bool
  pub filename : ℕ

-- The block: its bytes, currentFileIndex, and the files that stand in it.
pub record InputFiles : Type 0 where
  pub bytes : ℕ
  pub current_file_index : ℕ
  pub files : List FileEntry

-- sizeof of the structure, of a file and of a pointer to a file, on a 64-bit system.
abbrev pub header_size : ℕ
header_size = 48

abbrev pub file_size : ℕ
file_size = 16

abbrev pub pointer_size : ℕ
pointer_size = 8

-- A write at currentFileIndex, past all earlier ones, and the increment.
abbrev pub put_file : FileEntry → InputFiles → Result InputFiles
put_file f s =
    if leb (header_size + (s.current_file_index + 1) * file_size) s.bytes
    then ok
        (record s { current_file_index = s.current_file_index + 1; files = s.files ++ (f ∷ []) })
    else err out_of_bounds

-- The name of the file `back` places before currentFileIndex.
abbrev pub name_at : InputFiles → ℕ → Result ℕ
name_at s back =
    or_err (get_elem? s.files (s.current_file_index - back)) out_of_bounds >>= λ f. ok f.filename

abbrev pub new_file : ℕ → FileEntry
new_file name = record { serviced = false; filename = name }

-- main, with the number of bytes of the block: the names it prints.
unfoldable pub fill : ℕ → Result (List ℕ)
fill bytes = do
  s1 ← put_file (new_file 1) (record { bytes = bytes; current_file_index = 0; files = [] })
  s2 ← put_file (new_file 2) s1
  s3 ← put_file (new_file 3) s2
  first ← name_at s3 1
  second ← name_at s3 2
  third ← name_at s3 3
  ok (first ∷ second ∷ third ∷ [])

-- malloc(sizeof(*input_files) + sizeof(file*) * 3)
abbrev pub main : Result (List ℕ)
main = fill (header_size + pointer_size * 3)

-- The three names are printed, the last one first, exactly if the block has room for three files.
pub fill_lem :
    (bytes : ℕ)
    → fill bytes
      ≡ (if leb (header_size + 3 * file_size) bytes then ok (3 ∷ 2 ∷ 1 ∷ []) else err out_of_bounds)
unfolding fill
fill_lem bytes = elim (Bool-cases (leb 96 bytes)) [
  | inl third ↦
      let first : leb 64 bytes ≡ true = ground arith in
      let second : leb 80 bytes ≡ true = ground arith in rw (first, second, third, fill) refl
  | inr no_third ↦ elim (Bool-cases (leb 64 bytes)) [
    | inr no_first ↦ rw (no_first, no_third, fill) refl
    | inl first ↦ elim (Bool-cases (leb 80 bytes)) [
      | inl second ↦ rw (first, second, no_third, fill) refl
      | inr no_second ↦ rw (first, no_second, no_third, fill) refl
    ]
  ]
]
