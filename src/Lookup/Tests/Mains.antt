-- ===== src/Lookup/Tests/Mains.antt =====
-- main with one requester and one resolver.
use csci3757_operating_syste.Base.{
  ◌≡◌, refl, true, none, some, List, [], ◌∷◌, pos, ok, err, invalid_free, if◌then◌else◌,
}
use csci3757_operating_syste.Lookup.{Name, start_threads}
use csci3757_operating_syste.Lookup.Main.{Disk, System, same_name, erase, readable, prepare, main}
use csci3757_operating_syste.Lookup.Main.Laws.{Cleared, prepare-Cleared}
use csci3757_operating_syste.Lookup.Tests.{data_file, fresh, two_threads, one_line, whole_run}

-- Every number is 1; every file can be opened.
abbrev ones : System
ones = record {
  atoi = λ name. pos 1;
  writable = λ name. true;
  updatable = λ name. true;
  net = one_line.net;
}

-- "s" and "r"
abbrev service : Name
service = 115 ∷ []

abbrev results : Name
results = 114 ∷ []

-- One data file, and a log of an earlier run.
abbrev disk : Disk
disk name =
    if same_name name data_file
    then some ((120 ∷ 10 ∷ []) ∷ [])
    else if same_name name results
    then some ((121 ∷ 10 ∷ []) ∷ [])
    else none

abbrev cleared : Disk
cleared = erase (erase disk service) results

abbrev five_arguments : List Name
five_arguments = [] ∷ (49 ∷ []) ∷ (49 ∷ []) ∷ service ∷ results ∷ data_file ∷ []

ready : prepare ones fresh disk five_arguments ≡ ok (cleared, some two_threads)
unfolding prepare
ready = refl

prepare-Cleared_example :
    Cleared service results disk cleared
    × (start_threads (readable cleared) fresh (pos 1) (pos 1) (data_file ∷ []) ≡ some two_threads)
prepare-Cleared_example =
    prepare-Cleared ones fresh disk cleared [] (49 ∷ []) (49 ∷ []) service results (data_file ∷ [])
      (some two_threads) ready

-- The logs are emptied also where no data file is given.
no_data_file :
    prepare ones fresh disk ([] ∷ (49 ∷ []) ∷ (49 ∷ []) ∷ service ∷ results ∷ [])
    ≡ ok (cleared, none)
unfolding prepare
no_data_file = refl

whole_program : main ones fresh disk five_arguments whole_run ≡ err invalid_free
unfolding main
whole_program = refl
