-- ===== src/Simulator/Programs.antt =====
-- PA4/PA4/programs.c: the table of programs.
use csci3757_operating_syste.Base.{ℕ, List, [], ◌∷◌, pad}
use csci3757_operating_syste.Simulator.Types.{
  max_branches, max_exits, Branch, BranchType, goto_always, for_loop, if_random, Program,
}

-- Static storage is zero-filled, and GOTO is the 0 of its enumeration.
abbrev pub no_branch : Branch
no_branch = record {
  wherefrom = 0;
  whereto = 0;
  btype = goto_always;
  min = 0;
  max = 0;
  prob = 0;
  extent = 0;
}

abbrev branch : ℕ → ℕ → BranchType → ℕ → ℕ → ℕ → Branch
branch from to type lo hi tenths = record {
  wherefrom = from;
  whereto = to;
  btype = type;
  min = lo;
  max = hi;
  prob = tenths;
  extent = 0;
}

abbrev branch_table : List Branch → List Branch
branch_table = pad max_branches no_branch

abbrev exit_table : List ℕ → List ℕ
exit_table = pad max_exits 0

abbrev pub program_one : Program
program_one = record {
  size = 1535;
  nbranches = 3;
  branches = branch_table (
      branch 500 1402 if_random 0 0 6
      ∷ branch 1401 1533 goto_always 0 0 10
      ∷ branch 1533 0 for_loop 10 30 0
      ∷ []);
  nexits = 1;
  exits = exit_table (1534 ∷ []);
}

abbrev pub program_two : Program
program_two = record {
  size = 1131;
  nbranches = 1;
  branches = branch_table (branch 1129 0 for_loop 20 50 0 ∷ []);
  nexits = 1;
  exits = exit_table (1130 ∷ []);
}

abbrev pub program_three : Program
program_three = record {
  size = 1685;
  nbranches = 2;
  branches = branch_table (branch 1682 1166 for_loop 10 20 0 ∷ branch 1683 0 for_loop 10 20 0 ∷ []);
  nexits = 1;
  exits = exit_table (1684 ∷ []);
}

abbrev pub program_four : Program
program_four = record {
  size = 1912;
  nbranches = 0;
  branches = branch_table [];
  nexits = 1;
  exits = exit_table (1911 ∷ []);
}

abbrev pub program_five : Program
program_five = record {
  size = 505;
  nbranches = 4;
  branches = branch_table (
      branch 500 503 if_random 0 0 5
      ∷ branch 501 0 goto_always 0 0 10
      ∷ branch 502 503 goto_always 0 0 10
      ∷ branch 503 0 for_loop 10 20 0
      ∷ []);
  nexits = 1;
  exits = exit_table (504 ∷ []);
}

abbrev pub programs : List Program
programs = program_one ∷ program_two ∷ program_three ∷ program_four ∷ program_five ∷ []
