-- ===== src/Simulator/Types.antt =====
-- PA4/PA4/simulator.c and simulator.h: the constants and the structures of the simulator.
-- A C array is a list of the array's length. A `long` that the program only sets to numbers from 0
-- up is an ℕ, a page's state is a signed ℤ, and a 0/1 flag is a Bool.
use csci3757_operating_syste.Base.{ℕ, ℤ, pos, negsuc, Bool, List, Option}

abbrev pub max_processes : ℕ
max_processes = 20

abbrev pub max_branches : ℕ
max_branches = 40

abbrev pub max_exits : ℕ
max_exits = 10

abbrev pub max_brings : ℕ
max_brings = 100

abbrev pub max_proc_pages : ℕ
max_proc_pages = 20

abbrev pub page_size : ℕ
page_size = 128

abbrev pub page_wait : ℕ
page_wait = 100

abbrev pub physical_pages : ℕ
physical_pages = 100

-- The state of a page: 0 is in memory, `pos (suc n)` is coming in, -1 to -PAGEWAIT is going out,
-- and -PAGEWAIT-1 is out.
abbrev pub resident : ℤ
resident = pos 0

abbrev pub coming : ℤ
coming = pos page_wait

abbrev pub going : ℤ
going = negsuc 0

abbrev pub swapped_out : ℤ
swapped_out = negsuc page_wait

pub data BranchType : Type 0 where
  goto_always for_loop nfor_loop if_random : BranchType

-- `prob` counts tenths: the table has 0, 0.5, 0.6 and 1 only.
pub record Branch : Type 0 where
  pub wherefrom : ℕ
  pub whereto : ℕ
  pub btype : BranchType
  pub min : ℕ
  pub max : ℕ
  pub prob : ℕ
  pub extent : ℕ

pub record Program : Type 0 where
  pub size : ℕ
  pub nbranches : ℕ
  pub branches : List Branch
  pub nexits : ℕ
  pub exits : List ℕ

pub record Bcontext : Type 0 where
  pub btype : BranchType
  pub boffset : ℕ
  pub bsize : ℕ
  pub bvalue : Bool
  pub bcount : ℕ
  pub brings : List ℕ

-- `program` is the pointer, `none` for NULL, and so on to the (constant) program it points to.
pub record Process : Type 0 where
  pub program : Option Program
  pub nbcontexts : ℕ
  pub bcontexts : List Bcontext
  pub pc : ℕ
  pub npages : ℕ
  pub pages : List ℤ
  pub blocked : List Bool
  pub active : Bool
  pub compute : ℕ
  pub block : ℕ
  pub pid : ℤ
  pub kind : ℤ

-- What the pager is shown of a process.
pub record Pentry : Type 0 where
  pub active : Bool
  pub pc : ℕ
  pub npages : ℕ
  pub pages : List Bool

-- The static variables. A pointer in `processes` always points into `queue`, so it is an index.
pub record Sim : Type 0 where
  pub procs : ℕ
  pub processes : List (Option ℕ)
  pub queue : List Process
  pub queueend : ℕ
  pub pagesavail : ℕ
  pub sysclock : ℕ
