-- ===== src/Simulator/Tests.antt =====
-- Concrete simulators, and the theorems at them.
mod Witnesses
mod Transit
mod ApiTest
mod Options
mod Predict
mod Main
mod Deadlock
use csci3757_operating_syste.Base.{
  ℕ, ◌+◌, ◌-◌, ◌^◌, ◌≡◌, refl, ◌==◌, ◌%◌, Bool, true, false, List, [], ◌∷◌, Option, none, some, ℤ,
  pos, negsuc, Result, ok, err, arith, set, replicate, if◌then◌else◌,
}
use csci3757_operating_syste.Simulator.Types.{
  max_brings, max_branches, max_proc_pages, physical_pages, resident, coming, swapped_out, for_loop,
  goto_always, Bcontext, Process, Sim,
}
use csci3757_operating_syste.Simulator.Programs.{program_two, program_five}
use csci3757_operating_syste.Simulator.Branching.{Random, bcontext_init, if_rings, for_rings}
use csci3757_operating_syste.Simulator.Process.{Outside, process_load, process_clear}
use csci3757_operating_syste.Simulator.Queue.{queue_size, zero_context, allinit}

abbrev pub zeros : Outside
zeros = record { exit = 0; wherefrom = 0 }

-- drand48 goes up and down, so that the loop of the IF case turns at every draw.
abbrev pub alternating : Random
alternating = record { drand48 = λ n. if n % 2 == 0 then 0 else 2 ^ 48 - 1; lrand48 = λ n. n }

-- A context in the middle of a run of three decisions to branch.
abbrev pub run_of_three : Bcontext
run_of_three = record {
  btype = for_loop;
  boffset = 0;
  bsize = 2;
  bvalue = true;
  bcount = 0;
  brings = 3 ∷ 1 ∷ replicate 98 0;
}

abbrev pub job : Process
job = record {
  program = some program_two;
  nbcontexts = 1;
  bcontexts = replicate max_branches run_of_three;
  pc = 0;
  npages = max_proc_pages;
  pages = replicate max_proc_pages swapped_out;
  blocked = replicate max_proc_pages false;
  active = true;
  compute = 0;
  block = 0;
  pid = pos 0;
  kind = pos 1;
}

-- The job with its first page in memory.
abbrev pub running_job : Process
running_job = record job { pages = set (replicate max_proc_pages swapped_out) 0 resident }

-- Two processors; the first process has a page in memory.
abbrev pub two_running : Sim
two_running = record {
  procs = 2;
  processes = set (set (replicate 20 none) 0 (some 0)) 1 (some 1);
  queue = set (replicate queue_size job) 0 running_job;
  queueend = 2;
  pagesavail = 99;
  sysclock = 0;
}

abbrev pub value_or : Sim → Result Sim → Sim
value_or d (ok s) = s
value_or d (err e) = d

-- The simulator that `allinit` sets up for 20 processors.
pub started : Sim
unfolding allinit
started = value_or two_running (allinit alternating 1000 20)

pub started_lem : allinit alternating 1000 20 ≡ ok started
unfolding started process_load process_clear bcontext_init if_rings for_rings
started_lem = refl
