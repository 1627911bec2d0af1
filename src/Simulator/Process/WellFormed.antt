-- ===== src/Simulator/Process/WellFormed.antt =====
-- What `process_load` sets up and the simulator keeps: a process that can take any step.
use csci3757_operating_syste.Base.{
  ℕ, ◌*◌, ◌≤◌, ◌<◌, ◌≡◌, false, List, map, some, ℤ, pos, negsuc, length, get_or, All, total,
}
use csci3757_operating_syste.Simulator.Types.{
  max_branches, max_exits, max_proc_pages, page_size, page_wait, Program, Process,
}
use csci3757_operating_syste.Simulator.Branching.Decide.{IsContext}
use csci3757_operating_syste.Simulator.Process.{Outside, frame}

abbrev pub origins : Program → List ℕ
origins p = map (λ b. b.wherefrom) p.branches

-- The counts fit their arrays, the program fits the pages, and there is an exit. If there is no
-- branch, the search for one compares entry 0 and then the value before the array, which is taken to be
-- the same (0, as entry 0 of such a table is): else a branch at index -1 could be taken.
pub record IsProgram (o : Outside) (p : Program) : Type 0 where
  pub few_branches : p.nbranches < max_branches
  pub some_exit : 0 < p.nexits
  pub few_exits : p.nexits ≤ max_exits
  pub branch_table : length p.branches ≡ max_branches
  pub exit_table : length p.exits ≡ max_exits
  pub short : p.size < max_proc_pages * page_size
  pub guarded : p.nbranches ≡ 0 → get_or (origins p) 0 0 ≡ o.wherefrom

-- -PAGEWAIT-1 to PAGEWAIT
abbrev pub IsStatus : ℤ → Type 0
IsStatus (pos n) = n ≤ page_wait
IsStatus (negsuc n) = n ≤ page_wait

-- The physical pages that a process holds.
abbrev pub held : Process → ℕ
held q = total frame q.pages

pub record IsProcess (o : Outside) (q : Process) : Type 0 where
  pub loaded : (p : Program) × (q.program ≡ some p) × IsProgram o p × (q.pc ≤ p.size)
  pub context_table : length q.bcontexts ≡ max_branches
  pub contexts : All IsContext q.bcontexts
  pub all_pages : q.npages ≡ max_proc_pages
  pub page_table : length q.pages ≡ max_proc_pages
  pub blocked_table : length q.blocked ≡ max_proc_pages
  pub statuses : All IsStatus q.pages
  pub released : q.active ≡ false → held q ≡ 0
