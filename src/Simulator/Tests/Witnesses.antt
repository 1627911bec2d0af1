-- ===== src/Simulator/Tests/Witnesses.antt =====
-- The theorems about the simulator at concrete states.
use csci3757_operating_syste.Simulator.Pointers.{set_fresh-Distinct, replicate-Distinct}
use csci3757_operating_syste.Simulator.Branching.{bcontext_init}
use csci3757_operating_syste.Base.{
  ◌≤◌, ◌≡◌, refl, true, false, List, [], ◌∷◌, pos, ok, arith, set, replicate, All-replicate,
  All-set, total, none, some, ◌⊎◌, ℕ,
}
use csci3757_operating_syste.Simulator.Types.{
  max_branches, max_proc_pages, resident, swapped_out, Pentry, Sim, Program, Branch,
}
use csci3757_operating_syste.Simulator.Programs.{program_two, program_five, no_branch}
use csci3757_operating_syste.Simulator.Branching.Decide.{
  IsContext, decisions, next_run, decisions-next_run,
}
use csci3757_operating_syste.Simulator.Branching.Init.{Initialises, bcontext_init-Starts}
use csci3757_operating_syste.Simulator.Search.{Hit, search_keys}
use csci3757_operating_syste.Simulator.Search.Spec.{Finds, search_keys-Finds}
use csci3757_operating_syste.Simulator.Process.{process_step, Outside}
use csci3757_operating_syste.Simulator.Process.WellFormed.{origins, IsStatus, IsProcess}
use csci3757_operating_syste.Simulator.Process.Step.{Steps}
use csci3757_operating_syste.Simulator.Process.Within.{IsBranchless, process_step-Within}
use csci3757_operating_syste.Simulator.Paging.{pageout, pagein}
use csci3757_operating_syste.Simulator.Queue.{queue_size, queue_types, zero_context}
use csci3757_operating_syste.Simulator.Queue.Shuffle.{count, queue_types-count}
use csci3757_operating_syste.Simulator.Control.{allstep, tick, allscore}
use csci3757_operating_syste.Simulator.Invariant.{Inv}
use csci3757_operating_syste.Simulator.Invariant.Stepping.{allstep-Inv}
use csci3757_operating_syste.Simulator.Invariant.Loading.{allinit-Inv}
use csci3757_operating_syste.Simulator.Invariant.Running.{Serves, tick-Serves}
use csci3757_operating_syste.Simulator.Pagers.Basic
use csci3757_operating_syste.Simulator.Pagers.Lru
use csci3757_operating_syste.Simulator.Pagers.Lru.{lru_start}
use csci3757_operating_syste.Simulator.Pagers.Lru.Law.{IsLru, lru-Lawful}
use csci3757_operating_syste.Simulator.Pagers.Lru.Victim.{serve_swaps}
use csci3757_operating_syste.Simulator.Pagers.Predict
use csci3757_operating_syste.Simulator.Pagers.Predict.{predict_start}
use csci3757_operating_syste.Simulator.Pagers.Predict.Law.{IsPredict}
use csci3757_operating_syste.Simulator.Pagers.Runs.{RunsWell, lru_start-IsLru, pagers-RunsWell}
use csci3757_operating_syste.Simulator.Tests.{
  zeros, alternating, run_of_three, job, running_job, two_running, started, started_lem,
}

abbrev loop_of : Program → Branch
loop_of p = first p.branches
  where
    first : List Branch → Branch
    first [] = no_branch
    first (b ∷ bs) = b

run_of_three-IsContext : IsContext run_of_three
run_of_three-IsContext = record { inside = omega arith; fits = omega arith; whole = refl }

pub job-IsProcess : IsProcess zeros job
job-IsProcess = record {
  loaded = (program_two, refl, omega arith, omega arith);
  context_table = refl;
  contexts = All-replicate IsContext max_branches run_of_three run_of_three-IsContext;
  all_pages = refl;
  page_table = refl;
  blocked_table = refl;
  statuses = All-replicate IsStatus max_proc_pages swapped_out (omega arith);
  released = λ off. cc;
}

running_job-IsProcess : IsProcess zeros running_job
running_job-IsProcess = record {
  loaded = (program_two, refl, omega arith, omega arith);
  context_table = refl;
  contexts = All-replicate IsContext max_branches run_of_three run_of_three-IsContext;
  all_pages = refl;
  page_table = refl;
  blocked_table = refl;
  statuses =
      All-set IsStatus (replicate max_proc_pages swapped_out) 0 resident
        (All-replicate IsStatus max_proc_pages swapped_out (omega arith)) (omega arith);
  released = λ off. cc;
}

pub two_running-Inv : Inv zeros two_running
unfolding total
two_running-Inv = record {
  few = omega arith;
  slot_table = refl;
  queue_table = refl;
  handed_out = omega arith;
  pointers = omega arith;
  jobs =
      All-set (IsProcess zeros) (replicate queue_size job) 0 running_job
        (All-replicate (IsProcess zeros) queue_size job job-IsProcess) running_job-IsProcess;
  distinct =
      set_fresh-Distinct (set (replicate 20 none) 0 (some 0)) 1 1 (omega arith)
        (set_fresh-Distinct (replicate 20 none) 0 0 (omega arith) (replicate-Distinct 20));
  frames = refl;
}

pagers-RunsWell_example :
    RunsWell zeros (λ (_ : Unit {0}). Unit {0}) Basic.pageit 7 tt started
    × RunsWell zeros IsLru Lru.pageit 7 lru_start started
    × RunsWell zeros IsPredict Predict.pageit 7 predict_start started
pagers-RunsWell_example =
    pagers-RunsWell zeros alternating 1000 20 7 started refl (omega arith) started_lem

tick-Serves_example : Serves zeros IsLru (tick zeros Lru.pageit lru_start two_running)
tick-Serves_example =
    tick-Serves zeros Lru.pageit (lru-Lawful zeros) lru_start two_running lru_start-IsLru
      two_running-Inv

allstep-Inv_example : (s : Sim) × (allstep zeros two_running ≡ ok s) × Inv zeros s
allstep-Inv_example = allstep-Inv zeros two_running two_running-Inv

allinit-Inv_example : Inv zeros started
allinit-Inv_example = allinit-Inv zeros alternating 1000 20 started refl (omega arith) started_lem

process_step-Within_example :
    Steps zeros running_job (process_step zeros running_job)
    × ((e : ℕ)
        → process_step (record zeros { exit = e }) running_job ≡ process_step zeros running_job)
    × (IsBranchless running_job
        ⊎ ((o' : Outside) → process_step o' running_job ≡ process_step zeros running_job))
process_step-Within_example = process_step-Within zeros running_job running_job-IsProcess

-- The cycles of the two running jobs and of the others.
cycles_added :
    allscore (record two_running {
      queue = record job { block = 3; compute = 4 } ∷ record job { block = 5; compute = 6 } ∷ [];
    })
    ≡ (8, 10)
unfolding allscore total
cycles_added = refl

search_keys-Finds_example :
    (h : Hit) × (search_keys (origins program_five) 0 4 502 ≡ ok h)
    × Finds (origins program_five) 4 502 h
search_keys-Finds_example =
    search_keys-Finds (origins program_five) 0 4 502 (omega arith) (omega arith) (omega arith)

decisions-next_run_example :
    decisions 3 run_of_three ≡ ok (true ∷ true ∷ true ∷ [], next_run run_of_three)
decisions-next_run_example =
    decisions-next_run run_of_three run_of_three-IsContext refl (omega arith)

queue_types-count_example : count 3 (queue_types alternating) ≡ 8
queue_types-count_example = queue_types-count alternating 3 (omega arith)

bcontext_init-Starts_example :
    Initialises 20 50 true (bcontext_init alternating 9 zero_context (loop_of program_two) 3)
bcontext_init-Starts_example =
    bcontext_init-Starts alternating 9 3 (loop_of program_two) zero_context tt refl

abbrev needs_two : Pentry
needs_two = record { active = true; pc = 300; npages = 20; pages = replicate 20 false }

abbrev no_free_page : Sim
no_free_page = record two_running { pagesavail = 0 }

serve_swaps_example :
    Lru.serve needs_two 0 45 (replicate 20 7) no_free_page
    ≡ ok (
      set (replicate 20 7) 2 45,
      (pagein (pos 0) (pos 2) (pageout (pos 0) (pos 5) no_free_page).1).1,
    )
unfolding pagein
serve_swaps_example =
    serve_swaps needs_two 0 45 (replicate 20 7) no_free_page
      (refl, All-replicate (λ x. x ≤ 45) 20 7 (omega arith))
      (record { whole = refl; inside = omega arith }) refl refl
