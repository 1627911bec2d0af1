-- ===== src/Simulator/Tests/Predict.antt =====
-- The predictive and the basic pager in a full memory.
use csci3757_operating_syste.Base.{
  ℕ, ◌<◌, ◌≡◌, ◌≢◌, refl, inl, some, pos, arith, get_elem?, replicate, total, All-replicate, List,
  ℤ, length, ◌++◌, All, ◌∷◌,
}
use csci3757_operating_syste.Simulator.Types.{max_proc_pages, Process, Sim, swapped_out, resident}
use csci3757_operating_syste.Simulator.Invariant.{Inv}
use csci3757_operating_syste.Simulator.Invariant.Transit.{Runs}
use csci3757_operating_syste.Simulator.Process.WellFormed.{IsProcess, IsStatus}
use csci3757_operating_syste.Simulator.Pagers.Predict.{fetch}
use csci3757_operating_syste.Simulator.Pagers.Predict.Full.{fetch_in_full_memory}
use csci3757_operating_syste.Simulator.Pagers.Basic
use csci3757_operating_syste.Simulator.Pagers.Basic.Full.{sent_out, fetch_asks_first}
use csci3757_operating_syste.Simulator.Tests.{zeros, job, two_running}
use csci3757_operating_syste.Simulator.Tests.Witnesses.{job-IsProcess, two_running-Inv}

abbrev with_pages : List ℤ → Process
with_pages zs = record job { pages = zs }

with_pages-IsProcess :
    (zs : List ℤ) → length zs ≡ max_proc_pages → All IsStatus zs → IsProcess zeros (with_pages zs)
with_pages-IsProcess zs len a = record {
  loaded = job-IsProcess.loaded;
  context_table = job-IsProcess.context_table;
  contexts = job-IsProcess.contexts;
  all_pages = refl;
  page_table = len;
  blocked_table = refl;
  statuses = a;
  released = λ off. cc;
}

-- All of the 20 pages are in memory, or the first ten.
abbrev whole_job : Process
whole_job = with_pages (replicate max_proc_pages resident)

abbrev half_job : Process
half_job = with_pages (replicate 10 resident ++ replicate 10 swapped_out)

whole_job-IsProcess : IsProcess zeros whole_job
whole_job-IsProcess = with_pages-IsProcess (replicate max_proc_pages resident) refl (omega arith)

half_job-IsProcess : IsProcess zeros half_job
half_job-IsProcess =
    with_pages-IsProcess (replicate 10 resident ++ replicate 10 swapped_out) refl (omega arith)

-- Six processes hold the 100 physical pages; two of them run.
abbrev full_queue : List Process
full_queue = half_job ∷ half_job ∷ whole_job ∷ whole_job ∷ whole_job ∷ whole_job ∷ replicate 34 job

abbrev full_memory : Sim
full_memory = record two_running { queue = full_queue; queueend = 6; pagesavail = 0 }

full_memory-Inv : Inv zeros full_memory
unfolding total
full_memory-Inv = record {
  few = omega arith;
  slot_table = refl;
  queue_table = refl;
  handed_out = omega arith;
  pointers = omega arith;
  jobs = (
    half_job-IsProcess,
    (
      half_job-IsProcess,
      (
        whole_job-IsProcess,
        (
          whole_job-IsProcess,
          (
            whole_job-IsProcess,
            (whole_job-IsProcess, All-replicate (IsProcess zeros) 34 job job-IsProcess),
          ),
        ),
      ),
    ),
  );
  distinct = two_running-Inv.distinct;
  frames = refl;
}

-- The page 10 is needed after the page 9: the guess is `linear`.
fetch_in_full_memory_example :
    (q' : Process) × Runs (fetch 9 0 10 full_memory).1 0 0 q'
    × ((fetch 9 0 10 full_memory).1.pagesavail ≡ 0)
    × ((j : ℕ) → j < max_proc_pages → get_elem? q'.pages j ≢ some (pos 0))
    × (get_elem? q'.pages 10 ≡ some swapped_out)
fetch_in_full_memory_example =
    fetch_in_full_memory zeros 9 0 0 10 100 half_job full_memory full_memory-Inv
      (record { below = omega arith; pointer = refl; job = refl; on = refl }) refl refl

-- The basic pager sends out page 0 for page 10.
fetch_asks_first_example :
    Basic.fetch 20 0 10 full_memory ≡ sent_out full_memory 0 half_job 0 resident
fetch_asks_first_example =
    fetch_asks_first zeros 0 0 10 100 0 half_job resident full_memory full_memory-Inv
      (record { below = omega arith; pointer = refl; job = refl; on = refl }) refl refl
      (omega arith) refl (inl refl) (λ i h ne. absurd (omega (arith, h)))
