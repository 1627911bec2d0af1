-- ===== src/Simulator/Pagers/Runs.antt =====
-- The three simulations, `test-basic`, `test-lru` and `test-predict`, from the start.
use Prim.Native.Nat.{zero-le}
use csci3757_operating_syste.Simulator.Pagers.Lru.Victim.{IsRow}
use csci3757_operating_syste.Base.{
  ℕ, ◌≤◌, ◌≡◌, refl, ◌⊎◌, ok, err, out_of_fuel, replicate, All-replicate,
}
use csci3757_operating_syste.Simulator.Types.{max_processes, max_proc_pages, Sim}
use csci3757_operating_syste.Simulator.Branching.{Random}
use csci3757_operating_syste.Simulator.Process.{Outside}
use csci3757_operating_syste.Simulator.Queue.{allinit}
use csci3757_operating_syste.Simulator.Control.{Pager, simulate}
use csci3757_operating_syste.Simulator.Invariant.Loading.{allinit-Inv}
use csci3757_operating_syste.Simulator.Invariant.Running.{Ended, simulate-Ended}
use csci3757_operating_syste.Simulator.Pagers.Basic
use csci3757_operating_syste.Simulator.Pagers.Basic.Law.{basic-Lawful}
use csci3757_operating_syste.Simulator.Pagers.Lru
use csci3757_operating_syste.Simulator.Pagers.Lru.{lru_start}
use csci3757_operating_syste.Simulator.Pagers.Lru.Law.{IsLru, lru-Lawful}
use csci3757_operating_syste.Simulator.Pagers.Predict
use csci3757_operating_syste.Simulator.Pagers.Predict.{predict_start}
use csci3757_operating_syste.Simulator.Pagers.Predict.Law.{IsPredict, predict-Lawful}

-- The simulation from `s` is still running, or has ended as it should.
abbrev pub RunsWell : {S : Type 0} → Outside → (S → Type 0) → Pager S → ℕ → S → Sim → Type 0
RunsWell o Good pageit fuel v s =
    (simulate o pageit fuel v s ≡ err out_of_fuel) ⊎ Ended o Good (simulate o pageit fuel v s)

pub lru_start-IsLru : IsLru lru_start
lru_start-IsLru = record {
  rows = refl;
  past =
      All-replicate (IsRow 1) max_processes (replicate max_proc_pages 0)
        (refl, All-replicate (λ x. x ≤ 1) max_proc_pages 0 zero-le);
}

-- From the state that `allinit` sets up, no time step of the simulation with any of the three pagers
-- fails an assertion, leaves an array, uses a null pointer or divides by zero: after any number of
-- time steps it is still running, or it has stopped with every process done and the invariant intact.
-- The memory just before the branch table of the program without branches is taken to be 0.
pub pagers-RunsWell :
    (o : Outside) (r : Random) (fuel procs steps : ℕ) (s : Sim)
    → o.wherefrom ≡ 0
    → procs ≤ max_processes
    → allinit r fuel procs ≡ ok s
    → RunsWell o (λ (_ : Unit {0}). Unit {0}) Basic.pageit steps tt s
      × RunsWell o IsLru Lru.pageit steps lru_start s
      × RunsWell o IsPredict Predict.pageit steps predict_start s
pagers-RunsWell o r fuel procs steps s z few e =
    let v = allinit-Inv o r fuel procs s z few e in
    (
      simulate-Ended o Basic.pageit (basic-Lawful o) steps tt s tt v,
      simulate-Ended o Lru.pageit (lru-Lawful o) steps lru_start s lru_start-IsLru v,
      simulate-Ended o Predict.pageit (predict-Lawful o) steps predict_start s refl v,
    )
