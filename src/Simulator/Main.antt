-- ===== src/Simulator/Main.antt =====
-- PA4/PA4/simulator.c: `main` as a whole, from the command line to the scores.
pub mod Ends
use csci3757_operating_syste.Base.{ℕ, Bool, List, ℤ, Result, ok, ◌>>=◌, pos_part}
use csci3757_operating_syste.Simulator.Types.{Sim}
use csci3757_operating_syste.Simulator.Branching.{Random}
use csci3757_operating_syste.Simulator.Process.{Outside}
use csci3757_operating_syste.Simulator.Queue.{allinit}
use csci3757_operating_syste.Simulator.Control.{Pager, simulate, allscore}
use csci3757_operating_syste.Simulator.Options.{
  Argument, Settings, Outcome, exit_failure, exit_success, goes_on, command_line,
}

-- What `main` is given: the arguments, whether the two CSV files can be opened, what `time` answers
-- three times, and the random numbers that follow `srand48(seed)`.
pub record Invocation : Type 0 where
  pub arguments : List Argument
  pub output : Bool
  pub pages : Bool
  pub time0 : ℕ
  pub time1 : ℕ
  pub time2 : ℕ
  pub srand48 : ℤ → Random

-- How `main` returns: with EXIT_FAILURE or EXIT_SUCCESS after the usage text, or with EXIT_SUCCESS after
-- the blocked and the compute cycles of all jobs.
pub data End : Type 0 where
  failed helped : End
  scored : ℕ × ℕ → End

-- The simulation with the settings; `fuel` is for each IF loop, `steps` for the main loop.
unfoldable pub run : {S : Type 0} → Outside → Pager S → S → ℕ → ℕ → Random → ℕ → Result End
run o pageit v fuel steps r procs =
    allinit r fuel procs >>= λ s. simulate o pageit steps v s >>= λ t. ok (scored (allscore t.1))

unfoldable pub main : {S : Type 0} → Outside → Pager S → S → ℕ → ℕ → Invocation → Result End
unfolding run
main o pageit v fuel steps i =
    command_line i.output i.pages i.time0 i.time1 i.time2 i.arguments >>= λ outcome. elim outcome [
      | exit_failure ↦ ok failed
      | exit_success ↦ ok helped
      | goes_on s ↦ run o pageit v fuel steps (i.srand48 s.seed) (pos_part s.procs)
    ]
