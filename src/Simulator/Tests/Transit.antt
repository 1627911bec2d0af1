-- ===== src/Simulator/Tests/Transit.antt =====
-- Pages on their way.
use csci3757_operating_syste.Base.{◌-◌, ◌≡◌, refl, true, some, pos, negsuc, arith}
use csci3757_operating_syste.Simulator.Paging.{live, pagein, pageout}
use csci3757_operating_syste.Simulator.Invariant.Transit.Arrival.{
  allages, page_at, pagein-Arrives, pageout-Leaves,
}
use csci3757_operating_syste.Simulator.Tests.{zeros, running_job, two_running}
use csci3757_operating_syste.Simulator.Tests.Witnesses.{two_running-Inv}

first_runs : live two_running 0 ≡ some (0, running_job)
unfolding live
first_runs = refl

pagein-Arrives_example :
    ((pagein (pos 0) (pos 3) two_running).0 ≡ true)
    × (page_at (allages 99 (pagein (pos 0) (pos 3) two_running).1) 0 3 ≡ some (pos (100 - 99)))
pagein-Arrives_example =
    pagein-Arrives zeros two_running 0 0 3 100 99 running_job two_running-Inv first_runs
      (omega arith) refl (omega arith) (omega arith)

pageout-Leaves_example :
    ((pageout (pos 0) (pos 0) two_running).0 ≡ true)
    × (page_at (allages 100 (pageout (pos 0) (pos 0) two_running).1) 0 0 ≡ some (negsuc 100))
pageout-Leaves_example =
    pageout-Leaves zeros two_running 0 0 0 100 running_job two_running-Inv first_runs (omega arith)
      refl (omega arith)
