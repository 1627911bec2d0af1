-- ===== src/Simulator/Tests/Deadlock.antt =====
-- A process whose pages are all swapped out.
use csci3757_operating_syste.Base.{◌≡◌, refl, ◌↔◌, true, false, replicate}
use csci3757_operating_syste.Simulator.Types.{max_proc_pages, swapped_out, Process, Sim}
use csci3757_operating_syste.Simulator.Control.{allblocked}
use csci3757_operating_syste.Simulator.Control.Deadlock.{Deadlocked, allblocked_iff}
use csci3757_operating_syste.Simulator.Tests.{running_job, two_running}

abbrev starved_job : Process
starved_job = record running_job { pages = replicate max_proc_pages swapped_out }

abbrev starved : Sim
starved = record two_running { queue = replicate 40 starved_job }

starved_blocked : allblocked starved ≡ true
unfolding allblocked
starved_blocked = refl

running_not_blocked : allblocked two_running ≡ false
unfolding allblocked
running_not_blocked = refl

allblocked_iff_example : (allblocked starved ≡ true) ↔ Deadlocked starved
allblocked_iff_example = allblocked_iff starved
