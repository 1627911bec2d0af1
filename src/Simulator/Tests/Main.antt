-- ===== src/Simulator/Tests/Main.antt =====
-- `main` on some command lines.
use csci3757_operating_syste.Base.{◌≡◌, refl, true, some, List, [], ◌∷◌, pos, ok}
use csci3757_operating_syste.Simulator.Options.{
  Argument, help_option, procs_option, text, command_line,
}
use csci3757_operating_syste.Simulator.Pagers.Basic
use csci3757_operating_syste.Simulator.Pagers.Lru
use csci3757_operating_syste.Simulator.Pagers.Lru.{lru_start}
use csci3757_operating_syste.Simulator.Pagers.Predict
use csci3757_operating_syste.Simulator.Pagers.Predict.{predict_start}
use csci3757_operating_syste.Simulator.Main.{Invocation, failed, helped, main}
use csci3757_operating_syste.Simulator.Main.Ends.{is_complete, Ends, mains-End}
use csci3757_operating_syste.Simulator.Tests.{zeros, alternating}
use csci3757_operating_syste.Simulator.Tests.Options.{four_procs}

abbrev called_with : List Argument → Invocation
called_with args = record {
  arguments = args;
  output = true;
  pages = true;
  time0 = 1;
  time1 = 1;
  time2 = 1;
  srand48 = λ seed. alternating;
}

mains-End_example :
    Ends zeros (main zeros Basic.pageit tt 1000 7 (called_with four_procs))
    × Ends zeros (main zeros Lru.pageit lru_start 1000 7 (called_with four_procs))
    × Ends zeros (main zeros Predict.pageit predict_start 1000 7 (called_with four_procs))
unfolding is_complete
mains-End_example = mains-End zeros 1000 7 (called_with four_procs) refl refl

usage : main zeros Basic.pageit tt 1000 7 (called_with (help_option ∷ [])) ≡ ok helped
unfolding main command_line
usage = refl

too_many_procs :
    main zeros Basic.pageit tt 1000 7 (called_with (procs_option ∷ text (some (pos 21)) ∷ []))
    ≡ ok failed
unfolding main command_line
too_many_procs = refl
