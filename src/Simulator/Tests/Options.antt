-- ===== src/Simulator/Tests/Options.antt =====
-- Command lines of the simulator.
use csci3757_operating_syste.Base.{◌≡◌, refl, true, some, List, [], ◌∷◌, pos, ok, err, null_pointer}
use csci3757_operating_syste.Simulator.Options.{
  Argument, help_option, seed_option, procs_option, text, dead_option, Settings, defaults, goes_on,
  exit_failure, exit_success, command_line,
}
use csci3757_operating_syste.Simulator.Options.Limits.{WithinLimits, command_line-WithinLimits}

abbrev pub four_procs : List Argument
four_procs =
    seed_option ∷ text (some (pos 512)) ∷ procs_option ∷ text (some (pos 4)) ∷ dead_option ∷ []

abbrev four : Settings
four = record defaults { seed = pos 512; procs = pos 4; log_dead = true }

four_procs_lem : command_line true true 1 1 1 four_procs ≡ ok (goes_on four)
unfolding command_line
four_procs_lem = refl

too_many : command_line true true 1 1 1 (procs_option ∷ text (some (pos 21)) ∷ []) ≡ ok exit_failure
unfolding command_line
too_many = refl

helped : command_line true true 1 1 1 (help_option ∷ []) ≡ ok exit_success
unfolding command_line
helped = refl

missing_number : command_line true true 1 1 1 (seed_option ∷ []) ≡ err null_pointer
unfolding command_line
missing_number = refl

command_line-WithinLimits_example : WithinLimits four
command_line-WithinLimits_example =
    command_line-WithinLimits true true 1 1 1 four_procs four four_procs_lem
