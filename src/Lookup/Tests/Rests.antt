-- ===== src/Lookup/Tests/Rests.antt =====
-- Runs of one requester and one resolver that come to rest.
use csci3757_operating_syste.Base.{
  ◌≡◌, ◌≢◌, ◌≤◌, refl, ap, true, some, [], ◌∷◌, pos, length, total, length-replicate, All, List,
}
use csci3757_operating_syste.Lookup.{Name, Lookup, locking, testing, turn, valid_files, turns, Turn}
use csci3757_operating_syste.Lookup.Invariant.{result_weight, lines_weight}
use csci3757_operating_syste.Lookup.Ending.Asleep.{Asleep, turn-Asleep, IsTurn}
use csci3757_operating_syste.Lookup.Progress.Terminates.{Moving, budget, Moving-budget}
use csci3757_operating_syste.Lookup.Progress.Rest.{AtRest}
use csci3757_operating_syste.Lookup.Progress.Resolved.{AtRest-Resolved}
use csci3757_operating_syste.Lookup.Progress.Logged.{AtRest-Logged}
use csci3757_operating_syste.Lookup.Progress.Finishes.{Outcomes, started-Finishes}
use csci3757_operating_syste.Lookup.Tests.{
  data_file, fresh, two_threads, two_threads_started, req, res, one_line, whole_run, at_end,
  whole_run_lem, at_end-Asleep,
}

-- The resolver takes the lock, and the requester then takes the file.
abbrev locked : Lookup
locked = record two_threads { buffer_lock = true; resolvers = testing ∷ [] }

abbrev serviced : Lookup
serviced = record locked {
  files = record { serviced = true; filename = data_file } ∷ [];
  requesters = locking 1 (some ((120 ∷ 10 ∷ []) ∷ [])) ∷ [];
}

locked_new : locked ≢ two_threads
locked_new e = cc (ap (λ s. s.resolvers) e)

serviced_new : serviced ≢ locked
serviced_new e = cc (ap (λ s. s.requesters) e)

two_turns-Moving : Moving one_line (res ∷ req ∷ []) two_threads
unfolding Moving turn
two_turns-Moving = (tt, (locked, refl, locked_new, (tt, (serviced, refl, serviced_new, tt))))

Moving-budget_example :
    length (res ∷ req ∷ []) ≤ budget one_line (valid_files (λ name. true) (data_file ∷ []))
Moving-budget_example =
    Moving-budget one_line (λ name. true) fresh (pos 1) (pos 1) (data_file ∷ []) two_threads
      (res ∷ req ∷ []) two_threads_started two_turns-Moving

budget_lem : budget one_line (valid_files (λ name. true) (data_file ∷ [])) ≡ 145
unfolding budget total
budget_lem = refl

at_end-AtRest : AtRest one_line at_end
unfolding AtRest
at_end-AtRest t h = turn-Asleep one_line t at_end h at_end-Asleep

AtRest-Resolved_example :
    Asleep at_end
    × (total (result_weight (λ l. length l)) at_end.results_log
        ≡ total
            (λ f. lines_weight (λ l. length l) (one_line.fopen f.filename))
            (valid_files (λ name. true) (data_file ∷ [])))
AtRest-Resolved_example =
    AtRest-Resolved one_line (λ name. true) fresh (pos 1) (pos 1) (data_file ∷ []) two_threads
      at_end whole_run (λ l. length l) (length-replicate {A = Name} 20 []) two_threads_started
      whole_run_lem at_end-AtRest

AtRest-Logged_example :
    (length at_end.service_log ≡ length at_end.requesters)
    × (total (λ k. k) at_end.service_log ≡ length (valid_files (λ name. true) (data_file ∷ [])))
AtRest-Logged_example =
    AtRest-Logged one_line (λ name. true) fresh (pos 1) (pos 1) (data_file ∷ []) two_threads at_end
      whole_run (length-replicate {A = Name} 20 []) two_threads_started whole_run_lem at_end-AtRest

started-Finishes_example :
    (us : List Turn) × All IsTurn us
    × Outcomes one_line (λ name. true) (data_file ∷ []) (λ l. length l) us serviced
unfolding turns turn
started-Finishes_example =
    started-Finishes one_line (λ name. true) fresh (pos 1) (pos 1) (data_file ∷ []) two_threads
      serviced (res ∷ req ∷ []) (λ l. length l) (length-replicate {A = Name} 20 [])
      two_threads_started refl
