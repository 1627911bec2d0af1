-- ===== src/Lookup/Tests.antt =====
-- Runs of one requester and one resolver.
mod Rests
mod Mains
mod Lost
use csci3757_operating_syste.Lookup.Ending.Asleep.{Asleep}
use csci3757_operating_syste.Lookup.Ending.Complete.{Finished, Finished-Resolved}
use csci3757_operating_syste.Base.{
  ◌≡◌, refl, ◌⊎◌, true, some, Option, List, [], ◌∷◌, pos, Result, ok, err, out_of_bounds, replicate,
  length-replicate, inl, inr, length, total,
}
use csci3757_operating_syste.Lookup.Dns.{Name, inet}
use csci3757_operating_syste.Lookup.{
  World, Lookup, launched, start_threads, Turn, requester_turn, resolver_turn, turn, turns,
  empty_woken, valid_files,
}
use csci3757_operating_syste.Lookup.Invariant.{Inv, result_weight, lines_weight}
use csci3757_operating_syste.Lookup.Moves.{Keeps}
use csci3757_operating_syste.Lookup.Runs.{
  Fails, Ends, turn-Keeps, started-Ends, empty_woken-Fails, launched-Inv,
}

-- "a.txt12"
abbrev data_file : Name
data_file = 97 ∷ 46 ∷ 116 ∷ 120 ∷ 116 ∷ 49 ∷ 50 ∷ []

-- Every file holds the given lines; every name has the address 1, whose string is "1".
abbrev world_of : List Name → World
world_of lines = record {
  fopen = λ name. some lines;
  net = record {
    getaddrinfo = λ name. some (record { sa_family = inet; sin_addr = 1 } ∷ []);
    inet_ntop = λ a. some (49 ∷ []);
  };
}

abbrev fresh : List Name
fresh = replicate 20 []

abbrev two_threads : Lookup
two_threads = launched (λ name. true) fresh 1 1 (data_file ∷ [])

abbrev req : Turn
req = requester_turn 0 0

abbrev res : Turn
res = resolver_turn 0 0

-- A name goes from the file to the results.
abbrev one_name : List Turn
one_name = req ∷ req ∷ req ∷ req ∷ req ∷ res ∷ res ∷ res ∷ res ∷ []

results_of : Result Lookup → List (Name × Option (Option Name))
results_of (ok s) = s.results_log
results_of (err e) = []

one_name_resolved :
    results_of (turns (world_of ((120 ∷ 10 ∷ []) ∷ [])) one_name two_threads)
    ≡ ((120 ∷ [], some (some (49 ∷ []))) ∷ [])
unfolding results_of turns turn
one_name_resolved = refl

-- The resolver waits; the requester finds a file without lines and signals: the resolver reads before
-- the buffer.
abbrev no_lines : List Turn
no_lines = res ∷ res ∷ res ∷ res ∷ req ∷ req ∷ req ∷ res ∷ res ∷ []

no_lines_fail : turns (world_of []) no_lines two_threads ≡ err out_of_bounds
unfolding turns turn
no_lines_fail = refl

two_threads-Inv : Inv two_threads
two_threads-Inv =
    launched-Inv (λ name. true) fresh 1 1 (data_file ∷ []) (length-replicate {A = Name} 20 [])

turn-Keeps_example :
    ((s' : Lookup) × (turn (world_of []) req two_threads ≡ ok s')
      × Keeps (world_of []) two_threads s')
    ⊎ Fails (world_of []) two_threads req
turn-Keeps_example = turn-Keeps (world_of []) req two_threads two_threads-Inv

two_threads_started :
    start_threads (λ name. true) fresh (pos 1) (pos 1) (data_file ∷ []) ≡ some two_threads
unfolding start_threads
two_threads_started = refl

started-Ends_example : Ends (world_of []) no_lines two_threads
started-Ends_example =
    started-Ends (world_of []) (λ name. true) fresh (pos 1) (pos 1) (data_file ∷ []) two_threads
      no_lines (length-replicate {A = Name} 20 []) two_threads_started

abbrev woken : Lookup
woken = record two_threads { resolvers = empty_woken ∷ [] }

empty_woken-Fails_example : turns (world_of []) (res ∷ res ∷ []) woken ≡ err out_of_bounds
empty_woken-Fails_example = empty_woken-Fails (world_of []) woken 0 0 0 refl refl refl

-- From the start until both threads have ended.
abbrev whole_run : List Turn
whole_run = req ∷ req ∷ req ∷ req ∷ req ∷ req ∷ res ∷ res ∷ res ∷ res ∷ res ∷ res ∷ res ∷ []

state_of : Result Lookup → Lookup
state_of (ok s) = s
state_of (err e) = two_threads

abbrev one_line : World
one_line = world_of ((120 ∷ 10 ∷ []) ∷ [])

at_end : Lookup
unfolding state_of turns turn
at_end = state_of (turns one_line whole_run two_threads)

whole_run_lem : turns one_line whole_run two_threads ≡ ok at_end
unfolding at_end
whole_run_lem = refl

at_end-Asleep : Asleep at_end
unfolding at_end
at_end-Asleep = record { all_stopped = (refl, tt); all_rest = (inl refl, tt) }

-- The requester ends between the resolver's test of threadsFinished and its wait: its broadcast wakes
-- nobody, and the resolver goes to sleep.
abbrev late_sleep : List Turn
late_sleep = req ∷ req ∷ req ∷ res ∷ res ∷ res ∷ req ∷ res ∷ []

asleep : Lookup
unfolding state_of turns turn
asleep = state_of (turns (world_of []) late_sleep two_threads)

late_sleep_lem : turns (world_of []) late_sleep two_threads ≡ ok asleep
unfolding asleep
late_sleep_lem = refl

asleep-Asleep : Asleep asleep
unfolding asleep
asleep-Asleep = record { all_stopped = (refl, tt); all_rest = (inr refl, tt) }
