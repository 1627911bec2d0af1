-- ===== src/Lookup/Tests/Lost.antt =====
-- One requester, a resolver that waits and one that is about to.
use csci3757_operating_syste.Base.{
  ◌≡◌, refl, true, some, List, [], ◌∷◌, ok, get_elem?, arith, total,
}
use csci3757_operating_syste.Lookup.{
  Lookup, searching, signalling, empty_wait, empty_woken, Turn, requester_turn, resolver_turn, turn,
  turns,
}
use csci3757_operating_syste.Lookup.Main.{joining, finish}
use csci3757_operating_syste.Lookup.Main.Late.{Waits}
use csci3757_operating_syste.Lookup.Main.Lost.{lost_wakeup}
use csci3757_operating_syste.Lookup.Tests.{data_file, two_threads, one_line, state_of}

abbrev about_to_wait : Lookup
about_to_wait = record two_threads {
  files = record { serviced = true; filename = data_file } ∷ [];
  buffer_lock = true;
  requesters = searching 1 ∷ [];
  resolvers = signalling ∷ empty_wait ∷ [];
}

abbrev after_broadcast : List Turn
after_broadcast = resolver_turn 0 0 ∷ resolver_turn 1 0 ∷ []

left_waiting : Lookup
unfolding state_of turns turn
left_waiting = state_of (turns one_line (requester_turn 0 0 ∷ after_broadcast) about_to_wait)

left_waiting_lem :
    turns one_line (requester_turn 0 0 ∷ after_broadcast) about_to_wait ≡ ok left_waiting
unfolding left_waiting
left_waiting_lem = refl

lost_wakeup_example :
    ((s1 : Lookup) × (turn one_line (requester_turn 0 0) about_to_wait ≡ ok s1)
      × (get_elem? s1.resolvers 1 ≡ some empty_woken))
    × Waits 0 left_waiting.resolvers
    × (finish left_waiting ≡ ok (joining left_waiting))
unfolding total
lost_wakeup_example =
    lost_wakeup one_line about_to_wait left_waiting 0 1 0 1 0 after_broadcast refl (refl, tt)
      (omega arith) refl refl refl (tt, (tt, tt)) left_waiting_lem
