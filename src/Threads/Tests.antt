-- ===== src/Threads/Tests.antt =====
-- The program of summation.c at some arguments, and the five threads of mutex.c in some orders.
use csci3757_operating_syste.Base.{
  ok, err, out_of_bounds, true, ◌≡◌, refl, ◌∷◌, [], List, ℕ, some, pos, negsuc, total, ◌≢◌,
}
use csci3757_operating_syste.Threads.Summation.{
  main, main_lem, not_enough, must_be_positive, another_thread, joined, sum_is,
}
use csci3757_operating_syste.Threads.Counter.{acts, five_threads}
use csci3757_operating_syste.Threads.Filling
use csci3757_operating_syste.Threads.Filling.{fill}
use csci3757_operating_syste.Threads.Forked
use csci3757_operating_syste.Threads.Forked.{
  parent_turn, child_turn, thread_turn, parent_value, child_value,
}
use csci3757_operating_syste.Threads.Counter.Bounds.{Near, acts-Near}

main_lem_example :
    (main 2 (pos 100) ≡ some (another_thread ∷ joined ∷ sum_is 5050 ∷ [], pos 0))
    × (main 2 (negsuc 100)
        ≡ some (must_be_positive ∷ another_thread ∷ joined ∷ sum_is 0 ∷ [], pos 0))
    × (◌≢◌ {A = ℕ} 3 2 → main 3 (pos 100) ≡ some (not_enough ∷ [], negsuc 0))
main_lem_example = main_lem 100 3

-- One after the other the threads leave 4; read together, three of them are lost.
in_order : (acts (0 ∷ 0 ∷ 1 ∷ 1 ∷ 2 ∷ 2 ∷ 3 ∷ 3 ∷ 4 ∷ 4 ∷ []) five_threads).index ≡ pos 4
unfolding acts
in_order = refl

together : List ℕ
together = 0 ∷ 1 ∷ 2 ∷ 3 ∷ 4 ∷ 0 ∷ 1 ∷ 2 ∷ 3 ∷ 4 ∷ []

lost : (acts together five_threads).index ≡ pos 6
unfolding acts together
lost = refl

acts-Near_example : Near 5 2 3 (acts together five_threads).index
unfolding total
acts-Near_example =
    acts-Near 5 2 3 together five_threads refl (refl, (refl, (refl, (refl, (refl, tt))))) refl refl

-- Of the bytes that arrayFill.c asks for, the second file is written past the end.
filled : Filling.main ≡ err out_of_bounds
unfolding fill
filled = refl

with_room : fill 96 ≡ ok (3 ∷ 2 ∷ 1 ∷ [])
unfolding fill
with_room = refl

-- The parent, the child and its thread of thread_process.c, until the parent has returned.
forked_run :
    (Forked.proceeds true
      (parent_turn ∷ child_turn ∷ thread_turn ∷ parent_turn ∷ thread_turn ∷ child_turn ∷ child_turn
        ∷ parent_turn ∷ parent_turn ∷ parent_turn ∷ [])
      Forked.before_fork).output
    ≡ (parent_value 0 ∷ child_value 5 ∷ [])
unfolding Forked.proceeds
forked_run = refl
