-- ===== src/Simulator/Tests/ApiTest.antt =====
-- The pager of api-test.c on two processors.
use csci3757_operating_syste.Base.{◌≡◌, refl, ◌⊎◌, true, ok, err, out_of_fuel, arith}
use csci3757_operating_syste.Simulator.Types.{going}
use csci3757_operating_syste.Simulator.Paging.{put, put_page}
use csci3757_operating_syste.Simulator.Control.{callyou}
use csci3757_operating_syste.Simulator.ApiTest.{
  Test, test_start, wait_out, end_call, pageit, test_run,
}
use csci3757_operating_syste.Simulator.ApiTest.Law.{Finished, api_test-Finished}
use csci3757_operating_syste.Simulator.ApiTest.Answers.{Sent, test_in-Answers}
use csci3757_operating_syste.Simulator.Tests.{
  zeros, alternating, running_job, two_running, started, started_lem,
}
use csci3757_operating_syste.Simulator.Tests.Witnesses.{two_running-Inv}

api_test-Finished_example :
    (test_run zeros 7 test_start started ≡ err out_of_fuel)
    ⊎ Finished zeros (test_run zeros 7 test_start started)
api_test-Finished_example =
    api_test-Finished zeros alternating 1000 20 7 started refl (omega arith) started_lem

-- Five changes were counted, and the page has come in: the next call exits.
abbrev nearly_done : Test
nearly_done = record test_start { tick = 511; out_test_run = true; iterations = 5 }

test_in-Answers_example :
    (v' : Test) × (callyou pageit nearly_done two_running
      ≡ ok (v', put two_running 0 (put_page running_job 0 going)))
    × Sent nearly_done v'
test_in-Answers_example =
    test_in-Answers zeros nearly_done two_running 0 running_job two_running-Inv
      (record { below = omega arith; pointer = refl; job = refl; on = refl }) refl refl

exits : (end_call (wait_out true true nearly_done)).exited ≡ true
exits = refl
