-- ===== src/Simulator/ApiTest.antt =====
-- PA4/PA4/api-test.c: the pager that asks for page 0 of process 0 in and out again, prints the answers,
-- and ends the program after six of them. Its int counters are taken not to wrap.
pub mod Law
pub mod Answers
use csci3757_operating_syste.Base.{
  ℕ, zero, suc, ◌+◌, Bool, true, false, List, [], ◌∷◌, ◌++◌, pos, Result, ok, err, out_of_bounds,
  out_of_fuel, ◌>>=◌, or_err, ltb, if◌then◌else◌, get_elem?,
}
use csci3757_operating_syste.Simulator.Types.{Sim}
use csci3757_operating_syste.Simulator.Process.{Outside}
use csci3757_operating_syste.Simulator.Paging.{pageout, pagein}
use csci3757_operating_syste.Simulator.Control.{Pager, alldone, tick}

abbrev pub max_iterations : ℕ
max_iterations = 5

-- A line that is printed: the tick, and what the simulator shows or answers.
pub data Line : Type 0 where
  swapped_in swapped_out in_progress : ℕ → Line
  page_value pagein_returns pageout_returns : ℕ → Bool → Line
  exiting : Line

-- The static variables, with all that was printed and whether exit was called.
pub record Test : Type 0 where
  pub tick : ℕ
  pub out_test_run : Bool
  pub in_test_run : Bool
  pub iterations : ℕ
  pub output : List Line
  pub exited : Bool

abbrev pub test_start : Test
test_start = record {
  tick = 0;
  out_test_run = false;
  in_test_run = false;
  iterations = 0;
  output = [];
  exited = false;
}

-- if (pageoutret) ..., and the lines of that round
abbrev pub wait_out : Bool → Bool → Test → Test
wait_out into out v =
    let printed = record v {
      output =
          v.output
          ++ (swapped_in v.tick
              ∷ page_value v.tick true
              ∷ pagein_returns v.tick into
              ∷ page_value v.tick true
              ∷ pageout_returns v.tick out
              ∷ page_value v.tick true
              ∷ []);
    } in
    if out
    then record printed { in_test_run = true; out_test_run = false; iterations = v.iterations + 1 }
    else printed

-- if (pageinret) ..., and the lines of that round
abbrev pub wait_in : Bool → Bool → Test → Test
wait_in out into v =
    let asked =
      v.output
      ++ (swapped_out v.tick
          ∷ page_value v.tick false
          ∷ pageout_returns v.tick out
          ∷ page_value v.tick false
          ∷ pagein_returns v.tick into
          ∷ []) in
    if into
    then record v {
      out_test_run = true;
      in_test_run = false;
      iterations = v.iterations + 1;
      output = asked ++ (page_value v.tick false ∷ []);
    }
    else record v { output = asked ++ (in_progress v.tick ∷ page_value v.tick false ∷ []) }

-- The page is in memory.
abbrev pub test_in : Test → Sim → Test × Sim
test_in v s = elim (v.in_test_run) [
  | true ↦ (v, s)
  | false ↦
      let (into, s1) = pagein (pos 0) (pos 0) s in
      let (out, s2) = pageout (pos 0) (pos 0) s1 in (wait_out into out v, s2)
]

-- The page is not in memory.
abbrev pub test_out : Test → Sim → Test × Sim
test_out v s = elim (v.out_test_run) [
  | true ↦ (v, s)
  | false ↦
      let (out, s1) = pageout (pos 0) (pos 0) s in
      let (into, s2) = pagein (pos 0) (pos 0) s1 in (wait_in out into v, s2)
]

-- The end of the call: exit, or tick++.
abbrev pub end_call : Test → Test
end_call v =
    if ltb max_iterations v.iterations
    then record v { output = v.output ++ (exiting ∷ []); exited = true }
    else record v { tick = v.tick + 1 }

unfoldable pub test_page : Bool → Test → Sim → Test × Sim
test_page inside v s =
    let (v', s') = if inside then test_in v s else test_out v s in (end_call v', s')

unfoldable pub pageit : Pager Test
unfolding test_page
pageit q v s = or_err (get_elem? q 0) out_of_bounds >>= λ e.
    or_err (get_elem? e.pages 0) out_of_bounds >>= λ inside. ok (test_page inside v s)

-- The main loop with this pager, on fuel: exit ends it inside of a call.
unfoldable pub test_run : Outside → ℕ → Test → Sim → Result (Test × Sim)
test_run o zero v s = err out_of_fuel
test_run o (suc fuel) v s = elim (alldone s) [
  | true ↦ ok (v, s)
  | false ↦
      tick o pageit v s >>= λ r. elim (r.0.exited) [ true ↦ ok r | false ↦ test_run o fuel r.0 r.1 ]
]
