-- ===== src/Simulator/ApiTest/Law.antt =====
-- The test keeps the simulator's invariant and counts its six state changes.
use csci3757_operating_syste.Base.{
  ℕ, zero, suc, ◌+◌, ◌≤◌, ◌≡◌, refl, ◌⊎◌, inl, inr, Bool, true, false, not, Result, ok, err,
  out_of_fuel, arith, get_elem?-some, All-get, Bool-cases, pos, ltb, sym, branches, subst, List,
  get_elem?, some, branches_by,
}
use csci3757_operating_syste.Simulator.Types.{max_processes, Sim, Pentry}
use csci3757_operating_syste.Simulator.Process.{Outside}
use csci3757_operating_syste.Simulator.Branching.{Random}
use csci3757_operating_syste.Simulator.Queue.{allinit}
use csci3757_operating_syste.Simulator.Paging.{allage}
use csci3757_operating_syste.Simulator.Control.{alldone, callyou, entries, tick}
use csci3757_operating_syste.Simulator.Invariant.{Inv}
use csci3757_operating_syste.Simulator.Invariant.Loading.{allinit-Inv}
use csci3757_operating_syste.Simulator.Invariant.Requests.{pageout-Inv, pagein-Inv}
use csci3757_operating_syste.Simulator.Invariant.Stepping.{allstep-Inv}
use csci3757_operating_syste.Simulator.Invariant.Ageing.{allage-Inv}
use csci3757_operating_syste.Simulator.Invariant.Running.{Serves, Lawful, tick-Serves}
use csci3757_operating_syste.Simulator.Pagers.Entries.{IsEntry, entries-IsEntry, length-entries}
use csci3757_operating_syste.Simulator.ApiTest.{
  max_iterations, Test, test_start, wait_out, wait_in, test_in, test_out, end_call, test_page,
  pageit, test_run,
}

-- After the first change the test waits in exactly one direction; it exits with the sixth.
pub record IsTest (v : Test) : Type 0 where
  pub one_way :
      ((v.iterations ≡ 0) × (v.in_test_run ≡ false) × (v.out_test_run ≡ false))
      ⊎ (v.in_test_run ≡ not v.out_test_run)
  pub six : v.exited ≡ ltb max_iterations v.iterations

-- What one call makes of the counter and the flags, before `end_call`.
record Changed (v v' : Test) : Type 0 where
  pub way :
      ((v.iterations ≡ 0) × (v.in_test_run ≡ false) × (v.out_test_run ≡ false))
        ⊎ (v.in_test_run ≡ not v.out_test_run)
      → ((v'.iterations ≡ 0) × (v'.in_test_run ≡ false) × (v'.out_test_run ≡ false))
        ⊎ (v'.in_test_run ≡ not v'.out_test_run)
  pub most : v'.iterations ≤ v.iterations + 1
  pub least : v.iterations ≤ v'.iterations
  pub same : v'.exited ≡ v.exited

unchanged : (v v' : Test) → v ≡ v' → Changed v v'
unchanged v v' e =
    rw (sym e) (record { way = λ h. h; most = omega arith; least = omega arith; same = refl })

wait_out-Changed : (into out : Bool) (v : Test) → Changed v (wait_out into out v)
wait_out-Changed into true v = record {
  way = λ h. inr refl;
  most = omega arith;
  least = omega arith;
  same = refl;
}
wait_out-Changed into false v = record {
  way = λ h. h;
  most = omega arith;
  least = omega arith;
  same = refl;
}

wait_in-Changed : (out into : Bool) (v : Test) → Changed v (wait_in out into v)
wait_in-Changed out true v = record {
  way = λ h. inr refl;
  most = omega arith;
  least = omega arith;
  same = refl;
}
wait_in-Changed out false v = record {
  way = λ h. h;
  most = omega arith;
  least = omega arith;
  same = refl;
}

test_in-Changed : (v : Test) (s : Sim) → Changed v (test_in v s).0
test_in-Changed v s =
    branches (λ (r : Test × Sim). Changed v r.0) v.in_test_run (unchanged v v refl)
      (wait_out-Changed _ _ v)

test_out-Changed : (v : Test) (s : Sim) → Changed v (test_out v s).0
test_out-Changed v s =
    branches (λ (r : Test × Sim). Changed v r.0) v.out_test_run (unchanged v v refl)
      (wait_in-Changed _ _ v)

end_call-IsTest : (v v' : Test) → IsTest v → Changed v v' → IsTest (end_call v')
end_call-IsTest v v' h c = elim (Bool-cases (ltb max_iterations v'.iterations)) [
  | inl t ↦ rw t (record { one_way = c.way h.one_way; six = sym t })
  | inr f ↦
      rw f (record { one_way = c.way h.one_way; six = ground (arith, c.same, h.six, c.least, f) })
]

end_call-iterations : (v : Test) → (end_call v).iterations ≡ v.iterations
end_call-iterations v = ground arith

test_page-IsTest : (inside : Bool) (v : Test) (s : Sim) → IsTest v → IsTest (test_page inside v s).0
unfolding test_page
test_page-IsTest true v s h = end_call-IsTest v _ h (test_in-Changed v s)
test_page-IsTest false v s h = end_call-IsTest v _ h (test_out-Changed v s)

test_page-iterations :
    (inside : Bool) (v : Test) (s : Sim) → (test_page inside v s).0.iterations ≤ v.iterations + 1
unfolding test_page
test_page-iterations true v s = rw (end_call-iterations (test_in v s).0) (test_in-Changed v s).most
test_page-iterations false v s =
    rw (end_call-iterations (test_out v s).0) (test_out-Changed v s).most

test_page-Inv :
    (o : Outside) (inside : Bool) (v : Test) (s : Sim) → Inv o s → Inv o (test_page inside v s).1
unfolding test_page
test_page-Inv o true v s i =
    branches (λ (r : Test × Sim). Inv o r.1) v.in_test_run i
      (pageout-Inv o (pos 0) (pos 0) _ (pagein-Inv o (pos 0) (pos 0) s i))
test_page-Inv o false v s i =
    branches (λ (r : Test × Sim). Inv o r.1) v.out_test_run i
      (pagein-Inv o (pos 0) (pos 0) _ (pageout-Inv o (pos 0) (pos 0) s i))

pub pageit-test_page :
    (q : List Pentry) (e : Pentry) (inside : Bool) (v : Test) (s : Sim)
    → get_elem? q 0 ≡ some e
    → get_elem? e.pages 0 ≡ some inside
    → pageit q v s ≡ ok (test_page inside v s)
unfolding pageit
pageit-test_page q e inside v s at first = rw at (rw first refl)

-- The call reads a page that is there.
callyou-test_page :
    (o : Outside) (v : Test) (s : Sim)
    → Inv o s
    → (inside : Bool) × (callyou pageit v s ≡ ok (test_page inside v s))
unfolding callyou
callyou-test_page o v s i =
    let (e, at) =
      get_elem?-some (entries max_processes 0 s) 0
        (rw (length-entries max_processes 0 s) (omega arith)) in
    let entry : IsEntry e =
      All-get IsEntry (entries max_processes 0 s) 0 e (entries-IsEntry o max_processes 0 s i) at in
    let (inside, first) = get_elem?-some e.pages 0 (omega (arith, entry.whole)) in
    (inside, pageit-test_page _ e inside v s at first)

test-keeps :
    (o : Outside) (v : Test) (s : Sim) → IsTest v → Inv o s → Serves o IsTest (callyou pageit v s)
test-keeps o v s g i =
    let (inside, e) = callyou-test_page o v s i in
    rw e (
      (test_page inside v s).0,
      (test_page inside v s).1,
      refl,
      test_page-IsTest inside v s g,
      test_page-Inv o inside v s i,
    )

abbrev test-Lawful : (o : Outside) → Lawful o pageit
test-Lawful o = record { Good = IsTest; keeps = test-keeps o }

-- One time step counts at most one change.
tick-iterations :
    (o : Outside) (v v' : Test) (s s' : Sim)
    → Inv o s
    → tick o pageit v s ≡ ok (v', s')
    → v'.iterations ≤ v.iterations + 1
unfolding tick
tick-iterations o v v' s s' i e =
    let (s1, e1, i1) = allstep-Inv o s i in
    let (inside, e2) = callyou-test_page o v (allage s1) (allage-Inv o s1 i1) in
    let (w, t) = test_page inside v (allage s1) in
    let stepped : tick o pageit v s ≡ ok (w, record t { sysclock = t.sysclock + 1 }) =
      rw (e1, e2) refl in
    let same : w ≡ v' = cc in
    subst (λ x. x.iterations ≤ v.iterations + 1) same (test_page-iterations inside v (allage s1))

-- The run has come to the end of the jobs or of the test.
abbrev pub Finished : Outside → Result (Test × Sim) → Type 0
Finished o r =
    (v : Test) × (s : Sim) × (r ≡ ok (v, s))
    × Inv o s
    × IsTest v
    × ((alldone s ≡ true) ⊎ ((v.exited ≡ true) × (v.iterations ≡ 6)))

abbrev GoesOn : Outside → Result (Test × Sim) → Type 0
GoesOn o r = (r ≡ err out_of_fuel) ⊎ Finished o r

test_run-Finished :
    (o : Outside) (fuel : ℕ) (v : Test) (s : Sim)
    → IsTest v
    → v.exited ≡ false
    → Inv o s
    → GoesOn o (test_run o fuel v s)
unfolding test_run
test_run-Finished o zero v s g on i = inl refl
test_run-Finished o (suc fuel) v s g on i = elim (Bool-cases (alldone s)) [
  | inl done ↦ rw (done, test_run) (inr (v, s, refl, i, g, inl done))
  | inr more ↦
      let (v', s', e, g', i') = tick-Serves o pageit (test-Lawful o) v s g i in
      let most = tick-iterations o v v' s s' i e in
      rw (more, test_run)
        (rw e (
          branches_by (GoesOn o) v'.exited
            (λ out.
              inr (v', s', refl, i', g', inr (out, ground (arith, g'.six, g.six, on, out, most))))
            (λ f. test_run-Finished o fuel v' s' g' f i')))
]

-- From the state that `allinit` sets up, no time step of the simulation with the pager of api-test.c
-- fails an assertion, leaves an array, uses a null pointer or divides by zero: after any number of
-- time steps it is still running, or it has stopped with every process done, or the pager has called
-- exit, and then with exactly six changes of the page counted. The invariant holds at the end, and from
-- the first change on the test waits in one direction at a time. The memory just before the branch
-- table of the program without branches is taken to be 0.
pub api_test-Finished :
    (o : Outside) (r : Random) (fuel procs steps : ℕ) (s : Sim)
    → o.wherefrom ≡ 0
    → procs ≤ max_processes
    → allinit r fuel procs ≡ ok s
    → (test_run o steps test_start s ≡ err out_of_fuel) ⊎ Finished o (test_run o steps test_start s)
api_test-Finished o r fuel procs steps s z few e =
    test_run-Finished o steps test_start s (record { one_way = inl (refl, refl, refl); six = refl })
      refl (allinit-Inv o r fuel procs s z few e)
