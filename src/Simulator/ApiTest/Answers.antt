-- ===== src/Simulator/ApiTest/Answers.antt =====
-- What the test is told, by the state of page 0 of process 0.
use csci3757_operating_syste.Base.{
  ℕ, zero, suc, ◌+◌, ◌-◌, ◌<◌, ◌≤◌, ◌⊎◌, ◌++◌, ltb, ◌≡◌, refl, ◌∙◌, ap, inl, inr, Bool, true, false,
  not, some, List, [], ◌∷◌, ℤ, pos, negsuc, ok, arith, get_elem?, set, All-get, Bool-cases,
  if◌then◌else◌, leb, ◌==◌, ◌&&◌,
}
use csci3757_operating_syste.Simulator.Types.{max_processes, page_wait, going, coming, Process, Sim}
use csci3757_operating_syste.Simulator.Process.{Outside}
use csci3757_operating_syste.Simulator.Process.WellFormed.{IsProcess}
use csci3757_operating_syste.Simulator.Paging.{pageout, pagein, put, put_page, deref}
use csci3757_operating_syste.Simulator.Control.{callyou, entries, entry, shown_pages, is_resident}
use csci3757_operating_syste.Simulator.Invariant.{Inv}
use csci3757_operating_syste.Simulator.Invariant.Transit.{Runs, live_of_Runs}
use csci3757_operating_syste.Simulator.ApiTest.{
  max_iterations, Line, swapped_in, page_value, pagein_returns, pageout_returns, exiting, Test,
  wait_out, wait_in, test_in, test_out, end_call, test_page, pageit,
}
use csci3757_operating_syste.Simulator.ApiTest.Law.{pageit-test_page}

first_shown :
    (n m : ℕ) (zs : List ℤ) (z : ℤ)
    → 0 < n
    → get_elem? zs 0 ≡ some z
    → get_elem? (shown_pages n (suc m) zs) 0 ≡ some (is_resident z)
unfolding shown_pages
first_shown zero m zs z h e = absurd (omega arith)
first_shown (suc n) m [] z h e = cc
first_shown (suc n) m (y ∷ zs) z h e = let same : y ≡ z = cc in ap (λ x. some (is_resident x)) same

first_entry : (n : ℕ) (s : Sim) → get_elem? (entries (suc n) 0 s) 0 ≡ some (entry (deref s 0))
unfolding entries
first_entry n s = refl

not_taken : {A : Type 0} (b : Bool) (x y : A) → b ≡ false → elim b [ true ↦ x | false ↦ y ] ≡ y
not_taken true x y e = cc
not_taken false x y e = refl

told_in :
    (v : Test) (s s1 s2 : Sim) (into out : Bool)
    → v.in_test_run ≡ false
    → pagein (pos 0) (pos 0) s ≡ (into, s1)
    → pageout (pos 0) (pos 0) s1 ≡ (out, s2)
    → test_page true v s ≡ (end_call (wait_out into out v), s2)
unfolding test_page
told_in v s s1 s2 into out f a b =
    let asked : test_in v s ≡ (wait_out into out v, s2) =
      not_taken v.in_test_run (v, s) _ f ∙ rw (a, b) refl in
    ap (λ (t : Test × Sim). (end_call t.0, t.1)) asked

told_out :
    (v : Test) (s s1 s2 : Sim) (into out : Bool)
    → v.out_test_run ≡ false
    → pageout (pos 0) (pos 0) s ≡ (out, s1)
    → pagein (pos 0) (pos 0) s1 ≡ (into, s2)
    → test_page false v s ≡ (end_call (wait_in out into v), s2)
unfolding test_page
told_out v s s1 s2 into out f a b =
    let asked : test_out v s ≡ (wait_in out into v, s2) =
      not_taken v.out_test_run (v, s) _ f ∙ rw (a, b) refl in
    ap (λ (t : Test × Sim). (end_call t.0, t.1)) asked

-- The lines of a tick in which page 0 is in memory and both calls answer TRUE.
abbrev pub six_lines : ℕ → List Line
six_lines tick =
    swapped_in tick
    ∷ page_value tick true
    ∷ pagein_returns tick true
    ∷ page_value tick true
    ∷ pageout_returns tick true
    ∷ page_value tick true
    ∷ []

-- The end of the call: the exit, or the next tick.
abbrev pub Ends : Test → Test → Type 0
Ends v v' =
    ((4 < v.iterations)
      × (v'.exited ≡ true)
      × (v'.tick ≡ v.tick)
      × (v'.output ≡ (v.output ++ six_lines v.tick) ++ (exiting ∷ [])))
    ⊎ ((v.iterations ≤ 4)
        × (v'.exited ≡ v.exited)
        × (v'.tick ≡ v.tick + 1)
        × (v'.output ≡ v.output ++ six_lines v.tick))

-- What the test notes once the pageout has begun.
pub record Sent (v v' : Test) : Type 0 where
  pub counted : v'.iterations ≡ v.iterations + 1
  pub waits_for_out : v'.in_test_run ≡ true
  pub not_for_in : v'.out_test_run ≡ false
  pub ends : Ends v v'

end_call-Sent : (v : Test) → Sent v (end_call (wait_out true true v))
end_call-Sent v = elim (Bool-cases (ltb max_iterations (v.iterations + 1))) [
  | inl more ↦ rw more (record {
    counted = refl;
    waits_for_out = refl;
    not_for_in = refl;
    ends = inl (ground arith, refl, refl, refl);
  })
  | inr few ↦ rw few (record {
    counted = refl;
    waits_for_out = refl;
    not_for_in = refl;
    ends = inr (ground arith, refl, refl, refl);
  })
]

module _ (o : Outside) (v : Test) (s : Sim) (k : ℕ) (q : Process) (i : Inv o s)
    (r : Runs s 0 k q) where
  points : deref s 0 ≡ some (k, q)
  unfolding deref
  points = ground (arith, r.pointer, r.job)

  has_pages : 0 < q.npages
  has_pages =
      let job : IsProcess o q = All-get (IsProcess o) s.queue k q i.jobs r.job in
      omega (arith, job.all_pages)

  callyou_by :
      (z : ℤ)
      → get_elem? q.pages 0 ≡ some z
      → callyou pageit v s ≡ ok (test_page (is_resident z) v s)
  unfolding callyou
  callyou_by z e =
      pageit-test_page (entries max_processes 0 s) (entry (deref s 0)) (is_resident z) v s
        (first_entry 19 s) (rw points (first_shown q.npages 19 q.pages z has_pages e))

  page_in_memory : get_elem? q.pages 0 ≡ some (pos 0) → pagein (pos 0) (pos 0) s ≡ (true, s)
  unfolding pagein
  page_in_memory e = rw (live_of_Runs s 0 k q r) (rw e (ground (arith, has_pages)))

  page_starts_out :
      get_elem? q.pages 0 ≡ some (pos 0)
      → pageout (pos 0) (pos 0) s ≡ (true, put s k (put_page q 0 going))
  unfolding pageout
  page_starts_out e = rw (live_of_Runs s 0 k q r) (rw e (ground (arith, has_pages)))

  -- Page 0 of process 0 is in memory and its pageout has not been asked for. The call succeeds: pagein
  -- changes nothing and pageout sends the page out. Six lines are printed: the page is in memory (before,
  -- between and after the calls), and both calls answer TRUE. One more change is counted, and the test
  -- now waits for the page to be gone. If this is more than the fifth change the program exits with one
  -- more line, in the same tick; else the tick goes up.
  pub test_in-Answers :
      get_elem? q.pages 0 ≡ some (pos 0)
      → v.in_test_run ≡ false
      → (v' : Test) × (callyou pageit v s ≡ ok (v', put s k (put_page q 0 going))) × Sent v v'
  test_in-Answers e f = (
    end_call (wait_out true true v),
    callyou_by (pos 0) e
        ∙ ap ok (told_in v s s _ true true f (page_in_memory e) (page_starts_out e)),
    end_call-Sent v,
  )

  page_stays_out :
      (n : ℕ) → get_elem? q.pages 0 ≡ some (negsuc n) → pageout (pos 0) (pos 0) s ≡ (true, s)
  unfolding pageout
  page_stays_out n e = rw (live_of_Runs s 0 k q r) (rw e (ground (arith, has_pages)))

  page_starts_in :
      (n : ℕ)
      → get_elem? q.pages 0 ≡ some (negsuc n)
      → pagein (pos 0) (pos 0) s ≡ (
          if not (s.pagesavail == 0) && leb page_wait n
          then (
            true,
            record s { queue = set s.queue k (put_page q 0 coming); pagesavail = s.pagesavail - 1 },
          )
          else (false, s))
  unfolding pagein
  page_starts_in n e = rw (live_of_Runs s 0 k q r) (rw e (ground (arith, has_pages)))

  -- Page 0 of process 0 is not in memory or coming and its pagein has not been asked for: pageout
  -- answers TRUE and changes nothing. If a physical page is free and this page is not still on its way
  -- out, then pagein answers TRUE, takes the physical page and lets this one come in, and the test has
  -- counted one more change and waits for it; else pagein answers FALSE and nothing changes.
  test_out-Answers :
      (n : ℕ)
      → get_elem? q.pages 0 ≡ some (negsuc n)
      → v.out_test_run ≡ false
      → callyou pageit v s ≡ (
          if not (s.pagesavail == 0) && leb page_wait n
          then ok (
            end_call (wait_in true true v),
            record s { queue = set s.queue k (put_page q 0 coming); pagesavail = s.pagesavail - 1 },
          )
          else ok (end_call (wait_in true false v), s))
  test_out-Answers n e f =
      let free = not (s.pagesavail == 0) && leb page_wait n in
      elim (Bool-cases free) [
        | inl t ↦
            callyou_by (negsuc n) e
            ∙ rw t (
                ap ok (
                  told_out v s s _ true true f (page_stays_out n e)
                    (page_starts_in n e ∙ rw t refl)))
        | inr u ↦
            callyou_by (negsuc n) e
            ∙ rw u (
                ap ok (
                  told_out v s s _ false true f (page_stays_out n e)
                    (page_starts_in n e ∙ rw u refl)))
      ]
