-- ===== src/Simulator/Pagers/Predict/Law.antt =====
-- The predictive pager never leaves an array and keeps the simulator's invariant: it is lawful.
use csci3757_operating_syste.Base.{
  ℕ, zero, suc, ◌+◌, ◌/◌, ◌≤◌, ◌≡◌, refl, ◌∙◌, inl, inr, Bool, List, [], ◌∷◌, pos, pred_ℤ, Result,
  ok, arith, length, length-set, get_elem?-some, set, All, Bool-cases, branches,
}
use csci3757_operating_syste.Simulator.Types.{max_processes, max_proc_pages, page_size, Pentry, Sim}
use csci3757_operating_syste.Simulator.Process.{Outside}
use csci3757_operating_syste.Simulator.Paging.{pagein}
use csci3757_operating_syste.Simulator.Control.{callyou, entries}
use csci3757_operating_syste.Simulator.Invariant.{Inv}
use csci3757_operating_syste.Simulator.Invariant.Requests.{pageout-Inv, pagein-Inv}
use csci3757_operating_syste.Simulator.Invariant.Running.{Serves, Lawful}
use csci3757_operating_syste.Simulator.Pagers.Predict.{
  Predict, initialize, send_out, bring_in, Guess, range, linear, guess, shift_window, follow, fetch,
  serve, serve_all, pageit,
}
use csci3757_operating_syste.Simulator.Pagers.Entries.{IsEntry, entries-IsEntry, length-entries}

-- The pager's own invariant: an access for each process.
abbrev pub IsPredict : Predict → Type 0
IsPredict v = length v.previous_access ≡ max_processes

module _ (o : Outside) where
  send_out-Inv : (n i proc : ℕ) (s : Sim) → Inv o s → Inv o (send_out n i proc s)
  unfolding send_out
  send_out-Inv zero i proc s v = v
  send_out-Inv (suc n) i proc s v =
      send_out-Inv n (i + 1) proc _ (pageout-Inv o (pos proc) (pos i) s v)

  bring_in-Inv : (n i proc k : ℕ) (s : Sim) → Inv o s → Inv o (bring_in n i proc k s).1
  unfolding bring_in
  bring_in-Inv zero i proc k s v = v
  bring_in-Inv (suc n) i proc k s v =
      bring_in-Inv n (i + 1) proc _ _ (pagein-Inv o (pos proc) (pos i) s v)

  shift_window-Inv : (proc page : ℕ) (s : Sim) → Inv o s → Inv o (shift_window proc page s)
  unfolding shift_window
  shift_window-Inv proc page s v =
      pagein-Inv o (pos proc) (pos (page + 1)) _
        (pagein-Inv o (pos proc) (pos page) _ (pageout-Inv o (pos proc) (pred_ℤ (pos page)) s v))

  follow-Inv : (g : Guess) (proc page : ℕ) (s : Sim) → Inv o s → Inv o (follow g proc page s).1
  unfolding follow
  follow-Inv (range i n) proc page s v = bring_in-Inv n i proc 0 s v
  follow-Inv linear proc page s v = shift_window-Inv proc page s v

  fetch-Inv : (previous proc page : ℕ) (s : Sim) → Inv o s → Inv o (fetch previous proc page s).1
  unfolding fetch
  fetch-Inv previous proc page s v =
      let into = pagein-Inv o (pos proc) (pos page) s v in
      branches (λ (r : ℕ × Sim × Bool). Inv o (r.1)) ((pagein (pos proc) (pos page) s).0) into
        (follow-Inv (guess previous page) proc page _
          (send_out-Inv max_proc_pages 0 proc (pagein (pos proc) (pos page) s).1 into))

  serve-Keeps :
      (e : Pentry) (proc previous : ℕ) (s : Sim)
      → IsEntry e
      → Inv o s
      → (r : ℕ × Sim × Bool) × (serve e proc previous s ≡ ok r) × Inv o (r.1)
  unfolding serve
  serve-Keeps e proc previous s h v =
      let (inside, at) =
        get_elem?-some e.pages (e.pc / page_size) (omega (arith, h.inside, h.whole)) in
      rw at (
        _,
        refl,
        branches (λ (r : ℕ × Sim × Bool). Inv o (r.1)) inside v
            (fetch-Inv previous proc (e.pc / page_size) s v),
      )

  abbrev Keeps : Result (List ℕ × Sim) → Type 0
  Keeps r =
      (access : List ℕ) × (s : Sim) × (r ≡ ok (access, s))
      × (length access ≡ max_processes)
      × Inv o s

  serve_all-Keeps :
      (es : List Pentry) (proc : ℕ) (access : List ℕ) (s : Sim)
      → proc + length es ≤ max_processes
      → All IsEntry es
      → length access ≡ max_processes
      → Inv o s
      → Keeps (serve_all es proc access s)
  unfolding serve_all
  serve_all-Keeps [] proc access s len h t v = (access, s, refl, t, v)
  serve_all-Keeps (e ∷ es) proc access s len h t v = elim (Bool-cases e.active) [
    | inr off ↦ simp off (serve_all-Keeps es (proc + 1) access s (omega arith) h.1 t v)
    | inl on ↦
        let (previous, ep) = get_elem?-some access proc (omega arith) in
        let (r, er, v') = serve-Keeps e proc previous s h.0 v in
        let len' = length-set access proc r.0 ∙ t in
        simp (on, ep, er)
          (branches Keeps r.2 (set access proc r.0, r.1, refl, len', v')
            (serve_all-Keeps es (proc + 1) (set access proc r.0) r.1 (omega arith) h.1 len' v'))
  ]

  initialize-IsPredict : (v : Predict) → IsPredict v → IsPredict (initialize v)
  initialize-IsPredict v g = elim (Bool-cases v.initialized) [
    | inl old ↦ simp old g
    | inr new ↦ simp new
  ]

  pub keeps :
      (v : Predict) (s : Sim) → IsPredict v → Inv o s → Serves o IsPredict (callyou pageit v s)
  unfolding callyou pageit
  keeps v s g i =
      let w = initialize v in
      let (access, s', e, t, i') =
        serve_all-Keeps (entries max_processes 0 s) 0 w.previous_access s
          (omega (arith, length-entries max_processes 0 s)) (entries-IsEntry o max_processes 0 s i)
          (initialize-IsPredict v g) i in
      rw e (record w { previous_access = access }, s', refl, t, i')

-- The predictive pager can drive the main loop: each call succeeds and keeps the invariant.
abbrev pub predict-Lawful : (o : Outside) → Lawful o pageit
predict-Lawful o = record { Good = IsPredict; keeps = keeps o }
