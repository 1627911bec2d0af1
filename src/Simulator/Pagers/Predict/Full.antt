-- ===== src/Simulator/Pagers/Predict/Full.antt =====
-- The predictive pager where no physical page is free.
use csci3757_operating_syste.Base.{
  ℕ, zero, suc, ◌+◌, ◌<◌, ◌≡◌, refl, sym, ◌∙◌, ap, ◌≢◌, ◌⊎◌, inl, false, some, pos, negsuc, pred_ℤ,
  arith, subst, get_elem?, get_elem?-lt, leb, if◌then◌else◌, All-get,
}
use csci3757_operating_syste.Simulator.Types.{max_proc_pages, Process, Sim}
use csci3757_operating_syste.Simulator.Process.{Outside}
use csci3757_operating_syste.Simulator.Process.WellFormed.{IsProcess}
use csci3757_operating_syste.Simulator.Paging.{pageout, pagein}
use csci3757_operating_syste.Simulator.Invariant.{Inv}
use csci3757_operating_syste.Simulator.Invariant.Transit.{Runs, live_of_Runs}
use csci3757_operating_syste.Simulator.Pagers.Predict.{
  send_out, bring_in, range, linear, Guess, guess, shift_window, follow, fetch,
}
use csci3757_operating_syste.Simulator.Pagers.Predict.Going.{pagein-full, Going, pageout-Going}

module _ (proc k page n : ℕ) where
  below_next : (m i : ℕ) → i < m + 1 → (i < m) ⊎ (i ≡ m)
  below_next m i h = omega (arith, h)

  -- The loop of pageouts: no page is left in memory.
  send_out-Going :
      (r m : ℕ) (s : Sim)
      → m + r ≡ max_proc_pages
      → Going proc k page n (λ j. j < m) s
      → Going proc k page n (λ j. j < max_proc_pages) (send_out r m proc s)
  unfolding send_out
  send_out-Going zero m s h g =
      let all : m ≡ max_proc_pages = omega (arith, h) in
      subst (λ x. Going proc k page n (λ j. j < x) s) all g
  send_out-Going (suc r) m s h g =
      send_out-Going r (m + 1) (pageout (pos proc) (pos m) s).1 (omega (arith, h)) (
        pageout-Going proc k page n (λ j. j < m) (λ j. j < m + 1) m (below_next m) s
          (omega (arith, h)) g)

  abbrev AllGone : Sim → Type 0
  AllGone s = Going proc k page n (λ j. j < max_proc_pages) s

  bring_in-full : (r i j : ℕ) (s : Sim) → s.pagesavail ≡ 0 → (bring_in r i proc j s).1 ≡ s
  unfolding bring_in
  bring_in-full zero i j s h = refl
  bring_in-full (suc r) i j s h =
      let same = pagein-full (pos proc) (pos i) s h in
      bring_in-full r (i + 1) (if (pagein (pos proc) (pos i) s).0 then j + 1 else j)
        (pagein (pos proc) (pos i) s).1 (ap (λ (x : Sim). x.pagesavail) same ∙ h)
      ∙ same

  before-AllGone :
      (x : ℕ) (s : Sim)
      → x < max_proc_pages
      → AllGone s
      → AllGone (pageout (pos proc) (pred_ℤ (pos x)) s).1
  unfolding pageout
  before-AllGone zero s h g = g
  before-AllGone (suc x) s h g =
      pageout-Going proc k page n (λ j. j < max_proc_pages) (λ j. j < max_proc_pages) x
        (λ i d. inl d) s (omega (arith, h)) g

  follow-AllGone :
      (x : Guess) (s : Sim) → page < max_proc_pages → AllGone s → AllGone (follow x proc page s).1
  unfolding follow shift_window
  follow-AllGone (range i c) s h g = rw (bring_in-full c i 0 s g.full) g
  follow-AllGone linear s h g =
      let g' = before-AllGone page s h g in
      let s1 = (pageout (pos proc) (pred_ℤ (pos page)) s).1 in
      let e1 = pagein-full (pos proc) (pos page) s1 g'.full in
      let e2 =
        pagein-full (pos proc) (pos (page + 1)) (pagein (pos proc) (pos page) s1).1
          (ap (λ (x : Sim). x.pagesavail) e1 ∙ g'.full) in
      subst AllGone (sym (e2 ∙ e1)) g'

  refused :
      (s : Sim)
      → page < max_proc_pages
      → Going proc k page n (λ j. j < 0) s
      → pagein (pos proc) (pos page) s ≡ (false, s)
  unfolding pagein
  refused s h g =
      let inside : leb (g.q).npages page ≡ false = ground (arith, g.all_pages, h) in
      rw (live_of_Runs s proc k g.q g.runs) (rw inside (rw g.needed (ground (arith, g.full))))

  fetch-AllGone :
      (previous : ℕ) (s : Sim)
      → page < max_proc_pages
      → Going proc k page n (λ j. j < 0) s
      → AllGone (fetch previous proc page s).1
  unfolding fetch
  fetch-AllGone previous s h g =
      rw (refused s h g, fetch, pagein-full (pos proc) (pos page) s g.full)
        (follow-AllGone (guess previous page) (send_out max_proc_pages 0 proc s) h
          (send_out-Going max_proc_pages 0 s refl g))

-- Where no physical page is free and the page that a running process needs is out or on its way out, the
-- predictive pager, whatever it guesses, leaves no page of the process in memory, and the page needed
-- is not asked for either: it is as it was, and no physical page is free.
pub fetch_in_full_memory :
    (o : Outside) (previous proc k page n : ℕ) (q : Process) (s : Sim)
    → Inv o s
    → Runs s proc k q
    → s.pagesavail ≡ 0
    → get_elem? q.pages page ≡ some (negsuc n)
    → (q' : Process) × Runs (fetch previous proc page s).1 proc k q'
      × ((fetch previous proc page s).1.pagesavail ≡ 0)
      × ((j : ℕ) → j < max_proc_pages → get_elem? q'.pages j ≢ some (pos 0))
      × (get_elem? q'.pages page ≡ some (negsuc n))
fetch_in_full_memory o previous proc k page n q s v r full out =
    let job : IsProcess o q = All-get (IsProcess o) s.queue k q v.jobs r.job in
    let inside = get_elem?-lt q.pages page (negsuc n) out in
    let g = fetch-AllGone proc k page n previous s (omega (arith, inside, job.page_table)) (record {
      q = q;
      runs = r;
      all_pages = job.all_pages;
      full = full;
      gone = λ j h. absurd (omega (arith, h));
      needed = out;
    }) in
    (g.q, g.runs, g.full, g.gone, g.needed)
