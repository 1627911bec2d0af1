-- ===== src/Simulator/Pagers/Basic/Full.antt =====
-- The basic pager where no physical page is free: which page it sends out.
use csci3757_operating_syste.Base.{
  ℕ, zero, suc, ◌+◌, ◌≤◌, ◌<◌, ◌≡◌, ◌≢◌, refl, sym, ap, ◌∙◌, ◌⊎◌, inl, inr, Bool, true, false, some,
  ℤ, pos, negsuc, arith, get_elem?, get_elem?-lt, leb, ◌==◌, All-get, Bool-cases, subst,
}
use csci3757_operating_syste.Simulator.Types.{max_proc_pages, going, Process, Sim}
use csci3757_operating_syste.Simulator.Process.{Outside}
use csci3757_operating_syste.Simulator.Process.WellFormed.{IsProcess}
use csci3757_operating_syste.Simulator.Paging.{put, put_page, pageout, pagein, out_request}
use csci3757_operating_syste.Simulator.Pointers.{ne_of_test}
use csci3757_operating_syste.Simulator.Invariant.{Inv}
use csci3757_operating_syste.Simulator.Invariant.Transit.{Runs, live_of_Runs}
use csci3757_operating_syste.Simulator.Pagers.Basic.{evict, fetch}

-- In memory, out of it or on the way out.
abbrev pub IsSettled : ℤ → Type 0
IsSettled z = (z ≡ pos 0) ⊎ ((m : ℕ) × (z ≡ negsuc m))

-- What becomes of the process when its page `j`, at `z`, is asked to go.
abbrev pub sent_out : Sim → ℕ → Process → ℕ → ℤ → Sim
sent_out s k q j (pos zero) = put s k (put_page q j going)
sent_out s k q j (pos (suc m)) = s
sent_out s k q j (negsuc m) = s

out_request-settled :
    (s : Sim) (k : ℕ) (q : Process) (j : ℕ) (z : ℤ)
    → IsSettled z
    → out_request s k q j (some z) ≡ (true, sent_out s k q j z)
out_request-settled s k q j z (inl e) = rw e refl
out_request-settled s k q j z (inr (m, e)) = rw e refl

pagein-refused :
    (proc k page n : ℕ) (q : Process) (s : Sim)
    → Runs s proc k q
    → leb q.npages page ≡ false
    → s.pagesavail ≡ 0
    → get_elem? q.pages page ≡ some (negsuc n)
    → pagein (pos proc) (pos page) s ≡ (false, s)
unfolding pagein
pagein-refused proc k page n q s r inside full out =
    rw (live_of_Runs s proc k q r) (rw (inside, out) (ground (arith, full)))

fetch-evict :
    (npages proc page : ℕ) (s : Sim)
    → pagein (pos proc) (pos page) s ≡ (false, s)
    → fetch npages proc page s ≡ evict npages 0 proc page s
unfolding fetch
fetch-evict npages proc page s h =
    let same : (pagein (pos proc) (pos page) s).1 ≡ s = ap (λ x. x.1) h in
    rw (ap (λ x. x.0) h, fetch) (rw same refl)

module _ (proc k page j : ℕ) (q : Process) (z : ℤ) (s : Sim) (r : Runs s proc k q)
    (whole : q.npages ≡ max_proc_pages) (other : j ≢ page) (at : get_elem? q.pages j ≡ some z)
    (settled : IsSettled z)
    (before : (i : ℕ)
      → i < j
      → i ≢ page
      → (m : ℕ) × (get_elem? q.pages i ≡ some (pos (suc m)))) where
  pageout-settled : j < max_proc_pages → pageout (pos proc) (pos j) s ≡ (true, sent_out s k q j z)
  unfolding pageout
  pageout-settled h =
      let inside : leb q.npages j ≡ false = ground (arith, whole, h) in
      rw (live_of_Runs s proc k q r) (rw (inside, at) (out_request-settled s k q j z settled))

  pageout-coming :
      (i m : ℕ)
      → i < max_proc_pages
      → get_elem? q.pages i ≡ some (pos (suc m))
      → pageout (pos proc) (pos i) s ≡ (false, s)
  unfolding pageout
  pageout-coming i m h e =
      let inside : leb q.npages i ≡ false = ground (arith, whole, h) in
      rw (live_of_Runs s proc k q r) (rw (inside, e) refl)

  evict-sent_out :
      (n old : ℕ)
      → old + n ≡ max_proc_pages
      → old ≤ j
      → j < max_proc_pages
      → evict n old proc page s ≡ sent_out s k q j z
  unfolding evict
  evict-sent_out zero old h le lt = absurd (omega (arith, h, le, lt))
  evict-sent_out (suc n) old h le lt = elim (Bool-cases (old == page)) [
    | inl t ↦
        let same : old ≡ page = ground arith in
        let apart : old ≢ j = λ e. other (sym e ∙ same) in
        rw (t, evict) (evict-sent_out n (old + 1) (omega (arith, h)) (omega (arith, le, apart)) lt)
    | inr f ↦ elim (Bool-cases (old == j)) [
      | inl t ↦
          let same : old ≡ j = ground arith in
          let answer : pageout (pos proc) (pos old) s ≡ (true, sent_out s k q j z) =
            subst (λ x. pageout (pos proc) (pos x) s ≡ (true, sent_out s k q j z)) (sym same)
              (pageout-settled lt) in
          rw (f, evict, ap (λ x. x.0) answer) (ap (λ x. x.1) answer)
      | inr g ↦
          let apart = ne_of_test old j g in
          let earlier : old < j = omega (arith, le, apart) in
          let (m, e) = before old earlier (ne_of_test old page f) in
          let answer = pageout-coming old m (omega (arith, earlier, lt)) e in
          rw (f, evict, ap (λ (x : Bool × Sim). x.0) answer, ap (λ (x : Bool × Sim). x.1) answer)
            (evict-sent_out n (old + 1) (omega (arith, h)) (omega (arith, earlier)) lt)
    ]
  ]

-- Where no physical page is free and the page that a running process needs is out or on its way out, let
-- `j` be the first of its other pages that is not on its way in: if it is in memory the basic pager
-- sends it out, and else, with page `j` out already, it changes nothing, whatever pages after it are in
-- memory.
pub fetch_asks_first :
    (o : Outside) (proc k page n j : ℕ) (q : Process) (z : ℤ) (s : Sim)
    → Inv o s
    → Runs s proc k q
    → s.pagesavail ≡ 0
    → get_elem? q.pages page ≡ some (negsuc n)
    → j ≢ page
    → get_elem? q.pages j ≡ some z
    → IsSettled z
    → ((i : ℕ) → i < j → i ≢ page → (m : ℕ) × (get_elem? q.pages i ≡ some (pos (suc m))))
    → fetch q.npages proc page s ≡ sent_out s k q j z
fetch_asks_first o proc k page n j q z s v r full out other at settled before =
    let job : IsProcess o q = All-get (IsProcess o) s.queue k q v.jobs r.job in
    let whole = job.all_pages in
    let page_in = get_elem?-lt q.pages page (negsuc n) out in
    let j_in = get_elem?-lt q.pages j z at in
    let inside : leb q.npages page ≡ false = ground (arith, whole, page_in, job.page_table) in
    let refused = pagein-refused proc k page n q s r inside full out in
    fetch-evict q.npages proc page s refused
    ∙ evict-sent_out proc k page j q z s r whole other at settled before q.npages 0
        (omega (arith, whole)) (omega arith) (omega (arith, j_in, job.page_table))
