-- ===== src/Simulator/Invariant/Transit/Arrival.antt =====
-- How long a page that has been asked for is on its way.
use csci3757_operating_syste.Base.{
  ℕ, zero, suc, ◌+◌, ◌-◌, ◌≤◌, ◌<◌, ◌≡◌, refl, ap, ◌∙◌, true, Option, none, some, List, [], ◌∷◌, ℤ,
  pos, negsuc, arith, get_elem?, set, update_first, ltb, get_elem?-set_self, get_elem?-lt,
}
use csci3757_operating_syste.Simulator.Types.{page_wait, going, coming, Process, Sim}
use csci3757_operating_syste.Simulator.Process.{Outside}
use csci3757_operating_syste.Simulator.Paging.{
  live, put, put_page, age_page, age_process, allage, pagein, pageout,
}
use csci3757_operating_syste.Simulator.Invariant.{Inv}
use csci3757_operating_syste.Simulator.Invariant.Ageing.{allage-Inv}
use csci3757_operating_syste.Simulator.Invariant.Requests.{pagein-Inv, pageout-Inv}
use csci3757_operating_syste.Simulator.Invariant.Transit.{
  Runs, live_of_Runs, live-Runs, allage-Runs,
}

-- The timers alone, for `n` ticks.
pub allages : ℕ → Sim → Sim
allages zero s = s
allages (suc n) s = allages n (allage s)

age_times : ℕ → ℤ → ℤ
age_times zero z = z
age_times (suc n) z = age_times n (age_page z)

-- The state of page `j` of the process that the processor at `i` runs.
pub page_at : Sim → ℕ → ℕ → Option ℤ
page_at s i j = elim (live s i) [ none ↦ none | some (k, q) ↦ get_elem? q.pages j ]

age_times-pos : (n c : ℕ) → age_times n (pos c) ≡ pos (c - n)
unfolding age_times
age_times-pos zero c = ap pos (omega arith)
age_times-pos (suc n) zero = age_times-pos n zero ∙ ap pos (omega arith)
age_times-pos (suc n) (suc c) = age_times-pos n c ∙ ap pos (omega arith)

age_times-negsuc : (n c : ℕ) → c + n ≤ page_wait → age_times n (negsuc c) ≡ negsuc (c + n)
unfolding age_times
age_times-negsuc zero c h = ap negsuc (omega arith)
age_times-negsuc (suc n) c h =
    let early : ltb c page_wait ≡ true = ground arith in
    rw early (age_times-negsuc n (suc c) (omega arith) ∙ ap negsuc (omega arith))

get_elem?-update_first :
    (n j : ℕ) (xs : List ℤ) (z : ℤ)
    → j < n
    → get_elem? xs j ≡ some z
    → get_elem? (update_first n age_page xs) j ≡ some (age_page z)
get_elem?-update_first zero j xs z h e = absurd (omega arith)
get_elem?-update_first (suc n) j [] z h e = absurd (ground arith)
get_elem?-update_first (suc n) zero (x ∷ xs) z h e =
    let same : x ≡ z = cc in ap (λ y. some (age_page y)) same
get_elem?-update_first (suc n) (suc j) (x ∷ xs) z h e =
    get_elem?-update_first n j xs z (omega arith) e

page_at-allages :
    (o : Outside) (n : ℕ) (s : Sim) (i k j : ℕ) (q : Process) (z : ℤ)
    → Inv o s
    → Runs s i k q
    → j < q.npages
    → get_elem? q.pages j ≡ some z
    → page_at (allages n s) i j ≡ some (age_times n z)
unfolding page_at allages age_times
page_at-allages o zero s i k j q z v r h e = rw (live_of_Runs s i k q r, page_at) e
page_at-allages o (suc n) s i k j q z v r h e =
    page_at-allages o n (allage s) i k j (age_process q) (age_page z) (allage-Inv o s v)
      (allage-Runs s i k q v.distinct r) h (get_elem?-update_first q.npages j q.pages z h e)

module _ (s : Sim) (i k j : ℕ) (q : Process) (r : Runs s i k q) (inside : j < q.npages) where
  pagein-starts :
      (m : ℕ)
      → get_elem? q.pages j ≡ some (negsuc m)
      → page_wait ≤ m
      → 0 < s.pagesavail
      → pagein (pos i) (pos j) s ≡ (
        true,
        record s { queue = set s.queue k (put_page q j coming); pagesavail = s.pagesavail - 1 },
      )
  unfolding pagein
  pagein-starts m e out free = ground (arith, live_of_Runs s i k q r)

  pageout-starts :
      get_elem? q.pages j ≡ some (pos 0)
      → pageout (pos i) (pos j) s ≡ (true, put s k (put_page q j going))
  unfolding pageout
  pageout-starts e = ground (arith, live_of_Runs s i k q r)

  put-Runs :
      (z : ℤ) (avail : ℕ)
      → Runs
          (record s { queue = set s.queue k (put_page q j z); pagesavail = avail })
          i
          k
          (put_page q j z)
  put-Runs z avail = record {
    below = r.below;
    pointer = r.pointer;
    job = get_elem?-set_self s.queue k (put_page q j z) (get_elem?-lt s.queue k q r.job);
    on = r.on;
  }

-- From a state in the invariant: where a physical page is free and a page of a running process is out
-- of memory, `pagein` answers TRUE, and after n ticks of the timers (with no other request between)
-- the page has 100 - n ticks to go: it is in memory from the 100th tick on, and not before.
pub pagein-Arrives :
    (o : Outside) (s : Sim) (i k j m n : ℕ) (q : Process)
    → Inv o s
    → live s i ≡ some (k, q)
    → j < q.npages
    → get_elem? q.pages j ≡ some (negsuc m)
    → page_wait ≤ m
    → 0 < s.pagesavail
    → ((pagein (pos i) (pos j) s).0 ≡ true)
      × (page_at (allages n (pagein (pos i) (pos j) s).1) i j ≡ some (pos (page_wait - n)))
pagein-Arrives o s i k j m n q v l inside e out free =
    let r = live-Runs s i k q l in
    let p = pagein-starts s i k j q r inside m e out free in
    let v' = pagein-Inv o (pos i) (pos j) s v in
    let here = get_elem?-set_self q.pages j coming (get_elem?-lt q.pages j (negsuc m) e) in
    let w = rw p at v' in
    rw p (
      refl,
      page_at-allages o n _ i k j (put_page q j coming) coming w
            (put-Runs s i k j q r inside coming (s.pagesavail - 1)) inside here
          ∙ ap some (age_times-pos n page_wait),
    )

-- From a state in the invariant: where a page of a running process is in memory, `pageout` answers
-- TRUE, and after n ticks of the timers, at most 100 (with no other request between), the page is at
-- -1 - n: it is out of memory, below -100, at the 100th tick and not before.
pub pageout-Leaves :
    (o : Outside) (s : Sim) (i k j n : ℕ) (q : Process)
    → Inv o s
    → live s i ≡ some (k, q)
    → j < q.npages
    → get_elem? q.pages j ≡ some (pos 0)
    → n ≤ page_wait
    → ((pageout (pos i) (pos j) s).0 ≡ true)
      × (page_at (allages n (pageout (pos i) (pos j) s).1) i j ≡ some (negsuc n))
pageout-Leaves o s i k j n q v l inside e soon =
    let r = live-Runs s i k q l in
    let p = pageout-starts s i k j q r inside e in
    let v' = pageout-Inv o (pos i) (pos j) s v in
    let here = get_elem?-set_self q.pages j going (get_elem?-lt q.pages j (pos 0) e) in
    let w = rw p at v' in
    rw p (
      refl,
      page_at-allages o n _ i k j (put_page q j going) going w
            (put-Runs s i k j q r inside going s.pagesavail) inside here
          ∙ ap some (age_times-negsuc n 0 (omega arith) ∙ ap negsuc (omega arith)),
    )
