-- ===== src/Simulator/Pagers/Lru/Victim.antt =====
-- The LRU pager's choice of the page to send out does not depend on the timestamps.
use native.Mathlib.Nat.{le_refl}
use csci3757_operating_syste.Base.{
  ℕ, zero, suc, ◌%◌, ◌/◌, ◌<◌, ◌≤◌, ◌≡◌, refl, Bool, false, List, [], ◌∷◌, pos, ok, arith, length,
  get_elem?, get_elem?-some, get_or, get_or-set_self, set, All, All-set, some,
}
use csci3757_operating_syste.Simulator.Types.{max_proc_pages, page_size, Pentry, Sim}
use csci3757_operating_syste.Simulator.Paging.{pageout, pagein}
use csci3757_operating_syste.Simulator.Invariant.Requests.{pagein-false}
use csci3757_operating_syste.Simulator.Pagers.Lru.{scan, victim, swap, fetch, serve}
use csci3757_operating_syste.Simulator.Pagers.Entries.{IsEntry}

-- The timestamps of one process: none is later than `t`.
abbrev pub IsRow : ℕ → List ℕ → Type 0
IsRow t row = (length row ≡ max_proc_pages) × All (λ x. x ≤ t) row

get_or-le : (t : ℕ) (xs : List ℕ) (i : ℕ) → All (λ x. x ≤ t) xs → get_or xs i 0 ≤ t
get_or-le t [] i a = omega arith
get_or-le t (x ∷ xs) zero a = a.0
get_or-le t (x ∷ xs) (suc i) a = get_or-le t xs i a.1

-- No page is later than the latest, so the loop never changes its choice.
scan-latest :
    (pages : List Bool) (stamps : List ℕ) (n page t : ℕ)
    → All (λ x. x ≤ t) stamps
    → scan pages stamps n page t ≡ page
unfolding scan
scan-latest pages stamps zero page t a = refl
scan-latest pages stamps (suc n) page t a =
    ground (arith, get_or-le t stamps (suc n) a, scan-latest pages stamps n page t a)

-- The page to send out is the tick modulo 20: neither the timestamps nor the pages in memory have
-- any influence on it.
victim-tick :
    (pages : List Bool) (row : List ℕ) (page t : ℕ)
    → IsRow t row
    → page < max_proc_pages
    → victim pages (set row page t) page ≡ t % max_proc_pages
unfolding victim
victim-tick pages row page t r h = rw (get_or-set_self row page t 0 (omega (arith, r.0))) (
    scan-latest pages (set row page t) (t % max_proc_pages) (t % max_proc_pages) t
      (All-set (λ x. x ≤ t) row page t r.1 (le_refl t)))

fetch_swaps :
    (pages : List Bool) (row : List ℕ) (proc page tick : ℕ) (s : Sim)
    → IsRow tick row
    → page < max_proc_pages
    → (pagein (pos proc) (pos page) s).0 ≡ false
    → fetch pages (set row page tick) proc page s
      ≡ (pagein (pos proc) (pos page) (pageout (pos proc) (pos (tick % max_proc_pages)) s).1).1
unfolding fetch swap
fetch_swaps pages row proc page tick s r h fails =
    rw (fails, fetch)
      (rw (pagein-false (pos proc) (pos page) s fails)
        (rw (victim-tick pages row page tick r h, swap) refl))

-- Where a pagein fails, the page whose number is the tick modulo 20 is asked to go, however recently
-- it was used and whether or not it is in memory; then the pagein is tried again.
pub serve_swaps :
    (e : Pentry) (proc tick : ℕ) (row : List ℕ) (s : Sim)
    → IsRow tick row
    → IsEntry e
    → get_elem? e.pages (e.pc / page_size) ≡ some false
    → (pagein (pos proc) (pos (e.pc / page_size)) s).0 ≡ false
    → serve e proc tick row s
      ≡ ok (
        set row (e.pc / page_size) tick,
        (pagein
            (pos proc)
            (pos (e.pc / page_size))
            (pageout (pos proc) (pos (tick % max_proc_pages)) s).1).1,
      )
unfolding serve
serve_swaps e proc tick row s r h out fails =
    let (x, ex) = get_elem?-some row (e.pc / page_size) (omega (arith, h.inside, r.0)) in
    rw (ex, out) (rw (fetch_swaps e.pages row proc (e.pc / page_size) tick s r h.inside fails) refl)
