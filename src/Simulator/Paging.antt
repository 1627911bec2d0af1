-- ===== src/Simulator/Paging.antt =====
-- PA4/PA4/simulator.c: the paging requests (`pageout`, `pagein`) and the ageing of the pages
-- (`allage`).
use csci3757_operating_syste.Base.{
  ℕ, zero, suc, ◌+◌, ◌-◌, Bool, true, false, List, Option, none, some, ℤ, pos, negsuc, ltb, leb,
  ◌==◌, ◌&&◌, if◌then◌else◌, get_elem?, set, update_first, total_first,
}
use csci3757_operating_syste.Simulator.Types.{page_wait, going, coming, Process, Sim}

-- `processes[i]`, with the place in the queue that it points to; `none` for NULL.
abbrev pub deref_slot : List Process → Option (Option ℕ) → Option (ℕ × Process)
deref_slot queue none = none
deref_slot queue (some none) = none
deref_slot queue (some (some k)) = elim (get_elem? queue k) [ none ↦ none | some q ↦ some (k, q) ]

unfoldable pub deref : Sim → ℕ → Option (ℕ × Process)
deref s i = deref_slot s.queue (get_elem? s.processes i)

abbrev pub if_active : Option (ℕ × Process) → Option (ℕ × Process)
if_active none = none
if_active (some (k, q)) = if q.active then some (k, q) else none

-- The process that runs at `i`: `processes[i] && processes[i]->active`, for i < procs.
unfoldable pub live : Sim → ℕ → Option (ℕ × Process)
unfolding deref
live s i = if ltb i s.procs then if_active (deref s i) else none

-- queue[k] = q
abbrev pub put : Sim → ℕ → Process → Sim
put s k q = record s { queue = set s.queue k q }

-- `processes[process]->pages[page]=z`
abbrev pub put_page : Process → ℕ → ℤ → Process
put_page q j z = record q { pages = set q.pages j z }

-- By the state of the page: gone or on its way out, in memory, or on its way in.
abbrev pub out_request : Sim → ℕ → Process → ℕ → Option ℤ → Bool × Sim
out_request s k q j none = (false, s)
out_request s k q j (some (negsuc n)) = (true, s)
out_request s k q j (some (pos (suc n))) = (false, s)
out_request s k q j (some (pos zero)) = (true, put s k (put_page q j going))

abbrev pub out_of : Sim → ℕ → Option (ℕ × Process) → Bool × Sim
out_of s j none = (false, s)
out_of s j (some (k, q)) =
    if leb q.npages j then (false, s) else out_request s k q j (get_elem? q.pages j)

-- The answer, and the simulator after the call.
unfoldable pub pageout : ℤ → ℤ → Sim → Bool × Sim
unfolding live
pageout (pos i) (pos j) s = out_of s j (live s i)
pageout (pos i) (negsuc j) s = (false, s)
pageout (negsuc i) j s = (false, s)

abbrev pub in_request : Sim → ℕ → Process → ℕ → Option ℤ → Bool × Sim
in_request s k q j none = (false, s)
in_request s k q j (some (pos n)) = (true, s)
in_request s k q j (some (negsuc n)) =
    if s.pagesavail == 0 then (false, s) else if ltb n page_wait then (false, s) else (
      true,
      record s { queue = set s.queue k (put_page q j coming); pagesavail = s.pagesavail - 1 },
    )

abbrev pub in_of : Sim → ℕ → Option (ℕ × Process) → Bool × Sim
in_of s j none = (false, s)
in_of s j (some (k, q)) =
    if leb q.npages j then (false, s) else in_request s k q j (get_elem? q.pages j)

unfoldable pub pagein : ℤ → ℤ → Sim → Bool × Sim
unfolding live
pagein (pos i) (pos j) s = in_of s j (live s i)
pagein (pos i) (negsuc j) s = (false, s)
pagein (negsuc i) j s = (false, s)

-- One tick of a page that is moving.
abbrev pub age_page : ℤ → ℤ
age_page (pos zero) = pos zero
age_page (pos (suc n)) = pos n
age_page (negsuc n) = if ltb n page_wait then negsuc (suc n) else negsuc n

-- 1 if the tick ends a pageout: the page was on its way out and is now below -PAGEWAIT.
abbrev pub aged_out : ℤ → ℕ
aged_out (pos n) = 0
aged_out (negsuc n) = if ltb n page_wait && leb page_wait (suc n) then 1 else 0

abbrev pub age_process : Process → Process
age_process q = record q { pages = update_first q.npages age_page q.pages }

-- One round of the loop of `allage`.
unfoldable pub age_slot : ℕ → Sim → Sim
unfolding live total_first
age_slot i s = elim (live s i) [
  | none ↦ s
  | some (k, q) ↦ record s {
    queue = set s.queue k (age_process q);
    pagesavail = s.pagesavail + total_first aged_out q.npages q.pages;
  }
]

-- `n` rounds from `i`
unfoldable pub age_from : ℕ → ℕ → Sim → Sim
unfolding age_slot
age_from zero i s = s
age_from (suc n) i s = age_from n (i + 1) (age_slot i s)

unfoldable pub allage : Sim → Sim
unfolding age_from
allage s = age_from s.procs 0 s
