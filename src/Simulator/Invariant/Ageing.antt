-- ===== src/Simulator/Invariant/Ageing.antt =====
-- `allage` keeps the invariant: a page that has gone out gives its physical page back.
use csci3757_operating_syste.Base.{
  ℕ, zero, suc, ◌+◌, ◌≡◌, ◌∙◌, inl, inr, true, ℤ, pos, negsuc, arith, length-update_first,
  total_first, total-update_first, All-get, All-update_first, Option-cases, refl,
}
use csci3757_operating_syste.Simulator.Types.{Process, Sim}
use csci3757_operating_syste.Simulator.Process.{Outside, frame}
use csci3757_operating_syste.Simulator.Process.WellFormed.{IsStatus, IsProcess}
use csci3757_operating_syste.Simulator.Paging.{
  live, age_page, aged_out, age_process, age_slot, age_from, allage,
}
use csci3757_operating_syste.Simulator.Invariant.{Inv, live-some, put-Inv}

frame-age_page : (z : ℤ) → frame (age_page z) + aged_out z ≡ frame z
frame-age_page (pos zero) = refl
frame-age_page (pos (suc n)) = refl
frame-age_page (negsuc n) = ground arith

age_page-IsStatus : (z : ℤ) → IsStatus z → IsStatus (age_page z)
age_page-IsStatus (pos zero) h = h
age_page-IsStatus (pos (suc n)) h = omega arith
age_page-IsStatus (negsuc n) h = ground arith

age_process-IsProcess :
    (o : Outside) (q : Process) → q.active ≡ true → IsProcess o q → IsProcess o (age_process q)
age_process-IsProcess o q on v = record {
  loaded = v.loaded;
  context_table = v.context_table;
  contexts = v.contexts;
  all_pages = v.all_pages;
  page_table = length-update_first q.npages age_page q.pages ∙ v.page_table;
  blocked_table = v.blocked_table;
  statuses = All-update_first IsStatus q.npages age_page q.pages age_page-IsStatus v.statuses;
  released = λ off. cc;
}

age_slot-Inv : (o : Outside) (i : ℕ) (s : Sim) → Inv o s → Inv o (age_slot i s)
unfolding age_slot
age_slot-Inv o i s v = elim (Option-cases (live s i)) [
  | inl e ↦ rw (e, age_slot) v
  | inr ((k, q), e) ↦
      let (at, on, below) = live-some s i k q e in
      let p = All-get (IsProcess o) s.queue k q v.jobs at in
      rw (e, age_slot)
        (put-Inv o s k (s.pagesavail + total_first aged_out q.npages q.pages) q (age_process q) v at
          (age_process-IsProcess o q on p)
          (omega
            (arith, total-update_first frame aged_out age_page frame-age_page q.npages q.pages)))
]

age_from-Inv : (o : Outside) (n i : ℕ) (s : Sim) → Inv o s → Inv o (age_from n i s)
unfolding age_from
age_from-Inv o zero i s v = v
age_from-Inv o (suc n) i s v = age_from-Inv o n (i + 1) (age_slot i s) (age_slot-Inv o i s v)

-- A tick of the page timers keeps the invariant: the number of free pages grows by the number of
-- pageouts that end.
pub allage-Inv : (o : Outside) (s : Sim) → Inv o s → Inv o (allage s)
unfolding allage
allage-Inv o s v = age_from-Inv o s.procs 0 s v
