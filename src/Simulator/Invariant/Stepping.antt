-- ===== src/Simulator/Invariant/Stepping.antt =====
-- `allstep` never fails and keeps the invariant: a process that exits gives all its pages back.
use native.Mathlib.Decide.{dec_lt}
use csci3757_operating_syste.Base.{
  ℕ, zero, suc, ◌+◌, ◌≤◌, ◌<◌, ◌≡◌, refl, ◌∙◌, inl, inr, Bool, true, false, List, [], ◌∷◌, Option,
  none, some, ℤ, pos, negsuc, Result, ok, arith, length, length-set, length-update_first,
  total_first-total, total-update_first, get_elem?, set, All, All-get, All-set, All-update_first,
  Bool-cases, Option-cases,
}
use csci3757_operating_syste.Simulator.Types.{Process, Sim}
use csci3757_operating_syste.Simulator.Process.{
  Outside, frame, unload_page, unload_blocked, process_unload,
}
use csci3757_operating_syste.Simulator.Process.WellFormed.{IsStatus, held, IsProcess}
use csci3757_operating_syste.Simulator.Process.Step.{process_step-Steps}
use csci3757_operating_syste.Simulator.Paging.{deref}
use csci3757_operating_syste.Simulator.Queue.{queue_size, fill_slot}
use csci3757_operating_syste.Simulator.Control.{reload, after_step, step_slot, step_from, allstep}
use csci3757_operating_syste.Simulator.Pointers.{Points, set_fresh-Distinct, set-none-Distinct}
use csci3757_operating_syste.Simulator.Invariant.{Inv, deref-some, put-Inv}

-- No page of an unloaded process holds a physical page, and the page counts agree.
unload_page-frame : (z : ℤ) → frame (unload_page z) + frame z ≡ frame z
unload_page-frame (pos n) = refl
unload_page-frame (negsuc n) = ground arith

unload_page-IsStatus : (z : ℤ) → IsStatus z → IsStatus (unload_page z)
unload_page-IsStatus (pos n) h = omega arith
unload_page-IsStatus (negsuc n) h = ground arith

length-unload_blocked :
    (n : ℕ) (zs : List ℤ) (bs : List Bool) → length (unload_blocked n zs bs) ≡ length bs
length-unload_blocked zero zs bs = refl
length-unload_blocked (suc n) [] bs = refl
length-unload_blocked (suc n) (z ∷ zs) [] = refl
length-unload_blocked (suc n) (z ∷ zs) (b ∷ bs) = omega (arith, length-unload_blocked n zs bs)

module _ (o : Outside) (q : Process) (v : IsProcess o q) where
  -- An unloaded process holds nothing, and gives back what it held.
  process_unload-held : (held (process_unload q).0 ≡ 0) × ((process_unload q).1 ≡ held q)
  unfolding process_unload
  process_unload-held =
      let whole =
        total_first-total frame q.npages q.pages (omega (arith, v.page_table, v.all_pages)) in
      (
        omega (
          arith,
          whole,
          total-update_first frame frame unload_page unload_page-frame q.npages q.pages,
        ),
        whole,
      )

  process_unload-IsProcess : IsProcess o (process_unload q).0
  unfolding process_unload
  process_unload-IsProcess = record {
    loaded = v.loaded;
    context_table = v.context_table;
    contexts = v.contexts;
    all_pages = v.all_pages;
    page_table = length-update_first q.npages unload_page q.pages ∙ v.page_table;
    blocked_table = length-unload_blocked q.npages q.pages q.blocked ∙ v.blocked_table;
    statuses =
        All-update_first IsStatus q.npages unload_page q.pages unload_page-IsStatus v.statuses;
    released = λ off. process_unload-held.0;
  }

Points-suc : (n : ℕ) (xs : List (Option ℕ)) → All (Points n) xs → All (Points (n + 1)) xs
Points-suc n [] a = tt
Points-suc n (none ∷ xs) a = (tt, Points-suc n xs a.1)
Points-suc n (some k ∷ xs) a = (omega (arith, a.0), Points-suc n xs a.1)

fill_slot_open :
    (i : ℕ) (s : Sim)
    → s.queueend < queue_size
    → fill_slot i s
      ≡ record s { processes = set s.processes i (some s.queueend); queueend = s.queueend + 1 }
unfolding fill_slot
fill_slot_open i s h = ground arith

fill_slot_done : (i : ℕ) (s : Sim) → queue_size ≤ s.queueend → fill_slot i s ≡ s
unfolding fill_slot
fill_slot_done i s h = ground arith

pub fill_slot-Inv : (o : Outside) (i : ℕ) (s : Sim) → Inv o s → Inv o (fill_slot i s)
fill_slot-Inv o i s v = elim (dec_lt s.queueend queue_size) [
  | yes h ↦ rw (fill_slot_open i s h) (record {
    few = v.few;
    slot_table = length-set s.processes i (some s.queueend) ∙ v.slot_table;
    queue_table = v.queue_table;
    handed_out = omega arith;
    pointers =
        All-set (Points (s.queueend + 1)) s.processes i (some s.queueend)
          (Points-suc s.queueend s.processes v.pointers) (omega arith);
    distinct = set_fresh-Distinct s.processes i s.queueend v.pointers v.distinct;
    jobs = v.jobs;
    frames = v.frames;
  })
  | no h ↦ rw (fill_slot_done i s (omega arith)) v
]

reload-Inv : (o : Outside) (i : ℕ) (s : Sim) → Inv o s → Inv o (reload i s)
unfolding reload
reload-Inv o i s v =
    fill_slot-Inv o i (record s { processes = set s.processes i none })
      (record {
        few = v.few;
        slot_table = length-set s.processes i none ∙ v.slot_table;
        queue_table = v.queue_table;
        handed_out = v.handed_out;
        pointers = All-set (Points s.queueend) s.processes i none v.pointers tt;
        distinct = set-none-Distinct s.processes i v.distinct;
        jobs = v.jobs;
        frames = v.frames;
      })

-- What a slot's round makes of a step of its process.
after_step-Inv :
    (o : Outside) (i k : ℕ) (s : Sim) (q : Process) (go : Bool) (q' : Process)
    → Inv o s
    → get_elem? s.queue k ≡ some q
    → IsProcess o q'
    → q'.pages ≡ q.pages
    → Inv o (after_step i k s (go, q'))
unfolding after_step
after_step-Inv o i k s q true q' v at p same = put-Inv o s k s.pagesavail q q' v at p (rw same refl)
after_step-Inv o i k s q false q' v at p same = elim (Bool-cases q'.active) [
  | inl on ↦
      let (nothing, back) = process_unload-held o q' p in
      let equal : held q' ≡ held q = rw same refl in
      simp on (
        reload-Inv o i _ (
          put-Inv o s k (s.pagesavail + (process_unload q').1) q (process_unload q').0 v at
            (process_unload-IsProcess o q' p) (omega (arith, nothing, back, equal))))
  | inr off ↦ simp off (reload-Inv o i _ (put-Inv o s k s.pagesavail q q' v at p (rw same refl)))
]

abbrev Succeeds : Outside → Result Sim → Type 0
Succeeds o r = (s' : Sim) × (r ≡ ok s') × Inv o s'

step_slot-Inv : (o : Outside) (i : ℕ) (s : Sim) → Inv o s → Succeeds o (step_slot o i s)
unfolding step_slot
step_slot-Inv o i s v = elim (Option-cases (deref s i)) [
  | inl e ↦ rw (e, step_slot) (reload i s, refl, reload-Inv o i s v)
  | inr ((k, q), e) ↦
      let at = deref-some s i k q e in
      let (go, q', stepped, p, same, act) =
        process_step-Steps o q (All-get (IsProcess o) s.queue k q v.jobs at) in
      rw (e, step_slot)
        (rw stepped (after_step i k s (go, q'), refl, after_step-Inv o i k s q go q' v at p same))
]

step_from-Inv : (o : Outside) (n i : ℕ) (s : Sim) → Inv o s → Succeeds o (step_from o n i s)
unfolding step_from
step_from-Inv o zero i s v = (s, refl, v)
step_from-Inv o (suc n) i s v =
    let (s', e, v') = step_slot-Inv o i s v in rw e (step_from-Inv o n (i + 1) s' v')

-- One time step of all processes always succeeds and keeps the invariant: processes run, block,
-- branch and exit, and an exit gives back exactly the physical pages that the process held.
pub allstep-Inv : (o : Outside) (s : Sim) → Inv o s → (s' : Sim) × (allstep o s ≡ ok s') × Inv o s'
unfolding allstep
allstep-Inv o s v = step_from-Inv o s.procs 0 s v
