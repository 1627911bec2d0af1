-- ===== src/Simulator/Control.antt =====
-- PA4/PA4/simulator.c: the control of all processes (`allstep`, `alldone`, `allblocked`, `callyou`,
-- `allscore`) and the main loop. The pager is a parameter.
pub mod Deadlock
use csci3757_operating_syste.Base.{
  ℕ, zero, suc, ◌+◌, ◌/◌, Bool, true, false, not, List, [], ◌∷◌, Option, none, some, ℤ, pos, negsuc,
  Result, ok, err, out_of_fuel, ◌>>=◌, ltb, ◌==◌, ◌&&◌, if◌then◌else◌, get_elem?, set, replicate,
  total,
}
use csci3757_operating_syste.Simulator.Types.{
  max_processes, max_proc_pages, page_size, page_wait, Process, Pentry, Sim,
}
use csci3757_operating_syste.Simulator.Process.{Outside, process_step, process_unload}
use csci3757_operating_syste.Simulator.Paging.{deref, live, put, allage}
use csci3757_operating_syste.Simulator.Queue.{fill_slot}

-- `processes[i]=NULL; if (!empty()) processes[i]=dequeue();`
unfoldable pub reload : ℕ → Sim → Sim
unfolding fill_slot
reload i s = fill_slot i (record s { processes = set s.processes i none })

-- The process in the queue at `k` goes on, or leaves and gives its physical pages back.
unfoldable pub after_step : ℕ → ℕ → Sim → Bool × Process → Sim
unfolding process_unload reload
after_step i k s (true, q) = put s k q
after_step i k s (false, q) =
    if q.active
    then (let (left, freed) = process_unload q in
        reload i (record (put s k left) { pagesavail = s.pagesavail + freed }))
    else reload i (put s k q)

-- One round of the loop of `allstep`.
unfoldable pub step_slot : Outside → ℕ → Sim → Result Sim
unfolding deref process_step after_step
step_slot o i s = elim (deref s i) [
  | none ↦ ok (reload i s)
  | some (k, q) ↦ process_step o q >>= λ stepped. ok (after_step i k s stepped)
]

unfoldable pub step_from : Outside → ℕ → ℕ → Sim → Result Sim
unfolding step_slot
step_from o zero i s = ok s
step_from o (suc n) i s = step_slot o i s >>= step_from o n (i + 1)

unfoldable pub allstep : Outside → Sim → Result Sim
unfolding step_from
allstep o s = step_from o s.procs 0 s

abbrev is_live : Option (ℕ × Process) → Bool
is_live none = false
is_live (some _) = true

-- Whether no slot below `n` runs a process.
unfoldable pub done_below : ℕ → Sim → Bool
unfolding live
done_below zero s = true
done_below (suc n) s = not (is_live (live s n)) && done_below n s

unfoldable pub alldone : Sim → Bool
unfolding done_below
alldone s = done_below s.procs s

-- What a process waits for, by the state of the page that its program counter is in.
pub data Wait : Type 0 where
  idle memwait runnable allfree freewait : Wait

abbrev pub wait_of : Option ℤ → Wait
wait_of none = idle
wait_of (some (pos zero)) = runnable
wait_of (some (pos (suc n))) = memwait
wait_of (some (negsuc n)) = if ltb n page_wait then freewait else allfree

abbrev wait_live : Option (ℕ × Process) → Wait
wait_live none = idle
wait_live (some (k, q)) = wait_of (get_elem? q.pages (q.pc / page_size))

unfoldable pub wait_at : Sim → ℕ → Wait
unfolding live
wait_at s i = wait_live (live s i)

abbrev tally : Wait → Wait → ℕ
tally memwait memwait = 1
tally runnable runnable = 1
tally allfree allfree = 1
tally freewait freewait = 1
tally _ _ = 0

-- The number of slots below `n` that wait so.
unfoldable pub count_below : Wait → ℕ → Sim → ℕ
unfolding wait_at
count_below w zero s = 0
count_below w (suc n) s = tally w (wait_at s n) + count_below w n s

-- Deadlock: some process runs, and the page that each needs is swapped out.
unfoldable pub allblocked : Sim → Bool
unfolding count_below
allblocked s =
    not (count_below allfree s.procs s == 0)
    && (count_below memwait s.procs s == 0)
    && (count_below runnable s.procs s == 0)
    && (count_below freewait s.procs s == 0)

abbrev pub is_resident : ℤ → Bool
is_resident (pos zero) = true
is_resident (pos (suc n)) = false
is_resident (negsuc n) = false

-- The first `n` of `m` pages as the pager sees them; the others are FALSE.
unfoldable pub shown_pages : ℕ → ℕ → List ℤ → List Bool
shown_pages n zero zs = []
shown_pages zero (suc m) zs = false ∷ shown_pages zero m zs
shown_pages (suc n) (suc m) [] = false ∷ shown_pages n m []
shown_pages (suc n) (suc m) (z ∷ zs) = is_resident z ∷ shown_pages n m zs

abbrev pub entry : Option (ℕ × Process) → Pentry
entry none = record { active = false; pc = 0; npages = 0; pages = replicate max_proc_pages false }
entry (some (k, q)) = record {
  active = q.active;
  pc = q.pc;
  npages = q.npages;
  pages = shown_pages q.npages max_proc_pages q.pages;
}

unfoldable pub entries : ℕ → ℕ → Sim → List Pentry
unfolding deref shown_pages
entries zero i s = []
entries (suc n) i s = entry (deref s i) ∷ entries n (i + 1) s

-- A pager keeps static variables, reads the entries and makes requests.
abbrev pub Pager : Type 0 → Type 0
Pager S = List Pentry → S → Sim → Result (S × Sim)

unfoldable pub callyou : {S : Type 0} → Pager S → S → Sim → Result (S × Sim)
unfolding entries
callyou pageit v s = pageit (entries max_processes 0 s) v s

-- One round of the main loop. `allblocked` only logs.
unfoldable pub tick : {S : Type 0} → Outside → Pager S → S → Sim → Result (S × Sim)
unfolding callyou
tick o pageit v s = allstep o s >>= λ s'.
    callyou pageit v (allage s') >>= λ r. ok (r.0, record (r.1) { sysclock = r.1.sysclock + 1 })

-- The main loop, on fuel.
unfoldable pub simulate : {S : Type 0} → Outside → Pager S → ℕ → S → Sim → Result (S × Sim)
unfolding tick
simulate o pageit zero v s = err out_of_fuel
simulate o pageit (suc fuel) v s = elim (alldone s) [
  | true ↦ ok (v, s)
  | false ↦ tick o pageit v s >>= λ r. simulate o pageit fuel r.0 r.1
]

-- The blocked and the compute cycles of all jobs. The source adds them up in ints, which overflow past
-- 2^31 - 1 cycles; the sums here do not.
unfoldable pub allscore : Sim → ℕ × ℕ
allscore s = (total (λ q. q.block) s.queue, total (λ q. q.compute) s.queue)
