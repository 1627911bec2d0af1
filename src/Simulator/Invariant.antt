-- ===== src/Simulator/Invariant.antt =====
-- The invariant of the simulator: every process is well formed, the pointers point into the part of
-- the queue that was handed out and no two are the same, and no physical page is lost or made up.
pub mod Requests
pub mod Ageing
pub mod Stepping
pub mod Loading
pub mod Starting
pub mod Running
pub mod Transit
use csci3757_operating_syste.Base.{
  ℕ, ◌+◌, ◌≤◌, ◌<◌, ◌≡◌, refl, ◌∙◌, Bool, true, List, Option, none, some, arith, length, length-set,
  get_elem?, set, All, All-get, All-set, total, total-set, ltb,
}
use csci3757_operating_syste.Simulator.Types.{max_processes, physical_pages, Process, Sim}
use csci3757_operating_syste.Simulator.Process.{Outside}
use csci3757_operating_syste.Simulator.Process.WellFormed.{held, IsProcess}
use csci3757_operating_syste.Simulator.Paging.{deref_slot, deref, live}
use csci3757_operating_syste.Simulator.Queue.{queue_size}
use csci3757_operating_syste.Simulator.Pointers.{Points, Distinct}

pub record Inv (o : Outside) (s : Sim) : Type 0 where
  pub few : s.procs ≤ max_processes
  pub slot_table : length s.processes ≡ max_processes
  pub queue_table : length s.queue ≡ queue_size
  pub handed_out : s.queueend ≤ queue_size
  pub pointers : All (Points s.queueend) s.processes
  pub distinct : Distinct s.processes
  pub jobs : All (IsProcess o) s.queue
  pub frames : s.pagesavail + total held s.queue ≡ physical_pages

deref_slot-some :
    (queue : List Process) (x : Option (Option ℕ)) (k : ℕ) (q : Process)
    → deref_slot queue x ≡ some (k, q)
    → get_elem? queue k ≡ some q
deref_slot-some queue none k q e = cc
deref_slot-some queue (some none) k q e = cc
deref_slot-some queue (some (some j)) k q e = ground arith

-- What a slot points to stands in the queue.
pub deref-some :
    (s : Sim) (i k : ℕ) (q : Process) → deref s i ≡ some (k, q) → get_elem? s.queue k ≡ some q
unfolding deref
deref-some s i k q e = deref_slot-some s.queue (get_elem? s.processes i) k q e

pub live-some :
    (s : Sim) (i k : ℕ) (q : Process)
    → live s i ≡ some (k, q)
    → (get_elem? s.queue k ≡ some q) × (q.active ≡ true) × (i < s.procs)
unfolding live
live-some s i k q e = ground (arith, deref-some s i k q)

-- A process of the queue is replaced, and the free pages make up for what it holds.
pub put-Inv :
    (o : Outside) (s : Sim) (k avail : ℕ) (q q' : Process)
    → Inv o s
    → get_elem? s.queue k ≡ some q
    → IsProcess o q'
    → avail + held q' ≡ s.pagesavail + held q
    → Inv o (record s { queue = set s.queue k q'; pagesavail = avail })
put-Inv o s k avail q q' v e p h = record {
  few = v.few;
  slot_table = v.slot_table;
  queue_table = length-set s.queue k q' ∙ v.queue_table;
  handed_out = v.handed_out;
  pointers = v.pointers;
  distinct = v.distinct;
  jobs = All-set (IsProcess o) s.queue k q' v.jobs p;
  frames = omega (arith, v.frames, h, total-set held s.queue k q q' e);
}
