-- ===== src/Simulator/Invariant/Loading.antt =====
-- `allinit` sets up the invariant, on the programs of the table.
use Prim.Native.Nat.{zero-le}
use csci3757_operating_syste.Simulator.Queue.Shuffle.{length-queue_types}
use csci3757_operating_syste.Base.{
  ℕ, zero, suc, ◌+◌, ◌≤◌, ◌≡◌, refl, ◌∙◌, true, false, List, [], ◌∷◌, none, some, pos, ok,
  >>=-eq-ok, or_err, or_err-eq-ok, out_of_bounds, assert, arith, length, length-set, total,
  get_elem?, set, replicate, All, All-get, All-set, All-replicate, All-update_each, ltb, subst, ap,
}
use csci3757_operating_syste.Simulator.Types.{
  max_processes, max_branches, max_proc_pages, swapped_out, Branch, Program, Bcontext, Process, Sim,
  physical_pages,
}
use csci3757_operating_syste.Simulator.Programs.{programs}
use csci3757_operating_syste.Simulator.Branching.{Random, bcontext_clear, bcontext_init}
use csci3757_operating_syste.Simulator.Branching.Decide.{IsContext}
use csci3757_operating_syste.Simulator.Branching.Init.{bcontext_init-IsContext}
use csci3757_operating_syste.Simulator.Process.{Outside, process_clear, init_contexts, process_load}
use csci3757_operating_syste.Simulator.Process.WellFormed.{IsProgram, held, IsProcess}
use csci3757_operating_syste.Simulator.Queue.{
  queue_size, zero_process, zero_context, load_queue, queue_types, initqueue, fill_slot, fill_from,
  allinit,
}
use csci3757_operating_syste.Simulator.Invariant.{Inv}
use csci3757_operating_syste.Simulator.Pointers.{Points, replicate-Distinct}
use csci3757_operating_syste.Simulator.Invariant.Stepping.{fill_slot-Inv}

module _ (o : Outside) (zeros : o.wherefrom ≡ 0) where
  -- The five programs of the table are well formed. The fourth has no branch: it needs `zeros`.
  pub programs-IsProgram : All (IsProgram o) programs
  programs-IsProgram = omega arith

abbrev Contexts : List Bcontext → Type 0
Contexts cs = (length cs ≡ max_branches) × All IsContext cs

init_contexts-Contexts :
    (r : Random) (fuel k i : ℕ) (cs : List Bcontext) (bs : List Branch) (n : ℕ)
    (cs' : List Bcontext) (n' : ℕ)
    → Contexts cs
    → init_contexts r fuel k i cs bs n ≡ ok (cs', n')
    → Contexts cs'
unfolding init_contexts
init_contexts-Contexts r fuel zero i cs bs n cs' n' v e =
    let same : cs ≡ cs' = cc in subst Contexts same v
init_contexts-Contexts r fuel (suc k) i cs bs n cs' n' v e =
    let (c, ec, e1) = >>=-eq-ok (or_err (get_elem? cs i) out_of_bounds) _ e in
    let (b, eb, e2) = >>=-eq-ok (or_err (get_elem? bs i) out_of_bounds) _ e1 in
    let ((c', m), ei, e3) = >>=-eq-ok (bcontext_init r fuel c b n) _ e2 in
    let old = All-get IsContext cs i c v.1 (or_err-eq-ok (get_elem? cs i) out_of_bounds ec) in
    let new = bcontext_init-IsContext r fuel n b c c' m old.whole ei in
    init_contexts-Contexts r fuel k (i + 1) (set cs i c') bs m cs' n'
      (length-set cs i c' ∙ v.0, All-set IsContext cs i c' v.1 new) e3

bcontext_clear-IsContext : (c : Bcontext) → IsContext (bcontext_clear c)
unfolding bcontext_clear
bcontext_clear-IsContext c = record { inside = omega arith; fits = omega arith; whole = refl }

-- A loaded process is well formed and holds no physical page.
abbrev Fresh : Outside → Process → Type 0
Fresh o q = IsProcess o q × (held q ≡ 0)

-- The parts of a loaded process.
process_load-IsProcess :
    (o : Outside) (r : Random) (fuel : ℕ) (q : Process) (p : Program) (pid kind n : ℕ)
    (q' : Process) (n' : ℕ)
    → IsProgram o p
    → Contexts q.bcontexts
    → process_load r fuel q p pid kind n ≡ ok (q', n')
    → Fresh o q'
unfolding process_load total
process_load-IsProcess o r fuel q p pid kind n q' n' w v e =
    let (u, eu, e1) = >>=-eq-ok (assert (ltb p.nbranches max_branches)) _ e in
    let ((cs, m), ec, e2) =
      >>=-eq-ok (init_contexts r fuel p.nbranches 0 q.bcontexts p.branches n) _ e1 in
    let good = init_contexts-Contexts r fuel p.nbranches 0 q.bcontexts p.branches n cs m v ec in
    let done = record q {
      pc = 0;
      compute = 0;
      block = 0;
      program = some p;
      pid = pos pid;
      kind = pos kind;
      nbcontexts = p.nbranches;
      bcontexts = cs;
      npages = max_proc_pages;
      pages = replicate max_proc_pages swapped_out;
      blocked = replicate max_proc_pages false;
      active = true;
    } in
    let same : done ≡ q' = cc in
    subst (Fresh o) same (
      record {
        loaded = (p, refl, w, zero-le);
        context_table = good.0;
        contexts = good.1;
        all_pages = refl;
        page_table = refl;
        blocked_table = refl;
        statuses = omega arith;
        released = λ off. cc;
      },
      refl,
    )

cleared-Contexts : Contexts (process_clear zero_process).bcontexts
unfolding process_clear
cleared-Contexts = (
  refl,
  All-update_each IsContext 40 bcontext_clear (replicate 40 zero_context)
      (λ c. bcontext_clear-IsContext c) (omega arith),
)

Fresh-held : (o : Outside) (qs : List Process) → All (Fresh o) qs → total held qs ≡ 0
unfolding total
Fresh-held o [] a = refl
Fresh-held o (q ∷ qs) a = omega (arith, a.0.1, Fresh-held o qs a.1)

Fresh-IsProcess : (o : Outside) (qs : List Process) → All (Fresh o) qs → All (IsProcess o) qs
Fresh-IsProcess o [] a = tt
Fresh-IsProcess o (q ∷ qs) a = (a.0.0, Fresh-IsProcess o qs a.1)

load_queue-Fresh :
    (o : Outside) (r : Random) (fuel : ℕ) (ts : List ℕ) (i n : ℕ) (qs : List Process)
    → o.wherefrom ≡ 0
    → load_queue r fuel ts i n ≡ ok qs
    → All (Fresh o) qs × (length qs ≡ length ts)
unfolding load_queue
load_queue-Fresh o r fuel [] i n qs z e =
    let same : [] ≡ qs = cc in subst (λ x. All (Fresh o) x × (length x ≡ 0)) same (tt, refl)
load_queue-Fresh o r fuel (t ∷ ts) i n qs z e =
    let (p, ep, e1) = >>=-eq-ok (or_err (get_elem? programs t) out_of_bounds) _ e in
    let ((q, m), eq, e2) =
      >>=-eq-ok (process_load r fuel (process_clear zero_process) p i t n) _ e1 in
    let (rest, er, e3) = >>=-eq-ok (load_queue r fuel ts (i + 1) m) _ e2 in
    let w =
      All-get (IsProgram o) programs t p (programs-IsProgram o z)
        (or_err-eq-ok (get_elem? programs t) out_of_bounds ep) in
    let f =
      process_load-IsProcess o r fuel (process_clear zero_process) p i t n q m w cleared-Contexts
        eq in
    let (fs, len) = load_queue-Fresh o r fuel ts (i + 1) m rest z er in
    let same : q ∷ rest ≡ qs = cc in
    subst (λ x. All (Fresh o) x × (length x ≡ suc (length ts))) same ((f, fs), ap suc len)

initqueue-Fresh :
    (o : Outside) (r : Random) (fuel : ℕ) (qs : List Process)
    → o.wherefrom ≡ 0
    → initqueue r fuel ≡ ok qs
    → All (Fresh o) qs × (length qs ≡ queue_size)
unfolding initqueue
initqueue-Fresh o r fuel qs z e =
    let (fresh, len) = load_queue-Fresh o r fuel (queue_types r) 0 400 qs z e in
    (fresh, len ∙ length-queue_types r)

fill_from-Inv : (o : Outside) (n i : ℕ) (s : Sim) → Inv o s → Inv o (fill_from n i s)
unfolding fill_from
fill_from-Inv o zero i s v = v
fill_from-Inv o (suc n) i s v = fill_from-Inv o n (i + 1) (fill_slot i s) (fill_slot-Inv o i s v)

-- If the initialisation ends, it leaves the invariant, for any number of processors up to
-- MAXPROCESSES and any random numbers, where the memory just before the branch table is 0.
pub allinit-Inv :
    (o : Outside) (r : Random) (fuel procs : ℕ) (s : Sim)
    → o.wherefrom ≡ 0
    → procs ≤ max_processes
    → allinit r fuel procs ≡ ok s
    → Inv o s
unfolding allinit
allinit-Inv o r fuel procs s z few e =
    let (queue, eq, e1) = >>=-eq-ok (initqueue r fuel) _ e in
    let (fresh, len) = initqueue-Fresh o r fuel queue z eq in
    let start : Sim = record {
      procs = procs;
      processes = replicate max_processes none;
      queue = queue;
      queueend = 0;
      pagesavail = physical_pages;
      sysclock = 0;
    } in
    let v : Inv o start = record {
      few = few;
      slot_table = refl;
      queue_table = len;
      handed_out = zero-le;
      pointers = All-replicate (Points 0) max_processes none tt;
      jobs = Fresh-IsProcess o queue fresh;
      distinct = replicate-Distinct max_processes;
      frames = omega (arith, Fresh-held o queue fresh);
    } in
    let same : fill_from procs 0 start ≡ s = cc in
    subst (Inv o) same (fill_from-Inv o procs 0 start v)
