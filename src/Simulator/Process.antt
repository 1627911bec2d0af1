-- ===== src/Simulator/Process.antt =====
-- PA4/PA4/simulator.c: the life of one process (`process_clear`, `process_load`, `process_unload`,
-- `process_dobranch`, `process_step`). The logs and the CSV output are left out.
pub mod WellFormed
pub mod Step
pub mod Within
use csci3757_operating_syste.Base.{
  ℕ, zero, suc, ◌+◌, ◌/◌, ◌≤◌, Bool, true, false, List, [], ◌∷◌, map, Option, none, some, ℤ, pos,
  negsuc, Result, ok, err, assertion, out_of_bounds, null_pointer, ◌>>=◌, ◌>>◌, or_err, assert, ltb,
  leb, if◌then◌else◌, get_elem?, set, replicate, update_first, total_first,
}
use csci3757_operating_syste.Simulator.Types.{
  max_branches, max_exits, max_proc_pages, page_size, page_wait, swapped_out, Branch, Program,
  Bcontext, Process,
}
use csci3757_operating_syste.Simulator.Branching.{
  Random, bcontext_clear, bcontext_init, bcontext_decide,
}
use csci3757_operating_syste.Simulator.Search.{Hit, miss, before, hit, search_keys}

-- What the reads one place before the arrays `exits` and `branches` give: not determined.
pub record Outside : Type 0 where
  pub exit : ℕ
  pub wherefrom : ℕ

unfoldable pub process_clear : Process → Process
unfolding bcontext_clear
process_clear q = record q {
  pc = 0;
  compute = 0;
  block = 0;
  program = none;
  pid = negsuc 0;
  kind = negsuc 0;
  nbcontexts = 0;
  bcontexts = update_first max_branches bcontext_clear q.bcontexts;
  npages = 0;
  pages = replicate max_proc_pages swapped_out;
  blocked = replicate max_proc_pages false;
  active = false;
}

-- The loop over the branches of the program: `k` rounds from index `i`; `n` counts random numbers.
unfoldable pub init_contexts :
    Random → ℕ → ℕ → ℕ → List Bcontext → List Branch → ℕ → Result (List Bcontext × ℕ)
init_contexts r fuel zero i contexts branches n = ok (contexts, n)
init_contexts r fuel (suc k) i contexts branches n = do
  c ← or_err (get_elem? contexts i) out_of_bounds
  b ← or_err (get_elem? branches i) out_of_bounds
  (c', n') ← bcontext_init r fuel c b n
  init_contexts r fuel k (i + 1) (set contexts i c') branches n'

unfoldable pub process_load : Random → ℕ → Process → Program → ℕ → ℕ → ℕ → Result (Process × ℕ)
unfolding init_contexts
process_load r fuel q p pid kind n = do
  assert (ltb p.nbranches max_branches)
  (contexts, n') ← init_contexts r fuel p.nbranches 0 q.bcontexts p.branches n
  let loaded = record q {
    pc = 0;
    compute = 0;
    block = 0;
    program = some p;
    pid = pos pid;
    kind = pos kind;
    nbcontexts = p.nbranches;
    bcontexts = contexts;
    npages = max_proc_pages;
    pages = replicate max_proc_pages swapped_out;
    blocked = replicate max_proc_pages false;
    active = true;
  }
  ok (loaded, n')

-- `pages[i] >= -PAGEWAIT`: the page has a physical page, or is moving.
abbrev pub in_use : ℤ → Bool
in_use (pos n) = true
in_use (negsuc n) = ltb n page_wait

abbrev pub frame : ℤ → ℕ
frame z = if in_use z then 1 else 0

abbrev pub unload_page : ℤ → ℤ
unload_page z = if in_use z then swapped_out else z

abbrev pub unload_blocked : ℕ → List ℤ → List Bool → List Bool
unload_blocked zero zs bs = bs
unload_blocked (suc n) [] bs = bs
unload_blocked (suc n) (z ∷ zs) [] = []
unload_blocked (suc n) (z ∷ zs) (b ∷ bs) = (if in_use z then true else b) ∷ unload_blocked n zs bs

-- The process, and the number of physical pages that it gives back.
unfoldable pub process_unload : Process → Process × ℕ
unfolding total_first
process_unload q = (
  record q {
    pages = update_first q.npages unload_page q.pages;
    blocked = unload_blocked q.npages q.pages q.blocked;
    active = false;
  },
  total_first frame q.npages q.pages,
)

-- `if (q->pc<0 || q->pc>=q->program->size) q->pc=0`
abbrev wrap_branch : ℕ → ℕ → ℕ
wrap_branch size pc = if leb size pc then 0 else pc

-- A branch at index `i`, of the program and of the contexts.
unfoldable pub process_dobranch : Process → Program → ℕ → Result Process
process_dobranch q p i = do
  b ← or_err (get_elem? p.branches i) out_of_bounds
  c ← or_err (get_elem? q.bcontexts i) out_of_bounds
  (taken, c') ← bcontext_decide c
  ok (record q {
    bcontexts = set q.bcontexts i c';
    pc = wrap_branch p.size (if taken then b.whereto else q.pc + 1);
  })

unfoldable pub find_exit : Outside → Program → ℕ → Result Hit
unfolding search_keys
find_exit o p pc = search_keys p.exits o.exit p.nexits pc

-- Without branches the source reads branches[-1]: the read is taken to give `o.wherefrom`.
unfoldable pub find_branch : Outside → Program → ℕ → Result Hit
unfolding search_keys
find_branch o p pc = search_keys (map (λ b. b.wherefrom) p.branches) o.wherefrom p.nbranches pc

-- `if (q->pc<0 || q->pc>q->program->size) q->pc=0`, after `q->pc++`
abbrev wrap_next : ℕ → ℕ → ℕ
wrap_next size pc = if ltb size pc then 0 else pc

-- The rest of the step where a branch stands at `pc`, and where none does.
unfoldable pub move_on : Process → Program → Hit → Result (Bool × Process)
unfolding process_dobranch
move_on q p (hit i) = process_dobranch q p i >>= λ q'. ok (true, q')
move_on q p before = err out_of_bounds
move_on q p miss = ok (true, record q { pc = wrap_next p.size (q.pc + 1) })

-- The step of a process whose page is in memory: `false` is an exit.
unfoldable pub execute : Outside → Process → Program → Hit → Result (Bool × Process)
unfolding find_branch move_on
execute o q p (hit i) = ok (false, q)
execute o q p before = ok (false, q)
execute o q p miss = do
  assert (leb p.nbranches max_branches)
  target ← find_branch o p q.pc
  move_on q p target

unfoldable pub run_step : Outside → Process → Result (Bool × Process)
unfolding execute find_exit
run_step o q = do
  p ← or_err q.program null_pointer
  assert (leb p.nexits max_exits)
  exit ← find_exit o p q.pc
  execute o q p exit

-- By the state of the page that the program counter is in.
unfoldable pub step_page : Outside → Process → ℕ → ℤ → Result (Bool × Process)
unfolding run_step
step_page o q page (pos zero) =
    run_step o (record q { blocked = set q.blocked page false; compute = q.compute + 1 })
step_page o q page (pos (suc n)) =
    ok (true, record q { blocked = set q.blocked page true; block = q.block + 1 })
step_page o q page (negsuc n) =
    ok (true, record q { blocked = set q.blocked page true; block = q.block + 1 })

-- Whether the process goes on, and the process after the step.
unfoldable pub process_step : Outside → Process → Result (Bool × Process)
unfolding step_page
process_step o q =
    if q.active
    then (or_err (get_elem? q.pages (q.pc / page_size)) out_of_bounds
        >>= step_page o q (q.pc / page_size))
    else ok (false, q)
