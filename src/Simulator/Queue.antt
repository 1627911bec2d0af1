-- ===== src/Simulator/Queue.antt =====
-- PA4/PA4/simulator.c: the job queue (`initqueue`, `dequeue`, `empty`) and `allinit`.
pub mod Shuffle
use csci3757_operating_syste.Base.{
  ℕ, zero, suc, ◌+◌, ◌*◌, ◌%◌, Bool, true, false, List, [], ◌∷◌, Option, none, some, ℤ, pos, Result,
  ok, err, out_of_bounds, ◌>>=◌, or_err, ltb, leb, if◌then◌else◌, get_elem?, get_or, set, replicate,
}
use csci3757_operating_syste.Simulator.Types.{
  max_processes, max_branches, max_brings, max_proc_pages, physical_pages, goto_always, Bcontext,
  Process, Sim,
}
use csci3757_operating_syste.Simulator.Programs.{programs}
use csci3757_operating_syste.Simulator.Branching.{Random}
use csci3757_operating_syste.Simulator.Process.{process_clear, process_load}

abbrev pub program_count : ℕ
program_count = 5

abbrev pub queue_size : ℕ
queue_size = 40

-- Static storage before the first use.
abbrev pub zero_context : Bcontext
zero_context = record {
  btype = goto_always;
  boffset = 0;
  bsize = 0;
  bvalue = false;
  bcount = 0;
  brings = replicate max_brings 0;
}

abbrev pub zero_process : Process
zero_process = record {
  program = none;
  nbcontexts = 0;
  bcontexts = replicate max_branches zero_context;
  pc = 0;
  npages = 0;
  pages = replicate max_proc_pages (pos 0);
  blocked = replicate max_proc_pages false;
  active = false;
  compute = 0;
  block = 0;
  pid = pos 0;
  kind = pos 0;
}

-- queuetype[i] = i % PROGRAMS, from `i` on for `n` entries
unfoldable pub first_types : ℕ → ℕ → List ℕ
first_types zero i = []
first_types (suc n) i = i % program_count ∷ first_types n (i + 1)

-- Exchange the entries at `i` and `j`.
unfoldable pub exchange : List ℕ → ℕ → ℕ → List ℕ
exchange types i j = set (set types i (get_or types j 0)) j (get_or types i 0)

-- The inner loop, `k` rounds from `i`; `n` counts the random numbers drawn.
unfoldable pub shuffle_round : Random → ℕ → ℕ → ℕ → List ℕ → List ℕ
unfolding exchange
shuffle_round r zero i n types = types
shuffle_round r (suc k) i n types =
    shuffle_round r k (i + 1) (n + 1) (exchange types i (r.lrand48 n % queue_size))

-- The outer loop.
unfoldable pub shuffle : Random → ℕ → ℕ → List ℕ → List ℕ
unfolding shuffle_round
shuffle r zero n types = types
shuffle r (suc repeats) n types =
    shuffle r repeats (n + queue_size) (shuffle_round r queue_size 0 n types)

-- The last loop: clear and load a process for each entry of `queuetype`.
unfoldable pub load_queue : Random → ℕ → List ℕ → ℕ → ℕ → Result (List Process)
load_queue r fuel [] i n = ok []
load_queue r fuel (t ∷ types) i n = or_err (get_elem? programs t) out_of_bounds >>= λ p.
    process_load r fuel (process_clear zero_process) p i t n >>= λ loaded.
    load_queue r fuel types (i + 1) loaded.1 >>= λ rest. ok (loaded.0 ∷ rest)

unfoldable pub queue_types : Random → List ℕ
unfolding first_types shuffle
queue_types r = shuffle r 10 0 (first_types queue_size 0)

-- `queuetype` and `queue` after `initqueue`; 400 random numbers go into the shuffle.
unfoldable pub initqueue : Random → ℕ → Result (List Process)
unfolding queue_types load_queue
initqueue r fuel = load_queue r fuel (queue_types r) 0 400

unfoldable pub empty : Sim → Bool
empty s = leb queue_size s.queueend

-- A place in the queue, or `none` for NULL.
unfoldable pub dequeue : Sim → Option ℕ × Sim
dequeue s =
    if ltb s.queueend queue_size
    then (some s.queueend, record s { queueend = s.queueend + 1 })
    else (none, s)

-- if (!empty()) processes[i] = dequeue()
unfoldable pub fill_slot : ℕ → Sim → Sim
unfolding empty dequeue
fill_slot i s =
    let (job, s') = dequeue s in
    if empty s then s else record s' { processes = set s'.processes i job }

unfoldable pub fill_from : ℕ → ℕ → Sim → Sim
unfolding fill_slot
fill_from zero i s = s
fill_from (suc n) i s = fill_from n (i + 1) (fill_slot i s)

unfoldable pub allinit : Random → ℕ → ℕ → Result Sim
unfolding initqueue fill_from
allinit r fuel procs = initqueue r fuel >>= λ queue. ok (
    fill_from procs 0 (record {
      procs = procs;
      processes = replicate max_processes none;
      queue = queue;
      queueend = 0;
      pagesavail = physical_pages;
      sysclock = 0;
    }))
