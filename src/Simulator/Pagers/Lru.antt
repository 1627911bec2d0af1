-- ===== src/Simulator/Pagers/Lru.antt =====
-- PA4/PA4/pager-lru.c: `pageit` with its static variables.
pub mod Victim
pub mod Law
use csci3757_operating_syste.Base.{
  ℕ, zero, suc, ◌+◌, ◌/◌, ◌%◌, Bool, true, false, List, [], ◌∷◌, pos, Result, ok, out_of_bounds,
  ◌>>=◌, or_err, ltb, ◌&&◌, if◌then◌else◌, get_elem?, get_or, set, replicate,
}
use csci3757_operating_syste.Simulator.Types.{max_processes, max_proc_pages, page_size, Pentry, Sim}
use csci3757_operating_syste.Simulator.Paging.{pageout, pagein}
use csci3757_operating_syste.Simulator.Control.{Pager}

-- The static variables. `tick` and the timestamps are ints in the source, which overflow after 2^31 - 1
-- calls; here they do not.
pub record Lru : Type 0 where
  pub initialized : Bool
  pub tick : ℕ
  pub timestamps : List (List ℕ)

-- The static variables before the first call: the array is zero-filled.
abbrev pub lru_start : Lru
lru_start = record {
  initialized = false;
  tick = 1;
  timestamps = replicate max_processes (replicate max_proc_pages 0);
}

-- The first run sets every timestamp to 0.
abbrev pub initialize : Lru → Lru
initialize v = if v.initialized then v else record v {
  initialized = true;
  timestamps = replicate max_processes (replicate max_proc_pages 0);
}

-- for (oldpage = ...; oldpage > 0; oldpage--), with `pageToSwap` and `maxTime`
unfoldable pub scan : List Bool → List ℕ → ℕ → ℕ → ℕ → ℕ
scan pages stamps zero page_to_swap max_time = page_to_swap
scan pages stamps (suc old) page_to_swap max_time =
    elim (get_or pages (suc old) false && ltb max_time (get_or stamps (suc old) 0)) [
      | true ↦ scan pages stamps old (suc old) (get_or stamps (suc old) 0)
      | false ↦ scan pages stamps old page_to_swap max_time
    ]

-- The page that is sent out for `page`.
unfoldable pub victim : List Bool → List ℕ → ℕ → ℕ
unfolding scan
victim pages stamps page =
    let time = get_or stamps page 0 in
    scan pages stamps (time % max_proc_pages) (time % max_proc_pages) time

unfoldable pub swap : List Bool → List ℕ → ℕ → ℕ → Sim → Sim
unfolding victim
swap pages stamps proc page s =
    let out = pageout (pos proc) (pos (victim pages stamps page)) s in
    (pagein (pos proc) (pos page) out.1).1

-- The page is out of memory: bring it in, or swap.
unfoldable pub fetch : List Bool → List ℕ → ℕ → ℕ → Sim → Sim
unfolding swap
fetch pages stamps proc page s = elim ((pagein (pos proc) (pos page) s).0) [
  | true ↦ (pagein (pos proc) (pos page) s).1
  | false ↦ swap pages stamps proc page (pagein (pos proc) (pos page) s).1
]

-- One active process: its timestamps after the page in use is stamped, and the simulator.
unfoldable pub serve : Pentry → ℕ → ℕ → List ℕ → Sim → Result (List ℕ × Sim)
unfolding fetch
serve e proc tick stamps s = or_err (get_elem? stamps (e.pc / page_size)) out_of_bounds >>= λ _.
    or_err (get_elem? e.pages (e.pc / page_size)) out_of_bounds >>= λ inside.
    let stamped = set stamps (e.pc / page_size) tick in
    ok (stamped, elim inside [ true ↦ s | false ↦ fetch e.pages stamped proc (e.pc / page_size) s ])

-- The loop over the processes, from `proc`.
unfoldable pub serve_all : List Pentry → ℕ → ℕ → List (List ℕ) → Sim → Result (List (List ℕ) × Sim)
unfolding serve
serve_all [] proc tick stamps s = ok (stamps, s)
serve_all (e ∷ es) proc tick stamps s = elim e.active [
  | false ↦ serve_all es (proc + 1) tick stamps s
  | true ↦ or_err (get_elem? stamps proc) out_of_bounds >>= λ row.
      serve e proc tick row s >>= λ r. serve_all es (proc + 1) tick (set stamps proc r.0) r.1
]

unfoldable pub pageit : Pager Lru
unfolding serve_all
pageit q v s =
    let w = initialize v in
    serve_all q 0 w.tick w.timestamps s >>= λ r.
    ok (record w { tick = w.tick + 1; timestamps = r.0 }, r.1)
