-- ===== src/Simulator/Pagers/Predict.antt =====
-- PA4/PA4/pager-predict.c: `pageit` with its static variables.
pub mod Law
pub mod Going
pub mod Full
use csci3757_operating_syste.Base.{
  ℕ, zero, suc, ◌+◌, ◌/◌, Bool, true, false, List, [], ◌∷◌, pos, pred_ℤ, Result, ok, out_of_bounds,
  ◌>>=◌, or_err, ◌==◌, ◌&&◌, ◌||◌, if◌then◌else◌, get_elem?, set, replicate,
}
use csci3757_operating_syste.Simulator.Types.{max_processes, max_proc_pages, page_size, Pentry, Sim}
use csci3757_operating_syste.Simulator.Paging.{pageout, pagein}
use csci3757_operating_syste.Simulator.Control.{Pager}

pub record Predict : Type 0 where
  pub initialized : Bool
  pub previous_access : List ℕ

abbrev pub predict_start : Predict
predict_start = record { initialized = false; previous_access = replicate max_processes 0 }

abbrev pub initialize : Predict → Predict
initialize v =
    if v.initialized
    then v
    else record { initialized = true; previous_access = replicate max_processes 0 }

-- for (i = ...; ...; i++) pageout(proc, i), `n` rounds from `i`
unfoldable pub send_out : ℕ → ℕ → ℕ → Sim → Sim
send_out zero i proc s = s
send_out (suc n) i proc s = send_out n (i + 1) proc (pageout (pos proc) (pos i) s).1

-- for (i = ...; ...; i++) if (pagein(proc, i)) k++, `n` rounds from `i`
unfoldable pub bring_in : ℕ → ℕ → ℕ → ℕ → Sim → ℕ × Sim
bring_in zero i proc k s = (k, s)
bring_in (suc n) i proc k s =
    let r = pagein (pos proc) (pos i) s in bring_in n (i + 1) proc (if r.0 then k + 1 else k) r.1

-- The ranges of pages to bring in, by the last access and the page needed: the first page and the
-- number of pages. In the last case the two neighbours are handled instead.
pub data Guess : Type 0 where
  range : ℕ → ℕ → Guess
  linear : Guess

unfoldable pub guess : ℕ → ℕ → Guess
guess previous page =
    if previous == 3 && page == 0
    then range 0 4
    else if previous == 9 && page == 0
    then range 0 9
    else if previous == 13 && page == 8 || previous == 8 && page == 13
    then range 9 5
    else if previous == 13 && page == 0
    then range 0 13
    else if previous == 3 && page == 11 || previous == 3 && page == 10
    then range 11 2
    else linear

-- pageout(proc, page-1); pagein(proc, page); pagein(proc, page+1)
unfoldable pub shift_window : ℕ → ℕ → Sim → Sim
shift_window proc page s =
    let s1 = (pageout (pos proc) (pred_ℤ (pos page)) s).1 in
    let s2 = (pagein (pos proc) (pos page) s1).1 in (pagein (pos proc) (pos (page + 1)) s2).1

-- After a failed pagein: the new `previousAccess`, the simulator, and whether the loop over the
-- processes ends here, as it does after every guess but the last.
unfoldable pub follow : Guess → ℕ → ℕ → Sim → ℕ × Sim × Bool
unfolding bring_in shift_window
follow (range i n) proc page s = let r = bring_in n i proc 0 s in (r.0, r.1, true)
follow linear proc page s = (page + 1, shift_window proc page s, false)

unfoldable pub fetch : ℕ → ℕ → ℕ → Sim → ℕ × Sim × Bool
unfolding send_out guess follow
fetch previous proc page s = elim ((pagein (pos proc) (pos page) s).0) [
  | true ↦ (previous, (pagein (pos proc) (pos page) s).1, false)
  | false ↦
      follow (guess previous page) proc page
        (send_out max_proc_pages 0 proc (pagein (pos proc) (pos page) s).1)
]

unfoldable pub serve : Pentry → ℕ → ℕ → Sim → Result (ℕ × Sim × Bool)
unfolding fetch
serve e proc previous s = or_err (get_elem? e.pages (e.pc / page_size)) out_of_bounds >>= λ inside.
    ok (elim inside [
      | true ↦ (previous, s, false)
      | false ↦ fetch previous proc (e.pc / page_size) s
    ])

-- The loop over the processes, from `proc`.
unfoldable pub serve_all : List Pentry → ℕ → List ℕ → Sim → Result (List ℕ × Sim)
unfolding serve
serve_all [] proc access s = ok (access, s)
serve_all (e ∷ es) proc access s = elim e.active [
  | false ↦ serve_all es (proc + 1) access s
  | true ↦ or_err (get_elem? access proc) out_of_bounds >>= λ previous.
      serve e proc previous s >>= λ r. elim r.2 [
        | true ↦ ok (set access proc r.0, r.1)
        | false ↦ serve_all es (proc + 1) (set access proc r.0) r.1
      ]
]

unfoldable pub pageit : Pager Predict
unfolding serve_all
pageit q v s =
    let w = initialize v in
    serve_all q 0 w.previous_access s >>= λ r. ok (record w { previous_access = r.0 }, r.1)
