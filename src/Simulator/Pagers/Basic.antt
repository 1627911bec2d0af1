-- ===== src/Simulator/Pagers/Basic.antt =====
-- PA4/PA4/pager-basic.c: `pageit` works for the first active process only.
pub mod Law
pub mod Full
use csci3757_operating_syste.Base.{
  ℕ, zero, suc, ◌+◌, ◌/◌, Bool, true, false, List, [], ◌∷◌, pos, Result, ok, out_of_bounds, ◌>>=◌,
  or_err, ◌==◌, get_elem?,
}
use csci3757_operating_syste.Simulator.Types.{page_size, Pentry, Sim}
use csci3757_operating_syste.Simulator.Paging.{pageout, pagein}
use csci3757_operating_syste.Simulator.Control.{Pager}

-- The loop over `oldpage`, `n` rounds from `old`: the first pageout that starts ends it.
unfoldable pub evict : ℕ → ℕ → ℕ → ℕ → Sim → Sim
evict zero old proc page s = s
evict (suc n) old proc page s = elim (old == page) [
  | true ↦ evict n (old + 1) proc page s
  | false ↦ elim ((pageout (pos proc) (pos old) s).0) [
    | true ↦ (pageout (pos proc) (pos old) s).1
    | false ↦ evict n (old + 1) proc page (pageout (pos proc) (pos old) s).1
  ]
]

-- The page that the process needs is out of memory: bring it in, or make room.
unfoldable pub fetch : ℕ → ℕ → ℕ → Sim → Sim
unfolding evict
fetch npages proc page s = elim ((pagein (pos proc) (pos page) s).0) [
  | true ↦ (pagein (pos proc) (pos page) s).1
  | false ↦ evict npages 0 proc page (pagein (pos proc) (pos page) s).1
]

unfoldable pub serve : Pentry → ℕ → Sim → Result Sim
unfolding fetch
serve e proc s = or_err (get_elem? e.pages (e.pc / page_size)) out_of_bounds >>= λ inside.
    ok (elim inside [ true ↦ s | false ↦ fetch e.npages proc (e.pc / page_size) s ])

-- The loop over the processes, from `proc`; it ends at the first active one.
unfoldable pub serve_first : List Pentry → ℕ → Sim → Result Sim
unfolding serve
serve_first [] proc s = ok s
serve_first (e ∷ es) proc s = elim e.active [
  | true ↦ serve e proc s
  | false ↦ serve_first es (proc + 1) s
]

-- This pager has no static variables.
unfoldable pub pageit : Pager (Unit {0})
unfolding serve_first
pageit q v s = serve_first q 0 s >>= λ s'. ok (v, s')
