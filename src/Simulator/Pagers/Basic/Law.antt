-- ===== src/Simulator/Pagers/Basic/Law.antt =====
-- The basic pager never leaves an array and keeps the simulator's invariant: it is lawful.
use csci3757_operating_syste.Base.{
  ℕ, zero, suc, ◌+◌, ◌/◌, ◌≡◌, refl, List, [], ◌∷◌, pos, Result, ok, arith, get_elem?-some, All,
  branches, ◌==◌,
}
use csci3757_operating_syste.Simulator.Types.{max_processes, page_size, Pentry, Sim}
use csci3757_operating_syste.Simulator.Process.{Outside}
use csci3757_operating_syste.Simulator.Paging.{pageout, pagein}
use csci3757_operating_syste.Simulator.Control.{callyou, entries}
use csci3757_operating_syste.Simulator.Invariant.{Inv}
use csci3757_operating_syste.Simulator.Invariant.Requests.{pageout-Inv, pagein-Inv}
use csci3757_operating_syste.Simulator.Invariant.Running.{Serves, Lawful}
use csci3757_operating_syste.Simulator.Pagers.Basic
use csci3757_operating_syste.Simulator.Pagers.Entries.{IsEntry, entries-IsEntry}

-- A call that succeeds and keeps the invariant.
abbrev Keeps : Outside → Result Sim → Type 0
Keeps o r = (s : Sim) × (r ≡ ok s) × Inv o s

module _ (o : Outside) where
  evict-Inv : (n old proc page : ℕ) (s : Sim) → Inv o s → Inv o (Basic.evict n old proc page s)
  unfolding Basic.evict
  evict-Inv zero old proc page s v = v
  evict-Inv (suc n) old proc page s v =
      let out = pageout-Inv o (pos proc) (pos old) s v in
      branches (Inv o) (old == page) (evict-Inv n (old + 1) proc page s v) (
        branches (Inv o) ((pageout (pos proc) (pos old) s).0) out
          (evict-Inv n (old + 1) proc page (pageout (pos proc) (pos old) s).1 out))

  basic_fetch-Inv :
      (npages proc page : ℕ) (s : Sim) → Inv o s → Inv o (Basic.fetch npages proc page s)
  unfolding Basic.fetch
  basic_fetch-Inv npages proc page s v =
      let into = pagein-Inv o (pos proc) (pos page) s v in
      branches (Inv o) ((pagein (pos proc) (pos page) s).0) into
        (evict-Inv npages 0 proc page (pagein (pos proc) (pos page) s).1 into)

  basic_serve-Keeps :
      (e : Pentry) (proc : ℕ) (s : Sim) → IsEntry e → Inv o s → Keeps o (Basic.serve e proc s)
  unfolding Basic.serve
  basic_serve-Keeps e proc s h v =
      let (inside, at) =
        get_elem?-some e.pages (e.pc / page_size) (omega (arith, h.inside, h.whole)) in
      rw at
        (_, refl, branches (Inv o) inside v (basic_fetch-Inv e.npages proc (e.pc / page_size) s v))

  serve_first-Keeps :
      (es : List Pentry) (proc : ℕ) (s : Sim)
      → All IsEntry es
      → Inv o s
      → Keeps o (Basic.serve_first es proc s)
  unfolding Basic.serve_first
  serve_first-Keeps [] proc s h v = (s, refl, v)
  serve_first-Keeps (e ∷ es) proc s h v =
      branches (Keeps o) e.active (basic_serve-Keeps e proc s h.0 v)
        (serve_first-Keeps es (proc + 1) s h.1 v)

  pub basic-keeps :
      (v : Unit {0}) (s : Sim)
      → Unit {0}
      → Inv o s
      → Serves o (λ (_ : Unit {0}). Unit {0}) (callyou Basic.pageit v s)
  unfolding callyou Basic.pageit
  basic-keeps v s g i =
      let (s', e, i') =
        serve_first-Keeps (entries max_processes 0 s) 0 s (entries-IsEntry o max_processes 0 s i)
          i in
      rw e (v, s', refl, tt, i')

-- The basic pager can drive the main loop: each call succeeds and keeps the invariant.
abbrev pub basic-Lawful : (o : Outside) → Lawful o Basic.pageit
basic-Lawful o = record { Good = λ _. Unit {0}; keeps = basic-keeps o }
