-- ===== src/Simulator/Pagers/Lru/Law.antt =====
-- The LRU pager never leaves an array and keeps the simulator's invariant: it is lawful.
use native.Mathlib.Nat.{le_refl}
use Prim.Native.Nat.{zero-le}
use csci3757_operating_syste.Base.{
  ℕ, ◌+◌, ◌/◌, ◌≤◌, ◌≡◌, refl, ◌∙◌, inl, inr, Bool, List, [], ◌∷◌, pos, Result, ok, arith, length,
  length-set, get_elem?-some, set, All, All-get, All-set, All-replicate, Bool-cases, replicate,
  branches,
}
use csci3757_operating_syste.Simulator.Types.{max_processes, max_proc_pages, page_size, Pentry, Sim}
use csci3757_operating_syste.Simulator.Process.{Outside}
use csci3757_operating_syste.Simulator.Paging.{pagein}
use csci3757_operating_syste.Simulator.Control.{callyou, entries}
use csci3757_operating_syste.Simulator.Invariant.{Inv}
use csci3757_operating_syste.Simulator.Invariant.Requests.{pageout-Inv, pagein-Inv}
use csci3757_operating_syste.Simulator.Invariant.Running.{Serves, Lawful}
use csci3757_operating_syste.Simulator.Pagers.Lru.{
  Lru, initialize, victim, swap, fetch, serve, serve_all, pageit,
}
use csci3757_operating_syste.Simulator.Pagers.Entries.{IsEntry, entries-IsEntry, length-entries}
use csci3757_operating_syste.Simulator.Pagers.Lru.Victim.{IsRow}

-- The pager's own invariant.
pub record IsLru (v : Lru) : Type 0 where
  pub rows : length v.timestamps ≡ max_processes
  pub past : All (IsRow v.tick) v.timestamps

module _ (o : Outside) where
  swap-Inv :
      (pages : List Bool) (row : List ℕ) (proc page : ℕ) (s : Sim)
      → Inv o s
      → Inv o (swap pages row proc page s)
  unfolding swap
  swap-Inv pages row proc page s v =
      pagein-Inv o (pos proc) (pos page) _
        (pageout-Inv o (pos proc) (pos (victim pages row page)) s v)

  fetch-Inv :
      (pages : List Bool) (row : List ℕ) (proc page : ℕ) (s : Sim)
      → Inv o s
      → Inv o (fetch pages row proc page s)
  unfolding fetch
  fetch-Inv pages row proc page s v =
      let into = pagein-Inv o (pos proc) (pos page) s v in
      branches (Inv o) ((pagein (pos proc) (pos page) s).0) into
        (swap-Inv pages row proc page (pagein (pos proc) (pos page) s).1 into)

  serve-Keeps :
      (e : Pentry) (proc tick : ℕ) (row : List ℕ) (s : Sim)
      → IsEntry e
      → IsRow tick row
      → Inv o s
      → (row' : List ℕ) × (s' : Sim) × (serve e proc tick row s ≡ ok (row', s'))
        × IsRow tick row'
        × Inv o s'
  unfolding serve
  serve-Keeps e proc tick row s h r v =
      let (x, ex) = get_elem?-some row (e.pc / page_size) (omega (arith, h.inside, r.0)) in
      let (inside, at) =
        get_elem?-some e.pages (e.pc / page_size) (omega (arith, h.inside, h.whole)) in
      let stamped = set row (e.pc / page_size) tick in
      rw (ex, at)
        (
          stamped,
          _,
          refl,
          (
            length-set row (e.pc / page_size) tick ∙ r.0,
            All-set (λ x. x ≤ tick) row (e.pc / page_size) tick r.1 (le_refl tick),
          ),
          branches (Inv o) inside v (fetch-Inv e.pages stamped proc (e.pc / page_size) s v),
        )

  abbrev Table : ℕ → List (List ℕ) → Type 0
  Table tick stamps = (length stamps ≡ max_processes) × All (IsRow tick) stamps

  abbrev Keeps : ℕ → Result (List (List ℕ) × Sim) → Type 0
  Keeps tick r =
      (stamps : List (List ℕ)) × (s : Sim) × (r ≡ ok (stamps, s)) × Table tick stamps × Inv o s

  serve_all-Keeps :
      (es : List Pentry) (proc tick : ℕ) (stamps : List (List ℕ)) (s : Sim)
      → proc + length es ≤ max_processes
      → All IsEntry es
      → Table tick stamps
      → Inv o s
      → Keeps tick (serve_all es proc tick stamps s)
  unfolding serve_all
  serve_all-Keeps [] proc tick stamps s len h t v = (stamps, s, refl, t, v)
  serve_all-Keeps (e ∷ es) proc tick stamps s len h t v = elim (Bool-cases e.active) [
    | inr off ↦ simp off (serve_all-Keeps es (proc + 1) tick stamps s (omega arith) h.1 t v)
    | inl on ↦
        let (row, er) = get_elem?-some stamps proc (omega arith) in
        let (row', s', eq, r', v') =
          serve-Keeps e proc tick row s h.0 (All-get (IsRow tick) stamps proc row t.1 er) v in
        simp (on, er, eq)
          (serve_all-Keeps es (proc + 1) tick (set stamps proc row') s' (omega arith) h.1
            (length-set stamps proc row' ∙ t.0, All-set (IsRow tick) stamps proc row' t.1 r') v')
  ]

  initialize-Table : (v : Lru) → IsLru v → Table (initialize v).tick (initialize v).timestamps
  initialize-Table v g = elim (Bool-cases v.initialized) [
    | inl old ↦ simp old (g.rows, g.past)
    | inr new ↦ simp new (
      refl,
      All-replicate (IsRow v.tick) max_processes (replicate max_proc_pages 0)
          (refl, All-replicate (λ x. x ≤ v.tick) max_proc_pages 0 zero-le),
    )
  ]

  past-suc : (t : ℕ) (rows : List (List ℕ)) → All (IsRow t) rows → All (IsRow (t + 1)) rows
  past-suc t [] a = tt
  past-suc t (row ∷ rows) a = ((a.0.0, row-suc row a.0.1), past-suc t rows a.1)
    where
      row-suc : (xs : List ℕ) → All (λ x. x ≤ t) xs → All (λ x. x ≤ t + 1) xs
      row-suc = elim [ [] ↦ λ b. tt | x ∷ (xs → ih) ↦ λ b. (omega (arith, b.0), ih b.1) ]

  pub keeps : (v : Lru) (s : Sim) → IsLru v → Inv o s → Serves o IsLru (callyou pageit v s)
  unfolding callyou pageit
  keeps v s g i =
      let w = initialize v in
      let (stamps, s', e, t, i') =
        serve_all-Keeps (entries max_processes 0 s) 0 w.tick w.timestamps s
          (omega (arith, length-entries max_processes 0 s)) (entries-IsEntry o max_processes 0 s i)
          (initialize-Table v g) i in
      rw e (
        record w { tick = w.tick + 1; timestamps = stamps },
        s',
        refl,
        record { rows = t.0; past = past-suc w.tick stamps t.1 },
        i',
      )

-- The LRU pager can drive the main loop: each call succeeds, no timestamp is later than the tick,
-- and the simulator's invariant is kept.
abbrev pub lru-Lawful : (o : Outside) → Lawful o pageit
lru-Lawful o = record { Good = IsLru; keeps = keeps o }
