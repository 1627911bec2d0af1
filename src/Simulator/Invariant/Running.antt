-- ===== src/Simulator/Invariant/Running.antt =====
-- The main loop, with any pager that keeps the invariant.
use csci3757_operating_syste.Base.{
  ℕ, zero, suc, ◌+◌, ◌≡◌, refl, ◌⊎◌, inl, inr, true, Result, ok, err, out_of_fuel, Bool-cases,
}
use csci3757_operating_syste.Simulator.Types.{Sim}
use csci3757_operating_syste.Simulator.Process.{Outside}
use csci3757_operating_syste.Simulator.Paging.{allage}
use csci3757_operating_syste.Simulator.Control.{alldone, Pager, callyou, tick, simulate}
use csci3757_operating_syste.Simulator.Invariant.{Inv}
use csci3757_operating_syste.Simulator.Invariant.Ageing.{allage-Inv}
use csci3757_operating_syste.Simulator.Invariant.Stepping.{allstep-Inv}

-- A call succeeds, and leaves the invariant and the pager's own variables in order.
abbrev pub Serves : {S : Type 0} → Outside → (S → Type 0) → Result (S × Sim) → Type 0
Serves {S} o Good r = (v : S) × (s : Sim) × (r ≡ ok (v, s)) × Good v × Inv o s

-- What the main loop needs of a pager; `Good` is its own invariant.
pub record Lawful (o : Outside) {S : Type 0} (pageit : Pager S) : Type 1 where
  pub Good : S → Type 0
  pub keeps : (v : S) (s : Sim) → Good v → Inv o s → Serves o Good (callyou pageit v s)

-- The main loop has ended as it should: every process is done.
abbrev pub Ended : {S : Type 0} → Outside → (S → Type 0) → Result (S × Sim) → Type 0
Ended {S} o Good r = (v : S) × (s : Sim) × (r ≡ ok (v, s)) × (alldone s ≡ true) × Good v × Inv o s

module _ (o : Outside) {S : Type 0} (pageit : Pager S) (law : Lawful o pageit) where
  open law use {Good, keeps}

  -- One time step succeeds and keeps the invariant: the processes step, the page timers run, and the
  -- pager is called.
  pub tick-Serves : (v : S) (s : Sim) → Good v → Inv o s → Serves o Good (tick o pageit v s)
  unfolding tick
  tick-Serves v s g i =
      let (s1, e1, i1) = allstep-Inv o s i in
      let (v2, s2, e2, g2, i2) = keeps v (allage s1) g (allage-Inv o s1 i1) in
      rw (e1, e2)
        (
          v2,
          record s2 { sysclock = s2.sysclock + 1 },
          refl,
          g2,
          record {
            few = i2.few;
            slot_table = i2.slot_table;
            queue_table = i2.queue_table;
            handed_out = i2.handed_out;
            pointers = i2.pointers;
            distinct = i2.distinct;
            jobs = i2.jobs;
            frames = i2.frames;
          },
        )

  -- With a lawful pager the simulation never fails: after any number of time steps it is either
  -- still running, or it has stopped with every process done and all physical pages accounted for.
  pub simulate-Ended :
      (fuel : ℕ) (v : S) (s : Sim)
      → Good v
      → Inv o s
      → (simulate o pageit fuel v s ≡ err out_of_fuel) ⊎ Ended o Good (simulate o pageit fuel v s)
  unfolding simulate
  simulate-Ended zero v s g i = inl refl
  simulate-Ended (suc fuel) v s g i = elim (Bool-cases (alldone s)) [
    | inl done ↦ rw (done, simulate) (inr (v, s, refl, done, g, i))
    | inr more ↦
        let (v', s', e, g', i') = tick-Serves v s g i in
        rw (more, simulate) (rw e (simulate-Ended fuel v' s' g' i'))
  ]
