-- ===== src/Simulator/Invariant/Transit.antt =====
-- A page that has been asked for is on its way for PAGEWAIT ticks: what `allage` makes of one process,
-- which no second processor runs.
pub mod Arrival
use csci3757_operating_syste.Base.{
  ℕ, zero, suc, ◌+◌, ◌-◌, ◌≤◌, ◌<◌, ◌≡◌, refl, sym, ap, ◌∙◌, ◌≢◌, ◌⊎◌, inl, inr, Bool, true, false,
  Option, none, some, List, [], ◌∷◌, ℤ, pos, negsuc, arith, length, get_elem?, set, update_first,
  total_first, ltb, leb, ◌==◌, Bool-cases, Option-cases, get_elem?-set_ne, get_elem?-set_self,
  get_elem?-lt, if◌then◌else◌,
}
use csci3757_operating_syste.Simulator.Types.{page_wait, going, coming, Process, Sim}
use csci3757_operating_syste.Simulator.Process.{Outside}
use csci3757_operating_syste.Simulator.Pointers.{Distinct, ne_of_test}
use csci3757_operating_syste.Simulator.Paging.{
  deref_slot, deref, if_active, live, put_page, age_page, aged_out, age_process, age_slot, age_from,
  allage, pagein, pageout,
}
use csci3757_operating_syste.Simulator.Invariant.{Inv, live-some}
use csci3757_operating_syste.Simulator.Invariant.Ageing.{allage-Inv}

-- The processor at `i` runs the job at `k` of the queue, which is `q`.
pub record Runs (s : Sim) (i k : ℕ) (q : Process) : Type 0 where
  pub below : i < s.procs
  pub pointer : get_elem? s.processes i ≡ some (some k)
  pub job : get_elem? s.queue k ≡ some q
  pub on : q.active ≡ true

pub live_of_Runs : (s : Sim) (i k : ℕ) (q : Process) → Runs s i k q → live s i ≡ some (k, q)
unfolding live deref
live_of_Runs s i k q r = ground (arith, r.below, r.pointer, r.job, r.on)

deref_slot-pointer :
    (queue : List Process) (x : Option (Option ℕ)) (k : ℕ) (q : Process)
    → deref_slot queue x ≡ some (k, q)
    → (x ≡ some (some k)) × (get_elem? queue k ≡ some q)
deref_slot-pointer queue none k q e = absurd (ground arith)
deref_slot-pointer queue (some none) k q e = absurd (ground arith)
deref_slot-pointer queue (some (some j)) k q e = ground arith

live-pointer :
    (s : Sim) (i k : ℕ) (q : Process)
    → live s i ≡ some (k, q)
    → get_elem? s.processes i ≡ some (some k)
unfolding live deref
live-pointer s i k q e = ground (arith, deref_slot-pointer s.queue (get_elem? s.processes i) k q)

pub live-Runs : (s : Sim) (i k : ℕ) (q : Process) → live s i ≡ some (k, q) → Runs s i k q
live-Runs s i k q e =
    let (at, on, below) = live-some s i k q e in
    record { below = below; pointer = live-pointer s i k q e; job = at; on = on }

gt_ne : (a i : ℕ) → i < a → a ≢ i
gt_ne a i h e = omega (arith, e)

age_slot-other :
    (s : Sim) (i j k : ℕ) (q : Process)
    → Distinct s.processes
    → Runs s i k q
    → j ≢ i
    → Runs (age_slot j s) i k q
unfolding age_slot
age_slot-other s i j k q d r ne = elim (Option-cases (live s j)) [
  | inl e ↦ rw (e, age_slot) r
  | inr ((m, p), e) ↦
      let apart : m ≢ k = λ same.
        ne (d.same_slot j i k (live-pointer s j m p e ∙ ap (λ x. some (some x)) same) r.pointer) in
      rw (e, age_slot)
        (record {
          below = r.below;
          pointer = r.pointer;
          job = get_elem?-set_ne s.queue m k (age_process p) apart ∙ r.job;
          on = r.on;
        })
]

age_slot-own :
    (s : Sim) (i k : ℕ) (q : Process) → Runs s i k q → Runs (age_slot i s) i k (age_process q)
unfolding age_slot
age_slot-own s i k q r =
    rw (live_of_Runs s i k q r, age_slot)
      (record {
        below = r.below;
        pointer = r.pointer;
        job = get_elem?-set_self s.queue k (age_process q) (get_elem?-lt s.queue k q r.job);
        on = r.on;
      })

age_slot-processes :
    (j : ℕ) (s : Sim) → ((age_slot j s).processes ≡ s.processes) × ((age_slot j s).procs ≡ s.procs)
unfolding age_slot
age_slot-processes j s = elim (Option-cases (live s j)) [
  | inl e ↦ rw (e, age_slot) (refl, refl)
  | inr ((m, p), e) ↦ rw (e, age_slot) (refl, refl)
]

age_slot-Distinct : (j : ℕ) (s : Sim) → Distinct s.processes → Distinct (age_slot j s).processes
age_slot-Distinct j s d = rw ((age_slot-processes j s).0) d

-- The rounds after the processor's own.
age_from-after :
    (n a i k : ℕ) (s : Sim) (q : Process)
    → Distinct s.processes
    → i < a
    → Runs s i k q
    → Runs (age_from n a s) i k q
unfolding age_from
age_from-after zero a i k s q d h r = r
age_from-after (suc n) a i k s q d h r =
    age_from-after n (a + 1) i k (age_slot a s) q (age_slot-Distinct a s d) (omega arith)
      (age_slot-other s i a k q d r (gt_ne a i h))

age_from-once :
    (n a i k : ℕ) (s : Sim) (q : Process)
    → Distinct s.processes
    → a ≤ i
    → i < a + n
    → Runs s i k q
    → Runs (age_from n a s) i k (age_process q)
unfolding age_from
age_from-once zero a i k s q d l h r = absurd (omega arith)
age_from-once (suc n) a i k s q d l h r = elim (Bool-cases (a == i)) [
  | inl t ↦
      let same : a ≡ i = ground arith in
      age_from-after n (a + 1) i k (age_slot a s) (age_process q) (age_slot-Distinct a s d)
        (omega arith) (rw same (age_slot-own s i k q r))
  | inr f ↦
      let apart : a ≢ i = ne_of_test a i f in
      age_from-once n (a + 1) i k (age_slot a s) q (age_slot-Distinct a s d) (ground arith)
        (omega arith) (age_slot-other s i a k q d r apart)
]

-- One tick ages each running process exactly once.
pub allage-Runs :
    (s : Sim) (i k : ℕ) (q : Process)
    → Distinct s.processes
    → Runs s i k q
    → Runs (allage s) i k (age_process q)
unfolding allage
allage-Runs s i k q d r = age_from-once s.procs 0 i k s q d (omega arith) (omega (arith, r.below)) r
