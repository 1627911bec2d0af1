-- ===== src/Simulator/Invariant/Starting.antt =====
-- `allinit` fails in no other way than that the IF loop of a branch outruns its fuel.
use csci3757_operating_syste.Base.{
  ℕ, zero, suc, ◌+◌, ◌%◌, ◌≤◌, ◌<◌, ◌≡◌, refl, ◌⊎◌, inl, inr, Bool, true, false, not, List, [], ◌∷◌,
  Option, none, some, Result, ok, err, Error, out_of_fuel, out_of_bounds, ◌>>=◌, or_err, assert,
  arith, length, length-set, get_elem?, get_elem?-some, get_or, set, All, All-get, All-set,
  branches, ltb,
}
use csci3757_operating_syste.Simulator.Types.{
  max_branches, max_brings, BranchType, goto_always, if_random, for_loop, nfor_loop, Branch,
  Program, Bcontext, Process,
}
use csci3757_operating_syste.Simulator.Programs.{programs}
use csci3757_operating_syste.Simulator.Branching.{
  Random, with_rings, if_rings, for_rings, init_kind, bcontext_init, binary,
}
use csci3757_operating_syste.Simulator.Process.{Outside, process_clear, init_contexts, process_load}
use csci3757_operating_syste.Simulator.Process.WellFormed.{IsProgram}
use csci3757_operating_syste.Simulator.Queue.{
  program_count, queue_size, zero_process, first_types, exchange, shuffle_round, shuffle,
  load_queue, queue_types, initqueue, allinit,
}
use csci3757_operating_syste.Simulator.Invariant.Loading.{programs-IsProgram}

-- A result, or the end of the fuel.
abbrev pub Tame {ℓ} : {A : Type ℓ} → Result A → Type 0
Tame (ok a) = Unit
Tame (err e) = e ≡ out_of_fuel

>>=-Tame {ℓ κ} :
    {A : Type ℓ} {B : Type κ} (x : Result A) (f : A → Result B)
    → Tame x
    → ((a : A) → Tame (f a))
    → Tame (x >>= f)
>>=-Tame (ok a) f h g = g a
>>=-Tame (err e) f h g = h

or_err-Tame {ℓ κ} :
    {A : Type ℓ} {B : Type κ} (x : Option A) (a : A) (e : Error) (f : A → Result B)
    → x ≡ some a
    → Tame (f a)
    → Tame (or_err x e >>= f)
or_err-Tame none a e f h t = cc
or_err-Tame (some b) a e f h t = let same : b ≡ a = cc in rw same t

pub Tame-cases {ℓ} :
    {A : Type ℓ} (x : Result A) → Tame x → (x ≡ err out_of_fuel) ⊎ ((a : A) × (x ≡ ok a))
Tame-cases (ok a) h = inr (a, refl)
Tame-cases (err e) h = inl (rw h refl)

if_rings-Tame :
    (r : Random) (prob fuel bsize : ℕ) (brings : List ℕ) (v : Bool) (n : ℕ)
    → Tame (if_rings r prob fuel bsize brings v n)
unfolding if_rings
if_rings-Tame r prob zero bsize brings v n = refl
if_rings-Tame r prob (suc fuel) bsize brings v n =
    branches Tame (ltb bsize max_brings)
      (branches Tame _ (if_rings-Tame r prob fuel bsize _ v (n + 1))
        (if_rings-Tame r prob fuel (bsize + 1) _ (not v) (n + 1)))
      tt

for_rings-Tame :
    (r : Random) (lo hi fuel bsize : ℕ) (brings : List ℕ) (n : ℕ)
    → Tame (for_rings r lo hi fuel bsize brings n)
unfolding for_rings
for_rings-Tame r lo hi zero bsize brings n = refl
for_rings-Tame r lo hi (suc fuel) bsize brings n =
    branches Tame (ltb bsize max_brings) (for_rings-Tame r lo hi fuel (bsize + 2) _ _) tt

with_rings-Tame : (c : Bcontext) (x : Result (ℕ × List ℕ × ℕ)) → Tame x → Tame (with_rings c x)
with_rings-Tame c (err e) h = h
with_rings-Tame c (ok (bsize, brings, n)) h = tt

init_kind-Tame :
    (r : Random) (fuel : ℕ) (t : BranchType) (b : Branch) (c : Bcontext) (n : ℕ)
    → Tame (init_kind r fuel t b c n)
unfolding init_kind
init_kind-Tame r fuel goto_always b c n = tt
init_kind-Tame r fuel if_random b c n =
    with_rings-Tame (record c { boffset = 0; bcount = 0; bvalue = binary r n b.prob }) _
      (if_rings-Tame r b.prob fuel 0 c.brings _ (n + 1))
init_kind-Tame r fuel for_loop b c n =
    with_rings-Tame (record c { boffset = 0; bvalue = true }) _
      (for_rings-Tame r b.min b.max _ 0 c.brings n)
init_kind-Tame r fuel nfor_loop b c n =
    with_rings-Tame (record c { boffset = 0; bvalue = false }) _
      (for_rings-Tame r b.min b.max _ 0 c.brings n)

bcontext_init-Tame :
    (r : Random) (fuel : ℕ) (c : Bcontext) (b : Branch) (n : ℕ) → Tame (bcontext_init r fuel c b n)
unfolding bcontext_init
bcontext_init-Tame r fuel c b n =
    init_kind-Tame r fuel b.btype b (record c { bcount = 0; btype = b.btype }) n

init_contexts-Tame :
    (r : Random) (fuel k i : ℕ) (cs : List Bcontext) (bs : List Branch) (n : ℕ)
    → i + k ≤ length cs
    → i + k ≤ length bs
    → Tame (init_contexts r fuel k i cs bs n)
unfolding init_contexts
init_contexts-Tame r fuel zero i cs bs n hc hb = tt
init_contexts-Tame r fuel (suc k) i cs bs n hc hb =
    let (c, ec) = get_elem?-some cs i (omega (arith, hc)) in
    let (b, eb) = get_elem?-some bs i (omega (arith, hb)) in
    or_err-Tame (get_elem? cs i) c out_of_bounds _ ec (
      or_err-Tame (get_elem? bs i) b out_of_bounds _ eb (
        >>=-Tame (bcontext_init r fuel c b n) _ (bcontext_init-Tame r fuel c b n) (λ x.
          init_contexts-Tame r fuel k (i + 1) (set cs i x.0) bs x.1
            (omega (arith, hc, length-set cs i x.0)) (omega (arith, hb)))))

process_load-Tame :
    (o : Outside) (r : Random) (fuel : ℕ) (q : Process) (p : Program) (pid kind n : ℕ)
    → IsProgram o p
    → length q.bcontexts ≡ max_branches
    → Tame (process_load r fuel q p pid kind n)
unfolding process_load
process_load-Tame o r fuel q p pid kind n w len =
    let few : ltb p.nbranches max_branches ≡ true = ground (arith, w.few_branches) in
    >>=-Tame (assert (ltb p.nbranches max_branches)) _ (rw few tt) (λ u.
      >>=-Tame (init_contexts r fuel p.nbranches 0 q.bcontexts p.branches n) _
        (init_contexts-Tame r fuel p.nbranches 0 q.bcontexts p.branches n
          (omega (arith, w.few_branches, len)) (omega (arith, w.few_branches, w.branch_table)))
        (λ x. tt))

-- The entries of the job queue are numbers of programs.
abbrev IsKind : ℕ → Type 0
IsKind t = t < program_count

first_types-IsKind : (n i : ℕ) → All IsKind (first_types n i)
unfolding first_types
first_types-IsKind zero i = tt
first_types-IsKind (suc n) i = (omega arith, first_types-IsKind n (i + 1))

get_or-IsKind : (ts : List ℕ) (i : ℕ) → All IsKind ts → IsKind (get_or ts i 0)
get_or-IsKind [] i a = omega arith
get_or-IsKind (t ∷ ts) zero a = a.0
get_or-IsKind (t ∷ ts) (suc i) a = get_or-IsKind ts i a.1

exchange-IsKind : (ts : List ℕ) (i j : ℕ) → All IsKind ts → All IsKind (exchange ts i j)
unfolding exchange
exchange-IsKind ts i j a =
    All-set IsKind (set ts i (get_or ts j 0)) j (get_or ts i 0)
      (All-set IsKind ts i (get_or ts j 0) a (get_or-IsKind ts j a)) (get_or-IsKind ts i a)

shuffle_round-IsKind :
    (r : Random) (k i n : ℕ) (ts : List ℕ) → All IsKind ts → All IsKind (shuffle_round r k i n ts)
unfolding shuffle_round
shuffle_round-IsKind r zero i n ts a = a
shuffle_round-IsKind r (suc k) i n ts a =
    shuffle_round-IsKind r k (i + 1) (n + 1) (exchange ts i (r.lrand48 n % queue_size))
      (exchange-IsKind ts i (r.lrand48 n % queue_size) a)

shuffle-IsKind :
    (r : Random) (k n : ℕ) (ts : List ℕ) → All IsKind ts → All IsKind (shuffle r k n ts)
unfolding shuffle
shuffle-IsKind r zero n ts a = a
shuffle-IsKind r (suc k) n ts a =
    shuffle-IsKind r k (n + queue_size) (shuffle_round r queue_size 0 n ts)
      (shuffle_round-IsKind r queue_size 0 n ts a)

cleared_length : length (process_clear zero_process).bcontexts ≡ max_branches
unfolding process_clear
cleared_length = refl

load_queue-Tame :
    (o : Outside) (r : Random) (fuel : ℕ) (ts : List ℕ) (i n : ℕ)
    → o.wherefrom ≡ 0
    → All IsKind ts
    → Tame (load_queue r fuel ts i n)
unfolding load_queue
load_queue-Tame o r fuel [] i n z a = tt
load_queue-Tame o r fuel (t ∷ ts) i n z a =
    let (p, e) = get_elem?-some programs t (a.0) in
    let w = All-get (IsProgram o) programs t p (programs-IsProgram o z) e in
    or_err-Tame (get_elem? programs t) p out_of_bounds _ e (
      >>=-Tame (process_load r fuel (process_clear zero_process) p i t n) _
        (process_load-Tame o r fuel (process_clear zero_process) p i t n w cleared_length)
        (λ x.
          >>=-Tame (load_queue r fuel ts (i + 1) x.1) _
            (load_queue-Tame o r fuel ts (i + 1) x.1 z a.1) (λ rest. tt)))

-- The initialisation fails in no other way than that the IF loop of a branch outruns its fuel.
pub allinit-Tame :
    (o : Outside) (r : Random) (fuel procs : ℕ) → o.wherefrom ≡ 0 → Tame (allinit r fuel procs)
unfolding allinit initqueue queue_types
allinit-Tame o r fuel procs z =
    >>=-Tame (load_queue r fuel (queue_types r) 0 400) _
      (load_queue-Tame o r fuel (queue_types r) 0 400 z
        (shuffle-IsKind r 10 0 (first_types queue_size 0) (first_types-IsKind queue_size 0)))
      (λ queue. tt)
