-- ===== src/Simulator/Queue/Shuffle.antt =====
-- `initqueue`: the shuffle only rearranges the queue, so every program gets its eight jobs.
use native.Mathlib.Nat.{mod-lt}
use native.Mathlib.Decide.{ℕ_discrete}
use csci3757_operating_syste.Base.{
  ℕ, zero, suc, ◌+◌, ◌%◌, ◌≤◌, ◌<◌, ◌≡◌, refl, ◌∙◌, List, some, arith, length, length-set,
  get_elem?, get_elem?-get_or, get_elem?-set_self, get_elem?-set_ne, get_or, set, total, total-set,
  ◌==◌, if◌then◌else◌,
}
use csci3757_operating_syste.Simulator.Branching.{Random}
use csci3757_operating_syste.Simulator.Queue.{
  queue_size, first_types, exchange, shuffle_round, shuffle, queue_types,
}

module _ (types : List ℕ) (i j : ℕ) where
  length-exchange : length (exchange types i j) ≡ length types
  unfolding exchange
  length-exchange =
      length-set (set types i (get_or types j 0)) j (get_or types i 0)
      ∙ length-set types i (get_or types j 0)

  -- The entry at `j`, after the first write of the exchange.
  exchange_middle :
      i < length types
      → j < length types
      → get_elem? (set types i (get_or types j 0)) j ≡ some (get_or types j 0)
  exchange_middle hi hj = elim (ℕ_discrete i j) [
    | yes e ↦ rw e (get_elem?-set_self types j (get_or types j 0) hj)
    | no n ↦ get_elem?-set_ne types i j (get_or types j 0) n ∙ get_elem?-get_or types j 0 hj
  ]

  total-exchange :
      (w : ℕ → ℕ)
      → i < length types
      → j < length types
      → total w (exchange types i j) ≡ total w types
  unfolding exchange
  total-exchange w hi hj = omega (
    arith,
    total-set w types i (get_or types i 0) (get_or types j 0) (get_elem?-get_or types i 0 hi),
    total-set w (set types i (get_or types j 0)) j (get_or types j 0) (get_or types i 0)
        (exchange_middle hi hj),
  )

-- The list is as long, and every weight adds up to the same.
abbrev Rearranged : List ℕ → List ℕ → Type 0
Rearranged ts us = (length us ≡ length ts) × ((w : ℕ → ℕ) → total w us ≡ total w ts)

Rearranged-trans : (a b c : List ℕ) → Rearranged a b → Rearranged b c → Rearranged a c
Rearranged-trans a b c p q = (q.0 ∙ p.0, λ w. q.1 w ∙ p.1 w)

shuffle_round-Rearranged :
    (r : Random) (k i n : ℕ) (types : List ℕ)
    → length types ≡ queue_size
    → i + k ≤ queue_size
    → Rearranged types (shuffle_round r k i n types)
unfolding shuffle_round
shuffle_round-Rearranged r zero i n types len h = (refl, λ w. refl)
shuffle_round-Rearranged r (suc k) i n types len h =
    let j = r.lrand48 n % queue_size in
    let below : j < queue_size = mod-lt (r.lrand48 n) (omega arith) in
    let us = exchange types i j in
    Rearranged-trans types us _
      (length-exchange types i j, λ w. total-exchange types i j w (omega arith) (omega arith))
      (shuffle_round-Rearranged r k (i + 1) (n + 1) us (length-exchange types i j ∙ len)
        (omega arith))

shuffle-Rearranged :
    (r : Random) (repeats n : ℕ) (types : List ℕ)
    → length types ≡ queue_size
    → Rearranged types (shuffle r repeats n types)
unfolding shuffle
shuffle-Rearranged r zero n types len = (refl, λ w. refl)
shuffle-Rearranged r (suc repeats) n types len =
    let once = shuffle_round-Rearranged r queue_size 0 n types len (omega arith) in
    Rearranged-trans types (shuffle_round r queue_size 0 n types) _ once (
      shuffle-Rearranged r repeats (n + queue_size) (shuffle_round r queue_size 0 n types)
        (once.0 ∙ len))

pub length-queue_types : (r : Random) → length (queue_types r) ≡ queue_size
unfolding queue_types first_types
length-queue_types r = (shuffle-Rearranged r 10 0 (first_types queue_size 0) refl).0

-- How often a type stands in the queue.
abbrev pub count : ℕ → List ℕ → ℕ
count t = total (λ x. if x == t then 1 else 0)

first_types-count : (t : ℕ) → t < 5 → count t (first_types queue_size 0) ≡ 8
unfolding first_types total
first_types-count zero h = refl
first_types-count (suc zero) h = refl
first_types-count (suc (suc zero)) h = refl
first_types-count (suc (suc (suc zero))) h = refl
first_types-count (suc (suc (suc (suc zero)))) h = refl
first_types-count (suc (suc (suc (suc (suc t))))) h = absurd (omega arith)

-- Whatever the random numbers, the shuffled queue holds each of the five programs eight times.
pub queue_types-count : (r : Random) (t : ℕ) → t < 5 → count t (queue_types r) ≡ 8
unfolding queue_types
queue_types-count r t h =
    (shuffle-Rearranged r 10 0 (first_types queue_size 0) refl).1 (λ x. if x == t then 1 else 0)
    ∙ first_types-count t h
