-- ===== src/Simulator/Branching/Rings.antt =====
-- `bcontext_init`: what the loop of the FOR and NFOR cases writes into `brings`.
use native.Mathlib.Decide.{dec_lt}
use native.Mathlib.Nat.{mod-lt}
use csci3757_operating_syste.Base.{
  ℕ, zero, suc, ◌+◌, ◌-◌, ◌*◌, ◌≤◌, ◌<◌, ◌≡◌, ◌∙◌, inl, inr, List, Result, ok, arith, length,
  get_or, set, length-set, get_or-set_self, get_or-set_ne, ltb, if◌then◌else◌, Bool-cases,
}
use csci3757_operating_syste.Simulator.Types.{max_brings}
use csci3757_operating_syste.Simulator.Branching.{Random, ring_value, draws, for_rings}

-- One above the largest number of rounds that a FOR branch can draw.
abbrev pub top : ℕ → ℕ → ℕ
top lo hi = if ltb lo hi then hi else lo + 1

-- The first `j` pairs of entries: a run of lo to top - 1 decisions, then one decision to leave.
pub record ForRings (lo hi j : ℕ) (brings : List ℕ) : Type 0 where
  pub low : (i : ℕ) → i < j → lo ≤ get_or brings (2 * i) 0
  pub high : (i : ℕ) → i < j → get_or brings (2 * i) 0 < top lo hi
  pub single : (i : ℕ) → i < j → get_or brings (2 * i + 1) 0 ≡ 1

ring_value_bounds :
    (r : Random) (lo hi n : ℕ) → (lo ≤ ring_value r lo hi n) × (ring_value r lo hi n < top lo hi)
ring_value_bounds r lo hi n = elim (dec_lt lo hi) [
  | yes h ↦ ground (arith, mod-lt (r.lrand48 n) {m = hi - lo} (omega arith))
  | no h ↦ ground arith
]

module _ (lo hi j v : ℕ) (brings : List ℕ) (len : 2 * j + 1 < length brings) where
  abbrev pair : List ℕ
  pair = set (set brings (2 * j) v) (2 * j + 1) 1

  pair_first : get_or pair (2 * j) 0 ≡ v
  pair_first =
      get_or-set_ne (set brings (2 * j) v) (2 * j + 1) (2 * j) 1 0 (omega arith)
      ∙ get_or-set_self brings (2 * j) v 0 (omega arith)

  pair_second : get_or pair (2 * j + 1) 0 ≡ 1
  pair_second =
      get_or-set_self (set brings (2 * j) v) (2 * j + 1) 1 0
        (omega (arith, length-set brings (2 * j) v))

  pair_other : (k : ℕ) → k < 2 * j → get_or pair k 0 ≡ get_or brings k 0
  pair_other k h =
      get_or-set_ne (set brings (2 * j) v) (2 * j + 1) k 1 0 (omega arith)
      ∙ get_or-set_ne brings (2 * j) k v 0 (omega arith)

  pair-ForRings : lo ≤ v → v < top lo hi → ForRings lo hi j brings → ForRings lo hi (j + 1) pair
  pair-ForRings l u f = record {
    low = λ i h. elim (dec_lt i j) [
      | yes old ↦ omega (arith, pair_other (2 * i) (omega arith), f.low i old)
      | no new ↦ let e : i ≡ j = omega arith in rw e (omega (arith, pair_first))
    ];
    high = λ i h. elim (dec_lt i j) [
      | yes old ↦ rw (pair_other (2 * i) (omega arith)) (f.high i old)
      | no new ↦ let e : i ≡ j = omega arith in rw (e, pair_first) u
    ];
    single = λ i h. elim (dec_lt i j) [
      | yes old ↦ pair_other (2 * i + 1) (omega arith) ∙ f.single i old
      | no new ↦ let e : i ≡ j = omega arith in rw e pair_second
    ];
  }

-- Every entry is set: the loop has written `brings` to its end.
abbrev pub Filled : ℕ → ℕ → Result (ℕ × List ℕ × ℕ) → Type 0
Filled lo hi r =
    (brings : List ℕ) × (n : ℕ) × (r ≡ ok (max_brings, brings, n))
    × (length brings ≡ max_brings)
    × ForRings lo hi 50 brings

pub for_rings-Filled :
    (r : Random) (lo hi fuel j b : ℕ) (brings : List ℕ) (n : ℕ)
    → b ≡ 2 * j
    → j ≤ 50
    → 50 < j + fuel
    → length brings ≡ max_brings
    → ForRings lo hi j brings
    → Filled lo hi (for_rings r lo hi fuel b brings n)
unfolding for_rings
for_rings-Filled r lo hi zero j b brings n e h f len v = absurd (omega arith)
for_rings-Filled r lo hi (suc fuel) j b brings n e h f len v =
    elim (Bool-cases (ltb b max_brings)) [
      | inl more ↦
          let w = ring_value r lo hi n in
          let bounds = ring_value_bounds r lo hi n in
          let pair_len : length (pair lo hi j w brings (ground arith)) ≡ max_brings =
            length-set (set brings (2 * j) w) (2 * j + 1) 1 ∙ length-set brings (2 * j) w ∙ len in
          rw (more, for_rings)
            (rw e (
              for_rings-Filled r lo hi fuel (j + 1) (2 * j + 2)
                (pair lo hi j w brings (ground arith)) (draws lo hi n) (omega arith) (ground arith)
                (omega arith) pair_len
                (pair-ForRings lo hi j w brings (ground arith) bounds.0 bounds.1 v)))
      | inr done ↦
          let last : j ≡ 50 = ground arith in
          rw (done, for_rings) (brings, n, ground arith, len, rw (← last) v)
    ]

pub zero_rings-ForRings : (lo hi : ℕ) (brings : List ℕ) → ForRings lo hi 0 brings
zero_rings-ForRings lo hi brings = record {
  low = λ i h. absurd (omega arith);
  high = λ i h. absurd (omega arith);
  single = λ i h. absurd (omega arith);
}
