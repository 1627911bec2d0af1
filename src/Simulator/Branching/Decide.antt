-- ===== src/Simulator/Branching/Decide.antt =====
-- `bcontext_decide`: it cannot fail on a context that was initialised, and `brings` lists the
-- lengths of the runs of equal decisions.
use native.Mathlib.Decide.{dec_le}
use native.Mathlib.Nat.{mod-lt}
use csci3757_operating_syste.Base.{
  ℕ, zero, suc, ◌+◌, ◌-◌, ◌%◌, ◌≤◌, ◌<◌, ◌≡◌, refl, Bool, not, List, [], ◌∷◌, some, Result, ok,
  arith, ◌>>=◌, length, get_elem?, get_or, get_elem?-get_or, replicate, lt→ltb,
}
use csci3757_operating_syste.Simulator.Types.{max_brings, Bcontext}
use csci3757_operating_syste.Simulator.Branching.{bcontext_decide}

-- The offset is inside of the part of `brings` that is in use.
pub record IsContext (c : Bcontext) : Type 0 where
  pub inside : c.boffset < c.bsize
  pub fits : c.bsize ≤ max_brings
  pub whole : length c.brings ≡ max_brings

-- The length of the current run.
abbrev pub run_length : Bcontext → ℕ
run_length c = get_or c.brings c.boffset 0

-- The context at the start of the next run.
abbrev pub next_run : Bcontext → Bcontext
next_run c = record c { boffset = (c.boffset + 1) % c.bsize; bcount = 0; bvalue = not c.bvalue }

-- `n` decisions, one after another.
unfoldable pub decisions : ℕ → Bcontext → Result (List Bool × Bcontext)
decisions zero c = ok ([], c)
decisions (suc n) c =
    bcontext_decide c >>= λ r. decisions n r.1 >>= λ rest. ok (r.0 ∷ rest.0, rest.1)

module _ (c : Bcontext) (v : IsContext c) where
  ring-some : get_elem? c.brings c.boffset ≡ some (run_length c)
  ring-some = get_elem?-get_or c.brings c.boffset 0 (omega (arith, v.inside, v.fits, v.whole))

  -- Inside of a run, and at its end.
  decide_inside :
      c.bcount + 1 < run_length c
      → bcontext_decide c ≡ ok (c.bvalue, record c { bcount = c.bcount + 1 })
  unfolding bcontext_decide
  decide_inside h =
      rw (lt→ltb c.boffset max_brings (omega (arith, v.inside, v.fits)), ring-some) (ground arith)

  decide_end : run_length c ≤ c.bcount + 1 → bcontext_decide c ≡ ok (c.bvalue, next_run c)
  unfolding bcontext_decide
  decide_end h =
      rw (lt→ltb c.boffset max_brings (omega (arith, v.inside, v.fits)), ring-some)
        (ground (arith, v.inside))

next_run-IsContext : (c : Bcontext) → IsContext c → IsContext (next_run c)
next_run-IsContext c v = record {
  inside = mod-lt (c.boffset + 1) (omega (arith, v.inside));
  fits = v.fits;
  whole = v.whole;
}

-- A decision on an initialised context succeeds, answers the current direction, and leaves the
-- context fit for the next decision.
pub bcontext_decide-IsContext :
    (c : Bcontext)
    → IsContext c
    → (c' : Bcontext) × (bcontext_decide c ≡ ok (c.bvalue, c')) × IsContext c'
bcontext_decide-IsContext c v = elim (dec_le (run_length c) (c.bcount + 1)) [
  | yes h ↦ (next_run c, decide_end c v h, next_run-IsContext c v)
  | no h ↦ (
    record c { bcount = c.bcount + 1 },
    decide_inside c v (omega arith),
    record { inside = v.inside; fits = v.fits; whole = v.whole },
  )
]

decisions_run :
    (k : ℕ) (c : Bcontext)
    → IsContext c
    → run_length c ≡ c.bcount + suc k
    → decisions (suc k) c ≡ ok (replicate (suc k) c.bvalue, next_run c)
unfolding decisions
decisions_run zero c v h = rw (decide_end c v (omega arith)) refl
decisions_run (suc k) c v h =
    rw (decide_inside c v (omega arith), decisions)
      (let again =
          decisions_run k (record c { bcount = c.bcount + 1 })
            (record { inside = v.inside; fits = v.fits; whole = v.whole }) (omega arith) in
        ground (arith, again))

-- From the start of a run of length n, the next n decisions all take the current direction; then
-- the direction turns, and the next entry of `brings`, cyclically, is the length of the next run.
pub decisions-next_run :
    (c : Bcontext)
    → IsContext c
    → c.bcount ≡ 0
    → 0 < run_length c
    → decisions (run_length c) c ≡ ok (replicate (run_length c) c.bvalue, next_run c)
decisions-next_run c v e h =
    let n : run_length c ≡ suc (run_length c - 1) = omega arith in
    rw n (decisions_run (run_length c - 1) c v (omega arith))
