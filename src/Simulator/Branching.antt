-- ===== src/Simulator/Branching.antt =====
-- PA4/PA4/simulator.c: the branching engine (`bcontext_clear`, `bcontext_init`, `bcontext_decide`).
-- The random numbers are a parameter: the values of the successive calls of drand48 and lrand48.
pub mod Decide
pub mod Rings
pub mod Init
use csci3757_operating_syste.Base.{
  ℕ, zero, suc, ◌+◌, ◌-◌, ◌*◌, ◌%◌, ◌^◌, ◌<◌, ◌≡◌, Bool, true, false, not, List, [], ◌∷◌, Result,
  ok, err, assertion, out_of_bounds, zero_divisor, out_of_fuel, ◌>>=◌, ◌>>◌, or_err, assert, ltb,
  leb, ◌==◌, same, if◌then◌else◌, get_elem?, get_or, set, replicate,
}
use csci3757_operating_syste.Simulator.Types.{
  max_brings, Branch, BranchType, goto_always, for_loop, nfor_loop, if_random, Bcontext,
}

-- drand48 gives x / 2 ^ 48 for a whole x. A call is named by the number of calls before it.
pub record Random : Type 0 where
  pub drand48 : ℕ → ℕ
  pub lrand48 : ℕ → ℕ

-- `drand48() < prob`, with `prob` in tenths
abbrev pub binary : Random → ℕ → ℕ → Bool
binary r n prob = ltb (r.drand48 n * 10) (prob * 2 ^ 48)

unfoldable pub bcontext_clear : Bcontext → Bcontext
bcontext_clear c = record c {
  bcount = 0;
  boffset = 0;
  bsize = 1;
  bvalue = true;
  brings = 1 ∷ replicate 99 0;
}

-- The loop of the IF case on fuel; an error when the fuel runs out. The result is `bsize`, `brings`
-- and the number of random numbers drawn. The last write is one past the end of `brings`, into the
-- next context's `btype`, which nothing reads: here it changes nothing.
unfoldable pub if_rings : Random → ℕ → ℕ → ℕ → List ℕ → Bool → ℕ → Result (ℕ × List ℕ × ℕ)
if_rings r prob zero bsize brings cvalue n = err out_of_fuel
if_rings r prob (suc fuel) bsize brings cvalue n = elim (ltb bsize max_brings) [
  | false ↦ ok (bsize, brings, n)
  | true ↦ elim (same (binary r n prob) cvalue) [
    | true ↦
        if_rings r prob fuel bsize (set brings bsize (get_or brings bsize 0 + 1)) cvalue (n + 1)
    | false ↦ if_rings r prob fuel (bsize + 1) (set brings (bsize + 1) 1) (not cvalue) (n + 1)
  ]
]

-- `lrand48()%(b->max-b->min)+b->min`, drawn only if max > min
abbrev ring_value : Random → ℕ → ℕ → ℕ → ℕ
ring_value r lo hi n = if ltb lo hi then r.lrand48 n % (hi - lo) + lo else lo

abbrev draws : ℕ → ℕ → ℕ → ℕ
draws lo hi n = if ltb lo hi then n + 1 else n

-- The loop of the FOR and NFOR cases, two entries a round, on fuel.
unfoldable pub for_rings : Random → ℕ → ℕ → ℕ → ℕ → List ℕ → ℕ → Result (ℕ × List ℕ × ℕ)
for_rings r lo hi zero bsize brings n = err out_of_fuel
for_rings r lo hi (suc fuel) bsize brings n = elim (ltb bsize max_brings) [
  | false ↦ ok (bsize, brings, n)
  | true ↦
      for_rings r lo hi fuel (bsize + 2)
        (set (set brings bsize (ring_value r lo hi n)) (bsize + 1) 1) (draws lo hi n)
]

-- `bsize` and `brings` as a loop leaves them.
abbrev pub with_rings : Bcontext → Result (ℕ × List ℕ × ℕ) → Result (Bcontext × ℕ)
with_rings c (err e) = err e
with_rings c (ok (bsize, brings, n)) = ok (record c { bsize = bsize; brings = brings }, n)

-- The number of rounds of the FOR and NFOR loops, and the last test.
abbrev pub for_fuel : ℕ
for_fuel = 51

-- By kind of branch. The IF case runs on the given fuel.
unfoldable pub init_kind : Random → ℕ → BranchType → Branch → Bcontext → ℕ → Result (Bcontext × ℕ)
init_kind r fuel goto_always b c n =
    ok (record c { boffset = 0; bsize = 1; bvalue = true; brings = 0x7fffffff ∷ replicate 99 0 }, n)
init_kind r fuel if_random b c n =
    let first = binary r n b.prob in
    with_rings (record c { boffset = 0; bcount = 0; bvalue = first })
      (if_rings r b.prob fuel 0 c.brings first (n + 1))
init_kind r fuel for_loop b c n =
    with_rings (record c { boffset = 0; bvalue = true })
      (for_rings r b.min b.max for_fuel 0 c.brings n)
init_kind r fuel nfor_loop b c n =
    with_rings (record c { boffset = 0; bvalue = false })
      (for_rings r b.min b.max for_fuel 0 c.brings n)

-- The context, and the count of random numbers drawn; an error if the IF loop outruns the fuel.
unfoldable pub bcontext_init : Random → ℕ → Bcontext → Branch → ℕ → Result (Bcontext × ℕ)
unfolding init_kind
bcontext_init r fuel c b n = init_kind r fuel b.btype b (record c { bcount = 0; btype = b.btype }) n

-- `(c->boffset+1)%c->bsize`
abbrev next_offset : ℕ → ℕ → Result ℕ
next_offset boffset bsize = if bsize == 0 then err zero_divisor else ok ((boffset + 1) % bsize)

-- The context after a decision: at the end of a run of equal decisions the next run begins.
unfoldable pub advance : Bcontext → ℕ → Result Bcontext
advance c ring =
    if leb ring (c.bcount + 1)
    then (next_offset c.boffset c.bsize >>= λ offset.
        ok (record c { boffset = offset; bcount = 0; bvalue = not c.bvalue }))
    else ok (record c { bcount = c.bcount + 1 })

-- The direction to take, and the context after it is taken.
unfoldable pub bcontext_decide : Bcontext → Result (Bool × Bcontext)
unfolding advance
bcontext_decide c = do
  assert (ltb c.boffset max_brings)
  ring ← or_err (get_elem? c.brings c.boffset) out_of_bounds
  c' ← advance c ring
  ok (c.bvalue, c')
