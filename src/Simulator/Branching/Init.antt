-- ===== src/Simulator/Branching/Init.antt =====
-- `bcontext_init`: the loops of the FOR and NFOR cases end, and what every case leaves behind is fit
-- for `bcontext_decide`.
use Prim.Native.Nat.{zero-le}
use csci3757_operating_syste.Base.{
  ℕ, zero, suc, ◌+◌, ◌≤◌, ◌≡◌, refl, ◌∙◌, Bool, not, subst, true, false, List, Result, ok, err,
  arith, length, get_or, set, length-set,
}
use csci3757_operating_syste.Simulator.Types.{
  max_brings, Branch, BranchType, goto_always, for_loop, nfor_loop, if_random, Bcontext,
}
use csci3757_operating_syste.Simulator.Branching.{
  Random, binary, with_rings, if_rings, for_fuel, init_kind, bcontext_init,
}
use csci3757_operating_syste.Simulator.Branching.Decide.{IsContext}
use csci3757_operating_syste.Simulator.Branching.Rings.{
  ForRings, Filled, for_rings-Filled, zero_rings-ForRings,
}

abbrev pub Starts : ℕ → ℕ → Bool → Bcontext → Type 0
Starts lo hi v c =
    IsContext c × (c.boffset ≡ 0) × (c.bcount ≡ 0) × (c.bvalue ≡ v) × ForRings lo hi 50 c.brings

abbrev pub Initialises : ℕ → ℕ → Bool → Result (Bcontext × ℕ) → Type 0
Initialises lo hi v r = (c : Bcontext) × (n : ℕ) × (r ≡ ok (c, n)) × Starts lo hi v c

with_rings-Initialises :
    (lo hi : ℕ) (c : Bcontext) (x : Result (ℕ × List ℕ × ℕ))
    → c.boffset ≡ 0
    → c.bcount ≡ 0
    → Filled lo hi x
    → Initialises lo hi c.bvalue (with_rings c x)
with_rings-Initialises lo hi c x o start (brings, n, e, len, v) = rw e (
  record c { bsize = max_brings; brings = brings },
  n,
  refl,
  (record { inside = omega arith; fits = omega arith; whole = len }, o, start, refl, v),
)

-- The direction in which a counted branch starts: FOR takes the branch, NFOR does not.
abbrev pub direction : BranchType → Bool
direction for_loop = true
direction _ = false

abbrev pub IsCounted : BranchType → Type 0
IsCounted for_loop = Unit
IsCounted nfor_loop = Unit
IsCounted goto_always = ⊥
IsCounted if_random = ⊥

init_kind-Initialises :
    (r : Random) (fuel n : ℕ) (t : BranchType) (b : Branch) (c : Bcontext)
    → IsCounted t
    → length c.brings ≡ max_brings
    → c.bcount ≡ 0
    → Initialises b.min b.max (direction t) (init_kind r fuel t b c n)
unfolding init_kind
init_kind-Initialises r fuel n goto_always b c h len start = absurd h
init_kind-Initialises r fuel n if_random b c h len start = absurd h
init_kind-Initialises r fuel n for_loop b c h len start =
    with_rings-Initialises b.min b.max (record c { boffset = 0; bvalue = true }) _ refl start
      (for_rings-Filled r b.min b.max for_fuel 0 0 c.brings n (omega arith) (omega arith)
        (omega arith) len (zero_rings-ForRings b.min b.max c.brings))
init_kind-Initialises r fuel n nfor_loop b c h len start =
    with_rings-Initialises b.min b.max (record c { boffset = 0; bvalue = false }) _ refl start
      (for_rings-Filled r b.min b.max for_fuel 0 0 c.brings n (omega arith) (omega arith)
        (omega arith) len (zero_rings-ForRings b.min b.max c.brings))

-- The initialisation of a FOR or NFOR branch ends, whatever the random numbers. The context starts
-- at entry 0 of `brings` in the direction of the kind; each even entry is a number of rounds from
-- `min` to `max` - 1 (just `min` if `max` is not above it), and each odd entry is 1.
pub bcontext_init-Starts :
    (r : Random) (fuel n : ℕ) (b : Branch) (c : Bcontext)
    → IsCounted b.btype
    → length c.brings ≡ max_brings
    → Initialises b.min b.max (direction b.btype) (bcontext_init r fuel c b n)
unfolding bcontext_init
bcontext_init-Starts r fuel n b c h len =
    init_kind-Initialises r fuel n b.btype b (record c { bcount = 0; btype = b.btype }) h len refl

-- If the loop of the IF case ends, it has filled `brings`.
if_rings-full :
    (r : Random) (prob fuel b : ℕ) (brings : List ℕ) (cvalue : Bool) (n b' n' : ℕ)
    (brings' : List ℕ)
    → b ≤ max_brings
    → if_rings r prob fuel b brings cvalue n ≡ ok (b', brings', n')
    → (b' ≡ max_brings) × (length brings' ≡ length brings)
unfolding if_rings
if_rings-full r prob zero b brings cvalue n b' n' brings' h e = cc
if_rings-full r prob (suc fuel) b brings cvalue n b' n' brings' h e = ground (
  arith,
  if_rings-full r prob fuel b (set brings b (get_or brings b 0 + 1)) cvalue (n + 1) b' n' brings',
  if_rings-full r prob fuel (b + 1) (set brings (b + 1) 1) (not cvalue) (n + 1) b' n' brings',
  length-set brings b (get_or brings b 0 + 1),
  length-set brings (b + 1) 1,
)

with_rings-IsContext :
    (c c' : Bcontext) (n' : ℕ) (x : Result (ℕ × List ℕ × ℕ))
    → ((b : ℕ) (brings : List ℕ) (n : ℕ)
        → x ≡ ok (b, brings, n)
        → (b ≡ max_brings) × (length brings ≡ max_brings))
    → c.boffset ≡ 0
    → with_rings c x ≡ ok (c', n')
    → IsContext c'
with_rings-IsContext c c' n' (err _) full o e = cc
with_rings-IsContext c c' n' (ok (b, brings, n)) full o e = ground (arith, full b brings n)

Initialises-IsContext :
    (lo hi : ℕ) (v : Bool) (x : Result (Bcontext × ℕ)) (c' : Bcontext) (n' : ℕ)
    → Initialises lo hi v x
    → x ≡ ok (c', n')
    → IsContext c'
Initialises-IsContext lo hi v x c' n' (d, m, f, s) e =
    let same : d ≡ c' = cc in subst IsContext same s.0

init_kind-IsContext :
    (r : Random) (fuel n : ℕ) (t : BranchType) (b : Branch) (c c' : Bcontext) (n' : ℕ)
    → length c.brings ≡ max_brings
    → c.bcount ≡ 0
    → init_kind r fuel t b c n ≡ ok (c', n')
    → IsContext c'
unfolding init_kind
init_kind-IsContext r fuel n goto_always b c c' n' len start e = ground arith
init_kind-IsContext r fuel n if_random b c c' n' len start e =
    with_rings-IsContext (record c { boffset = 0; bcount = 0; bvalue = binary r n b.prob }) c' n'
      (if_rings r b.prob fuel 0 c.brings (binary r n b.prob) (n + 1))
      (λ b' brings m e'.
        let full =
          if_rings-full r b.prob fuel 0 c.brings (binary r n b.prob) (n + 1) b' m brings zero-le
            e' in
        (full.0, full.1 ∙ len))
      refl e
init_kind-IsContext r fuel n for_loop b c c' n' len start e =
    Initialises-IsContext b.min b.max true _ c' n'
      (init_kind-Initialises r fuel n for_loop b c tt len start) e
init_kind-IsContext r fuel n nfor_loop b c c' n' len start e =
    Initialises-IsContext b.min b.max false _ c' n'
      (init_kind-Initialises r fuel n nfor_loop b c tt len start) e

-- Whatever the kind of branch: if the initialisation ends, `bcontext_decide` can run on its result.
pub bcontext_init-IsContext :
    (r : Random) (fuel n : ℕ) (b : Branch) (c c' : Bcontext) (n' : ℕ)
    → length c.brings ≡ max_brings
    → bcontext_init r fuel c b n ≡ ok (c', n')
    → IsContext c'
unfolding bcontext_init
bcontext_init-IsContext r fuel n b c c' n' len e =
    init_kind-IsContext r fuel n b.btype b (record c { bcount = 0; btype = b.btype }) c' n' len refl
      e
