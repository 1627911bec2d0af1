-- ===== src/Threads/Counter/Bounds.antt =====
-- What the index can be: every thread counts at most once.
use csci3757_operating_syste.Base.{
  ℕ, ◌+◌, ◌≤◌, ◌≡◌, refl, sym, subst, inl, inr, some, List, [], ◌∷◌, ℤ, pos, pos_part, neg_part,
  arith, get_elem?, set, total, total-set, Option-cases, All, All-get, All-set, total-le,
}
use csci3757_operating_syste.Threads.Counter.{
  Kind, increment, decrement, Phase, begun, written, holding, Worker, Shared, changed, move, act,
  acts,
}

-- How many threads have read the index to raise it, or to lower it.
abbrev pub started : Phase → ℕ
started begun = 0
started written = 1
started (holding z) = 1

abbrev pub raises : Worker → ℕ
raises t = elim (t.kind) [ increment ↦ started t.phase | decrement ↦ 0 ]

abbrev pub lowers : Worker → ℕ
lowers t = elim (t.kind) [ increment ↦ 0 | decrement ↦ started t.phase ]

-- From `n`, at most `up` above and `down` below.
pub record Near (n up down : ℕ) (z : ℤ) : Type 0 where
  pub above : n + neg_part z ≤ pos_part z + down
  pub below : pos_part z ≤ n + up + neg_part z

abbrev pub HoldsNear : ℕ → ℕ → ℕ → Phase → Type 0
HoldsNear n up down begun = Unit
HoldsNear n up down written = Unit
HoldsNear n up down (holding z) = Near n up down z

abbrev pub raiser : Worker → ℕ
raiser t = elim (t.kind) [ increment ↦ 1 | decrement ↦ 0 ]

abbrev pub lowerer : Worker → ℕ
lowerer t = elim (t.kind) [ increment ↦ 0 | decrement ↦ 1 ]

-- With `u` threads that raise and `d` that lower.
pub record Bounded (n u d : ℕ) (s : Shared) : Type 0 where
  pub raisers : total raiser s.threads ≡ u
  pub lowerers : total lowerer s.threads ≡ d
  pub near : Near n (total raises s.threads) (total lowers s.threads) s.index
  pub held :
      All (λ t. HoldsNear n (total raises s.threads) (total lowers s.threads) t.phase) s.threads

Near-weaken :
    (n up down up' down' : ℕ) (z : ℤ)
    → up ≤ up'
    → down ≤ down'
    → Near n up down z
    → Near n up' down' z
Near-weaken n up down up' down' z a b h = omega (arith, h.above, h.below, a, b)

HoldsNear-weaken :
    (n up down up' down' : ℕ) (p : Phase)
    → up ≤ up'
    → down ≤ down'
    → HoldsNear n up down p
    → HoldsNear n up' down' p
HoldsNear-weaken n up down up' down' begun a b h = tt
HoldsNear-weaken n up down up' down' written a b h = tt
HoldsNear-weaken n up down up' down' (holding z) a b h = Near-weaken n up down up' down' z a b h

All_weaken :
    (n up down up' down' : ℕ) (ts : List Worker)
    → up ≤ up'
    → down ≤ down'
    → All (λ t. HoldsNear n up down t.phase) ts
    → All (λ t. HoldsNear n up' down' t.phase) ts
All_weaken n up down up' down' [] a b h = tt
All_weaken n up down up' down' (t ∷ ts) a b (h, hs) =
    (HoldsNear-weaken n up down up' down' t.phase a b h, All_weaken n up down up' down' ts a b hs)

raised : (n up down : ℕ) (z : ℤ) → Near n up down z → Near n (up + 1) down (changed increment z)
raised n up down z h = ground (arith, h.above, h.below)

lowered : (n up down : ℕ) (z : ℤ) → Near n up down z → Near n up (down + 1) (changed decrement z)
lowered n up down z h = ground (arith, h.above, h.below)

module _ (n u d i : ℕ) (s : Shared) (v : Bounded n u d s) where
  -- A thread moves on, and the index becomes `z`.
  thread_moves :
      (t t' : Worker) (z : ℤ)
      → get_elem? s.threads i ≡ some t
      → raiser t' ≡ raiser t
      → lowerer t' ≡ lowerer t
      → raises t ≤ raises t'
      → lowers t ≤ lowers t'
      → Near n (total raises (set s.threads i t')) (total lowers (set s.threads i t')) z
      → HoldsNear n (total raises (set s.threads i t')) (total lowers (set s.threads i t')) t'.phase
      → Bounded n u d (record { index = z; threads = set s.threads i t' })
  thread_moves t t' z e a b up down near held =
      let more = total-set raises s.threads i t t' e in
      let less = total-set lowers s.threads i t t' e in
      record {
        raisers = omega (arith, v.raisers, a, total-set raiser s.threads i t t' e);
        lowerers = omega (arith, v.lowerers, b, total-set lowerer s.threads i t t' e);
        near = near;
        held =
            All-set
              (λ x.
                HoldsNear n (total raises (set s.threads i t')) (total lowers (set s.threads i t'))
                  x.phase)
              s.threads i t'
              (All_weaken n (total raises s.threads) (total lowers s.threads)
                (total raises (set s.threads i t')) (total lowers (set s.threads i t')) s.threads
                (omega (arith, more, up)) (omega (arith, less, down)) v.held)
              held;
      }

  still-Near :
      (t t' : Worker) (z : ℤ)
      → get_elem? s.threads i ≡ some t
      → raises t ≤ raises t'
      → lowers t ≤ lowers t'
      → Near n (total raises s.threads) (total lowers s.threads) z
      → Near n (total raises (set s.threads i t')) (total lowers (set s.threads i t')) z
  still-Near t t' z e up down h =
      Near-weaken n (total raises s.threads) (total lowers s.threads)
        (total raises (set s.threads i t')) (total lowers (set s.threads i t')) z
        (omega (arith, total-set raises s.threads i t t' e, up))
        (omega (arith, total-set lowers s.threads i t t' e, down)) h

  written-Bounded :
      (k : Kind) (z : ℤ)
      → get_elem? s.threads i ≡ some (record { kind = k; phase = holding z })
      → raises (record { kind = k; phase = holding z })
        ≡ raises (record { kind = k; phase = written })
      → lowers (record { kind = k; phase = holding z })
        ≡ lowers (record { kind = k; phase = written })
      → Bounded n u d (move i (record { kind = k; phase = holding z }) (holding z) s)
  written-Bounded k z e a b =
      let t : Worker = record { kind = k; phase = holding z } in
      let t' : Worker = record { kind = k; phase = written } in
      let near =
        All-get (λ x. HoldsNear n (total raises s.threads) (total lowers s.threads) x.phase)
          s.threads i t v.held e in
      thread_moves t t' z e refl refl (omega (arith, a)) (omega (arith, b))
        (still-Near t t' z e (omega (arith, a)) (omega (arith, b)) near) tt

  move-Bounded :
      (k : Kind) (p : Phase)
      → get_elem? s.threads i ≡ some (record { kind = k; phase = p })
      → Bounded n u d (move i (record { kind = k; phase = p }) p s)
  move-Bounded increment begun e =
      let t : Worker = record { kind = increment; phase = begun } in
      let t' : Worker = record { kind = increment; phase = holding (changed increment s.index) } in
      thread_moves t t' s.index e refl refl (omega arith) (omega arith)
        (still-Near t t' s.index e (omega arith) (omega arith) v.near)
        (Near-weaken n (total raises s.threads + 1) (total lowers s.threads)
          (total raises (set s.threads i t')) (total lowers (set s.threads i t'))
          (changed increment s.index) (omega (arith, total-set raises s.threads i t t' e))
          (omega (arith, total-set lowers s.threads i t t' e))
          (raised n (total raises s.threads) (total lowers s.threads) s.index v.near))
  move-Bounded decrement begun e =
      let t : Worker = record { kind = decrement; phase = begun } in
      let t' : Worker = record { kind = decrement; phase = holding (changed decrement s.index) } in
      thread_moves t t' s.index e refl refl (omega arith) (omega arith)
        (still-Near t t' s.index e (omega arith) (omega arith) v.near)
        (Near-weaken n (total raises s.threads) (total lowers s.threads + 1)
          (total raises (set s.threads i t')) (total lowers (set s.threads i t'))
          (changed decrement s.index) (omega (arith, total-set raises s.threads i t t' e))
          (omega (arith, total-set lowers s.threads i t t' e))
          (lowered n (total raises s.threads) (total lowers s.threads) s.index v.near))
  move-Bounded increment (holding z) e = written-Bounded increment z e refl refl
  move-Bounded decrement (holding z) e = written-Bounded decrement z e refl refl
  move-Bounded increment written e = v
  move-Bounded decrement written e = v

act-Bounded : (n u d i : ℕ) (s : Shared) → Bounded n u d s → Bounded n u d (act i s)
unfolding act
act-Bounded n u d i s v = elim (Option-cases (get_elem? s.threads i)) [
  | inl e ↦ rw (e, act) v
  | inr (t, e) ↦ rw (e, act) (move-Bounded n u d i s v t.kind t.phase e)
]

acts-Bounded : (n u d : ℕ) (is : List ℕ) (s : Shared) → Bounded n u d s → Bounded n u d (acts is s)
unfolding acts
acts-Bounded n u d [] s v = v
acts-Bounded n u d (i ∷ is) s v = acts-Bounded n u d is (act i s) (act-Bounded n u d i s v)

raises-le : (t : Worker) → raises t ≤ raiser t
raises-le t = ground arith

lowers-le : (t : Worker) → lowers t ≤ lowerer t
lowers-le t = ground arith

begun_held :
    (n up down : ℕ) (ts : List Worker)
    → All (λ t. t.phase ≡ begun) ts
    → All (λ t. HoldsNear n up down t.phase) ts
begun_held n up down [] h = tt
begun_held n up down (t ∷ ts) (e, h) =
    (subst (HoldsNear n up down) (sym e) tt, begun_held n up down ts h)

start-Bounded :
    (n u d : ℕ) (s : Shared)
    → s.index ≡ pos n
    → All (λ t. t.phase ≡ begun) s.threads
    → total raiser s.threads ≡ u
    → total lowerer s.threads ≡ d
    → Bounded n u d s
start-Bounded n u d s e new up down = record {
  raisers = up;
  lowerers = down;
  near =
      let here : Near n (total raises s.threads) (total lowers s.threads) (pos n) = omega arith in
      subst (Near n (total raises s.threads) (total lowers s.threads)) (sym e) here;
  held = begun_held n (total raises s.threads) (total lowers s.threads) s.threads new;
}

-- Whatever the order in which the threads read and write the index without a lock: from an index n,
-- with u threads that raise it, d that lower it and none that has begun, the index is at most u above
-- n and at most d below.
pub acts-Near :
    (n u d : ℕ) (is : List ℕ) (s : Shared)
    → s.index ≡ pos n
    → All (λ t. t.phase ≡ begun) s.threads
    → total raiser s.threads ≡ u
    → total lowerer s.threads ≡ d
    → Near n u d (acts is s).index
acts-Near n u d is s e new up down =
    let v = acts-Bounded n u d is s (start-Bounded n u d s e new up down) in
    let s' = acts is s in
    Near-weaken n (total raises s'.threads) (total lowers s'.threads) u d s'.index
      (omega (arith, v.raisers, total-le raises raiser raises-le s'.threads))
      (omega (arith, v.lowerers, total-le lowers lowerer lowers-le s'.threads)) v.near
