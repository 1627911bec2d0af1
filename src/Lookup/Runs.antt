-- ===== src/Lookup/Runs.antt =====
-- What whole runs of the lookup program keep, and how they can fail.
use csci3757_operating_syste.Base.{
  ℕ, zero, suc, ◌≡◌, refl, ap, ◌∙◌, ◌⊎◌, inl, inr, Bool, true, false, none, some, List, [], ◌∷◌, ok,
  err, ◌>>=◌, out_of_bounds, null_pointer, ltb, ◌==◌, if◌then◌else◌, length, get_elem?, total,
  arith, Option-cases, ℤ, pos, negsuc, replicate, get_elem?-lt, get_elem?-set_self, subst, ◌||◌,
}
use csci3757_operating_syste.Lookup.Dns.{Name}
use csci3757_operating_syste.Lookup.{
  World, searching, reading, entering, empty_woken, taking, Lookup, array_size, wake_resolver,
  wake_requester, put_requester, put_resolver, resolver_step, Turn, requester_turn, resolver_turn,
  stir_requester, stir_resolver, turn, turns, start_threads, launched, max_requester_threads,
  max_resolver_threads,
}
use csci3757_operating_syste.Lookup.Invariant.{
  holds_requester, holds_resolver, Inv, holds_resolver-wake, holds_requester-wake,
  resolver_weight-wake, requester_weight-wake,
}
use csci3757_operating_syste.Lookup.Moves.{Keeps, Keeps-refl, requester_moves, resolver_moves}
use csci3757_operating_syste.Lookup.Requesters.{requester_step-Keeps}
use csci3757_operating_syste.Lookup.Resolvers.{resolver_step-Keeps}

-- How a turn can fail: a requester reads from a file that is not open, or a resolver reads the
-- element before the buffer's first.
pub Fails : World → Lookup → Turn → Type 0
Fails v s (requester_turn i k) =
    (n : ℕ) × (get_elem? s.requesters i ≡ some (reading n none))
    × (turn v (requester_turn i k) s ≡ err null_pointer)
Fails v s (resolver_turn j k) =
    (get_elem? s.resolvers j ≡ some taking)
    × (s.current_position ≡ 0)
    × (turn v (resolver_turn j k) s ≡ err out_of_bounds)
Fails v s (stir_requester i) = ⊥
Fails v s (stir_resolver j) = ⊥

-- From a state in which the buffer lock is held by exactly the threads inside of it (at most one),
-- the position is at most 20 and the buffer has 20 slots, any turn of any thread leads to such a
-- state again, and each name is then as often in the unread files, with the requesters, in the
-- buffer, with the resolvers and in the results together as before; or the turn is a read from a file
-- that is not open, or a resolver's read at an empty buffer.
pub turn-Keeps :
    (v : World) (t : Turn) (s : Lookup)
    → Inv s
    → ((s' : Lookup) × (turn v t s ≡ ok s') × Keeps v s s') ⊎ Fails v s t
unfolding turn Fails
turn-Keeps v (requester_turn i k) s inv = elim (Option-cases (get_elem? s.requesters i)) [
  | inl e ↦ inl (s, rw (e, turn) refl, Keeps-refl v s inv)
  | inr (r, e) ↦ elim (requester_step-Keeps v k i r s inv e) [
    | inl (s', f, kept) ↦ inl (s', rw (e, turn) f, kept)
    | inr (n, f, g) ↦ inr (n, e ∙ ap some f, rw (e, turn) g)
  ]
]
turn-Keeps v (resolver_turn j k) s inv = elim (Option-cases (get_elem? s.resolvers j)) [
  | inl e ↦ inl (s, rw (e, turn) refl, Keeps-refl v s inv)
  | inr (r, e) ↦ elim (resolver_step-Keeps v k j r s inv e) [
    | inl (s', f, kept) ↦ inl (s', rw (e, turn) f, kept)
    | inr (f, empty, g) ↦ inr (e ∙ ap some f, empty, rw (e, turn) g)
  ]
]
turn-Keeps v (stir_requester i) s inv = elim (Option-cases (get_elem? s.requesters i)) [
  | inl e ↦ inl (s, rw (e, turn) refl, Keeps-refl v s inv)
  | inr (r, e) ↦ inl (
    put_requester s i (wake_requester r),
    rw (e, turn) refl,
    requester_moves v s i r (wake_requester r) s.buffer_lock inv e
        (omega (arith, holds_requester-wake r)) (λ w. requester_weight-wake w r),
  )
]
turn-Keeps v (stir_resolver j) s inv = elim (Option-cases (get_elem? s.resolvers j)) [
  | inl e ↦ inl (s, rw (e, turn) refl, Keeps-refl v s inv)
  | inr (r, e) ↦ inl (
    put_resolver s j (wake_resolver r),
    rw (e, turn) refl,
    resolver_moves v s j r (wake_resolver r) s.buffer_lock inv e
        (omega (arith, holds_resolver-wake r)) (λ w. resolver_weight-wake w r),
  )
]

Keeps-trans : (v : World) (s s' s'' : Lookup) → Keeps v s s' → Keeps v s' s'' → Keeps v s s''
Keeps-trans v s s' s'' k l = record {
  inv = l.inv;
  same_names = λ w. l.same_names w ∙ k.same_names w;
}

-- Any sequence of turns from a state in the invariant.
unfoldable pub Ends : World → List Turn → Lookup → Type 0
Ends v ts s =
    ((s' : Lookup) × (turns v ts s ≡ ok s') × Keeps v s s')
    ⊎ ((turns v ts s ≡ err null_pointer) ⊎ (turns v ts s ≡ err out_of_bounds))

pub Fails-err :
    (v : World) (s : Lookup) (t : Turn)
    → Fails v s t
    → (turn v t s ≡ err null_pointer) ⊎ (turn v t s ≡ err out_of_bounds)
unfolding Fails
Fails-err v s (requester_turn i k) (n, e, f) = inl f
Fails-err v s (resolver_turn j k) (e, empty, f) = inr f
Fails-err v s (stir_requester i) f = absurd f
Fails-err v s (stir_resolver j) f = absurd f

pub turns-Ends : (v : World) (ts : List Turn) (s : Lookup) → Inv s → Ends v ts s
unfolding turns Ends
turns-Ends v [] s i = inl (s, refl, Keeps-refl v s i)
turns-Ends v (t ∷ ts) s i = elim (turn-Keeps v t s i) [
  | inr f ↦ elim (Fails-err v s t f) [
    | inl e ↦ inr (inl (ap (λ r. r >>= turns v ts) e))
    | inr e ↦ inr (inr (ap (λ r. r >>= turns v ts) e))
  ]
  | inl (s', e, k) ↦
      rw (e, turns)
        (elim (turns-Ends v ts s' k.inv) [
          | inl (s'', e', l) ↦ inl (s'', e', Keeps-trans v s s' s'' k l)
          | inr f ↦ inr f
        ])
]

pub total-replicate {ℓ} :
    {A : Type ℓ} (w : A → ℕ) (n : ℕ) (a : A) → w a ≡ 0 → total w (replicate n a) ≡ 0
unfolding total
total-replicate w zero a h = refl
total-replicate w (suc n) a h = omega (arith, h, total-replicate w n a h)

pub launched-Inv :
    (readable : Name → Bool) (fresh : List Name) (m n : ℕ) (names : List Name)
    → length fresh ≡ array_size
    → Inv (launched readable fresh m n names)
launched-Inv readable fresh m n names l = record {
  exclusive = omega (
    arith,
    total-replicate holds_requester m (searching 0) refl,
    total-replicate holds_resolver n entering refl,
  );
  bounded = omega arith;
  sized = l;
}

pub past_the_checks :
    (b c : Bool) (x s : Lookup) → (if b then none else if c then none else some x) ≡ some s → x ≡ s
past_the_checks true c x s h = absurd (ground arith)
past_the_checks false true x s h = absurd (ground arith)
past_the_checks false false x s h = cc

start_threads-Inv :
    (readable : Name → Bool) (fresh : List Name) (m n : ℤ) (names : List Name) (s : Lookup)
    → length fresh ≡ array_size
    → start_threads readable fresh m n names ≡ some s
    → Inv s
unfolding start_threads
start_threads-Inv readable fresh (negsuc m) n names s l h = absurd (ground arith)
start_threads-Inv readable fresh (pos m) (negsuc n) names s l h = absurd (ground arith)
start_threads-Inv readable fresh (pos m) (pos n) names s l h =
    subst Inv
      (past_the_checks ((length names == 0) || (ltb m 1 || ltb n 1))
        (ltb max_requester_threads m || ltb max_resolver_threads n)
        (launched readable fresh m n names) s h)
      (launched-Inv readable fresh m n names l)

-- However the threads that `main` starts are interleaved and woken (for a buffer of 20 slots): the
-- run so far has succeeded, the buffer lock is held by exactly the threads inside of it and by at most
-- one, the position is at most 20, and each name of a file is found as often, over the unread files,
-- the requesters, the buffer, the resolvers and the results, as at the start; or the run has stopped at
-- a read from a file that is not open or at a read outside of the buffer.
pub started-Ends :
    (v : World) (readable : Name → Bool) (fresh : List Name) (m n : ℤ) (names : List Name)
    (s : Lookup) (ts : List Turn)
    → length fresh ≡ array_size
    → start_threads readable fresh m n names ≡ some s
    → Ends v ts s
started-Ends v readable fresh m n names s ts l h =
    turns-Ends v ts s (start_threads-Inv readable fresh m n names s l h)

-- A resolver that wakes from its wait while the buffer is empty and the lock is free reads the element
-- before the buffer's first in its next two turns, whatever woke it: the test of the position is not
-- repeated after the wait.
pub empty_woken-Fails :
    (v : World) (s : Lookup) (j k k' : ℕ)
    → get_elem? s.resolvers j ≡ some empty_woken
    → s.buffer_lock ≡ false
    → s.current_position ≡ 0
    → turns v (resolver_turn j k ∷ resolver_turn j k' ∷ []) s ≡ err out_of_bounds
unfolding turns turn resolver_step
empty_woken-Fails v s j k k' e b p =
    let s' = record (put_resolver s j taking) { buffer_lock = true } in
    let first : turn v (resolver_turn j k) s ≡ ok s' = rw (e, turn, b) refl in
    let at : get_elem? s'.resolvers j ≡ some taking =
      get_elem?-set_self s.resolvers j taking (get_elem?-lt s.resolvers j empty_woken e) in
    let second : turn v (resolver_turn j k') s' ≡ err out_of_bounds = rw (at, turn, p) refl in
    rw (first, second) refl
