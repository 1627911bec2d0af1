-- ===== src/Lookup/Resolvers.antt =====
-- What a turn of a resolver keeps.
use csci3757_operating_syste.Base.{
  ℕ, zero, suc, ◌≡◌, refl, ap, ◌⊎◌, inl, inr, true, false, Option, some, ◌∷◌, ok, err,
  out_of_bounds, ◌==◌, if◌then◌else◌, get_elem?, total, total_first, arith, total-set, branches_if,
  get_elem?-some, total-ge,
}
use csci3757_operating_syste.Lookup.Dns.{Name, dnslookup}
use csci3757_operating_syste.Lookup.{
  World, Resolver, entering, testing, testing_done, signalling, empty_wait, empty_woken, taking,
  ended, resolving, Lookup, signal, wake_requester, is_full_wait, put_resolver, resolver_step, grab,
  inet_addrstrlen, lock,
}
use csci3757_operating_syste.Lookup.Invariant.{
  bit, bit-le, holds_resolver, Inv, resolver_weight, weight, total_first-get,
}
use csci3757_operating_syste.Lookup.Moves.{
  Keeps, Keeps-refl, resolver_moves, Keeps-signal_requesters, lock-Keeps,
}

grab-Keeps :
    (v : World) (s : Lookup) (j p : ℕ)
    → s.current_position ≡ p
    → Inv s
    → get_elem? s.resolvers j ≡ some taking
    → ((s' : Lookup) × (grab j p s ≡ ok s') × Keeps v s s')
      ⊎ ((s.current_position ≡ 0) × (grab j p s ≡ err out_of_bounds))
unfolding weight
grab-Keeps v s j zero h inv e = inr (h, refl)
grab-Keeps v s j (suc p) h inv e =
    let (name, g) = get_elem?-some s.buffer p (omega (arith, inv.sized, inv.bounded)) in
    inl (
      record (put_resolver s j (resolving name)) { current_position = p; buffer_lock = false },
      rw g refl,
      record {
        inv = record {
          exclusive = omega (
            arith,
            inv.exclusive,
            bit-le s.buffer_lock,
            total-set holds_resolver s.resolvers j taking (resolving name) e,
          );
          bounded = omega (arith, inv.bounded);
          sized = inv.sized;
        };
        same_names = λ w. omega (
          arith,
          total-set (resolver_weight w) s.resolvers j taking (resolving name) e,
          total_first-get w p s.buffer name g,
          ap (λ q. total_first w q s.buffer) h,
        );
      },
    )

resolver_locked :
    (s : Lookup) (j : ℕ) (r : Resolver)
    → Inv s
    → get_elem? s.resolvers j ≡ some r
    → holds_resolver r ≡ 1
    → bit s.buffer_lock ≡ 1
resolver_locked s j r inv e h =
    omega (arith, inv.exclusive, bit-le s.buffer_lock, total-ge holds_resolver s.resolvers j r e)

resolving-Keeps :
    (v : World) (s : Lookup) (j : ℕ) (name : Name) (ip : Option (Option Name))
    → Inv s
    → get_elem? s.resolvers j ≡ some (resolving name)
    → Keeps v s (record (put_resolver s j entering) { results_log = (name, ip) ∷ s.results_log })
unfolding weight total
resolving-Keeps v s j name ip inv e = record {
  inv = record {
    exclusive =
        omega (
          arith,
          inv.exclusive,
          total-set holds_resolver s.resolvers j (resolving name) entering e,
        );
    bounded = inv.bounded;
    sized = inv.sized;
  };
  same_names =
      λ w. omega (arith, total-set (resolver_weight w) s.resolvers j (resolving name) entering e);
}

-- A resolver's turn keeps the state, or it reads before the buffer.
pub resolver_step-Keeps :
    (v : World) (k j : ℕ) (r : Resolver) (s : Lookup)
    → Inv s
    → get_elem? s.resolvers j ≡ some r
    → ((s' : Lookup) × (resolver_step v k j r s ≡ ok s') × Keeps v s s')
      ⊎ ((r ≡ taking) × (s.current_position ≡ 0) × (resolver_step v k j r s ≡ err out_of_bounds))
unfolding resolver_step
resolver_step-Keeps v k j entering s inv e = inl (
  lock s (put_resolver s j testing),
  refl,
  lock-Keeps v s (put_resolver s j testing) s.buffer_lock refl inv (λ unlocked.
      resolver_moves v s j entering testing true inv e (omega (arith, ap bit unlocked))
        (λ w. refl)),
)
resolver_step-Keeps v k j testing s inv e = inl (
  put_resolver s j (if s.current_position == 0 then testing_done else taking),
  refl,
  branches_if (λ r. Keeps v s (put_resolver s j r)) (s.current_position == 0)
      (resolver_moves v s j testing testing_done s.buffer_lock inv e refl (λ w. refl))
      (resolver_moves v s j testing taking s.buffer_lock inv e refl (λ w. refl)),
)
resolver_step-Keeps v k j testing_done s inv e = inl (
  if s.threads_finished == s.thread_count
      then record (put_resolver s j ended) { buffer_lock = false }
      else put_resolver s j signalling,
  refl,
  branches_if (Keeps v s) (s.threads_finished == s.thread_count)
      (resolver_moves v s j testing_done ended false inv e
        (omega (arith, resolver_locked s j testing_done inv e refl)) (λ w. refl))
      (resolver_moves v s j testing_done signalling s.buffer_lock inv e refl (λ w. refl)),
)
resolver_step-Keeps v k j signalling s inv e = inl (
  record (put_resolver s j empty_wait) {
    buffer_lock = false;
    requesters = signal wake_requester is_full_wait k s.requesters;
  },
  refl,
  Keeps-signal_requesters v s (record (put_resolver s j empty_wait) { buffer_lock = false }) k
      (resolver_moves v s j signalling empty_wait false inv e
        (omega (arith, resolver_locked s j signalling inv e refl)) (λ w. refl)),
)
resolver_step-Keeps v k j empty_wait s inv e = inl (s, refl, Keeps-refl v s inv)
resolver_step-Keeps v k j empty_woken s inv e = inl (
  lock s (put_resolver s j taking),
  refl,
  lock-Keeps v s (put_resolver s j taking) s.buffer_lock refl inv (λ unlocked.
      resolver_moves v s j empty_woken taking true inv e (omega (arith, ap bit unlocked))
        (λ w. refl)),
)
resolver_step-Keeps v k j taking s inv e = elim (grab-Keeps v s j s.current_position refl inv e) [
  | inl kept ↦ inl kept
  | inr (empty, f) ↦ inr (refl, empty, f)
]
resolver_step-Keeps v k j (resolving name) s inv e = inl (
  record (put_resolver s j entering) {
    results_log = (name, dnslookup v.net name inet_addrstrlen) ∷ s.results_log;
  },
  refl,
  resolving-Keeps v s j name (dnslookup v.net name inet_addrstrlen) inv e,
)
resolver_step-Keeps v k j ended s inv e = inl (s, refl, Keeps-refl v s inv)
