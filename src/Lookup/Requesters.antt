-- ===== src/Lookup/Requesters.antt =====
-- What a turn of a requester keeps.
use csci3757_operating_syste.Base.{
  ℕ, ◌+◌, ◌<◌, ◌≡◌, refl, ap, ◌∙◌, ◌⊎◌, inl, inr, true, false, Option, none, some, List, [], ◌∷◌,
  ok, err, null_pointer, ◌==◌, get_elem?, set, total, arith, Bool-cases, total-set, length-set,
  total-ge,
}
use csci3757_operating_syste.Lookup.Dns.{Name}
use csci3757_operating_syste.Lookup.{
  File, World, Requester, searching, locking, reading, checking, full_wait, full_woken, stopped,
  Lookup, search, array_size, chomp, signal, wake_resolver, is_empty_wait, lock, put_requester,
  service, requester_step, store, wait_full, take_file,
}
use csci3757_operating_syste.Lookup.Invariant.{
  bit, holds_requester, holds_resolver, Inv, requester_weight, resolver_weight, weight,
  total-map_wake, holds_resolver-wake, resolver_weight-wake, search-Taken, Taken, total_first-store,
  bit-le,
}
use csci3757_operating_syste.Lookup.Moves.{
  Keeps, Keeps-refl, requester_moves, Keeps-signal_resolvers, lock-Keeps,
}

take_file-Keeps :
    (v : World) (s : Lookup) (i n : ℕ) (fs : List File) (r : Option (Name × List File))
    → Inv s
    → get_elem? s.requesters i ≡ some (searching n)
    → ((w : Name → ℕ) → Taken w v s.files r)
    → Keeps v s (take_file v i n s fs r)
unfolding weight
take_file-Keeps v s i n [] r inv e t =
    requester_moves v s i (searching n) (locking n none) s.buffer_lock inv e refl (λ w. refl)
take_file-Keeps v s i n (f ∷ fs) (some (name, files)) inv e t =
    let r' = locking (n + 1) (v.fopen name) in
    record {
      inv = record {
        exclusive =
            omega
              (arith, inv.exclusive, total-set holds_requester s.requesters i (searching n) r' e);
        bounded = inv.bounded;
        sized = inv.sized;
      };
      same_names =
          λ w. omega (arith, total-set (requester_weight w) s.requesters i (searching n) r' e, t w);
    }
take_file-Keeps v s i n (f ∷ fs) none inv e t = record {
  inv = record {
    exclusive = omega (
      arith,
      inv.exclusive,
      total-set holds_requester s.requesters i (searching n) stopped e,
      total-map_wake holds_resolver wake_resolver is_empty_wait holds_resolver-wake s.resolvers,
    );
    bounded = inv.bounded;
    sized = inv.sized;
  };
  same_names = λ w. omega (
    arith,
    total-set (requester_weight w) s.requesters i (searching n) stopped e,
    total-map_wake (resolver_weight w) wake_resolver is_empty_wait (resolver_weight-wake w)
        s.resolvers,
  );
}

store-Keeps :
    (v : World) (s : Lookup) (i n : ℕ) (l : Name) (ls : List Name)
    → Inv s
    → get_elem? s.requesters i ≡ some (checking n l ls)
    → s.current_position < array_size
    → (s' : Lookup) × (store i n l ls s ≡ ok s') × Keeps v s s'
unfolding weight
store-Keeps v s i n l ls inv e h =
    let r' = reading n (some ls) in
    (
      record (put_requester s i r') {
        buffer = set s.buffer s.current_position (chomp l);
        current_position = s.current_position + 1;
      },
      ground arith,
      record {
        inv = record {
          exclusive = omega (
            arith,
            inv.exclusive,
            total-set holds_requester s.requesters i (checking n l ls) r' e,
          );
          bounded = omega arith;
          sized = length-set s.buffer s.current_position (chomp l) ∙ inv.sized;
        };
        same_names = λ w. omega (
          arith,
          total-set (requester_weight w) s.requesters i (checking n l ls) r' e,
          total_first-store w s.current_position s.buffer (chomp l) (omega (arith, inv.sized)),
        );
      },
    )

requester_locked :
    (s : Lookup) (i : ℕ) (r : Requester)
    → Inv s
    → get_elem? s.requesters i ≡ some r
    → holds_requester r ≡ 1
    → bit s.buffer_lock ≡ 1
requester_locked s i r inv e h =
    omega (arith, inv.exclusive, bit-le s.buffer_lock, total-ge holds_requester s.requesters i r e)

-- A requester's turn keeps the state, or it reads lines of a file that is not open.
pub requester_step-Keeps :
    (v : World) (k i : ℕ) (r : Requester) (s : Lookup)
    → Inv s
    → get_elem? s.requesters i ≡ some r
    → ((s' : Lookup) × (requester_step v k i r s ≡ ok s') × Keeps v s s')
      ⊎ ((n : ℕ) × (r ≡ reading n none) × (requester_step v k i r s ≡ err null_pointer))
unfolding requester_step service total
requester_step-Keeps v k i (searching n) s inv e = inl (
  service v i n s,
  refl,
  take_file-Keeps v s i n s.files (search s.files) inv e (λ w. search-Taken w v s.files),
)
requester_step-Keeps v k i (locking n f) s inv e = inl (
  lock s (put_requester s i (reading n f)),
  refl,
  lock-Keeps v s (put_requester s i (reading n f)) s.buffer_lock refl inv (λ unlocked.
      requester_moves v s i (locking n f) (reading n f) true inv e (omega (arith, ap bit unlocked))
        (λ w. refl)),
)
requester_step-Keeps v k i (reading n none) s inv e = inr (n, refl, refl)
requester_step-Keeps v k i (reading n (some [])) s inv e = inl (
  record (put_requester s i (searching n)) {
    buffer_lock = false;
    resolvers = signal wake_resolver is_empty_wait k s.resolvers;
  },
  refl,
  Keeps-signal_resolvers v s (record (put_requester s i (searching n)) { buffer_lock = false }) k
      (requester_moves v s i (reading n (some [])) (searching n) false inv e
        (omega (arith, requester_locked s i (reading n (some [])) inv e refl)) (λ w. refl)),
)
requester_step-Keeps v k i (reading n (some (l ∷ ls))) s inv e = inl (
  put_requester s i (checking n l ls),
  refl,
  requester_moves v s i (reading n (some (l ∷ ls))) (checking n l ls) s.buffer_lock inv e refl
      (λ w. refl),
)
requester_step-Keeps v k i (checking n l ls) s inv e =
    elim (Bool-cases (s.current_position == array_size)) [
      | inl full ↦ inl (
        wait_full k i n l ls s,
        rw full refl,
        Keeps-signal_resolvers v s
            (record (put_requester s i (full_wait n l ls)) { buffer_lock = false }) k
            (requester_moves v s i (checking n l ls) (full_wait n l ls) false inv e
              (omega (arith, requester_locked s i (checking n l ls) inv e refl)) (λ w. refl)),
      )
      | inr free ↦ rw free (inl (store-Keeps v s i n l ls inv e (ground (arith, inv.bounded))))
    ]
requester_step-Keeps v k i (full_wait n l ls) s inv e = inl (s, refl, Keeps-refl v s inv)
requester_step-Keeps v k i (full_woken n l ls) s inv e = inl (
  lock s (put_requester s i (checking n l ls)),
  refl,
  lock-Keeps v s (put_requester s i (checking n l ls)) s.buffer_lock refl inv (λ unlocked.
      requester_moves v s i (full_woken n l ls) (checking n l ls) true inv e
        (omega (arith, ap bit unlocked)) (λ w. refl)),
)
requester_step-Keeps v k i stopped s inv e = inl (s, refl, Keeps-refl v s inv)
