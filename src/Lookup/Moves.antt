-- ===== src/Lookup/Moves.antt =====
-- What a single move of a thread keeps.
use csci3757_operating_syste.Base.{
  ℕ, ◌+◌, ◌≡◌, refl, Bool, true, false, some, if◌then◌else◌, get_elem?, arith, total-set,
}
use csci3757_operating_syste.Lookup.Dns.{Name}
use csci3757_operating_syste.Lookup.{
  World, Requester, Resolver, Lookup, signal, wake_resolver, is_empty_wait, wake_requester,
  is_full_wait, put_requester, put_resolver,
}
use csci3757_operating_syste.Lookup.Invariant.{
  bit, holds_requester, holds_resolver, Inv, requester_weight, resolver_weight, weight,
  total-signal, holds_resolver-wake, holds_requester-wake, resolver_weight-wake,
  requester_weight-wake,
}

-- A state in the invariant with the same names in it, for any way to weigh names.
pub record Keeps (v : World) (s s' : Lookup) : Type 0 where
  pub inv : Inv s'
  pub same_names : (w : Name → ℕ) → weight w v s' ≡ weight w v s

pub Keeps-refl : (v : World) (s : Lookup) → Inv s → Keeps v s s
Keeps-refl v s i = record { inv = i; same_names = λ w. refl }

-- Where only one requester moves on, and with it the lock.
pub requester_moves :
    (v : World) (s : Lookup) (i : ℕ) (r r' : Requester) (b : Bool)
    → Inv s
    → get_elem? s.requesters i ≡ some r
    → holds_requester r' + bit s.buffer_lock ≡ holds_requester r + bit b
    → ((w : Name → ℕ) → requester_weight w r' ≡ requester_weight w r)
    → Keeps v s (record (put_requester s i r') { buffer_lock = b })
unfolding weight
requester_moves v s i r r' b inv e h k = record {
  inv = record {
    exclusive = omega (arith, inv.exclusive, total-set holds_requester s.requesters i r r' e, h);
    bounded = inv.bounded;
    sized = inv.sized;
  };
  same_names = λ w. omega (arith, total-set (requester_weight w) s.requesters i r r' e, k w);
}

pub resolver_moves :
    (v : World) (s : Lookup) (j : ℕ) (r r' : Resolver) (b : Bool)
    → Inv s
    → get_elem? s.resolvers j ≡ some r
    → holds_resolver r' + bit s.buffer_lock ≡ holds_resolver r + bit b
    → ((w : Name → ℕ) → resolver_weight w r' ≡ resolver_weight w r)
    → Keeps v s (record (put_resolver s j r') { buffer_lock = b })
unfolding weight
resolver_moves v s j r r' b inv e h k = record {
  inv = record {
    exclusive = omega (arith, inv.exclusive, total-set holds_resolver s.resolvers j r r' e, h);
    bounded = inv.bounded;
    sized = inv.sized;
  };
  same_names = λ w. omega (arith, total-set (resolver_weight w) s.resolvers j r r' e, k w);
}

-- A signal.
pub Keeps-signal_resolvers :
    (v : World) (s s' : Lookup) (k : ℕ)
    → Keeps v s s'
    → Keeps v s (record s' { resolvers = signal wake_resolver is_empty_wait k s'.resolvers })
unfolding weight
Keeps-signal_resolvers v s s' k t = record {
  inv = record {
    exclusive = omega (
      arith,
      t.inv.exclusive,
      total-signal holds_resolver wake_resolver is_empty_wait holds_resolver-wake k s'.resolvers,
    );
    bounded = t.inv.bounded;
    sized = t.inv.sized;
  };
  same_names = λ w. omega (
    arith,
    t.same_names w,
    total-signal (resolver_weight w) wake_resolver is_empty_wait (resolver_weight-wake w) k
        s'.resolvers,
  );
}

pub Keeps-signal_requesters :
    (v : World) (s s' : Lookup) (k : ℕ)
    → Keeps v s s'
    → Keeps v s (record s' { requesters = signal wake_requester is_full_wait k s'.requesters })
unfolding weight
Keeps-signal_requesters v s s' k t = record {
  inv = record {
    exclusive = omega (
      arith,
      t.inv.exclusive,
      total-signal holds_requester wake_requester is_full_wait holds_requester-wake k s'.requesters,
    );
    bounded = t.inv.bounded;
    sized = t.inv.sized;
  };
  same_names = λ w. omega (
    arith,
    t.same_names w,
    total-signal (requester_weight w) wake_requester is_full_wait (requester_weight-wake w) k
        s'.requesters,
  );
}

pub lock-Keeps :
    (v : World) (s next : Lookup) (b : Bool)
    → s.buffer_lock ≡ b
    → Inv s
    → (s.buffer_lock ≡ false → Keeps v s (record next { buffer_lock = true }))
    → Keeps v s (if b then s else record next { buffer_lock = true })
lock-Keeps v s next true e i k = Keeps-refl v s i
lock-Keeps v s next false e i k = k e
