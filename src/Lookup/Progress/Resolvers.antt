-- ===== src/Lookup/Progress/Resolvers.antt =====
-- A turn of a resolver.
use csci3757_operating_syste.Base.{
  ℕ, zero, suc, ◌<◌, ◌≡◌, refl, inl, inr, Bool, true, false, Option, some, ◌∷◌, ok, out_of_bounds,
  ◌==◌, get_elem?, arith, Option-cases, total-set, branches_if,
}
use csci3757_operating_syste.Lookup.{
  Name, World, Resolver, entering, testing, testing_done, signalling, empty_wait, empty_woken,
  taking, ended, resolving, Lookup, signal, wake_requester, is_full_wait, put_resolver,
  resolver_step, grab, inet_addrstrlen,
}
use csci3757_operating_syste.Lookup.Dns.{dnslookup}
use csci3757_operating_syste.Lookup.Invariant.{holds_resolver}
use csci3757_operating_syste.Lookup.Ending.{one}
use csci3757_operating_syste.Lookup.Progress.{
  resolver_effort, effort, Moves, Outcome, rests_resolver,
}
use csci3757_operating_syste.Lookup.Progress.Wakes.{signal_requesters_cost}
use csci3757_operating_syste.Lookup.Progress.Requesters.{lock-Outcome}

module _ (v : World) (c : ℕ) (s : Lookup) where
  resolver_goes :
      (j : ℕ) (r r' : Resolver) (b : Bool)
      → get_elem? s.resolvers j ≡ some r
      → resolver_effort r' < resolver_effort r
      → Moves v c s (ok (record (put_resolver s j r') { buffer_lock = b }))
  unfolding effort
  resolver_goes j r r' b e h = record {
    next = record (put_resolver s j r') { buffer_lock = b };
    leads = refl;
    less = omega (arith, h, total-set resolver_effort s.resolvers j r r' e);
    crew = omega (arith, total-set one s.resolvers j r r' e);
  }

  falls_asleep :
      (j k : ℕ)
      → get_elem? s.resolvers j ≡ some signalling
      → Moves v c s (
          ok (record (put_resolver s j empty_wait) {
            buffer_lock = false;
            requesters = signal wake_requester is_full_wait k s.requesters;
          }))
  unfolding effort
  falls_asleep j k e = record {
    next = record (put_resolver s j empty_wait) {
      buffer_lock = false;
      requesters = signal wake_requester is_full_wait k s.requesters;
    };
    leads = refl;
    less = omega (
      arith,
      total-set resolver_effort s.resolvers j signalling empty_wait e,
      signal_requesters_cost c k s.requesters,
    );
    crew = omega (arith, total-set one s.resolvers j signalling empty_wait e);
  }

  grab-Outcome :
      (j p : ℕ)
      → s.current_position ≡ p
      → get_elem? s.resolvers j ≡ some taking
      → Outcome v c s 0 1 (grab j p s)
  unfolding effort
  grab-Outcome j zero h e = inr (inl (out_of_bounds, refl))
  grab-Outcome j (suc p) h e = elim (Option-cases (get_elem? s.buffer p)) [
    | inl f ↦ rw f (inr (inl (out_of_bounds, refl)))
    | inr (name, f) ↦ rw f (
        inl (record {
          next = record (put_resolver s j (resolving name)) {
            current_position = p;
            buffer_lock = false;
          };
          leads = refl;
          less =
              omega (arith, h, total-set resolver_effort s.resolvers j taking (resolving name) e);
          crew = omega (arith, total-set one s.resolvers j taking (resolving name) e);
        }))
  ]

  resolves :
      (j : ℕ) (name : Name) (ip : Option (Option Name))
      → get_elem? s.resolvers j ≡ some (resolving name)
      → Moves v c s
          (ok (record (put_resolver s j entering) { results_log = (name, ip) ∷ s.results_log }))
  unfolding effort
  resolves j name ip e = record {
    next = record (put_resolver s j entering) { results_log = (name, ip) ∷ s.results_log };
    leads = refl;
    less = omega (arith, total-set resolver_effort s.resolvers j (resolving name) entering e);
    crew = omega (arith, total-set one s.resolvers j (resolving name) entering e);
  }

  pub resolver_step-Outcome :
      (k j : ℕ) (r : Resolver)
      → get_elem? s.resolvers j ≡ some r
      → Outcome v c s (rests_resolver r) (holds_resolver r) (resolver_step v k j r s)
  unfolding resolver_step
  resolver_step-Outcome k j entering e =
      lock-Outcome v c s (put_resolver s j testing) 0 s.buffer_lock refl
        (resolver_goes j entering testing true e (omega arith))
  resolver_step-Outcome k j testing e = inl (
      branches_if (λ r. Moves v c s (ok (put_resolver s j r))) (s.current_position == 0)
        (resolver_goes j testing testing_done s.buffer_lock e (omega arith))
        (resolver_goes j testing taking s.buffer_lock e (omega arith)))
  resolver_step-Outcome k j testing_done e = inl (
      branches_if (λ x. Moves v c s (ok x)) (s.threads_finished == s.thread_count)
        (resolver_goes j testing_done ended false e (omega arith))
        (resolver_goes j testing_done signalling s.buffer_lock e (omega arith)))
  resolver_step-Outcome k j signalling e = inl (falls_asleep j k e)
  resolver_step-Outcome k j empty_wait e = inr (inr (refl, inl refl))
  resolver_step-Outcome k j empty_woken e =
      lock-Outcome v c s (put_resolver s j taking) 0 s.buffer_lock refl
        (resolver_goes j empty_woken taking true e (omega arith))
  resolver_step-Outcome k j taking e = grab-Outcome j s.current_position refl e
  resolver_step-Outcome k j (resolving name) e =
      inl (resolves j name (dnslookup v.net name inet_addrstrlen) e)
  resolver_step-Outcome k j ended e = inr (inr (refl, inl refl))
