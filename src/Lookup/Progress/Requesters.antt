-- ===== src/Lookup/Progress/Requesters.antt =====
-- A turn of a requester.
use csci3757_operating_syste.Base.{
  ℕ, ◌+◌, ◌≤◌, ◌<◌, ◌≡◌, refl, inl, inr, Bool, true, false, Option, none, some, List, [], ◌∷◌, ok,
  null_pointer, out_of_bounds, ltb, ◌==◌, if◌then◌else◌, get_elem?, set, total, arith, Bool-cases,
  total-set,
}
use csci3757_operating_syste.Lookup.{
  Name, File, World, Requester, searching, locking, reading, checking, full_wait, full_woken,
  stopped, Lookup, search, array_size, chomp, signal, wake_resolver, is_empty_wait, put_requester,
  service, requester_step, take_file,
}
use csci3757_operating_syste.Lookup.Invariant.{
  holds_requester, Taken, search-Taken, total-signal, total-map_wake,
}
use csci3757_operating_syste.Lookup.Ending.{one, Marks, search-Marks}
use csci3757_operating_syste.Lookup.Progress.{
  line_effort, lines_effort, reading_effort, requester_effort, effort, Moves, Outcome,
  rests_requester,
}
use csci3757_operating_syste.Lookup.Progress.Wakes.{signal_resolvers_cost, broadcast_cost}

reading_effort-le : (c : ℕ) (f : Option (List Name)) → reading_effort c f ≤ c + 4 + lines_effort f
reading_effort-le c none = omega arith
reading_effort-le c (some ls) = omega arith

module _ (v : World) (c : ℕ) (s : Lookup) where
  -- One requester goes on, and the lock is set.
  requester_goes :
      (i : ℕ) (r r' : Requester) (b : Bool)
      → get_elem? s.requesters i ≡ some r
      → requester_effort c r' < requester_effort c r
      → Moves v c s (ok (record (put_requester s i r') { buffer_lock = b }))
  unfolding effort
  requester_goes i r r' b e h = record {
    next = record (put_requester s i r') { buffer_lock = b };
    leads = refl;
    less = omega (arith, h, total-set (requester_effort c) s.requesters i r r' e);
    crew = refl;
  }

  -- It also signals isEmpty.
  requester_signals :
      (i k : ℕ) (r r' : Requester) (b : Bool)
      → get_elem? s.requesters i ≡ some r
      → requester_effort c r' + 1 < requester_effort c r
      → Moves v c s (
          ok (record (put_requester s i r') {
            buffer_lock = b;
            resolvers = signal wake_resolver is_empty_wait k s.resolvers;
          }))
  unfolding effort
  requester_signals i k r r' b e h = record {
    next = record (put_requester s i r') {
      buffer_lock = b;
      resolvers = signal wake_resolver is_empty_wait k s.resolvers;
    };
    leads = refl;
    less = omega (
      arith,
      h,
      total-set (requester_effort c) s.requesters i r r' e,
      signal_resolvers_cost k s.resolvers,
    );
    crew = total-signal one wake_resolver is_empty_wait (λ r. refl) k s.resolvers;
  }

  take_file-Moves :
      (i n : ℕ) (fs : List File) (r : Option (Name × List File))
      → total one s.resolvers ≡ c
      → get_elem? s.requesters i ≡ some (searching n)
      → Taken line_effort v s.files r
      → Marks s.files r
      → Moves v c s (ok (take_file v i n s fs r))
  unfolding effort
  take_file-Moves i n [] r crew e t m =
      requester_goes i (searching n) (locking n none) s.buffer_lock e (omega arith)
  take_file-Moves i n (f ∷ fs) (some (name, files)) crew e t m =
      let r' = locking (n + 1) (v.fopen name) in
      record {
        next = take_file v i n s (f ∷ fs) (some (name, files));
        leads = refl;
        less = omega (
          arith,
          t,
          m,
          reading_effort-le c (v.fopen name),
          total-set (requester_effort c) s.requesters i (searching n) r' e,
        );
        crew = refl;
      }
  take_file-Moves i n (f ∷ fs) none crew e t m = record {
    next = take_file v i n s (f ∷ fs) none;
    leads = refl;
    less = omega (
      arith,
      crew,
      total-set (requester_effort c) s.requesters i (searching n) stopped e,
      broadcast_cost s.resolvers,
    );
    crew = total-map_wake one wake_resolver is_empty_wait (λ r. refl) s.resolvers;
  }

  store-Moves :
      (i n : ℕ) (l : Name) (ls : List Name)
      → get_elem? s.requesters i ≡ some (checking n l ls)
      → Moves v c s (
          ok (record (put_requester s i (reading n (some ls))) {
            buffer = set s.buffer s.current_position (chomp l);
            current_position = s.current_position + 1;
          }))
  unfolding effort
  store-Moves i n l ls e = record {
    next = record (put_requester s i (reading n (some ls))) {
      buffer = set s.buffer s.current_position (chomp l);
      current_position = s.current_position + 1;
    };
    leads = refl;
    less = omega (
      arith,
      total-set (requester_effort c) s.requesters i (checking n l ls) (reading n (some ls)) e,
    );
    crew = refl;
  }

  -- A thread that asks for the lock.
  pub lock-Outcome :
      (next : Lookup) (rests : ℕ) (b : Bool)
      → s.buffer_lock ≡ b
      → Moves v c s (ok (record next { buffer_lock = true }))
      → Outcome v c s rests 0 (ok (if b then s else record next { buffer_lock = true }))
  lock-Outcome next rests true e m = inr (inr (refl, inr (refl, e)))
  lock-Outcome next rests false e m = inl m

  pub requester_step-Outcome :
      (k i : ℕ) (r : Requester)
      → total one s.resolvers ≡ c
      → get_elem? s.requesters i ≡ some r
      → Outcome v c s (rests_requester r) (holds_requester r) (requester_step v k i r s)
  unfolding requester_step service total
  requester_step-Outcome k i (searching n) crew e = inl (
      take_file-Moves i n s.files (search s.files) crew e (search-Taken line_effort v s.files)
        (search-Marks s.files))
  requester_step-Outcome k i (locking n f) crew e =
      lock-Outcome (put_requester s i (reading n f)) 0 s.buffer_lock refl
        (requester_goes i (locking n f) (reading n f) true e (omega arith))
  requester_step-Outcome k i (reading n none) crew e = inr (inl (null_pointer, refl))
  requester_step-Outcome k i (reading n (some [])) crew e =
      inl (requester_signals i k (reading n (some [])) (searching n) false e (omega arith))
  requester_step-Outcome k i (reading n (some (l ∷ ls))) crew e =
      inl (
        requester_goes i (reading n (some (l ∷ ls))) (checking n l ls) s.buffer_lock e
          (omega arith))
  requester_step-Outcome k i (checking n l ls) crew e =
      elim (Bool-cases (s.current_position == array_size)) [
        | inl full ↦
            rw full (
              inl
                (requester_signals i k (checking n l ls) (full_wait n l ls) false e (omega arith)))
        | inr free ↦ elim (Bool-cases (ltb s.current_position array_size)) [
          | inl room ↦ rw (free, room) (inl (store-Moves i n l ls e))
          | inr off ↦ rw (free, off) (inr (inl (out_of_bounds, refl)))
        ]
      ]
  requester_step-Outcome k i (full_wait n l ls) crew e = inr (inr (refl, inl refl))
  requester_step-Outcome k i (full_woken n l ls) crew e =
      lock-Outcome (put_requester s i (checking n l ls)) 0 s.buffer_lock refl
        (requester_goes i (full_woken n l ls) (checking n l ls) true e (omega arith))
  requester_step-Outcome k i stopped crew e = inr (inr (refl, inl refl))
