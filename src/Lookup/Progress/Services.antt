-- ===== src/Lookup/Progress/Services.antt =====
-- The log of the requesters: how many files each one has serviced.
use csci3757_operating_syste.Base.{
  ℕ, zero, suc, ◌+◌, ◌≡◌, refl, inl, inr, Option, none, some, List, [], ◌∷◌, Result, ok, err, ltb,
  ◌==◌, get_elem?, total, arith, Option-cases, total-set, branches_if, >>=-eq-ok, subst,
}
use csci3757_operating_syste.Lookup.{
  Name, File, World, Requester, searching, locking, reading, checking, full_wait, full_woken,
  stopped, Resolver, entering, testing, testing_done, signalling, empty_wait, empty_woken, taking,
  ended, resolving, Lookup, search, array_size, signal, wake_requester, is_full_wait, put_requester,
  service, requester_step, take_file, resolver_step, grab, Turn, requester_turn, resolver_turn,
  stir_requester, stir_resolver, turn, turns,
}
use csci3757_operating_syste.Lookup.Invariant.{total-signal}
use csci3757_operating_syste.Lookup.Ending.{one, unserviced, Marks, search-Marks}

abbrev pub service_count : Requester → ℕ
service_count (searching n) = n
service_count (locking n f) = n
service_count (reading n f) = n
service_count (checking n l ls) = n
service_count (full_wait n l ls) = n
service_count (full_woken n l ls) = n
service_count stopped = 0

-- Of `k` files, each one that is serviced stands in one requester's count or in a line of the log; the
-- log has a line for each requester that has finished.
pub record Counts (k : ℕ) (log : List ℕ) (rs : List Requester) (fs : List File) (finished : ℕ)
    : Type 0 where
  pub counted : total (λ n. n) log + total service_count rs + total unserviced fs ≡ k
  pub lines : total one log ≡ finished

abbrev pub Serviced : ℕ → Lookup → Type 0
Serviced k s = Counts k s.service_log s.requesters s.files s.threads_finished

abbrev Leads : ℕ → Result Lookup → Type 0
Leads k (ok s) = Serviced k s
Leads k (err e) = Unit

service_count-wake : (r : Requester) → service_count (wake_requester r) ≡ service_count r
service_count-wake r = elim r as (λ r. service_count (wake_requester r) ≡ service_count r) [
  | full_wait n l ls ↦ refl
  | _ ↦ refl
]

module _ (v : World) (k : ℕ) (s : Lookup) (h : Serviced k s) where
  -- A requester goes on with its count.
  requester_goes-Serviced :
      (i : ℕ) (r r' : Requester)
      → get_elem? s.requesters i ≡ some r
      → service_count r' ≡ service_count r
      → Serviced k (put_requester s i r')
  requester_goes-Serviced i r r' e g = record {
    counted = omega (arith, h.counted, g, total-set service_count s.requesters i r r' e);
    lines = h.lines;
  }

  take_file-Serviced :
      (i n : ℕ) (fs : List File) (r : Option (Name × List File))
      → get_elem? s.requesters i ≡ some (searching n)
      → Marks s.files r
      → Serviced k (take_file v i n s fs r)
  unfolding total
  take_file-Serviced i n [] r e m = requester_goes-Serviced i (searching n) (locking n none) e refl
  take_file-Serviced i n (f ∷ fs) (some (name, files)) e m =
      let r' = locking (n + 1) (v.fopen name) in
      record {
        counted =
            omega (arith, h.counted, m, total-set service_count s.requesters i (searching n) r' e);
        lines = h.lines;
      }
  take_file-Serviced i n (f ∷ fs) none e m = record {
    counted =
        omega (arith, h.counted, total-set service_count s.requesters i (searching n) stopped e);
    lines = omega (arith, h.lines);
  }

  requester_step-Serviced :
      (j i : ℕ) (r : Requester)
      → get_elem? s.requesters i ≡ some r
      → Leads k (requester_step v j i r s)
  unfolding requester_step service
  requester_step-Serviced j i (searching n) e =
      take_file-Serviced i n s.files (search s.files) e (search-Marks s.files)
  requester_step-Serviced j i (locking n f) e =
      branches_if (Serviced k) s.buffer_lock h
        (requester_goes-Serviced i (locking n f) (reading n f) e refl)
  requester_step-Serviced j i (reading n none) e = tt
  requester_step-Serviced j i (reading n (some [])) e =
      requester_goes-Serviced i (reading n (some [])) (searching n) e refl
  requester_step-Serviced j i (reading n (some (l ∷ ls))) e =
      requester_goes-Serviced i (reading n (some (l ∷ ls))) (checking n l ls) e refl
  requester_step-Serviced j i (checking n l ls) e =
      branches_if (Leads k) (s.current_position == array_size)
        (requester_goes-Serviced i (checking n l ls) (full_wait n l ls) e refl)
        (branches_if (Leads k) (ltb s.current_position array_size)
          (requester_goes-Serviced i (checking n l ls) (reading n (some ls)) e refl) tt)
  requester_step-Serviced j i (full_wait n l ls) e = h
  requester_step-Serviced j i (full_woken n l ls) e =
      branches_if (Serviced k) s.buffer_lock h
        (requester_goes-Serviced i (full_woken n l ls) (checking n l ls) e refl)
  requester_step-Serviced j i stopped e = h

  requesters_signalled :
      (j : ℕ)
      → total service_count (signal wake_requester is_full_wait j s.requesters)
        ≡ total service_count s.requesters
  requesters_signalled j =
      total-signal service_count wake_requester is_full_wait service_count-wake j s.requesters

  grab-Serviced : (j p : ℕ) → Leads k (grab j p s)
  grab-Serviced j zero = tt
  grab-Serviced j (suc p) = elim (Option-cases (get_elem? s.buffer p)) [
    | inl f ↦ rw f tt
    | inr (name, f) ↦ rw f h
  ]

  resolver_step-Serviced : (i j : ℕ) (r : Resolver) → Leads k (resolver_step v i j r s)
  unfolding resolver_step
  resolver_step-Serviced i j entering = branches_if (Serviced k) s.buffer_lock h h
  resolver_step-Serviced i j testing = h
  resolver_step-Serviced i j testing_done =
      branches_if (Serviced k) (s.threads_finished == s.thread_count) h h
  resolver_step-Serviced i j signalling = record {
    counted = omega (arith, h.counted, requesters_signalled i);
    lines = h.lines;
  }
  resolver_step-Serviced i j empty_wait = h
  resolver_step-Serviced i j empty_woken = branches_if (Serviced k) s.buffer_lock h h
  resolver_step-Serviced i j taking = grab-Serviced j s.current_position
  resolver_step-Serviced i j (resolving name) = h
  resolver_step-Serviced i j ended = h

  turn-Serviced : (t : Turn) → Leads k (turn v t s)
  unfolding turn
  turn-Serviced (requester_turn i j) = elim (Option-cases (get_elem? s.requesters i)) [
    | inl e ↦ rw (e, turn) h
    | inr (r, e) ↦ rw (e, turn) (requester_step-Serviced j i r e)
  ]
  turn-Serviced (resolver_turn j i) = elim (Option-cases (get_elem? s.resolvers j)) [
    | inl e ↦ rw (e, turn) h
    | inr (r, e) ↦ rw (e, turn) (resolver_step-Serviced i j r)
  ]
  turn-Serviced (stir_requester i) = elim (Option-cases (get_elem? s.requesters i)) [
    | inl e ↦ rw (e, turn) h
    | inr (r, e) ↦
        rw (e, turn) (requester_goes-Serviced i r (wake_requester r) e (service_count-wake r))
  ]
  turn-Serviced (stir_resolver j) = elim (Option-cases (get_elem? s.resolvers j)) [
    | inl e ↦ rw (e, turn) h
    | inr (r, e) ↦ rw (e, turn) h
  ]

pub turns-Serviced :
    (v : World) (k : ℕ) (ts : List Turn) (s s' : Lookup)
    → Serviced k s
    → turns v ts s ≡ ok s'
    → Serviced k s'
unfolding turns
turns-Serviced v k [] s s' h e = let same : s ≡ s' = cc in subst (Serviced k) same h
turns-Serviced v k (t ∷ ts) s s' h e =
    let (s'', f, rest) = >>=-eq-ok (turn v t s) (turns v ts) e in
    turns-Serviced v k ts s'' s' (subst (Leads k) f (turn-Serviced v k s h t)) rest
