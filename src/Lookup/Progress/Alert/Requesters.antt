-- ===== src/Lookup/Progress/Alert/Requesters.antt =====
-- After a turn of a requester somebody is awake.
use csci3757_operating_syste.Base.{
  ℕ, ◌+◌, ◌<◌, ◌≡◌, refl, inl, inr, Bool, true, Option, none, some, List, [], ◌∷◌, Result, ok, err,
  ltb, ◌==◌, if◌then◌else◌, get_elem?, total, arith, total-lt, total-le, branches_if,
}
use csci3757_operating_syste.Lookup.{
  Name, File, World, Requester, searching, locking, reading, checking, full_wait, full_woken,
  stopped, Lookup, search, array_size, wake_resolver, is_empty_wait, put_requester, service,
  requester_step, wait_full, take_file,
}
use csci3757_operating_syste.Lookup.Invariant.{total-signal, total-map_wake}
use csci3757_operating_syste.Lookup.Ending.{Ordered, one, is_stopped, is_stopped-le, is_ended}
use csci3757_operating_syste.Lookup.Progress.{rests_requester, rests_resolver}
use csci3757_operating_syste.Lookup.Progress.Alert.{
  Alert, requester_awake, requesters_awake, resolvers_awake, rests-broadcast,
  signal_resolvers-Signalled, rests_requester-le, rests_resolver-le,
}

-- What a turn leads to, if it succeeds, is alert.
abbrev pub Leads : Result Lookup → Type 0
Leads (ok s) = Alert s
Leads (err e) = Unit

module _ (v : World) (s : Lookup) where
  -- While a requester has not stopped, no resolver has ended.
  none_ended :
      (i : ℕ) (r : Requester)
      → Ordered s
      → get_elem? s.requesters i ≡ some r
      → is_stopped r ≡ 0
      → total is_ended s.resolvers < total one s.resolvers
  none_ended i r o e h = omega (
    arith,
    o.over,
    o.counted,
    o.crew,
    o.manned,
    h,
    total-lt is_stopped one is_stopped-le s.requesters i r e (omega (arith, h)),
  )

  take_file-Alert :
      (i n : ℕ) (fs : List File) (r : Option (Name × List File))
      → Ordered s
      → get_elem? s.requesters i ≡ some (searching n)
      → Alert (take_file v i n s fs r)
  take_file-Alert i n [] r o e =
      requesters_awake _ (requester_awake s i (searching n) (locking n none) e refl refl)
  take_file-Alert i n (f ∷ fs) (some (name, files)) o e =
      let r' = locking (n + 1) (v.fopen name) in
      requesters_awake _ (requester_awake s i (searching n) r' e refl refl)
  take_file-Alert i n (f ∷ fs) none o e = resolvers_awake _ (
      omega (
        arith,
        none_ended i (searching n) o e refl,
        rests-broadcast s.resolvers,
        total-map_wake one wake_resolver is_empty_wait (λ r. refl) s.resolvers,
      ))

  -- The signal of a requester that waits reaches a resolver, or all resolvers are awake.
  wait_full-Alert :
      (k i n : ℕ) (l : Name) (ls : List Name)
      → Ordered s
      → get_elem? s.requesters i ≡ some (checking n l ls)
      → Alert (wait_full k i n l ls s)
  wait_full-Alert k i n l ls o e =
      let same = total-signal one wake_resolver is_empty_wait (λ r. refl) k s.resolvers in
      let busy = none_ended i (checking n l ls) o e refl in
      let le = total-le rests_resolver one rests_resolver-le s.resolvers in
      resolvers_awake _ (elim (signal_resolvers-Signalled k s.resolvers) [
        | inl h ↦ omega (arith, h, same, le)
        | inr (h, g) ↦ omega (arith, h, g, same, busy)
      ])

  -- A thread that asks for the lock, or goes on.
  requester_goes-Alert :
      (i : ℕ) (r r' : Requester) (b : Bool)
      → get_elem? s.requesters i ≡ some r
      → rests_requester r ≡ 0
      → rests_requester r' ≡ 0
      → Alert (if b then s else record (put_requester s i r') { buffer_lock = true })
  requester_goes-Alert i r r' b e h g =
      branches_if Alert b
        (requesters_awake s
          (total-lt rests_requester one rests_requester-le s.requesters i r e (omega (arith, h))))
        (requesters_awake _ (requester_awake s i r r' e h g))

  pub requester_step-Alert :
      (k i : ℕ) (r : Requester)
      → Ordered s
      → Alert s
      → get_elem? s.requesters i ≡ some r
      → Leads (requester_step v k i r s)
  unfolding requester_step service
  requester_step-Alert k i (searching n) o a e = take_file-Alert i n s.files (search s.files) o e
  requester_step-Alert k i (locking n f) o a e =
      requester_goes-Alert i (locking n f) (reading n f) s.buffer_lock e refl refl
  requester_step-Alert k i (reading n none) o a e = tt
  requester_step-Alert k i (reading n (some [])) o a e =
      requesters_awake _ (requester_awake s i (reading n (some [])) (searching n) e refl refl)
  requester_step-Alert k i (reading n (some (l ∷ ls))) o a e =
      requesters_awake _
        (requester_awake s i (reading n (some (l ∷ ls))) (checking n l ls) e refl refl)
  requester_step-Alert k i (checking n l ls) o a e =
      branches_if Leads (s.current_position == array_size) (wait_full-Alert k i n l ls o e) (
        branches_if Leads (ltb s.current_position array_size)
          (requesters_awake _
            (requester_awake s i (checking n l ls) (reading n (some ls)) e refl refl))
          tt)
  requester_step-Alert k i (full_wait n l ls) o a e = a
  requester_step-Alert k i (full_woken n l ls) o a e =
      requester_goes-Alert i (full_woken n l ls) (checking n l ls) s.buffer_lock e refl refl
  requester_step-Alert k i stopped o a e = a
