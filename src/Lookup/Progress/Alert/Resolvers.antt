-- ===== src/Lookup/Progress/Alert/Resolvers.antt =====
-- After a turn of a resolver somebody is awake, or the buffer is empty and no requester waits.
use csci3757_operating_syste.Base.{
  ℕ, zero, suc, ◌≤◌, ◌≡◌, refl, inl, inr, Bool, true, false, some, ok, ◌==◌, if◌then◌else◌,
  get_elem?, arith, Bool-cases, Option-cases, total-lt, total-le, total-ge, branches_if,
}
use csci3757_operating_syste.Lookup.{
  World, Requester, stopped, full_wait, Resolver, entering, testing, testing_done, signalling,
  empty_wait, empty_woken, taking, ended, resolving, Lookup, signal, wake_requester, is_full_wait,
  put_resolver, resolver_step, grab,
}
use csci3757_operating_syste.Lookup.Invariant.{total-signal}
use csci3757_operating_syste.Lookup.Ending.{Ordered, one, is_stopped, is_stopped-wake, at_empty}
use csci3757_operating_syste.Lookup.Progress.{rests_requester, rests_resolver}
use csci3757_operating_syste.Lookup.Progress.Alert.{
  Alert, drained, resolver_awake, requesters_awake, resolvers_awake, signal_requesters-Signalled,
  rests_requester-le, rests_resolver-le,
}
use csci3757_operating_syste.Lookup.Progress.Alert.Requesters.{Leads}

pub is_stopped-le_rests : (r : Requester) → is_stopped r ≤ rests_requester r
is_stopped-le_rests r = elim r as (λ r. is_stopped r ≤ rests_requester r) [
  | stopped ↦ omega arith
  | full_wait n l ls ↦ omega arith
  | _ ↦ omega arith
]

module _ (v : World) (s : Lookup) where
  resolver_goes-Alert :
      (j : ℕ) (r r' : Resolver) (b : Bool)
      → get_elem? s.resolvers j ≡ some r
      → rests_resolver r ≡ 0
      → rests_resolver r' ≡ 0
      → Alert (if b then s else record (put_resolver s j r') { buffer_lock = true })
  resolver_goes-Alert j r r' b e h g =
      branches_if Alert b
        (resolvers_awake s
          (total-lt rests_resolver one rests_resolver-le s.resolvers j r e (omega (arith, h))))
        (resolvers_awake _ (resolver_awake s j r r' e h g))

  -- A resolver ends when all requesters have stopped and it has found the buffer empty.
  ends-Alert :
      (j : ℕ)
      → Ordered s
      → get_elem? s.resolvers j ≡ some testing_done
      → s.threads_finished ≡ s.thread_count
      → Alert (record (put_resolver s j ended) { buffer_lock = false })
  ends-Alert j o e all =
      let some_at = total-ge at_empty s.resolvers j testing_done e in
      drained
        (omega (
          arith,
          all,
          o.counted,
          o.crew,
          total-le is_stopped rests_requester is_stopped-le_rests s.requesters,
          total-le rests_requester one rests_requester-le s.requesters,
        ))
        (omega (arith, o.tested, some_at))

  -- The signal of a resolver that waits reaches a requester, or no requester waits.
  falls_asleep-Alert :
      (j k : ℕ)
      → Ordered s
      → get_elem? s.resolvers j ≡ some signalling
      → Alert (record (put_resolver s j empty_wait) {
        buffer_lock = false;
        requesters = signal wake_requester is_full_wait k s.requesters;
      })
  falls_asleep-Alert j k o e =
      let stops =
        total-signal is_stopped wake_requester is_full_wait is_stopped-wake k s.requesters in
      let same = total-signal one wake_requester is_full_wait (λ r. refl) k s.requesters in
      let le = total-le rests_requester one rests_requester-le s.requesters in
      let some_at = total-ge at_empty s.resolvers j signalling e in
      elim (signal_requesters-Signalled k s.requesters) [
        | inl h ↦ requesters_awake _ (omega (arith, h, same, le))
        | inr (h, g) ↦ drained (omega (arith, h, g, stops)) (omega (arith, o.tested, some_at))
      ]

  grab-Alert : (j p : ℕ) → get_elem? s.resolvers j ≡ some taking → Leads (grab j p s)
  grab-Alert j zero e = tt
  grab-Alert j (suc p) e = elim (Option-cases (get_elem? s.buffer p)) [
    | inl f ↦ rw f tt
    | inr (name, f) ↦
        rw f (resolvers_awake _ (resolver_awake s j taking (resolving name) e refl refl))
  ]

  pub resolver_step-Alert :
      (k j : ℕ) (r : Resolver)
      → Ordered s
      → Alert s
      → get_elem? s.resolvers j ≡ some r
      → Leads (resolver_step v k j r s)
  unfolding resolver_step
  resolver_step-Alert k j entering o a e =
      resolver_goes-Alert j entering testing s.buffer_lock e refl refl
  resolver_step-Alert k j testing o a e =
      branches_if (λ r. Leads (ok (put_resolver s j r))) (s.current_position == 0)
        (resolvers_awake _ (resolver_awake s j testing testing_done e refl refl))
        (resolvers_awake _ (resolver_awake s j testing taking e refl refl))
  resolver_step-Alert k j testing_done o a e =
      elim (Bool-cases (s.threads_finished == s.thread_count)) [
        | inl all ↦ rw all (ends-Alert j o e (ground arith))
        | inr more ↦
            rw more (resolvers_awake _ (resolver_awake s j testing_done signalling e refl refl))
      ]
  resolver_step-Alert k j signalling o a e = falls_asleep-Alert j k o e
  resolver_step-Alert k j empty_wait o a e = a
  resolver_step-Alert k j empty_woken o a e =
      resolver_goes-Alert j empty_woken taking s.buffer_lock e refl refl
  resolver_step-Alert k j taking o a e = grab-Alert j s.current_position e
  resolver_step-Alert k j (resolving name) o a e =
      resolvers_awake _ (resolver_awake s j (resolving name) entering e refl refl)
  resolver_step-Alert k j ended o a e = a
