-- ===== src/Lookup/Ending/Resolvers.antt =====
-- A turn of a resolver keeps the order in which the program ends.
use csci3757_operating_syste.Base.{
  total-lt, ℕ, zero, suc, ◌≡◌, refl, Bool, true, false, Option, some, ◌∷◌, ok, out_of_bounds, ◌==◌,
  if◌then◌else◌, get_elem?, arith, subst, total-set, total-ge, or_err, >>=-eq-ok,
}
use csci3757_operating_syste.Lookup.{
  Name, World, Resolver, entering, testing, testing_done, signalling, empty_wait, empty_woken,
  taking, ended, resolving, Lookup, signal, wake_requester, is_full_wait, put_resolver, grab, lock,
  resolver_step, dnslookup, inet_addrstrlen,
}
use csci3757_operating_syste.Lookup.Invariant.{Inv, bit-le, holds_resolver}
use csci3757_operating_syste.Lookup.Ending.{
  Ordered, is_ended, at_empty, one, resolver_moves-Ordered, signal_requesters-Ordered, at_empty-le,
}
use csci3757_operating_syste.Lookup.Ending.Requesters.{lock-Ordered}

-- The test of the position, and the test of the threads that have finished.
tested-Ordered :
    (s : Lookup) (j : ℕ) (b : Bool)
    → Ordered s
    → get_elem? s.resolvers j ≡ some testing
    → (s.current_position == 0) ≡ b
    → Ordered (put_resolver s j (if b then testing_done else taking))
tested-Ordered s j true o e t =
    let empty : s.current_position ≡ 0 = ground arith in
    omega (
      arith,
      empty,
      total-set is_ended s.resolvers j testing testing_done e,
      total-set at_empty s.resolvers j testing testing_done e,
      total-set one s.resolvers j testing testing_done e,
    )
tested-Ordered s j false o e t =
    resolver_moves-Ordered s j testing taking s.buffer_lock o e refl (omega arith)

finished-Ordered :
    (s : Lookup) (j : ℕ) (b : Bool)
    → Ordered s
    → get_elem? s.resolvers j ≡ some testing_done
    → (s.threads_finished == s.thread_count) ≡ b
    → Ordered (
        if b
        then record (put_resolver s j ended) { buffer_lock = false }
        else put_resolver s j signalling)
finished-Ordered s j true o e t =
    let all : s.threads_finished ≡ s.thread_count = ground arith in
    omega (
      arith,
      all,
      total-ge at_empty s.resolvers j testing_done e,
      total-set is_ended s.resolvers j testing_done ended e,
      total-set at_empty s.resolvers j testing_done ended e,
      total-set one s.resolvers j testing_done ended e,
    )
finished-Ordered s j false o e t =
    resolver_moves-Ordered s j testing_done signalling s.buffer_lock o e refl (omega arith)

grab-Ordered :
    (s s' : Lookup) (j p : ℕ)
    → Inv s
    → Ordered s
    → get_elem? s.resolvers j ≡ some taking
    → s.current_position ≡ p
    → grab j p s ≡ ok s'
    → Ordered s'
grab-Ordered s s' j zero inv o e c h = absurd (ground arith)
grab-Ordered s s' j (suc p) inv o e c h =
    let (name, f, g) =
      >>=-eq-ok (or_err (get_elem? s.buffer p) out_of_bounds)
        (λ name. ok (record (put_resolver s j (resolving name)) {
          current_position = p;
          buffer_lock = false;
        }))
        h in
    let next = record (put_resolver s j (resolving name)) {
      current_position = p;
      buffer_lock = false;
    } in
    let same : next ≡ s' = cc in
    let kept : Ordered next = omega (
      arith,
      c,
      inv.exclusive,
      bit-le s.buffer_lock,
      total-lt at_empty holds_resolver at_empty-le s.resolvers j taking e (omega arith),
      total-set is_ended s.resolvers j taking (resolving name) e,
      total-set at_empty s.resolvers j taking (resolving name) e,
      total-set one s.resolvers j taking (resolving name) e,
    ) in
    subst Ordered same kept

resolving-Ordered :
    (s : Lookup) (j : ℕ) (name : Name) (ip : Option (Option Name))
    → Ordered s
    → get_elem? s.resolvers j ≡ some (resolving name)
    → Ordered (record (put_resolver s j entering) { results_log = (name, ip) ∷ s.results_log })
resolving-Ordered s j name ip o e = omega (
  arith,
  total-set is_ended s.resolvers j (resolving name) entering e,
  total-set at_empty s.resolvers j (resolving name) entering e,
  total-set one s.resolvers j (resolving name) entering e,
)

-- What a resolver's turn leads to, if it succeeds, is ordered.
pub resolver_step-Ordered :
    (v : World) (k j : ℕ) (r : Resolver) (s s' : Lookup)
    → Inv s
    → Ordered s
    → get_elem? s.resolvers j ≡ some r
    → resolver_step v k j r s ≡ ok s'
    → Ordered s'
unfolding resolver_step
resolver_step-Ordered v k j entering s s' inv o e h =
    let next = put_resolver s j testing in
    let same : lock s next ≡ s' = cc in
    subst Ordered same (
      lock-Ordered s next s.buffer_lock o
        (resolver_moves-Ordered s j entering testing true o e refl (omega arith)))
resolver_step-Ordered v k j testing s s' inv o e h =
    let same : put_resolver s j (if s.current_position == 0 then testing_done else taking) ≡ s' =
      cc in
    subst Ordered same (tested-Ordered s j (s.current_position == 0) o e refl)
resolver_step-Ordered v k j testing_done s s' inv o e h =
    let b = s.threads_finished == s.thread_count in
    let same : (if b
          then record (put_resolver s j ended) { buffer_lock = false }
          else put_resolver s j signalling)
        ≡ s' =
      cc in
    subst Ordered same (finished-Ordered s j b o e refl)
resolver_step-Ordered v k j signalling s s' inv o e h =
    let next = record (put_resolver s j empty_wait) { buffer_lock = false } in
    let same : record next { requesters = signal wake_requester is_full_wait k s.requesters } ≡ s' =
      cc in
    subst Ordered same (
      signal_requesters-Ordered next k
        (resolver_moves-Ordered s j signalling empty_wait false o e refl (omega arith)))
resolver_step-Ordered v k j empty_wait s s' inv o e h =
    let same : s ≡ s' = cc in subst Ordered same o
resolver_step-Ordered v k j empty_woken s s' inv o e h =
    let next = put_resolver s j taking in
    let same : lock s next ≡ s' = cc in
    subst Ordered same (
      lock-Ordered s next s.buffer_lock o
        (resolver_moves-Ordered s j empty_woken taking true o e refl (omega arith)))
resolver_step-Ordered v k j taking s s' inv o e h =
    grab-Ordered s s' j s.current_position inv o e refl h
resolver_step-Ordered v k j (resolving name) s s' inv o e h =
    let ip = dnslookup v.net name inet_addrstrlen in
    let same : record (put_resolver s j entering) { results_log = (name, ip) ∷ s.results_log }
        ≡ s' =
      cc in
    subst Ordered same (resolving-Ordered s j name ip o e)
resolver_step-Ordered v k j ended s s' inv o e h = let same : s ≡ s' = cc in subst Ordered same o
