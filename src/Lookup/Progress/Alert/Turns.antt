-- ===== src/Lookup/Progress/Alert/Turns.antt =====
-- Whole runs stay alert.
use csci3757_operating_syste.Base.{
  ℕ, ◌≤◌, ◌≡◌, refl, inl, inr, Bool, List, [], ◌∷◌, some, ok, get_elem?, set, arith, Option-cases,
  total-set, total-le, >>=-eq-ok, subst,
}
use csci3757_operating_syste.Lookup.{
  Name, World, Requester, full_wait, searching, Resolver, empty_wait, Lookup, put_requester,
  put_resolver, wake_requester, wake_resolver, Turn, requester_turn, resolver_turn, stir_requester,
  stir_resolver, turn, turns, launched,
}
use csci3757_operating_syste.Lookup.Invariant.{Inv}
use csci3757_operating_syste.Lookup.Runs.{total-replicate}
use csci3757_operating_syste.Lookup.Ending.{Ordered, one, is_stopped, is_stopped-wake}
use csci3757_operating_syste.Lookup.Ending.Turns.{turn-Ordered, turn-Inv}
use csci3757_operating_syste.Lookup.Progress.{rests_requester, rests_resolver}
use csci3757_operating_syste.Lookup.Progress.Alert.{Alert, drained, awake}
use csci3757_operating_syste.Lookup.Progress.Alert.Requesters.{Leads, requester_step-Alert}
use csci3757_operating_syste.Lookup.Progress.Alert.Resolvers.{
  resolver_step-Alert, is_stopped-le_rests,
}

requester_rests-wake : (r : Requester) → rests_requester (wake_requester r) ≤ rests_requester r
requester_rests-wake r = elim r as (λ r. rests_requester (wake_requester r) ≤ rests_requester r) [
  | full_wait n l ls ↦ omega arith
  | _ ↦ omega arith
]

resolver_rests-wake : (r : Resolver) → rests_resolver (wake_resolver r) ≤ rests_resolver r
resolver_rests-wake r = elim r as (λ r. rests_resolver (wake_resolver r) ≤ rests_resolver r) [
  | empty_wait ↦ omega arith
  | _ ↦ omega arith
]

-- A wake-up for no reason.
stir_requester-Alert :
    (s : Lookup) (i : ℕ) (r : Requester)
    → Alert s
    → get_elem? s.requesters i ≡ some r
    → Alert (put_requester s i (wake_requester r))
stir_requester-Alert s i r a e =
    let r' = wake_requester r in
    let fewer = requester_rests-wake r in
    let rests = total-set rests_requester s.requesters i r r' e in
    elim a [
      | drained h g ↦
          drained
            (omega (
              arith,
              h,
              rests,
              fewer,
              is_stopped-wake r,
              total-set is_stopped s.requesters i r r' e,
              total-le is_stopped rests_requester is_stopped-le_rests (set s.requesters i r'),
            ))
            g
      | awake h ↦ awake (omega (arith, h, rests, fewer, total-set one s.requesters i r r' e))
    ]

stir_resolver-Alert :
    (s : Lookup) (j : ℕ) (r : Resolver)
    → Alert s
    → get_elem? s.resolvers j ≡ some r
    → Alert (put_resolver s j (wake_resolver r))
stir_resolver-Alert s j r a e =
    let r' = wake_resolver r in
    elim a [
      | drained h g ↦ drained h g
      | awake h ↦ awake (
          omega (
            arith,
            h,
            resolver_rests-wake r,
            total-set rests_resolver s.resolvers j r r' e,
            total-set one s.resolvers j r r' e,
          ))
    ]

turn-Alert : (v : World) (t : Turn) (s : Lookup) → Ordered s → Alert s → Leads (turn v t s)
unfolding turn
turn-Alert v (requester_turn i k) s o a = elim (Option-cases (get_elem? s.requesters i)) [
  | inl e ↦ rw (e, turn) a
  | inr (r, e) ↦ rw (e, turn) (requester_step-Alert v s k i r o a e)
]
turn-Alert v (resolver_turn j k) s o a = elim (Option-cases (get_elem? s.resolvers j)) [
  | inl e ↦ rw (e, turn) a
  | inr (r, e) ↦ rw (e, turn) (resolver_step-Alert v s k j r o a e)
]
turn-Alert v (stir_requester i) s o a = elim (Option-cases (get_elem? s.requesters i)) [
  | inl e ↦ rw (e, turn) a
  | inr (r, e) ↦ rw (e, turn) (stir_requester-Alert s i r a e)
]
turn-Alert v (stir_resolver j) s o a = elim (Option-cases (get_elem? s.resolvers j)) [
  | inl e ↦ rw (e, turn) a
  | inr (r, e) ↦ rw (e, turn) (stir_resolver-Alert s j r a e)
]

pub turns-Alert :
    (v : World) (ts : List Turn) (s s' : Lookup)
    → Inv s
    → Ordered s
    → Alert s
    → turns v ts s ≡ ok s'
    → Alert s'
unfolding turns
turns-Alert v [] s s' inv o a h = let same : s ≡ s' = cc in subst Alert same a
turns-Alert v (t ∷ ts) s s' inv o a h =
    let (s'', e, rest) = >>=-eq-ok (turn v t s) (turns v ts) h in
    turns-Alert v ts s'' s' (turn-Inv v t s s'' inv e) (turn-Ordered v t s s'' inv o e)
      (subst Leads e (turn-Alert v t s o a)) rest

pub launched-Alert :
    (readable : Name → Bool) (fresh : List Name) (m n : ℕ) (names : List Name)
    → Alert (launched readable fresh m n names)
launched-Alert readable fresh m n names =
    drained
      (omega (
        arith,
        total-replicate rests_requester m (searching 0) refl,
        total-replicate is_stopped m (searching 0) refl,
      ))
      refl
