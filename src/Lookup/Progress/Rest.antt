-- ===== src/Lookup/Progress/Rest.antt =====
-- Where a run comes to rest.
use csci3757_operating_syste.Base.{
  ℕ, suc, ◌<◌, ◌≡◌, refl, sym, ◌∙◌, ap, ◌⊎◌, inl, inr, true, some, List, [], ◌∷◌, Result, ok,
  get_elem?, total, All, All-get, arith, subst, total-lt,
}
use csci3757_operating_syste.Lookup.{
  World, Requester, full_wait, stopped, Resolver, empty_wait, ended, Lookup, Turn, requester_turn,
  resolver_turn, turn,
}
use csci3757_operating_syste.Lookup.Invariant.{Inv, bit, holds_requester, holds_resolver}
use csci3757_operating_syste.Lookup.Ending.{one, is_stopped, is_stopped-le}
use csci3757_operating_syste.Lookup.Ending.Asleep.{Asleep, IsTurn}
use csci3757_operating_syste.Lookup.Progress.{effort, Outcome, rests_requester, rests_resolver}
use csci3757_operating_syste.Lookup.Progress.Requesters.{requester_step-Outcome}
use csci3757_operating_syste.Lookup.Progress.Resolvers.{resolver_step-Outcome}
use csci3757_operating_syste.Lookup.Progress.Alert.{Alert, drained, awake}

-- No thread can go on: whoever's turn it is, nothing changes, unless a wait ends for no reason.
unfoldable pub AtRest : World → Lookup → Type 0
AtRest v s = (t : Turn) → IsTurn t → turn v t s ≡ ok s

All-every {ℓ κ} :
    {A : Type ℓ} (P : A → Type κ) (xs : List A)
    → ((i : ℕ) (x : A) → get_elem? xs i ≡ some x → P x)
    → All P xs
All-every P [] h = tt
All-every P (x ∷ xs) h = (h 0 x refl, All-every P xs (λ i y e. h (suc i) y e))

pub total-none {ℓ κ} :
    {A : Type ℓ} (P : A → Type κ) (f : A → ℕ)
    → ((x : A) → P x → f x ≡ 0)
    → (xs : List A) → All P xs
    → total f xs ≡ 0
unfolding total
total-none P f h [] a = refl
total-none P f h (x ∷ xs) (p, a) = omega (arith, h x p, total-none P f h xs a)

total-each {ℓ} :
    {A : Type ℓ} (f : A → ℕ) (xs : List A) → All (λ x. f x ≡ 1) xs → total f xs ≡ total one xs
unfolding total
total-each f [] a = refl
total-each f (x ∷ xs) (p, a) = omega (arith, p, total-each f xs a)

-- A thread whose turn changes nothing rests, or waits for the lock.
abbrev pub Still : ℕ → ℕ → Lookup → Type 0
Still rests holds s = (rests ≡ 1) ⊎ ((holds ≡ 0) × (s.buffer_lock ≡ true))

pub Outcome-Still :
    (v : World) (c rests holds : ℕ) (s : Lookup) (x : Result Lookup)
    → Outcome v c s rests holds x
    → x ≡ ok s
    → Still rests holds s
Outcome-Still v c rests holds s x (inl m) h =
    let same : m.next ≡ s = cc (sym m.leads ∙ h) in
    let less : effort v c s < effort v c s = subst (λ y. effort v c y < effort v c s) same m.less in
    absurd (omega (arith, less))
Outcome-Still v c rests holds s x (inr (inl (e, g))) h = absurd (cc (sym g ∙ h))
Outcome-Still v c rests holds s x (inr (inr (e, why))) h = why

rests-holds_requester : (r : Requester) → rests_requester r ≡ 1 → holds_requester r ≡ 0
rests-holds_requester r h =
    elim r as (λ r. rests_requester r ≡ 1 → holds_requester r ≡ 0) [
      | stopped ↦ λ g. refl
      | full_wait n l ls ↦ λ g. refl
      | _ ↦ λ g. ground arith
    ]
      h

rests-holds_resolver : (r : Resolver) → rests_resolver r ≡ 1 → holds_resolver r ≡ 0
rests-holds_resolver r h =
    elim r as (λ r. rests_resolver r ≡ 1 → holds_resolver r ≡ 0) [
      | ended ↦ λ g. refl
      | empty_wait ↦ λ g. refl
      | _ ↦ λ g. ground arith
    ]
      h

is_stopped-stopped : (r : Requester) → (is_stopped r < one r → ⊥) → r ≡ stopped
is_stopped-stopped r h =
    elim r as (λ r. (is_stopped r < one r → ⊥) → r ≡ stopped) [
      | stopped ↦ λ g. refl
      | _ ↦ λ g. absurd (g (omega arith))
    ]
      h

rests-cases : (r : Resolver) → rests_resolver r ≡ 1 → (r ≡ ended) ⊎ (r ≡ empty_wait)
rests-cases r h =
    elim r as (λ r. rests_resolver r ≡ 1 → (r ≡ ended) ⊎ (r ≡ empty_wait)) [
      | ended ↦ λ g. inl refl
      | empty_wait ↦ λ g. inr refl
      | _ ↦ λ g. absurd (ground arith)
    ]
      h

module _ (v : World) (s : Lookup) (still : AtRest v s) where
  pub requester-Still :
      (i : ℕ) (r : Requester)
      → get_elem? s.requesters i ≡ some r
      → Still (rests_requester r) (holds_requester r) s
  unfolding turn AtRest
  requester-Still i r e =
      let here : turn v (requester_turn i 0) s ≡ ok s = still (requester_turn i 0) tt in
      let c = total one s.resolvers in
      Outcome-Still v c _ _ s _ (requester_step-Outcome v c s 0 i r refl e) (rw (e, turn) at here)

  pub resolver-Still :
      (j : ℕ) (r : Resolver)
      → get_elem? s.resolvers j ≡ some r
      → Still (rests_resolver r) (holds_resolver r) s
  unfolding turn AtRest
  resolver-Still j r e =
      let here : turn v (resolver_turn j 0) s ≡ ok s = still (resolver_turn j 0) tt in
      Outcome-Still v 0 _ _ s _ (resolver_step-Outcome v 0 s 0 j r e) (rw (e, turn) at here)

-- Every thread is still.
module _ (s : Lookup)
    (still_requesters : (i : ℕ) (r : Requester)
      → get_elem? s.requesters i ≡ some r
      → Still (rests_requester r) (holds_requester r) s)
    (still_resolvers : (j : ℕ) (r : Resolver)
      → get_elem? s.resolvers j ≡ some r
      → Still (rests_resolver r) (holds_resolver r) s) where
  requesters_hold_none : total holds_requester s.requesters ≡ 0
  requesters_hold_none =
      total-none (λ r. holds_requester r ≡ 0) holds_requester (λ r h. h) s.requesters
        (All-every (λ r. holds_requester r ≡ 0) s.requesters
          (λ i r e. elim (still_requesters i r e) [
            | inl h ↦ rests-holds_requester r h
            | inr (h, l) ↦ h
          ]))

  resolvers_hold_none : total holds_resolver s.resolvers ≡ 0
  resolvers_hold_none =
      total-none (λ r. holds_resolver r ≡ 0) holds_resolver (λ r h. h) s.resolvers
        (All-every (λ r. holds_resolver r ≡ 0) s.resolvers
          (λ j r e. elim (still_resolvers j r e) [
            | inl h ↦ rests-holds_resolver r h
            | inr (h, l) ↦ h
          ]))

  -- So the lock is free, and every thread rests.
  not_locked : Inv s → s.buffer_lock ≡ true → ⊥
  not_locked inv l =
      let one_bit : bit s.buffer_lock ≡ 1 = ap bit l in
      absurd (omega (arith, inv.exclusive, requesters_hold_none, resolvers_hold_none, one_bit))

  requesters_rest : Inv s → All (λ r. rests_requester r ≡ 1) s.requesters
  requesters_rest inv =
      All-every (λ r. rests_requester r ≡ 1) s.requesters
        (λ i r e. elim (still_requesters i r e) [
          | inl h ↦ h
          | inr (h, l) ↦ absurd (not_locked inv l)
        ])

  resolvers_rest : Inv s → All (λ r. rests_resolver r ≡ 1) s.resolvers
  resolvers_rest inv =
      All-every (λ r. rests_resolver r ≡ 1) s.resolvers
        (λ j r e. elim (still_resolvers j r e) [
          | inl h ↦ h
          | inr (h, l) ↦ absurd (not_locked inv l)
        ])

  -- An alert state at rest: all requesters have stopped, and the buffer is empty.
  pub none_waits :
      Inv s
      → Alert s
      → (total is_stopped s.requesters ≡ total one s.requesters) × (s.current_position ≡ 0)
  none_waits inv a =
      let p = total-each rests_requester s.requesters (requesters_rest inv) in
      let q = total-each rests_resolver s.resolvers (resolvers_rest inv) in
      elim a [ drained h g ↦ (omega (arith, h, p), g) | awake h ↦ absurd (omega (arith, h, p, q)) ]

  pub still-Asleep : Inv s → Alert s → Asleep s
  still-Asleep inv a =
      let (stops, empty) = none_waits inv a in
      record {
        all_stopped =
            All-every (λ r. r ≡ stopped) s.requesters
              (λ i r e. is_stopped-stopped r (λ l.
                omega (arith, stops, total-lt is_stopped one is_stopped-le s.requesters i r e l)));
        all_rest =
            All-every (λ r. (r ≡ ended) ⊎ (r ≡ empty_wait)) s.resolvers
              (λ j r e.
                rests-cases r
                  (All-get (λ r. rests_resolver r ≡ 1) s.resolvers j r (resolvers_rest inv) e));
      }
