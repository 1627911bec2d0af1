-- ===== src/Lookup/Ending/Turns.antt =====
-- Whole runs keep the order in which the program ends.
use csci3757_operating_syste.Base.{
  ℕ, ◌≡◌, inl, inr, List, [], ◌∷◌, Result, ok, get_elem?, arith, Option-cases, subst, >>=-eq-ok,
}
use csci3757_operating_syste.Lookup.{
  Name, World, Lookup, put_requester, put_resolver, wake_requester, wake_resolver, Turn,
  requester_turn, resolver_turn, stir_requester, stir_resolver, turn, turns,
}
use csci3757_operating_syste.Lookup.Invariant.{Inv, weight}
use csci3757_operating_syste.Lookup.Runs.{turn-Keeps, Fails-err, turns-Ends, Ends}
use csci3757_operating_syste.Lookup.Ending.{
  Ordered, is_stopped-wake, is_ended-wake, at_empty-wake, requester_moves-Ordered,
  resolver_moves-Ordered,
}
use csci3757_operating_syste.Lookup.Ending.Requesters.{requester_step-Ordered}
use csci3757_operating_syste.Lookup.Ending.Resolvers.{resolver_step-Ordered}

same_state : (s s' : Lookup) → Ordered s → ◌≡◌ {A = Result Lookup} (ok s) (ok s') → Ordered s'
same_state s s' o e = let same : s ≡ s' = cc in subst Ordered same o

pub turn-Ordered :
    (v : World) (t : Turn) (s s' : Lookup) → Inv s → Ordered s → turn v t s ≡ ok s' → Ordered s'
unfolding turn
turn-Ordered v (requester_turn i k) s s' inv o h = elim (Option-cases (get_elem? s.requesters i)) [
  | inl e ↦ same_state s s' o (rw (e, turn) at h)
  | inr (r, e) ↦ requester_step-Ordered v k i r s s' inv o e (rw (e, turn) at h)
]
turn-Ordered v (resolver_turn j k) s s' inv o h = elim (Option-cases (get_elem? s.resolvers j)) [
  | inl e ↦ same_state s s' o (rw (e, turn) at h)
  | inr (r, e) ↦ resolver_step-Ordered v k j r s s' inv o e (rw (e, turn) at h)
]
turn-Ordered v (stir_requester i) s s' inv o h = elim (Option-cases (get_elem? s.requesters i)) [
  | inl e ↦ same_state s s' o (rw (e, turn) at h)
  | inr (r, e) ↦
      same_state (put_requester s i (wake_requester r)) s'
        (requester_moves-Ordered s i r (wake_requester r) s.buffer_lock o e (is_stopped-wake r))
        (rw (e, turn) at h)
]
turn-Ordered v (stir_resolver j) s s' inv o h = elim (Option-cases (get_elem? s.resolvers j)) [
  | inl e ↦ same_state s s' o (rw (e, turn) at h)
  | inr (r, e) ↦
      same_state (put_resolver s j (wake_resolver r)) s'
        (resolver_moves-Ordered s j r (wake_resolver r) s.buffer_lock o e (is_ended-wake r)
          (omega (arith, at_empty-wake r)))
        (rw (e, turn) at h)
]

pub turn-Inv : (v : World) (t : Turn) (s s' : Lookup) → Inv s → turn v t s ≡ ok s' → Inv s'
turn-Inv v t s s' inv h = elim (turn-Keeps v t s inv) [
  | inl (s'', e, k) ↦ let same : s'' ≡ s' = cc in subst Inv same k.inv
  | inr f ↦ elim (Fails-err v s t f) [ inl e ↦ absurd (cc) | inr e ↦ absurd (cc) ]
]

pub turns-Ordered :
    (v : World) (ts : List Turn) (s s' : Lookup)
    → Inv s
    → Ordered s
    → turns v ts s ≡ ok s'
    → Ordered s'
unfolding turns
turns-Ordered v [] s s' inv o h = same_state s s' o h
turns-Ordered v (t ∷ ts) s s' inv o h =
    let (s'', e, rest) = >>=-eq-ok (turn v t s) (turns v ts) h in
    turns-Ordered v ts s'' s' (turn-Inv v t s s'' inv e) (turn-Ordered v t s s'' inv o e) rest

pub turns-Inv : (v : World) (ts : List Turn) (s s' : Lookup) → Inv s → turns v ts s ≡ ok s' → Inv s'
unfolding turns
turns-Inv v [] s s' inv h = let same : s ≡ s' = cc in subst Inv same inv
turns-Inv v (t ∷ ts) s s' inv h =
    let (s'', e, rest) = >>=-eq-ok (turn v t s) (turns v ts) h in
    turns-Inv v ts s'' s' (turn-Inv v t s s'' inv e) rest

pub turns-same_names :
    (v : World) (ts : List Turn) (s s' : Lookup)
    → Inv s
    → turns v ts s ≡ ok s'
    → (w : Name → ℕ) → weight w v s' ≡ weight w v s
unfolding Ends
turns-same_names v ts s s' inv h w = elim (turns-Ends v ts s inv) [
  | inl (s'', e, k) ↦
      let same : s'' ≡ s' = cc in subst (λ x. weight w v x ≡ weight w v s) same (k.same_names w)
  | inr f ↦ elim f [ inl e ↦ absurd (cc) | inr e ↦ absurd (cc) ]
]
