-- ===== src/Lookup/Ending/Asleep.antt =====
-- A resolver that goes to sleep after the last broadcast is not woken.
use csci3757_operating_syste.Base.{
  ◌≡◌, refl, ◌⊎◌, inl, inr, List, [], ◌∷◌, ok, get_elem?, All, All-get, Option-cases,
}
use csci3757_operating_syste.Lookup.{
  World, stopped, empty_wait, ended, Lookup, Turn, requester_turn, resolver_turn, stir_requester,
  stir_resolver, requester_step, resolver_step, turn, turns,
}

-- The requesters have stopped, and each resolver has ended or waits.
pub record Asleep (s : Lookup) : Type 0 where
  pub all_stopped : All (λ r. r ≡ stopped) s.requesters
  pub all_rest : All (λ r. (r ≡ ended) ⊎ (r ≡ empty_wait)) s.resolvers

-- A turn that is not a wake-up for no reason.
abbrev pub IsTurn : Turn → Type 0
IsTurn (requester_turn i k) = Unit
IsTurn (resolver_turn j k) = Unit
IsTurn (stir_requester i) = ⊥
IsTurn (stir_resolver j) = ⊥

pub turn-Asleep : (v : World) (t : Turn) (s : Lookup) → IsTurn t → Asleep s → turn v t s ≡ ok s
unfolding turn requester_step resolver_step
turn-Asleep v (requester_turn i k) s h a = elim (Option-cases (get_elem? s.requesters i)) [
  | inl e ↦ rw (e, turn) refl
  | inr (r, e) ↦
      let same : r ≡ stopped = All-get (λ r. r ≡ stopped) s.requesters i r a.all_stopped e in
      rw (e, turn, same) refl
]
turn-Asleep v (resolver_turn j k) s h a = elim (Option-cases (get_elem? s.resolvers j)) [
  | inl e ↦ rw (e, turn) refl
  | inr (r, e) ↦ elim (All-get (λ r. (r ≡ ended) ⊎ (r ≡ empty_wait)) s.resolvers j r a.all_rest e) [
    | inl same ↦ rw (e, turn, same) refl
    | inr same ↦ rw (e, turn, same) refl
  ]
]
turn-Asleep v (stir_requester i) s h a = absurd h
turn-Asleep v (stir_resolver j) s h a = absurd h

-- Once the requesters have stopped and every resolver has ended or waits, no turns change anything,
-- unless a wait ends for no reason: a resolver that waits then waits for ever.
pub turns-Asleep :
    (v : World) (ts : List Turn) (s : Lookup) → All IsTurn ts → Asleep s → turns v ts s ≡ ok s
unfolding turns
turns-Asleep v [] s h a = refl
turns-Asleep v (t ∷ ts) s (h, hs) a = rw (turn-Asleep v t s h a, turns) (turns-Asleep v ts s hs a)
