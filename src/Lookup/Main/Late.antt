-- ===== src/Lookup/Main/Late.antt =====
-- Once the requesters have stopped, a resolver that is about to wait is not woken.
use csci3757_operating_syste.Base.{
  ℕ, zero, suc, ◌≡◌, ◌≢◌, refl, sym, ◌∙◌, ◌⊎◌, inl, inr, some, List, [], ◌∷◌, Result, ok, err, ◌==◌,
  get_elem?, set, All, All-get, arith, Bool-cases, Option-cases, branches_if, subst, >>=-eq-ok,
  get_elem?-set_ne, get_elem?-set_self, get_elem?-lt,
}
use csci3757_operating_syste.Lookup.{
  World, Requester, stopped, Resolver, entering, testing, testing_done, signalling, empty_wait,
  empty_woken, taking, ended, resolving, Lookup, signal, wake_first, wake_requester, is_full_wait,
  put_resolver, requester_step, resolver_step, grab, Turn, requester_turn, resolver_turn,
  stir_requester, stir_resolver, turn, turns,
}
use csci3757_operating_syste.Lookup.Ending.Asleep.{IsTurn}

abbrev pub AllStopped : List Requester → Type 0
AllStopped rs = All (λ r. r ≡ stopped) rs

-- A signal to requesters that have all stopped wakes none.
wake_first-AllStopped :
    (rs : List Requester) → AllStopped rs → AllStopped (wake_first wake_requester is_full_wait rs)
wake_first-AllStopped [] a = tt
wake_first-AllStopped (r ∷ rs) (e, a) = rw e (refl, wake_first-AllStopped rs a)

signal-AllStopped :
    (k : ℕ) (rs : List Requester)
    → AllStopped rs
    → AllStopped (signal wake_requester is_full_wait k rs)
unfolding signal
signal-AllStopped k rs a = elim (Option-cases (get_elem? rs k)) [
  | inl e ↦ rw (e, signal) (wake_first-AllStopped rs a)
  | inr (r, e) ↦
      let same : r ≡ stopped = All-get (λ r. r ≡ stopped) rs k r a e in
      rw (e, signal) (rw same (wake_first-AllStopped rs a))
]

-- The requesters have stopped, and the resolver at `j` is about to wait or waits.
abbrev pub Waits : ℕ → List Resolver → Type 0
Waits j rs = (get_elem? rs j ≡ some signalling) ⊎ (get_elem? rs j ≡ some empty_wait)

abbrev pub Late : ℕ → Lookup → Type 0
Late j s = AllStopped s.requesters × Waits j s.resolvers

abbrev StaysLate : ℕ → Result Lookup → Type 0
StaysLate j (ok s) = Late j s
StaysLate j (err e) = Unit

set-Waits :
    (rs : List Resolver) (j x : ℕ) (r : Resolver) → x ≢ j → Waits j rs → Waits j (set rs x r)
set-Waits rs j x r ne (inl e) = inl (get_elem?-set_ne rs x j r ne ∙ e)
set-Waits rs j x r ne (inr e) = inr (get_elem?-set_ne rs x j r ne ∙ e)

module _ (v : World) (j : ℕ) (s : Lookup) (l : Late j s) where
  -- Another resolver moves on.
  moved : (x : ℕ) (r : Resolver) → x ≢ j → Late j (put_resolver s x r)
  moved x r ne = (l.0, set-Waits s.resolvers j x r ne l.1)

  grab-Late : (x p : ℕ) → x ≢ j → StaysLate j (grab x p s)
  grab-Late x zero ne = tt
  grab-Late x (suc p) ne = elim (Option-cases (get_elem? s.buffer p)) [
    | inl f ↦ rw f tt
    | inr (name, f) ↦ rw f (moved x (resolving name) ne)
  ]

  other_step-Late : (k x : ℕ) (r : Resolver) → x ≢ j → StaysLate j (resolver_step v k x r s)
  unfolding resolver_step
  other_step-Late k x entering ne = branches_if (Late j) s.buffer_lock l (moved x testing ne)
  other_step-Late k x testing ne =
      branches_if (λ r. Late j (put_resolver s x r)) (s.current_position == 0)
        (moved x testing_done ne) (moved x taking ne)
  other_step-Late k x testing_done ne =
      branches_if (Late j) (s.threads_finished == s.thread_count) (moved x ended ne)
        (moved x signalling ne)
  other_step-Late k x signalling ne =
      (signal-AllStopped k s.requesters l.0, set-Waits s.resolvers j x empty_wait ne l.1)
  other_step-Late k x empty_wait ne = l
  other_step-Late k x empty_woken ne = branches_if (Late j) s.buffer_lock l (moved x taking ne)
  other_step-Late k x taking ne = grab-Late x s.current_position ne
  other_step-Late k x (resolving name) ne = moved x entering ne
  other_step-Late k x ended ne = l

  -- The late resolver itself comes as far as its wait.
  own_step-Late :
      (k : ℕ) (r : Resolver)
      → get_elem? s.resolvers j ≡ some r
      → (r ≡ signalling) ⊎ (r ≡ empty_wait)
      → StaysLate j (resolver_step v k j r s)
  unfolding resolver_step
  own_step-Late k r e (inl h) =
      let sleeps = get_elem?-set_self s.resolvers j empty_wait (get_elem?-lt s.resolvers j r e) in
      rw h (signal-AllStopped k s.requesters l.0, inr sleeps)
  own_step-Late k r e (inr h) = rw h l

  own : (r : Resolver) → get_elem? s.resolvers j ≡ some r → (r ≡ signalling) ⊎ (r ≡ empty_wait)
  own r e = elim (l.1) [ inl h ↦ inl (cc) | inr h ↦ inr (cc) ]

  resolver_step-Late :
      (k x : ℕ) (r : Resolver)
      → get_elem? s.resolvers x ≡ some r
      → StaysLate j (resolver_step v k x r s)
  resolver_step-Late k x r e = elim (Bool-cases (x == j)) [
    | inl t ↦
        let same : x ≡ j = ground arith in
        let here : get_elem? s.resolvers j ≡ some r =
          subst (λ y. get_elem? s.resolvers y ≡ some r) same e in
        subst (λ y. StaysLate j (resolver_step v k y r s)) (sym same)
          (own_step-Late k r here (own r here))
    | inr f ↦ other_step-Late k x r (λ same. ground arith)
  ]

  turn-Late : (t : Turn) → IsTurn t → StaysLate j (turn v t s)
  unfolding turn requester_step
  turn-Late (requester_turn i k) h = elim (Option-cases (get_elem? s.requesters i)) [
    | inl e ↦ rw (e, turn) l
    | inr (r, e) ↦
        let same : r ≡ stopped = All-get (λ r. r ≡ stopped) s.requesters i r l.0 e in
        rw (e, turn, same) l
  ]
  turn-Late (resolver_turn x k) h = elim (Option-cases (get_elem? s.resolvers x)) [
    | inl e ↦ rw (e, turn) l
    | inr (r, e) ↦ rw (e, turn) (resolver_step-Late k x r e)
  ]
  turn-Late (stir_requester i) h = absurd h
  turn-Late (stir_resolver x) h = absurd h

pub turns-Late :
    (v : World) (j : ℕ) (ts : List Turn) (s s' : Lookup)
    → Late j s
    → All IsTurn ts
    → turns v ts s ≡ ok s'
    → Late j s'
unfolding turns
turns-Late v j [] s s' l hs e = let same : s ≡ s' = cc in subst (Late j) same l
turns-Late v j (t ∷ ts) s s' l (h, hs) e =
    let (s'', f, rest) = >>=-eq-ok (turn v t s) (turns v ts) e in
    turns-Late v j ts s'' s' (subst (StaysLate j) f (turn-Late v j s l t h)) hs rest
