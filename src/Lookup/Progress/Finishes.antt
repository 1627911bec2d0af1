-- ===== src/Lookup/Progress/Finishes.antt =====
-- The threads can always come to an end.
use csci3757_operating_syste.Base.{
  ℕ, zero, suc, ◌+◌, ◌<◌, ◌≡◌, refl, sym, ◌∙◌, ap, ◌⊎◌, inl, inr, Bool, some, List, [], ◌∷◌, ℤ,
  Result, ok, err, ◌>>=◌, Error, length, get_elem?, total, All, All-get, arith, subst, ◌++◌,
  null_pointer, out_of_bounds, >>=-eq-ok,
}
use csci3757_operating_syste.Lookup.{
  Name, World, Requester, Resolver, Lookup, array_size, Turn, requester_turn, resolver_turn,
  requester_step, resolver_step, turn, turns, valid_files, launched, start_threads,
}
use csci3757_operating_syste.Lookup.Invariant.{
  Inv, lines_weight, result_weight, holds_requester, holds_resolver,
}
use csci3757_operating_syste.Lookup.Runs.{launched-Inv, Ends, turns-Ends}
use csci3757_operating_syste.Lookup.Ending.{Ordered, one}
use csci3757_operating_syste.Lookup.Ending.Turns.{turn-Inv, turn-Ordered, turns-Inv, turns-Ordered}
use csci3757_operating_syste.Lookup.Ending.Asleep.{Asleep, IsTurn, turn-Asleep}
use csci3757_operating_syste.Lookup.Ending.Complete.{started, launched-Ordered}
use csci3757_operating_syste.Lookup.Progress.{
  effort, Moves, Outcome, rests_requester, rests_resolver,
}
use csci3757_operating_syste.Lookup.Progress.Requesters.{requester_step-Outcome}
use csci3757_operating_syste.Lookup.Progress.Resolvers.{resolver_step-Outcome}
use csci3757_operating_syste.Lookup.Progress.Alert.{Alert}
use csci3757_operating_syste.Lookup.Progress.Alert.Turns.{turns-Alert, launched-Alert}
use csci3757_operating_syste.Lookup.Progress.Rest.{AtRest, Still, still-Asleep}
use csci3757_operating_syste.Lookup.Progress.Resolved.{AtRest-Resolved}

-- Either one element gives a `G`, or all are in `P`.
scan {ℓ κ μ} :
    {A : Type ℓ} (G : Type κ) (P : A → Type μ) (xs : List A)
    → ((i : ℕ) (x : A) → get_elem? xs i ≡ some x → G ⊎ P x)
    → G ⊎ All P xs
scan G P [] h = inr tt
scan G P (x ∷ xs) h = elim (h 0 x refl) [
  | inl g ↦ inl g
  | inr p ↦ elim (scan G P xs (λ i y e. h (suc i) y e)) [ inl g ↦ inl g | inr ps ↦ inr (p, ps) ]
]

module _ (v : World) (s : Lookup) where
  -- A turn that takes the run further or fails.
  abbrev pub GoesOn : Type 0
  GoesOn =
      (t : Turn) × IsTurn t
      × (Moves v (total one s.resolvers) s (turn v t s) ⊎ ((e : Error) × (turn v t s ≡ err e)))

  Outcome-GoesOn :
      (t : Turn) (rests holds : ℕ) (x : Result Lookup)
      → IsTurn t
      → turn v t s ≡ x
      → Outcome v (total one s.resolvers) s rests holds x
      → GoesOn ⊎ Still rests holds s
  Outcome-GoesOn t rests holds x h e (inl m) =
      inl (t, h, inl (subst (Moves v (total one s.resolvers) s) (sym e) m))
  Outcome-GoesOn t rests holds x h e (inr (inl (f, g))) = inl (t, h, inr (f, e ∙ g))
  Outcome-GoesOn t rests holds x h e (inr (inr (same, why))) = inr why

  requester-GoesOn :
      (i : ℕ) (r : Requester)
      → get_elem? s.requesters i ≡ some r
      → GoesOn ⊎ Still (rests_requester r) (holds_requester r) s
  unfolding turn
  requester-GoesOn i r e =
      let here : turn v (requester_turn i 0) s ≡ requester_step v 0 i r s = rw (e, turn) refl in
      Outcome-GoesOn (requester_turn i 0) _ _ _ tt here
        (requester_step-Outcome v (total one s.resolvers) s 0 i r refl e)

  resolver-GoesOn :
      (j : ℕ) (r : Resolver)
      → get_elem? s.resolvers j ≡ some r
      → GoesOn ⊎ Still (rests_resolver r) (holds_resolver r) s
  unfolding turn
  resolver-GoesOn j r e =
      let here : turn v (resolver_turn j 0) s ≡ resolver_step v 0 j r s = rw (e, turn) refl in
      Outcome-GoesOn (resolver_turn j 0) _ _ _ tt here
        (resolver_step-Outcome v (total one s.resolvers) s 0 j r e)

  -- Some thread can go on, or they all rest.
  goes_on : Inv s → Alert s → GoesOn ⊎ Asleep s
  goes_on inv a =
      let P = λ (r : Requester). Still (rests_requester r) (holds_requester r) s in
      let Q = λ (r : Resolver). Still (rests_resolver r) (holds_resolver r) s in
      elim (scan GoesOn P s.requesters requester-GoesOn) [
        | inl g ↦ inl g
        | inr ps ↦ elim (scan GoesOn Q s.resolvers resolver-GoesOn) [
          | inl g ↦ inl g
          | inr qs ↦ inr (
              still-Asleep s (λ i r e. All-get P s.requesters i r ps e)
                (λ j r e. All-get Q s.resolvers j r qs e) inv a)
        ]
      ]

-- Some turns lead to a state in which all threads rest, or to an error.
Finishes : World → Lookup → Type 0
Finishes v s =
    (ts : List Turn) × All IsTurn ts
    × (((s' : Lookup) × (turns v ts s ≡ ok s') × Asleep s')
        ⊎ ((e : Error) × (turns v ts s ≡ err e)))

Finishes-turn :
    (v : World) (t : Turn) (s s' : Lookup)
    → IsTurn t
    → turn v t s ≡ ok s'
    → Finishes v s'
    → Finishes v s
unfolding Finishes turns
Finishes-turn v t s s' h e (ts, hs, ends) =
    let here : turns v (t ∷ ts) s ≡ turns v ts s' = ap (λ r. r >>= turns v ts) e in
    elim ends [
      | inl (s'', f, rests) ↦ (t ∷ ts, (h, hs), inl (s'', here ∙ f, rests))
      | inr (x, f) ↦ (t ∷ ts, (h, hs), inr (x, here ∙ f))
    ]

effort-Finishes :
    (fuel : ℕ) (v : World) (s : Lookup)
    → Inv s
    → Ordered s
    → Alert s
    → effort v (total one s.resolvers) s < fuel
    → Finishes v s
unfolding Finishes turns
effort-Finishes zero v s inv o a h = absurd (omega (arith, h))
effort-Finishes (suc fuel) v s inv o a h = elim (goes_on v s inv a) [
  | inr rests ↦ ([], tt, inl (s, refl, rests))
  | inl (t, h', inr (e, f)) ↦ (t ∷ [], (h', tt), inr (e, ap (λ r. r >>= turns v []) f))
  | inl (t, h', inl m) ↦
      let next = m.next in
      let crew : effort v (total one next.resolvers) next ≡ effort v (total one s.resolvers) next =
        ap (λ c. effort v c next) m.crew in
      Finishes-turn v t s next h' m.leads (
        effort-Finishes fuel v next (turn-Inv v t s next inv m.leads)
          (turn-Ordered v t s next inv o m.leads)
          (turns-Alert v (t ∷ []) s next inv o a (ap (λ r. r >>= turns v []) m.leads))
          (omega (arith, h, m.less, crew)))
]

turns-append :
    (v : World) (ts us : List Turn) (s s' : Lookup)
    → turns v ts s ≡ ok s'
    → turns v (ts ++ us) s ≡ turns v us s'
unfolding turns
turns-append v [] us s s' h = let same : s ≡ s' = cc in ap (turns v us) same
turns-append v (t ∷ ts) us s s' h =
    let (s1, e, rest) = >>=-eq-ok (turn v t s) (turns v ts) h in
    ap (λ r. r >>= turns v (ts ++ us)) e ∙ turns-append v ts us s1 s' rest

-- After the turns `ts`: the threads rest and every line of every valid file is resolved, or one of them
-- has failed.
abbrev pub Outcomes : World → (Name → Bool) → List Name → (Name → ℕ) → List Turn → Lookup → Type 0
Outcomes v readable names w ts s =
    ((s' : Lookup) × (turns v ts s ≡ ok s')
      × Asleep s'
      × (total (result_weight w) s'.results_log
          ≡ total (λ f. lines_weight w (v.fopen f.filename)) (valid_files readable names)))
    ⊎ ((turns v ts s ≡ err null_pointer) ⊎ (turns v ts s ≡ err out_of_bounds))

-- After any run from the start of `main`, wake-ups for no reason included, there are turns after which
-- all requesters have stopped, each resolver has ended or waits, and the results hold each name exactly
-- as often as the lines of the valid files do; or with which a thread uses a null file pointer or
-- leaves the buffer.
pub started-Finishes :
    (v : World) (readable : Name → Bool) (fresh : List Name) (m n : ℤ) (names : List Name)
    (s s' : Lookup) (ts : List Turn) (w : Name → ℕ)
    → length fresh ≡ array_size
    → start_threads readable fresh m n names ≡ some s
    → turns v ts s ≡ ok s'
    → (us : List Turn) × All IsTurn us × Outcomes v readable names w us s'
unfolding Finishes Ends AtRest
started-Finishes v readable fresh m n names s s' ts w l h run =
    let (p, q, few, many, p_few, q_few, same) = started readable fresh m n names s h in
    let start = launched readable fresh p q names in
    let from_start : turns v ts start ≡ ok s' = subst (λ x. turns v ts x ≡ ok s') (sym same) run in
    let inv = launched-Inv readable fresh p q names l in
    let inv' = turns-Inv v ts start s' inv from_start in
    let o = launched-Ordered readable fresh p q names few many in
    let (us, hs, ends) =
      effort-Finishes (effort v (total one s'.resolvers) s' + 1) v s' inv'
        (turns-Ordered v ts start s' inv o from_start)
        (turns-Alert v ts start s' inv o (launched-Alert readable fresh p q names) from_start)
        (omega arith) in
    elim ends [
      | inl (s'', e, rests) ↦
          let whole = turns-append v ts us s s' run ∙ e in
          let still = λ (t : Turn) (g : IsTurn t). turn-Asleep v t s'' g rests in
          let (again, resolved) =
            AtRest-Resolved v readable fresh m n names s s'' (ts ++ us) w l h whole still in
          (us, hs, inl (s'', e, rests, resolved))
      | inr (x, e) ↦ elim (turns-Ends v us s' inv') [
        | inl (s'', f, k) ↦ absurd (cc (sym e ∙ f))
        | inr fails ↦ (us, hs, inr fails)
      ]
    ]
