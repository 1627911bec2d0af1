-- ===== src/Lookup/Main/Lost.antt =====
-- The last broadcast of the requesters, and a resolver that comes too late for it.
use csci3757_operating_syste.Base.{
  ℕ, zero, suc, ◌+◌, ◌<◌, ◌≡◌, refl, sym, ◌∙◌, ap, inl, inr, false, none, some, List, [], ◌∷◌, map,
  ok, length, get_elem?, set, total, All, arith, Bool-cases, Option-cases, subst, >>=-eq-ok,
}
use csci3757_operating_syste.Lookup.{
  File, World, searching, stopped, Resolver, signalling, empty_wait, empty_woken, ended, Lookup,
  search, wake_resolver, put_requester, take_file, requester_step, service, Turn, requester_turn,
  turn, turns,
}
use csci3757_operating_syste.Lookup.Ending.{unserviced, Marks, search-Marks}
use csci3757_operating_syste.Lookup.Ending.Asleep.{IsTurn}
use csci3757_operating_syste.Lookup.Main.{requesters_joined, resolvers_joined, joining, finish}
use csci3757_operating_syste.Lookup.Main.Late.{Waits, Late, turns-Late}

get_elem?-map {ℓ κ} :
    {A : Type ℓ} {B : Type κ} (f : A → B) (xs : List A) (i : ℕ) (x : A)
    → get_elem? xs i ≡ some x
    → get_elem? (map f xs) i ≡ some (f x)
get_elem?-map f [] i x h = absurd (ground arith)
get_elem?-map f (y ∷ xs) zero x h = let same : y ≡ x = cc in rw same refl
get_elem?-map f (y ∷ xs) (suc i) x h = get_elem?-map f xs i x h

Waits-joined : (rs : List Resolver) (j : ℕ) → Waits j rs → resolvers_joined rs ≡ false
Waits-joined [] j (inl e) = absurd (ground arith)
Waits-joined [] j (inr e) = absurd (ground arith)
Waits-joined (r ∷ rs) zero (inl e) = let same : r ≡ signalling = cc in rw same refl
Waits-joined (r ∷ rs) zero (inr e) = let same : r ≡ empty_wait = cc in rw same refl
Waits-joined (r ∷ rs) (suc j) h =
    let rest = Waits-joined rs j h in
    elim r as (λ r. resolvers_joined (r ∷ rs) ≡ false) [ ended ↦ rest | _ ↦ refl ]

finish-joining : (j : ℕ) (s : Lookup) → Waits j s.resolvers → finish s ≡ ok (joining s)
unfolding finish
finish-joining j s h =
    let waits = Waits-joined s.resolvers j h in
    elim (Bool-cases (requesters_joined s.requesters)) [
      | inl e ↦ rw (e, finish, waits) refl
      | inr e ↦ rw (e, finish) refl
    ]

-- The search finds nothing where every file is serviced.
search-none : (fs : List File) → total unserviced fs ≡ 0 → search fs ≡ none
search-none fs h = elim (Option-cases (search fs)) [
  | inl e ↦ e
  | inr ((name, fs'), e) ↦
      let marked : Marks fs (some (name, fs')) = subst (Marks fs) e (search-Marks fs) in
      absurd (omega (arith, h, marked))
]

-- The requester's turn in which it finds no file left.
module _ (v : World) (s : Lookup) (i n m : ℕ) (at : get_elem? s.requesters i ≡ some (searching n))
    (some_file : 0 < length s.files) (all : total unserviced s.files ≡ 0) where
  last_turn : Lookup
  last_turn = record (put_requester s i stopped) {
    service_log = n ∷ s.service_log;
    threads_finished = s.threads_finished + 1;
    resolvers = map wake_resolver s.resolvers;
  }

  nothing_found : (fs : List File) → 0 < length fs → take_file v i n s fs none ≡ last_turn
  unfolding last_turn
  nothing_found [] h = absurd (omega (arith, h))
  nothing_found (f ∷ fs) h = refl

  turn-last_turn : turn v (requester_turn i m) s ≡ ok last_turn
  unfolding turn requester_step service
  turn-last_turn =
      rw (at, turn) (rw (search-none s.files all) (ap ok (nothing_found s.files some_file)))

-- The last requester finds no file left, while a resolver `x` waits and a resolver `j` has found
-- threadsFinished too small and is about to wait. The requester stops and its broadcast wakes `x`, but
-- not `j`: whatever turns follow, with no wait that ends for no reason, as long as they succeed `j` does
-- not come past its wait, and main stays in pthread_join.
pub lost_wakeup :
    (v : World) (s s' : Lookup) (i n j x m : ℕ) (ts : List Turn)
    → get_elem? s.requesters i ≡ some (searching n)
    → All (λ r. r ≡ stopped) (set s.requesters i stopped)
    → 0 < length s.files
    → total unserviced s.files ≡ 0
    → get_elem? s.resolvers j ≡ some signalling
    → get_elem? s.resolvers x ≡ some empty_wait
    → All IsTurn ts
    → turns v (requester_turn i m ∷ ts) s ≡ ok s'
    → ((s1 : Lookup) × (turn v (requester_turn i m) s ≡ ok s1)
        × (get_elem? s1.resolvers x ≡ some empty_woken))
      × Waits j s'.resolvers
      × (finish s' ≡ ok (joining s'))
unfolding turns last_turn
lost_wakeup v s s' i n j x m ts at over some_file all late waits hs run =
    let s1 = last_turn v s i n m at some_file all in
    let first : turn v (requester_turn i m) s ≡ ok s1 = turn-last_turn v s i n m at some_file all in
    let (s2, e, rest) = >>=-eq-ok (turn v (requester_turn i m) s) (turns v ts) run in
    let same : s1 ≡ s2 = cc (sym first ∙ e) in
    let run' : turns v ts s1 ≡ ok s' = subst (λ y. turns v ts y ≡ ok s') (sym same) rest in
    let late1 : Late j s1 =
      (over, inl (get_elem?-map wake_resolver s.resolvers j signalling late)) in
    let late' = turns-Late v j ts s1 s' late1 hs run' in
    (
      (s1, first, get_elem?-map wake_resolver s.resolvers x empty_wait waits),
      late'.1,
      finish-joining j s' late'.1,
    )
