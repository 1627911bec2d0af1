-- ===== src/Lookup/Progress/Wakes.antt =====
-- What waking a thread costs.
use csci3757_operating_syste.Base.{
  ℕ, ◌+◌, ◌≤◌, inl, inr, Bool, List, [], ◌∷◌, map, get_elem?, total, arith, Bool-cases,
  Option-cases, total-set,
}
use csci3757_operating_syste.Lookup.{
  Requester, full_wait, Resolver, empty_wait, signal, wake_first, wake_resolver, wake_requester,
  is_empty_wait, is_full_wait,
}
use csci3757_operating_syste.Lookup.Ending.{one}
use csci3757_operating_syste.Lookup.Progress.{requester_effort, resolver_effort}

module _ {ℓ} {A : Type ℓ} (f : A → ℕ) (wake : A → A) (waits : A → Bool) (c : ℕ)
    (h : (x : A) → f (wake x) ≤ f x + c) where
  wake_first_cost : (xs : List A) → total f (wake_first wake waits xs) ≤ total f xs + c
  unfolding total
  wake_first_cost [] = omega arith
  wake_first_cost (x ∷ xs) = elim (Bool-cases (waits x)) [
    | inl e ↦ rw (e, wake_first) (omega (arith, h x))
    | inr e ↦ rw (e, wake_first) (omega (arith, wake_first_cost xs))
  ]

  pub signal_cost : (k : ℕ) (xs : List A) → total f (signal wake waits k xs) ≤ total f xs + c
  unfolding signal
  signal_cost k xs = elim (Option-cases (get_elem? xs k)) [
    | inl e ↦ rw (e, signal) (wake_first_cost xs)
    | inr (x, e) ↦ elim (Bool-cases (waits x)) [
      | inl t ↦ rw (e, signal, t) (omega (arith, h x, total-set f xs k x (wake x) e))
      | inr t ↦ rw (e, signal, t) (wake_first_cost xs)
    ]
  ]

resolver_cost : (r : Resolver) → resolver_effort (wake_resolver r) ≤ resolver_effort r + 1
resolver_cost r = elim r as (λ r. resolver_effort (wake_resolver r) ≤ resolver_effort r + 1) [
  | empty_wait ↦ omega arith
  | _ ↦ omega arith
]

requester_cost :
    (c : ℕ) (r : Requester) → requester_effort c (wake_requester r) ≤ requester_effort c r + 3
requester_cost c r =
    elim r as (λ r. requester_effort c (wake_requester r) ≤ requester_effort c r + 3) [
      | full_wait n l ls ↦ omega arith
      | _ ↦ omega arith
    ]

pub signal_resolvers_cost :
    (k : ℕ) (rs : List Resolver)
    → total resolver_effort (signal wake_resolver is_empty_wait k rs) ≤ total resolver_effort rs + 1
signal_resolvers_cost k rs =
    signal_cost resolver_effort wake_resolver is_empty_wait 1 resolver_cost k rs

pub signal_requesters_cost :
    (c k : ℕ) (rs : List Requester)
    → total (requester_effort c) (signal wake_requester is_full_wait k rs)
      ≤ total (requester_effort c) rs + 3
signal_requesters_cost c k rs =
    signal_cost (requester_effort c) wake_requester is_full_wait 3 (requester_cost c) k rs

-- A broadcast.
pub broadcast_cost :
    (rs : List Resolver)
    → total resolver_effort (map wake_resolver rs) ≤ total resolver_effort rs + total one rs
unfolding total
broadcast_cost [] = omega arith
broadcast_cost (r ∷ rs) = omega (arith, resolver_cost r, broadcast_cost rs)
