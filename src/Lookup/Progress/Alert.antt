-- ===== src/Lookup/Progress/Alert.antt =====
-- Somebody stays awake until the buffer is empty and no requester waits.
mod Requesters
mod Resolvers
pub mod Turns
use csci3757_operating_syste.Base.{
  ℕ, ◌+◌, ◌≤◌, ◌<◌, ◌≡◌, refl, ◌⊎◌, inl, inr, Bool, true, false, none, some, List, [], ◌∷◌, map,
  get_elem?, set, total, arith, Bool-cases, Option-cases, total-set, total-le, total-lt,
}
use csci3757_operating_syste.Lookup.{
  Requester, full_wait, stopped, Resolver, empty_wait, ended, Lookup, signal, wake_first,
  wake_resolver, wake_requester, is_empty_wait, is_full_wait,
}
use csci3757_operating_syste.Lookup.Ending.{one, is_stopped, is_ended}
use csci3757_operating_syste.Lookup.Progress.{rests_requester, rests_resolver}

abbrev pub resting : Lookup → ℕ
resting s = total rests_requester s.requesters + total rests_resolver s.resolvers

abbrev pub threads : Lookup → ℕ
threads s = total one s.requesters + total one s.resolvers

-- No requester waits and the buffer is empty, or some thread does not rest.
pub data Alert (s : Lookup) : Type 0 where
  drained :
      total rests_requester s.requesters ≡ total is_stopped s.requesters
      → s.current_position ≡ 0
      → Alert s
  awake : resting s < threads s → Alert s

-- One thread fewer rests, or none was waiting.
abbrev pub Signalled {ℓ} : {A : Type ℓ} → (A → ℕ) → (A → ℕ) → List A → List A → Type 0
Signalled rests over xs ys =
    (total rests ys + 1 ≡ total rests xs)
    ⊎ ((total rests ys ≡ total rests xs) × (total rests xs ≡ total over xs))

-- A signal wakes one thread that waits, if there is one.
module _ {ℓ} {A : Type ℓ} (rests over : A → ℕ) (wake : A → A) (waits : A → Bool)
    (wakes : (x : A) → waits x ≡ true → rests (wake x) + 1 ≡ rests x)
    (only : (x : A) → waits x ≡ false → rests x ≡ over x) where
  wake_first-Signalled : (xs : List A) → Signalled rests over xs (wake_first wake waits xs)
  unfolding total
  wake_first-Signalled [] = inr (refl, refl)
  wake_first-Signalled (x ∷ xs) = elim (Bool-cases (waits x)) [
    | inl e ↦ rw (e, wake_first) (inl (omega (arith, wakes x e)))
    | inr e ↦ elim (wake_first-Signalled xs) [
      | inl h ↦ rw (e, wake_first) (inl (omega (arith, h)))
      | inr (h, g) ↦ rw (e, wake_first) (inr (omega (arith, h), omega (arith, g, only x e)))
    ]
  ]

  pub signal-Signalled : (k : ℕ) (xs : List A) → Signalled rests over xs (signal wake waits k xs)
  unfolding signal
  signal-Signalled k xs = elim (Option-cases (get_elem? xs k)) [
    | inl e ↦ rw (e, signal) (wake_first-Signalled xs)
    | inr (x, e) ↦ elim (Bool-cases (waits x)) [
      | inl t ↦
          rw (e, signal, t) (inl (omega (arith, wakes x t, total-set rests xs k x (wake x) e)))
      | inr t ↦ rw (e, signal, t) (wake_first-Signalled xs)
    ]
  ]

requester_wakes :
    (r : Requester)
    → is_full_wait r ≡ true
    → rests_requester (wake_requester r) + 1 ≡ rests_requester r
requester_wakes r h =
    elim r
        as (λ r.
          is_full_wait r ≡ true → rests_requester (wake_requester r) + 1 ≡ rests_requester r) [
            | full_wait n l ls ↦ λ g. refl
            | _ ↦ λ g. absurd (cc g)
          ]
      h

requester_only : (r : Requester) → is_full_wait r ≡ false → rests_requester r ≡ is_stopped r
requester_only r h =
    elim r as (λ r. is_full_wait r ≡ false → rests_requester r ≡ is_stopped r) [
      | full_wait n l ls ↦ λ g. absurd (cc g)
      | _ ↦ λ g. refl
    ]
      h

resolver_wakes :
    (r : Resolver)
    → is_empty_wait r ≡ true
    → rests_resolver (wake_resolver r) + 1 ≡ rests_resolver r
resolver_wakes r h =
    elim r
        as (λ r. is_empty_wait r ≡ true → rests_resolver (wake_resolver r) + 1 ≡ rests_resolver r) [
          | empty_wait ↦ λ g. refl
          | _ ↦ λ g. absurd (cc g)
        ]
      h

resolver_only : (r : Resolver) → is_empty_wait r ≡ false → rests_resolver r ≡ is_ended r
resolver_only r h =
    elim r as (λ r. is_empty_wait r ≡ false → rests_resolver r ≡ is_ended r) [
      | empty_wait ↦ λ g. absurd (cc g)
      | _ ↦ λ g. refl
    ]
      h

pub signal_requesters-Signalled :
    (k : ℕ) (rs : List Requester)
    → Signalled rests_requester is_stopped rs (signal wake_requester is_full_wait k rs)
signal_requesters-Signalled k rs =
    signal-Signalled rests_requester is_stopped wake_requester is_full_wait requester_wakes
      requester_only k rs

pub signal_resolvers-Signalled :
    (k : ℕ) (rs : List Resolver)
    → Signalled rests_resolver is_ended rs (signal wake_resolver is_empty_wait k rs)
signal_resolvers-Signalled k rs =
    signal-Signalled rests_resolver is_ended wake_resolver is_empty_wait resolver_wakes
      resolver_only k rs

pub rests_requester-le : (r : Requester) → rests_requester r ≤ one r
rests_requester-le r = elim r as (λ r. rests_requester r ≤ one r) [
  | stopped ↦ omega arith
  | full_wait n l ls ↦ omega arith
  | _ ↦ omega arith
]

pub rests_resolver-le : (r : Resolver) → rests_resolver r ≤ one r
rests_resolver-le r = elim r as (λ r. rests_resolver r ≤ one r) [
  | ended ↦ omega arith
  | empty_wait ↦ omega arith
  | _ ↦ omega arith
]

resolver_rests-woken : (r : Resolver) → rests_resolver (wake_resolver r) ≡ is_ended r
resolver_rests-woken r = elim r as (λ r. rests_resolver (wake_resolver r) ≡ is_ended r) [
  | ended ↦ refl
  | _ ↦ refl
]

-- A broadcast leaves only those at rest that have ended.
pub rests-broadcast :
    (rs : List Resolver) → total rests_resolver (map wake_resolver rs) ≡ total is_ended rs
unfolding total
rests-broadcast [] = refl
rests-broadcast (r ∷ rs) = omega (arith, resolver_rests-woken r, rests-broadcast rs)

-- A requester moves on and does not rest then.
pub requester_awake :
    (s : Lookup) (i : ℕ) (r r' : Requester)
    → get_elem? s.requesters i ≡ some r
    → rests_requester r ≡ 0
    → rests_requester r' ≡ 0
    → total rests_requester (set s.requesters i r') < total one (set s.requesters i r')
requester_awake s i r r' e h g = omega (
  arith,
  h,
  g,
  total-set rests_requester s.requesters i r r' e,
  total-set one s.requesters i r r' e,
  total-lt rests_requester one rests_requester-le s.requesters i r e (omega (arith, h)),
)

pub resolver_awake :
    (s : Lookup) (j : ℕ) (r r' : Resolver)
    → get_elem? s.resolvers j ≡ some r
    → rests_resolver r ≡ 0
    → rests_resolver r' ≡ 0
    → total rests_resolver (set s.resolvers j r') < total one (set s.resolvers j r')
resolver_awake s j r r' e h g = omega (
  arith,
  h,
  g,
  total-set rests_resolver s.resolvers j r r' e,
  total-set one s.resolvers j r r' e,
  total-lt rests_resolver one rests_resolver-le s.resolvers j r e (omega (arith, h)),
)

pub requesters_awake :
    (s : Lookup) → total rests_requester s.requesters < total one s.requesters → Alert s
requesters_awake s h =
    awake (omega (arith, h, total-le rests_resolver one rests_resolver-le s.resolvers))

pub resolvers_awake :
    (s : Lookup) → total rests_resolver s.resolvers < total one s.resolvers → Alert s
resolvers_awake s h =
    awake (omega (arith, h, total-le rests_requester one rests_requester-le s.requesters))
