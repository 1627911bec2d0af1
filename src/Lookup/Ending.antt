-- ===== src/Lookup/Ending.antt =====
-- How a run ends: which threads have stopped, and what is then left in the files and in the buffer.
mod Requesters
mod Resolvers
pub mod Turns
pub mod Asleep
pub mod Complete
use csci3757_operating_syste.Base.{
  ℕ, zero, suc, ◌+◌, ◌≤◌, ◌<◌, ◌≡◌, refl, ◌⊎◌, inl, inr, Bool, true, false, Option, none, some,
  List, [], ◌∷◌, if◌then◌else◌, get_elem?, set, total, arith, Bool-cases, Option-cases, total-set,
}
use csci3757_operating_syste.Lookup.{
  Name, File, World, Requester, searching, locking, reading, checking, full_wait, full_woken,
  stopped, Resolver, entering, testing, testing_done, signalling, empty_wait, empty_woken, taking,
  ended, resolving, Lookup, search, signal, wake_resolver, is_empty_wait, wake_requester,
  is_full_wait, put_requester, put_resolver,
}
use csci3757_operating_syste.Lookup.Invariant.{
  file_weight, total-signal, total-map_wake, holds_resolver, holds_requester,
}

abbrev pub is_stopped : Requester → ℕ
is_stopped stopped = 1
is_stopped (searching n) = 0
is_stopped (locking n f) = 0
is_stopped (reading n f) = 0
is_stopped (checking n l ls) = 0
is_stopped (full_wait n l ls) = 0
is_stopped (full_woken n l ls) = 0

abbrev pub is_ended : Resolver → ℕ
is_ended ended = 1
is_ended entering = 0
is_ended testing = 0
is_ended testing_done = 0
is_ended signalling = 0
is_ended empty_wait = 0
is_ended empty_woken = 0
is_ended taking = 0
is_ended (resolving name) = 0

-- A resolver that has found the buffer empty and still holds the lock.
abbrev pub at_empty : Resolver → ℕ
at_empty testing_done = 1
at_empty entering = 0
at_empty testing = 0
at_empty signalling = 1
at_empty empty_wait = 0
at_empty empty_woken = 0
at_empty taking = 0
at_empty ended = 0
at_empty (resolving name) = 0

abbrev pub one {ℓ} : {A : Type ℓ} → A → ℕ
one x = 1

abbrev pub unserviced : File → ℕ
unserviced f = if f.serviced then 0 else 1

pub record Ordered (s : Lookup) : Type 0 where
  pub counted : s.threads_finished ≡ total is_stopped s.requesters
  pub crew : s.thread_count ≡ total one s.requesters
  pub led : 0 < s.thread_count
  pub manned : 0 < total one s.resolvers
  -- A requester stops only when no file is left.
  pub nothing_left : (total is_stopped s.requesters ≡ 0) ⊎ (total unserviced s.files ≡ 0)
  pub tested : (total at_empty s.resolvers ≡ 0) ⊎ (s.current_position ≡ 0)
  -- A resolver ends only when all requesters have stopped and the buffer is empty.
  pub over :
      (total is_ended s.resolvers ≡ 0)
      ⊎ ((s.threads_finished ≡ s.thread_count) × (s.current_position ≡ 0))

pub is_stopped-wake : (r : Requester) → is_stopped (wake_requester r) ≡ is_stopped r
is_stopped-wake r = elim r as (λ r. is_stopped (wake_requester r) ≡ is_stopped r) [
  | full_wait n l ls ↦ refl
  | _ ↦ refl
]

pub is_ended-wake : (r : Resolver) → is_ended (wake_resolver r) ≡ is_ended r
is_ended-wake r = elim r as (λ r. is_ended (wake_resolver r) ≡ is_ended r) [
  | empty_wait ↦ refl
  | _ ↦ refl
]

pub at_empty-wake : (r : Resolver) → at_empty (wake_resolver r) ≡ at_empty r
at_empty-wake r = elim r as (λ r. at_empty (wake_resolver r) ≡ at_empty r) [
  | empty_wait ↦ refl
  | _ ↦ refl
]

-- A requester moves on without stopping, a resolver without ending or finding the buffer empty.
pub requester_moves-Ordered :
    (s : Lookup) (i : ℕ) (r r' : Requester) (b : Bool)
    → Ordered s
    → get_elem? s.requesters i ≡ some r
    → is_stopped r' ≡ is_stopped r
    → Ordered (record (put_requester s i r') { buffer_lock = b })
requester_moves-Ordered s i r r' b o e h =
    omega (arith, total-set is_stopped s.requesters i r r' e, total-set one s.requesters i r r' e)

pub resolver_moves-Ordered :
    (s : Lookup) (j : ℕ) (r r' : Resolver) (b : Bool)
    → Ordered s
    → get_elem? s.resolvers j ≡ some r
    → is_ended r' ≡ is_ended r
    → at_empty r' ≤ at_empty r
    → Ordered (record (put_resolver s j r') { buffer_lock = b })
resolver_moves-Ordered s j r r' b o e h k = omega (
  arith,
  total-set is_ended s.resolvers j r r' e,
  total-set at_empty s.resolvers j r r' e,
  total-set one s.resolvers j r r' e,
)

pub signal_resolvers-Ordered :
    (s : Lookup) (k : ℕ)
    → Ordered s
    → Ordered (record s { resolvers = signal wake_resolver is_empty_wait k s.resolvers })
signal_resolvers-Ordered s k o = omega (
  arith,
  total-signal is_ended wake_resolver is_empty_wait is_ended-wake k s.resolvers,
  total-signal at_empty wake_resolver is_empty_wait at_empty-wake k s.resolvers,
  total-signal one wake_resolver is_empty_wait (λ r. refl) k s.resolvers,
)

pub signal_requesters-Ordered :
    (s : Lookup) (k : ℕ)
    → Ordered s
    → Ordered (record s { requesters = signal wake_requester is_full_wait k s.requesters })
signal_requesters-Ordered s k o = omega (
  arith,
  total-signal is_stopped wake_requester is_full_wait is_stopped-wake k s.requesters,
  total-signal one wake_requester is_full_wait (λ r. refl) k s.requesters,
)

-- The search marks one file that was not serviced, or there is none.
abbrev pub Marks : List File → Option (Name × List File) → Type 0
Marks fs none = total unserviced fs ≡ 0
Marks fs (some (name, fs')) = total unserviced fs' + 1 ≡ total unserviced fs

search_further-Marks :
    (f : File) (fs : List File) (r : Option (Name × List File))
    → f.serviced ≡ true
    → Marks fs r
    → Marks (f ∷ fs) (elim r [ none ↦ none | some (name, fs') ↦ some (name, f ∷ fs') ])
unfolding total
search_further-Marks f fs none e t = rw e (omega (arith, t))
search_further-Marks f fs (some (name, fs')) e t = rw e (omega (arith, t))

pub search-Marks : (fs : List File) → Marks fs (search fs)
unfolding total
search-Marks [] = refl
search-Marks (f ∷ fs) = elim (Bool-cases f.serviced) [
  | inl e ↦ simp e (search_further-Marks f fs (search fs) e (search-Marks fs))
  | inr e ↦ simp e (omega arith)
]

pub at_empty-le : (r : Resolver) → at_empty r ≤ holds_resolver r
at_empty-le r = elim r as (λ r. at_empty r ≤ holds_resolver r) [
  | testing_done ↦ omega arith
  | signalling ↦ omega arith
  | _ ↦ omega arith
]

pub is_stopped-le : (r : Requester) → is_stopped r ≤ one r
is_stopped-le r = elim r as (λ r. is_stopped r ≤ one r) [ stopped ↦ omega arith | _ ↦ omega arith ]
