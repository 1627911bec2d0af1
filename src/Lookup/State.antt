-- ===== src/Lookup/State.antt =====
-- PA-Three/PA3/multi-lookup.h, and the threads and condition variables of multi-lookup.c.
use csci3757_operating_syste.Base.{
  ℕ, Bool, true, false, Option, none, some, List, [], ◌∷◌, if◌then◌else◌, get_elem?, set,
}
use csci3757_operating_syste.Lookup.Dns.{Name, Net}

abbrev pub array_size : ℕ
array_size = 20

abbrev pub inet_addrstrlen : ℕ
inet_addrstrlen = 16

pub record File : Type 0 where
  pub serviced : Bool
  pub filename : Name

-- Where a requester stands, with its serviceCount and the lines of its file still to be read (`none`
-- is a file pointer that is null or was never set).
pub data Requester : Type 0 where
  searching : ℕ → Requester
  locking : ℕ → Option (List Name) → Requester
  reading : ℕ → Option (List Name) → Requester
  checking : ℕ → Name → List Name → Requester
  full_wait : ℕ → Name → List Name → Requester
  full_woken : ℕ → Name → List Name → Requester
  stopped : Requester

-- Where a resolver stands.
pub data Resolver : Type 0 where
  entering testing testing_done signalling empty_wait empty_woken taking ended : Resolver
  resolving : Name → Resolver

pub record Lookup : Type 0 where
  pub files : List File
  pub thread_count : ℕ
  pub threads_finished : ℕ
  pub buffer_lock : Bool
  pub current_position : ℕ
  pub buffer : List Name
  pub requesters : List Requester
  pub resolvers : List Resolver
  pub service_log : List ℕ
  pub results_log : List (Name × Option (Option Name))

-- The file system and the C library's lookups.
pub record World : Type 0 where
  pub fopen : Name → Option (List Name)
  pub net : Net

-- pthread_cond_broadcast and pthread_cond_signal; a signal wakes one of the threads that wait, the
-- one at `k` if it does.
abbrev pub wake_resolver : Resolver → Resolver
wake_resolver empty_wait = empty_woken
wake_resolver entering = entering
wake_resolver testing = testing
wake_resolver testing_done = testing_done
wake_resolver signalling = signalling
wake_resolver empty_woken = empty_woken
wake_resolver taking = taking
wake_resolver ended = ended
wake_resolver (resolving name) = resolving name

abbrev pub is_empty_wait : Resolver → Bool
is_empty_wait r = elim r [ empty_wait ↦ true | _ ↦ false ]

abbrev pub wake_requester : Requester → Requester
wake_requester (full_wait n l ls) = full_woken n l ls
wake_requester (full_woken n l ls) = full_woken n l ls
wake_requester (searching n) = searching n
wake_requester (locking n f) = locking n f
wake_requester (reading n f) = reading n f
wake_requester (checking n l ls) = checking n l ls
wake_requester stopped = stopped

abbrev pub is_full_wait : Requester → Bool
is_full_wait r = elim r [ full_wait n l ls ↦ true | _ ↦ false ]

abbrev pub wake_first {ℓ} : {A : Type ℓ} → (A → A) → (A → Bool) → List A → List A
wake_first wake waits [] = []
wake_first wake waits (x ∷ xs) =
    let rest = wake_first wake waits xs in if waits x then wake x ∷ xs else x ∷ rest

unfoldable pub signal {ℓ} : {A : Type ℓ} → (A → A) → (A → Bool) → ℕ → List A → List A
signal wake waits k xs = elim (get_elem? xs k) [
  | none ↦ wake_first wake waits xs
  | some x ↦ if waits x then set xs k (wake x) else wake_first wake waits xs
]
