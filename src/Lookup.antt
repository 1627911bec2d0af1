-- ===== src/Lookup.antt =====
-- PA-Three/PA3/multi-lookup.c, multi-lookup.h: the requester and resolver threads. A turn is what one
-- thread does up to the next point where another may come between. The logs are lists, newest first.
mod Dns
mod State
pub mod Invariant
mod Moves
mod Requesters
mod Resolvers
pub mod Runs
pub mod Ending
pub mod Progress
pub mod Main
mod Tests
pub use Dns.*
unfoldable pub use State.*
use csci3757_operating_syste.Base.{
  ℕ, zero, suc, ◌+◌, Bool, true, false, Option, none, some, List, [], ◌∷◌, map, Result, ok, err,
  ◌>>=◌, or_err, out_of_bounds, null_pointer, ltb, ◌==◌, if◌then◌else◌, get_elem?, set, length,
  ◌&&◌, ◌||◌, replicate, ℤ, pos, negsuc,
}

-- The search through the files: the first one that is not serviced is marked.
abbrev pub search : List File → Option (Name × List File)
search [] = none
search (f ∷ fs) =
    let rest = search fs in
    if f.serviced
    then elim rest [ none ↦ none | some (name, fs') ↦ some (name, f ∷ fs') ]
    else some (f.filename, record f { serviced = true } ∷ fs)

-- pthread_mutex_lock on the buffer: the thread goes on if the lock is free and else stays.
abbrev pub lock : Lookup → Lookup → Lookup
lock s next = if s.buffer_lock then s else record next { buffer_lock = true }

abbrev pub put_requester : Lookup → ℕ → Requester → Lookup
put_requester s i r = record s { requesters = set s.requesters i r }

abbrev pub put_resolver : Lookup → ℕ → Resolver → Lookup
put_resolver s j r = record s { resolvers = set s.resolvers j r }

-- The line without its newline. No line is empty or begins with a NUL byte: for such a line the source
-- reads the byte before it.
abbrev pub chomp : Name → Name
chomp [] = []
chomp (c ∷ []) = if c == 10 then [] else c ∷ []
chomp (c ∷ c' ∷ cs) = c ∷ chomp (c' ∷ cs)

-- What a requester does with the outcome of its search.
abbrev pub take_file : World → ℕ → ℕ → Lookup → List File → Option (Name × List File) → Lookup
take_file w i n s [] found = put_requester s i (locking n none)
take_file w i n s (f ∷ fs) (some (name, files)) =
    record (put_requester s i (locking (n + 1) (w.fopen name))) { files = files }
take_file w i n s (f ∷ fs) none = record (put_requester s i stopped) {
  service_log = n ∷ s.service_log;
  threads_finished = s.threads_finished + 1;
  resolvers = map wake_resolver s.resolvers;
}

-- The turn of a requester at the top of its loop; the file lock is held throughout.
unfoldable pub service : World → ℕ → ℕ → Lookup → Lookup
service w i n s = take_file w i n s s.files (search s.files)

-- At a full buffer, the requester at `i` signals isEmpty, waits on isFull and lets go of the lock.
abbrev pub wait_full : ℕ → ℕ → ℕ → Name → List Name → Lookup → Lookup
wait_full k i n l ls s = record (put_requester s i (full_wait n l ls)) {
  buffer_lock = false;
  resolvers = signal wake_resolver is_empty_wait k s.resolvers;
}

abbrev pub store : ℕ → ℕ → Name → List Name → Lookup → Result Lookup
store i n l ls s =
    if ltb s.current_position array_size
    then ok (record (put_requester s i (reading n (some ls))) {
      buffer = set s.buffer s.current_position (chomp l);
      current_position = s.current_position + 1;
    })
    else err out_of_bounds

-- A turn of the requester at `i`; `k` is the thread that a signal would wake.
unfoldable pub requester_step : World → ℕ → ℕ → Requester → Lookup → Result Lookup
unfolding service signal
requester_step w k i (searching n) s = ok (service w i n s)
requester_step w k i (locking n f) s = ok (lock s (put_requester s i (reading n f)))
requester_step w k i (reading n none) s = err null_pointer
requester_step w k i (reading n (some [])) s = ok (record (put_requester s i (searching n)) {
  buffer_lock = false;
  resolvers = signal wake_resolver is_empty_wait k s.resolvers;
})
requester_step w k i (reading n (some (l ∷ ls))) s = ok (put_requester s i (checking n l ls))
requester_step w k i (checking n l ls) s =
    if s.current_position == array_size then ok (wait_full k i n l ls s) else store i n l ls s
requester_step w k i (full_wait n l ls) s = ok s
requester_step w k i (full_woken n l ls) s = ok (lock s (put_requester s i (checking n l ls)))
requester_step w k i stopped s = ok s

-- currentPosition--, and the read at the new position.
abbrev pub grab : ℕ → ℕ → Lookup → Result Lookup
grab j zero s = err out_of_bounds
grab j (suc p) s = or_err (get_elem? s.buffer p) out_of_bounds >>= λ name.
    ok (record (put_resolver s j (resolving name)) { current_position = p; buffer_lock = false })

-- A turn of the resolver at `j`.
unfoldable pub resolver_step : World → ℕ → ℕ → Resolver → Lookup → Result Lookup
unfolding signal dnslookup
resolver_step w k j entering s = ok (lock s (put_resolver s j testing))
resolver_step w k j testing s =
    ok (put_resolver s j (if s.current_position == 0 then testing_done else taking))
resolver_step w k j testing_done s = ok (
    if s.threads_finished == s.thread_count
    then record (put_resolver s j ended) { buffer_lock = false }
    else put_resolver s j signalling)
resolver_step w k j signalling s = ok (record (put_resolver s j empty_wait) {
  buffer_lock = false;
  requesters = signal wake_requester is_full_wait k s.requesters;
})
resolver_step w k j empty_wait s = ok s
resolver_step w k j empty_woken s = ok (lock s (put_resolver s j taking))
resolver_step w k j taking s = grab j s.current_position s
resolver_step w k j (resolving name) s = ok (record (put_resolver s j entering) {
  results_log = (name, dnslookup w.net name inet_addrstrlen) ∷ s.results_log;
})
resolver_step w k j ended s = ok s

-- Whose turn it is, and whom a signal would wake; a thread that waits may also wake for no reason.
pub data Turn : Type 0 where
  requester_turn resolver_turn : ℕ → ℕ → Turn
  stir_requester stir_resolver : ℕ → Turn

unfoldable pub turn : World → Turn → Lookup → Result Lookup
unfolding requester_step resolver_step
turn w (requester_turn i k) s = elim (get_elem? s.requesters i) [
  | none ↦ ok s
  | some r ↦ requester_step w k i r s
]
turn w (resolver_turn j k) s = elim (get_elem? s.resolvers j) [
  | none ↦ ok s
  | some r ↦ resolver_step w k j r s
]
turn w (stir_requester i) s = elim (get_elem? s.requesters i) [
  | none ↦ ok s
  | some r ↦ ok (put_requester s i (wake_requester r))
]
turn w (stir_resolver j) s = elim (get_elem? s.resolvers j) [
  | none ↦ ok s
  | some r ↦ ok (put_resolver s j (wake_resolver r))
]

unfoldable pub turns : World → List Turn → Lookup → Result Lookup
unfolding turn
turns w [] s = ok s
turns w (t ∷ ts) s = turn w t s >>= turns w ts

-- `fopen` for reading succeeds, and the name is long enough.
abbrev pub is_valid_file : (Name → Bool) → Name → Bool
is_valid_file readable name = readable name && ltb 6 (length name)

abbrev pub valid_files : (Name → Bool) → List Name → List File
valid_files readable [] = []
valid_files readable (name ∷ names) =
    let rest = valid_files readable names in
    if is_valid_file readable name
    then record { serviced = false; filename = name } ∷ rest
    else rest

abbrev pub max_resolver_threads : ℕ
max_resolver_threads = 10

abbrev pub max_requester_threads : ℕ
max_requester_threads = 5

-- The state in which the threads begin; `fresh` is what malloc leaves in the buffer.
abbrev pub launched : (Name → Bool) → List Name → ℕ → ℕ → List Name → Lookup
launched readable fresh m n names = record {
  files = valid_files readable names;
  thread_count = m;
  threads_finished = 0;
  buffer_lock = false;
  current_position = 0;
  buffer = fresh;
  requesters = replicate m (searching 0);
  resolvers = replicate n entering;
  service_log = [];
  results_log = [];
}

-- `main` up to the start of the threads, with the two numbers that atoi gives and the data files;
-- `none` is the return of -1.
unfoldable pub start_threads : (Name → Bool) → List Name → ℤ → ℤ → List Name → Option Lookup
start_threads readable fresh (negsuc m) z names = none
start_threads readable fresh (pos m) (negsuc n) names = none
start_threads readable fresh (pos m) (pos n) names =
    if (length names == 0) || (ltb m 1 || ltb n 1)
    then none
    else if ltb max_requester_threads m || ltb max_resolver_threads n
    then none
    else some (launched readable fresh m n names)
