-- ===== src/Lookup/Progress.antt =====
-- How far a run still has to go: a number that every turn which changes anything makes smaller, unless
-- a wait ends for no reason.
mod Wakes
mod Requesters
mod Resolvers
pub mod Alert
pub mod Terminates
pub mod Rest
pub mod Services
pub mod Resolved
pub mod Logged
pub mod Finishes
use csci3757_operating_syste.Base.{
  ℕ, ◌+◌, ◌*◌, ◌<◌, ◌≡◌, Bool, true, false, Option, none, some, List, ok, Result, total, length,
  ◌⊎◌, err, Error,
}
use csci3757_operating_syste.Lookup.{
  Name, World, Requester, searching, locking, reading, checking, full_wait, full_woken, stopped,
  Resolver, entering, testing, testing_done, signalling, empty_wait, empty_woken, taking, ended,
  resolving, Lookup,
}
use csci3757_operating_syste.Lookup.Invariant.{lines_weight, file_weight}
use csci3757_operating_syste.Lookup.Ending.{one, unserviced}

-- Each line of a file costs 11.
abbrev pub line_effort : Name → ℕ
line_effort l = 11

abbrev pub lines_effort : Option (List Name) → ℕ
lines_effort f = lines_weight line_effort f

-- With `c` resolvers, all of which the last broadcast of a requester may wake.
abbrev pub reading_effort : ℕ → Option (List Name) → ℕ
reading_effort c none = 0
reading_effort c (some ls) = c + 4 + lines_effort (some ls)

abbrev pub requester_effort : ℕ → Requester → ℕ
requester_effort c (searching n) = c + 2
requester_effort c (locking n f) = reading_effort c f + 1
requester_effort c (reading n f) = reading_effort c f
requester_effort c (checking n l ls) = reading_effort c (some ls) + 10
requester_effort c (full_wait n l ls) = reading_effort c (some ls) + 8
requester_effort c (full_woken n l ls) = reading_effort c (some ls) + 11
requester_effort c stopped = 0

abbrev pub resolver_effort : Resolver → ℕ
resolver_effort (resolving name) = 8
resolver_effort entering = 7
resolver_effort testing = 6
resolver_effort testing_done = 5
resolver_effort signalling = 4
resolver_effort empty_woken = 1
resolver_effort empty_wait = 0
resolver_effort taking = 0
resolver_effort ended = 0

unfoldable pub effort : World → ℕ → Lookup → ℕ
effort v c s =
    total (file_weight line_effort v) s.files
    + 4 * total unserviced s.files
    + total (requester_effort c) s.requesters
    + 9 * s.current_position
    + total resolver_effort s.resolvers

-- What a turn comes to that takes the run further.
pub record Moves (v : World) (c : ℕ) (s : Lookup) (x : Result Lookup) : Type 0 where
  pub next : Lookup
  pub leads : x ≡ ok next
  pub less : effort v c next < effort v c s
  pub crew : total one next.resolvers ≡ total one s.resolvers

-- A thread that waits or has ended.
abbrev pub rests_requester : Requester → ℕ
rests_requester stopped = 1
rests_requester (full_wait n l ls) = 1
rests_requester (searching n) = 0
rests_requester (locking n f) = 0
rests_requester (reading n f) = 0
rests_requester (checking n l ls) = 0
rests_requester (full_woken n l ls) = 0

abbrev pub rests_resolver : Resolver → ℕ
rests_resolver ended = 1
rests_resolver empty_wait = 1
rests_resolver entering = 0
rests_resolver testing = 0
rests_resolver testing_done = 0
rests_resolver signalling = 0
rests_resolver empty_woken = 0
rests_resolver taking = 0
rests_resolver (resolving name) = 0

-- A turn of a thread takes the run further, or fails, or changes nothing: the thread rests, or it is
-- outside of the buffer and the lock is taken.
abbrev pub Outcome : World → ℕ → Lookup → ℕ → ℕ → Result Lookup → Type 0
Outcome v c s rests holds x =
    Moves v c s x
    ⊎ (((e : Error) × (x ≡ err e))
        ⊎ ((x ≡ ok s) × ((rests ≡ 1) ⊎ ((holds ≡ 0) × (s.buffer_lock ≡ true)))))
