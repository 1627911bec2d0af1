-- ===== src/Threads/Creation.antt =====
-- PA-Three/Threads-and-Processes/processes/process-creation.c: a parent that waits for its child.
use csci3757_operating_syste.Base.{
  ℕ, ◌*◌, ◌%◌, ◌≡◌, refl, List, [], ◌∷◌, ◌++◌, ℤ, pos, negsuc, ◌==◌, if◌then◌else◌,
}

pub data Message : Type 0 where
  fork_failed completed : Message
  child_id status : ℕ → Message

-- The child prints the number that getpid gives; its exit code.
abbrev pub child_main : ℕ → List Message × ℕ
child_main id = (child_id id ∷ [], 1)

-- What wait stores for an exit code is the system's encoding of it.
abbrev pub parent_main : (ℕ → ℕ) → ℕ → List Message
parent_main encode code = status (encode code) ∷ (if encode code == 1 then completed ∷ [] else [])

-- The lines of both processes, with what fork gives the parent, and what main returns.
unfoldable pub main : (ℕ → ℕ) → ℤ → List Message × ℤ
main encode (negsuc n) = (fork_failed ∷ [], negsuc 0)
main encode (pos id) = ((child_main id).0 ++ parent_main encode (child_main id).1, pos 0)

-- Where the low byte of a status is 0 and the next one the exit code, the parent prints 256 and never
-- that its child is completed.
pub main-status :
    (encode : ℕ → ℕ) (id : ℕ)
    → ((code : ℕ) → encode code ≡ code % 256 * 256)
    → main encode (pos id) ≡ (child_id id ∷ status 256 ∷ [], pos 0)
unfolding main
main-status encode id h = rw (h 1) refl
