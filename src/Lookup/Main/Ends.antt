-- ===== src/Lookup/Main/Ends.antt =====
-- How the lookup program ends.
use csci3757_operating_syste.Base.{
  ℕ, ◌≡◌, ◌⊎◌, true, false, some, List, ok, err, invalid_free, get_elem?,
}
use csci3757_operating_syste.Lookup.{Name, Resolver, empty_wait, Lookup, Turn}
use csci3757_operating_syste.Lookup.Ending.Asleep.{Asleep}
use csci3757_operating_syste.Lookup.Main.{Disk, System, resolvers_joined, joining, main}

-- All resolvers have ended, or one waits.
Joined : List Resolver → Type 0
Joined rs =
    (resolvers_joined rs ≡ true)
    ⊎ ((resolvers_joined rs ≡ false) × ((j : ℕ) × (get_elem? rs j ≡ some empty_wait)))

-- main waits for a resolver, or stops at the first free of an array on its stack.
pub Stops : System → List Name → Disk → List Name → List Turn → Lookup → Type 0
Stops sys fresh disk args ts s =
    (main sys fresh disk args ts ≡ err invalid_free)
    ⊎ ((main sys fresh disk args ts ≡ ok (joining s))
        × ((j : ℕ) × (get_elem? s.resolvers j ≡ some empty_wait)))
