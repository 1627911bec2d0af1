-- ===== src/Simulator/Search/Bisect.antt =====
-- The binary searches of `process_step` end, stay inside of the array, and find what is there.
use native.Mathlib.Nat.{le_refl}
use csci3757_operating_syste.Base.{
  ℕ, zero, suc, ◌+◌, ◌/◌, ◌≤◌, ◌<◌, ◌≡◌, refl, ◌⊎◌, inl, inr, true, false, List, Result, ok, arith,
  ltb, ◌==◌, Bool-cases, length, get_or, get_elem?-get_or,
}
use csci3757_operating_syste.Simulator.Search.{Stop, at, between, bisect}

abbrev pub value : List ℕ → ℕ → ℕ
value keys i = get_or keys i 0

-- What is known where the loop on [lo, hi] stops.
abbrev pub Stopped : List ℕ → ℕ → ℕ → ℕ → Stop → Type 0
Stopped keys key lo hi (at i) = (i ≤ hi) × (value keys i ≡ key)
Stopped keys key lo hi (between a b) =
    (a ≤ b)
    × (b ≤ a + 1)
    × (b ≤ hi)
    × ((a ≡ lo) ⊎ (value keys a < key))
    × ((b ≡ hi) ⊎ (key < value keys b))

-- A narrower interval whose new end is not the key.
Stopped-low :
    (keys : List ℕ) (key lo mid hi : ℕ) (st : Stop)
    → mid ≤ hi
    → key < value keys mid
    → Stopped keys key lo mid st
    → Stopped keys key lo hi st
Stopped-low keys key lo mid hi (at i) h lt s = (omega arith, s.1)
Stopped-low keys key lo mid hi (between a b) h lt s = (s.0, s.1, omega arith, s.3, ground arith)

Stopped-high :
    (keys : List ℕ) (key lo mid hi : ℕ) (st : Stop)
    → value keys mid < key
    → Stopped keys key mid hi st
    → Stopped keys key lo hi st
Stopped-high keys key lo mid hi (at i) lt s = s
Stopped-high keys key lo mid hi (between a b) lt s = (s.0, s.1, s.2, ground arith, s.4)

abbrev Ends : List ℕ → ℕ → ℕ → ℕ → Result Stop → Type 0
Ends keys key lo hi r = (st : Stop) × (r ≡ ok st) × Stopped keys key lo hi st

by_middle :
    (fuel : ℕ) (keys : List ℕ) (key lo hi : ℕ)
    → (lo + hi) / 2 ≤ hi
    → hi < length keys
    → Ends keys key lo ((lo + hi) / 2) (bisect fuel keys key lo ((lo + hi) / 2))
    → Ends keys key ((lo + hi) / 2) hi (bisect fuel keys key ((lo + hi) / 2) hi)
    → Ends keys key lo hi (elim (key == value keys ((lo + hi) / 2)) [
      | true ↦ ok (at ((lo + hi) / 2))
      | false ↦ elim (ltb key (value keys ((lo + hi) / 2))) [
        | true ↦ bisect fuel keys key lo ((lo + hi) / 2)
        | false ↦ bisect fuel keys key ((lo + hi) / 2) hi
      ]
    ])
by_middle fuel keys key lo hi h l (a, ea, sa) (b, eb, sb) =
    elim (Bool-cases (key == value keys ((lo + hi) / 2))) [
      | inl same ↦ rw same (at ((lo + hi) / 2), refl, (h, ground arith))
      | inr other ↦ elim (Bool-cases (ltb key (value keys ((lo + hi) / 2)))) [
        | inl low ↦ rw (other, low) (a, ea, Stopped-low keys key lo _ hi a h (ground arith) sa)
        | inr high ↦ rw (other, high) (b, eb, Stopped-high keys key lo _ hi b (ground arith) sb)
      ]
    ]

pub bisect-Stopped :
    (fuel : ℕ) (keys : List ℕ) (key lo hi : ℕ)
    → lo ≤ hi
    → hi < lo + fuel
    → hi < length keys
    → (st : Stop) × (bisect fuel keys key lo hi ≡ ok st) × Stopped keys key lo hi st
unfolding bisect
bisect-Stopped zero keys key lo hi h f l = absurd (omega arith)
bisect-Stopped (suc fuel) keys key lo hi h f l = elim (Bool-cases (ltb (lo + 1) hi)) [
  | inl wide ↦
      rw (wide, bisect)
        (rw (get_elem?-get_or keys ((lo + hi) / 2) 0 (ground arith)) (
          by_middle fuel keys key lo hi (ground arith) l
            (bisect-Stopped fuel keys key lo ((lo + hi) / 2) (ground arith) (ground arith)
              (ground arith))
            (bisect-Stopped fuel keys key ((lo + hi) / 2) hi (ground arith) (ground arith) l)))
  | inr narrow ↦
      rw (narrow, bisect) (between lo hi, refl, (h, ground arith, le_refl hi, inl refl, inl refl))
]
